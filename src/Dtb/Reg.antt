-- ===== src/Dtb/Reg.antt =====
-- `parse_reg` of foundation/facts/fdt.c against the format of a `reg` property: 32-bit cells, the high
-- byte first.
use nxu.Base.{
  ℕ, zero, suc, ◌+◌, ◌*◌, ◌/◌, ◌%◌, ◌^◌, ◌≤◌, ◌<◌, ◌≡◌, refl, true, false, some, List, [], ◌∷◌,
  length, get_elem?, leb, arith, subst, ap, ◌∙◌, update, update_ne, update_at,
}
use mathlib.Core.Option.{some_inj}
use nxu.Word.{add32, u32_mod, u64_mod}
use nxu.Range.{Range}
use nxu.Dtb.{Bytes, Node, be32, cells_loop, be_cells, reg_loop, parse_reg}

-- the bytes stand at `p`
abbrev pub HoldsAt : Bytes → ℕ → List ℕ → Type 0
HoldsAt byte p [] = Unit {0}
HoldsAt byte p (c ∷ cs) = (byte p ≡ c) × HoldsAt byte (p + 1) cs

-- a cell, a word of two cells, and a list of ranges, as bytes
abbrev pub cell_bytes : ℕ → List ℕ → List ℕ
cell_bytes w rest = w / 2 ^ 24 ∷ (w / 2 ^ 16 % 2 ^ 8 ∷ (w / 2 ^ 8 % 2 ^ 8 ∷ (w % 2 ^ 8 ∷ rest)))

abbrev pub word_bytes : ℕ → List ℕ → List ℕ
word_bytes v rest = cell_bytes (v / 2 ^ 32) (cell_bytes (v % 2 ^ 32) rest)

unfoldable pub write_regs : List Range → List ℕ
write_regs [] = []
write_regs (r ∷ rs) = word_bytes r.base (word_bytes r.size (write_regs rs))

-- the bases and the sizes are 64-bit words
abbrev pub AreWords : List Range → Type 0
AreWords [] = Unit {0}
AreWords (r ∷ rs) = (r.base < u64_mod) × ((r.size < u64_mod) × AreWords rs)

-- what `write_regs` puts into the array from the index `count`
abbrev fill : (ℕ → Range) → ℕ → List Range → ℕ → Range
fill out count [] = out
fill out count (r ∷ rs) = fill (update out count r) (count + 1) rs

fill-before :
    (out : ℕ → Range) (count : ℕ) (rs : List Range) (j : ℕ)
    → j < count
    → fill out count rs j ≡ out j
fill-before out count [] j h = refl
fill-before out count (r ∷ rs) j h =
    fill-before (update out count r) (count + 1) rs j (omega arith) ∙ update_ne out r (omega arith)

fill-get :
    (out : ℕ → Range) (count : ℕ) (rs : List Range) (k : ℕ) (r : Range)
    → get_elem? rs k ≡ some r
    → fill out count rs (count + k) ≡ r
fill-get out count [] k r e = cc
fill-get out count (x ∷ rs) zero r e =
    fill-before (update out count x) (count + 1) rs (count + 0) (omega arith)
    ∙ (update_at out x (omega arith) ∙ some_inj.0 e)
fill-get out count (x ∷ rs) (suc k) r e =
    ap (fill (update out count x) (count + 1) rs) (omega arith)
    ∙ fill-get (update out count x) (count + 1) rs k r e

no_room : (off len : ℕ) → off ≡ len → len + 16 < u32_mod → leb (add32 off 16) len ≡ false
no_room off len e h = ground arith

has_room : (off len : ℕ) → off + 16 ≤ len → len + 16 < u32_mod → leb (add32 off 16) len ≡ true
has_room off len e h = ground arith

no_wrap : (off : ℕ) → off + 16 < u32_mod → add32 off 16 ≡ off + 16
no_wrap off h = omega arith

module _ (byte : Bytes) where
  shift : (p q : ℕ) (cs : List ℕ) → p ≡ q → HoldsAt byte p cs → HoldsAt byte q cs
  shift p q cs e h = subst (λ x. HoldsAt byte x cs) e h

  be32-cell :
      (p w : ℕ) (rest : List ℕ)
      → HoldsAt byte p (cell_bytes w rest)
      → (be32 byte p ≡ w) × HoldsAt byte (p + 4) rest
  unfolding be32
  be32-cell p w rest (a, (b, (c, (d, h)))) = (
    omega (
      arith,
      a,
      b,
      ap byte {x = p + 2} {y = p + 1 + 1} (omega arith) ∙ c,
      ap byte {x = p + 3} {y = p + 1 + 1 + 1} (omega arith) ∙ d,
    ),
    shift (p + 1 + 1 + 1 + 1) (p + 4) rest (omega arith) h,
  )

  be_cells-word :
      (p v : ℕ) (rest : List ℕ)
      → v < u64_mod
      → HoldsAt byte p (word_bytes v rest)
      → (be_cells byte p 2 ≡ v) × HoldsAt byte (p + 8) rest
  unfolding be_cells cells_loop
  be_cells-word p v rest small h =
      let (high, h') = be32-cell p (v / 2 ^ 32) (cell_bytes (v % 2 ^ 32) rest) h in
      let (low, h'') = be32-cell (p + 4) (v % 2 ^ 32) rest h' in
      (
        omega (arith, ap (be32 byte) {x = p + 0} {y = p} (omega arith) ∙ high, low),
        shift (p + 4 + 4) (p + 8) rest (omega arith) h'',
      )

  -- each entry is 16 bytes
  reg_loop-fill :
      (rounds off count p len : ℕ) (out : ℕ → Range) (rs : List Range)
      → HoldsAt byte (p + off) (write_regs rs)
      → AreWords rs
      → off + 16 * length rs ≡ len
      → length rs ≤ rounds
      → len + 16 < u32_mod
      → reg_loop rounds off count byte p len 2 2 out ≡ (fill out count rs, count + length rs)
  unfolding reg_loop write_regs
  reg_loop-fill zero off count p len out [] h w e le small = ap (λ n. (out, n)) (omega arith)
  reg_loop-fill zero off count p len out (r ∷ rs) h w e le small = absurd (omega arith)
  reg_loop-fill (suc rounds) off count p len out [] h w e le small =
      rw (no_room off len (omega arith) small) (ap (λ n. (out, n)) (omega arith))
  reg_loop-fill (suc rounds) off count p len out (r ∷ rs) h w e le small =
      let (base, h') = be_cells-word (p + off) r.base (word_bytes r.size (write_regs rs)) w.0 h in
      let (size, h'') = be_cells-word (p + off + 8) r.size (write_regs rs) w.1.0 h' in
      rw (has_room off len (omega arith) small, base, size, no_wrap off (omega arith))
        (reg_loop-fill rounds (off + 16) (count + 1) p len (update out count r) rs
            (shift (p + off + 8 + 8) (p + (off + 16)) (write_regs rs) (omega arith) h'') w.1.1
            (omega arith) (omega arith) small
          ∙ ap (λ n. (fill (update out count r) (count + 1) rs, n)) (omega arith))

  -- With two address cells and two size cells, a `reg` property that holds the bytes of at most 4
  -- ranges of 64-bit words is read back: the node has as many ranges, and they are the ranges written,
  -- in their order.
  pub parse_reg-write_regs :
      (p : ℕ) (rs : List Range) (n : Node)
      → n.reg_ac ≡ 2
      → n.reg_sc ≡ 2
      → length rs ≤ 4
      → AreWords rs
      → HoldsAt byte p (write_regs rs)
      → ((parse_reg byte p (16 * length rs) n).nreg ≡ length rs)
        × ((k : ℕ) (r : Range)
            → get_elem? rs k ≡ some r
            → (parse_reg byte p (16 * length rs) n).regs k ≡ r)
  unfolding parse_reg
  parse_reg-write_regs p rs n ac sc le w h =
      rw
        (
          ac,
          sc,
          reg_loop-fill 4 0 0 p (16 * length rs) n.regs rs
              (shift p (p + 0) (write_regs rs) (omega arith) h) w (omega arith) le (omega arith),
        )
        (
          omega arith,
          λ k r e.
              ap (fill n.regs 0 rs) {x = k} {y = 0 + k} (omega arith) ∙ fill-get n.regs 0 rs k r e,
        )
