-- ===== src/Dtb/Wrap.antt =====
-- `pos + plen` of foundation/facts/fdt.c is a 32-bit sum: what a property length near 2 ^ 32 does to
-- the loop.
use nxu.Base.{
  ℕ, zero, suc, ◌+◌, ◌-◌, ◌%◌, ◌≤◌, ◌<◌, ◌≡◌, refl, Bool, true, false, Option, none, some, arith,
  if◌then◌else◌, leb, subst, sym, ap, ◌∙◌, le→not_ltb, lt→not_leb, Returns, returns,
  Returns-and_then,
}
use nxu.Word.{add32, u32_mod}
use nxu.Console.{txt}
use nxu.Dtb.{fdt_prop, Bytes, Node, Parse, Blob, struct_end, be32, str_eq, align4}
use nxu.Dtb.Parser.{set_prop, store_prop, go_on, Next, again, prop, prop_at, token, token_loop}
use nxu.Dtb.Ends.{Present, present, if-Present}

-- At `t` stands a property of the length 2 ^ 32 - 12, whose name is in the block of the strings and is
-- not `compatible`.
pub record TurnsBack (b : Blob) (t : ℕ) : Type 0 where
  pub is_prop : be32 b.byte t ≡ fdt_prop
  pub length : be32 b.byte (t + 4) ≡ u32_mod - 12
  pub name_in : be32 b.byte (t + 8) < b.size_strings
  pub name : str_eq b.byte (b.off_strings + be32 b.byte (t + 8)) (txt "compatible") ≡ false
  pub aligned : t % 4 ≡ 0
  pub within : t + 12 ≤ struct_end b

not_taken : (b : Bool) (x y : Option Node) → b ≡ false → Present y → Present (if b then x else y)
not_taken b x y e p = rw e p

set_prop-other :
    (byte : Bytes) (pname pval plen : ℕ) (n : Node)
    → str_eq byte pname (txt "compatible") ≡ false
    → Present (set_prop byte pname pval plen n)
unfolding set_prop
set_prop-other byte pname pval plen n e = search (if-Present, not_taken, present, e) depth 12

abbrev Back : ℕ → Next → Parse → Type 0
Back t next s = (next ≡ again) × (s.pos ≡ t)

store_prop-Back :
    (t to : ℕ) (o : Option Node) (s : Parse)
    → Present o
    → to ≡ t
    → Returns (Back t) (store_prop to o s)
unfolding store_prop
store_prop-Back t to none s p e = elim p [ ]
store_prop-Back t to (some n) s present e = returns (refl, e)

align4_id : (v : ℕ) → v % 4 ≡ 0 → v + 3 < u32_mod → align4 v ≡ v
unfolding align4
align4_id v a h = omega arith

prop_at-Back :
    (b : Blob) (t plen nameoff pos : ℕ) (s : Parse)
    → nameoff < b.size_strings
    → add32 pos plen ≡ t
    → t ≤ struct_end b
    → align4 t ≡ t
    → str_eq b.byte (b.off_strings + nameoff) (txt "compatible") ≡ false
    → Returns (Back t) (prop_at b plen nameoff pos s)
unfolding prop_at
prop_at-Back b t plen nameoff pos s in_strings sum le al name =
    rw (lt→not_leb nameoff b.size_strings in_strings, sum, le→not_ltb (struct_end b) t le)
      (store_prop-Back t (align4 t) _ s (set_prop-other b.byte _ pos plen _ name) al)

token-Back : (b : Blob) (s : Parse) → TurnsBack b s.pos → Returns (Back s.pos) (token b s)
unfolding token prop
token-Back b s k =
    let t = s.pos in
    let p = add32 t 4 in
    let there : p ≡ t + 4 = omega (arith, k.within) in
    let at_name : be32 b.byte (p + 4) ≡ be32 b.byte (t + 8) =
      ap (be32 b.byte) (omega (arith, there)) in
    let length : be32 b.byte p ≡ u32_mod - 12 = ap (be32 b.byte) there ∙ k.length in
    rw k.is_prop (
      prop_at-Back b t (be32 b.byte p) (be32 b.byte (p + 4)) (add32 p 8) (record s { pos = p })
        (omega (arith, at_name, k.name_in)) (omega (arith, length, there, k.within))
        (omega (arith, k.within)) (align4_id t k.aligned (omega (arith, k.within)))
        (subst (λ x. str_eq b.byte (b.off_strings + x) (txt "compatible") ≡ false) (sym at_name)
          k.name))

-- the loop is out of fuel, and at `t` again
abbrev pub Astray : ℕ → Bool → Parse → Type 0
Astray t answer s = (answer ≡ false) × (s.pos ≡ t)

guard : (t end : ℕ) → t + 12 ≤ end → end < u32_mod → leb (add32 t 4) end ≡ true
guard t end h k = ground arith

again_at :
    (b : Blob) (fuel : ℕ) (t : ℕ) (next : Next) (s : Parse)
    → Back t next s
    → ((u : Parse) → u.pos ≡ t → Returns (Astray t) (token_loop fuel b u))
    → Returns (Astray t) (go_on next (token_loop fuel b) s)
unfolding go_on
again_at b fuel t next s (n, p) r = rw n (r s p)

-- A property whose length is 2 ^ 32 - 12, whose name is in the block of the strings and is not
-- `compatible`, and which is within the structure block, takes the parser back to its own token: with
-- any fuel the loop does not end, and does not fail either.
pub loop-Astray :
    (fuel : ℕ) (b : Blob) (t : ℕ) (s : Parse)
    → TurnsBack b t
    → s.pos ≡ t
    → Returns (Astray t) (token_loop fuel b s)
unfolding token_loop
loop-Astray zero b t s k e = returns (refl, e)
loop-Astray (suc fuel) b t s k e =
    let here : TurnsBack b s.pos = subst (TurnsBack b) (sym e) k in
    rw (guard s.pos (struct_end b) here.within (omega arith)) (
      Returns-and_then (token-Back b s here)
        (λ next u (n, p). again_at b fuel t next u (n, p ∙ e) (λ v. loop-Astray fuel b t v k)))
