-- ===== src/Dtb/Ends.antt =====
-- The loop of `nxu_s3_dtb` in foundation/facts/fdt.c comes to its end: how much fuel it needs.
pub mod Loop
use nxu.Base.{
  ℕ, zero, suc, ◌+◌, ◌-◌, ◌*◌, ◌/◌, ◌^◌, ◌≤◌, ◌<◌, ◌≡◌, ◌≢◌, inl, inr, refl, Bool, true, false,
  ◌&&◌, Option, none, some, List, [], ◌∷◌, ltb, leb, ◌==◌, if◌then◌else◌, arith, Bool-cases,
  Option-cases, not_ltb→le, subst, sym, eq_of_==, Cmd, when, ◌>>◌, Leaves, ended, stopped,
  Leaves-and_then, Leaves-when, Leaves-for_range, MayHalt, goes_on, halts, MayHalt-and_then,
  Leaves-MayHalt,
}
use nxu.Word.{add32, u32_mod}
use nxu.Range.{range_ok}
use nxu.Observe.{cpu_bound}
use nxu.Facts.{affinity, mem_fact_max}
use nxu.Dtb.{
  fdt_nop, fdt_end, fdt_begin_node, fdt_end_node, fdt_prop, dtb_probe_cap, Bytes, Node, Parse, Blob,
  struct_end, be32, add_mem, add_cpu, known_cpu, align4, scan, has_any, str_has,
}
use nxu.Dtb.Parser.{
  begin_node, leave_node, end_node, compatible, gic_names, uart_names, psci_names, set_prop,
  store_prop, go_on, Next, again, stop, stuck, prop, prop_at, token, token_loop, start,
}
use nxu.World.{DtbCand}
use nxu.Dtb.Lawful.{TokenAt, name_end, value_end}
use nxu.Dtb.Stage.{no_cand}
use nxu.Dtb.Names.{str_has-Has, scan-le}

-- a node, if there is one
pub data Present : Option Node → Type 0 where
  present : {n : Node} → Present (some n)

pub if-Present :
    (b : Bool) (x y : Option Node) → Present x → Present y → Present (if b then x else y)
if-Present true x y p q = p
if-Present false x y p q = q

has_any-some :
    (byte : Bytes) (list len : ℕ) (ws : List (List ℕ))
    → len + 1 < u32_mod
    → has_any byte list len ws ≢ none
unfolding has_any
has_any-some byte list len [] h = cc
has_any-some byte list len (w ∷ ws) h = elim (Option-cases (str_has byte list len w)) [
  | inl e ↦ absurd ((str_has-Has byte list len w h).0 e)
  | inr (true, e) ↦ rw (e, has_any) cc
  | inr (false, e) ↦ rw (e, has_any) (has_any-some byte list len ws h)
]

compatible-Present :
    (byte : Bytes) (pval plen : ℕ) (n : Node)
    → plen + 1 < u32_mod
    → Present (compatible byte pval plen n)
unfolding compatible
compatible-Present byte pval plen n h = elim (Option-cases (has_any byte pval plen gic_names)) [
  | inl e ↦ absurd (has_any-some byte pval plen gic_names h e)
  | inr (a, e) ↦
      rw (e, compatible)
        (elim (Option-cases (has_any byte pval plen uart_names)) [
          | inl f ↦ absurd (has_any-some byte pval plen uart_names h f)
          | inr (b, f) ↦
              rw (f, compatible)
                (elim (Option-cases (has_any byte pval plen psci_names)) [
                  | inl g ↦ absurd (has_any-some byte pval plen psci_names h g)
                  | inr (c, g) ↦ rw (g, compatible) present
                ])
        ])
]

set_prop-Present :
    (byte : Bytes) (pname pval plen : ℕ) (n : Node)
    → plen + 1 < u32_mod
    → Present (set_prop byte pname pval plen n)
unfolding set_prop
set_prop-Present byte pname pval plen n h =
    search (if-Present, present, h, compatible-Present) depth 12

-- what a round of the loop does to the offset `at` of its token
abbrev pub Goes : Blob → ℕ → Next → Parse → Type 0
Goes b at stuck s = ⊥
Goes b at stop s = Unit {0}
Goes b at again s = (at + 4 ≤ s.pos) × (s.pos ≤ struct_end b + 4) × TokenAt b s.pos

align4_bounds : (v : ℕ) → v + 3 < u32_mod → (v ≤ align4 v) × (align4 v ≤ v + 3)
unfolding align4
align4_bounds v h = (omega arith, omega arith)

-- the offset of a later stage of the parser
abbrev At : ℕ → Parse → Type 0
At at t = t.pos ≡ at

add_mem-At : (base size : ℕ) (at : ℕ) (s : Parse) → At at s → Leaves (At at) (add_mem base size s)
unfolding add_mem
add_mem-At base size at s h = elim (Bool-cases (range_ok base size)) [
  | inr e ↦ rw e (stopped h)
  | inl e ↦ rw e (elim (Bool-cases (leb mem_fact_max s.cand.mem_count)) [
    | inl f ↦ rw f (stopped h)
    | inr f ↦ rw f (ended h)
  ])
]

add_cpu-At : (mpidr : ℕ) (at : ℕ) (s : Parse) → At at s → Leaves (At at) (add_cpu mpidr s)
unfolding add_cpu
add_cpu-At mpidr at s h =
    elim (Bool-cases (known_cpu s.cand.cpu_count 0 s.cand.cpu_mpidr (affinity mpidr))) [
      | inl e ↦ rw e (ended h)
      | inr e ↦ rw e (elim (Bool-cases (leb cpu_bound s.cand.cpu_count)) [
        | inl f ↦ rw f (stopped h)
        | inr f ↦ rw f (ended h)
      ])
    ]

leave_node-At : (n : Node) (at : ℕ) (s : Parse) → At at s → Leaves (At at) (leave_node n s)
unfolding leave_node
leave_node-At n at s h = elim (Bool-cases (s.depth == 0)) [
  | inl e ↦ rw e (stopped h)
  | inr e ↦ rw e (ended h)
]

pub end_node-At : (s : Parse) → Leaves (At s.pos) (end_node s)
unfolding end_node
end_node-At s =
    let n = s.st s.depth in
    Leaves-and_then
      {k = λ _. when (n.is_cpu && ltb 0 n.nreg) (add_cpu (n.regs 0).base) >> leave_node n}
      (Leaves-when n.is_mem _ s refl (λ _.
        Leaves-for_range n.nreg 0 (λ k. add_mem (n.regs k).base (n.regs k).size) s
          (λ k t _ _ p. add_mem-At (n.regs k).base (n.regs k).size s.pos t p) refl))
      (λ _ t p.
        Leaves-and_then {k = λ _. leave_node n}
          (Leaves-when (n.is_cpu && ltb 0 n.nreg) (add_cpu (n.regs 0).base) t p
            (λ _. add_cpu-At (n.regs 0).base s.pos t p))
          (λ _ u q. leave_node-At n s.pos u q))

pub room :
    (pos end : ℕ)
    → pos ≤ end + 4
    → end ≤ dtb_probe_cap
    → leb (add32 pos 4) end ≡ true
    → pos + 4 ≤ end
room pos end h k e = ground arith

-- where a value of a property ends
value_bounds :
    (pos len end : ℕ)
    → pos ≤ end
    → end ≤ dtb_probe_cap
    → pos + 8 + len < 2 ^ 32
    → ltb end (add32 (add32 pos 8) len) ≡ false
    → (pos + 8 ≤ value_end pos len) × (value_end pos len ≤ end + 4)
value_bounds pos len end p q h e =
    let v = add32 (add32 pos 8) len in
    let le = not_ltb→le end v e in
    (omega (arith, le, align4_bounds v), omega (arith, le, align4_bounds v))

module _ (b : Blob) (s : Parse) (small : struct_end b ≤ dtb_probe_cap)
    (inside : s.pos ≤ struct_end b) where
  pub begin_node-Goes :
      MayHalt
        (λ _ t. (s.pos ≤ t.pos) × (t.pos ≤ struct_end b + 4) × (t.pos ≡ name_end b s.pos))
        (begin_node b s)
  unfolding begin_node
  begin_node-Goes = elim (Bool-cases (leb 16 (s.depth + 1))) [
    | inl e ↦ rw e halts
    | inr e ↦ rw e (
        goes_on (
          let v = add32 s.pos (scan (struct_end b - s.pos) b.byte s.pos + 1) in
          (
            omega (arith, scan-le b.byte (struct_end b - s.pos) s.pos, align4_bounds v),
            omega (arith, scan-le b.byte (struct_end b - s.pos) s.pos, align4_bounds v),
            refl,
          )))
  ]

  store_prop-Goes :
      (at to : ℕ) (o : Option Node)
      → Present o
      → at + 4 ≤ to
      → to ≤ struct_end b + 4
      → TokenAt b to
      → MayHalt (Goes b at) (store_prop to o s)
  unfolding store_prop
  store_prop-Goes at to none p h k l = elim p [ ]
  store_prop-Goes at to (some n) present h k l = goes_on (h, k, l)

  pub prop_at-Goes :
      (at plen nameoff : ℕ)
      → at ≤ s.pos
      → s.pos + 8 + plen < 2 ^ 32
      → TokenAt b (value_end s.pos plen)
      → MayHalt (Goes b at) (prop_at b plen nameoff (add32 s.pos 8) s)
  unfolding prop_at
  prop_at-Goes at plen nameoff le h l = elim (Bool-cases (leb b.size_strings nameoff)) [
    | inl e ↦ rw e halts
    | inr e ↦ rw e (elim (Bool-cases (ltb (struct_end b) (add32 (add32 s.pos 8) plen))) [
      | inl f ↦ rw f halts
      | inr f ↦ rw f (
          let (low, high) = value_bounds s.pos plen (struct_end b) inside small h f in
          store_prop-Goes at _ _ (set_prop-Present b.byte _ _ _ _ (omega (arith, h)))
            (omega (arith, low, le)) high l)
    ])
  ]
