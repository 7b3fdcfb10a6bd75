-- ===== src/Dtb/Ends/Loop.antt =====
-- The tokens of foundation/facts/fdt.c and their loop: how much fuel the loop needs.
use nxu.Base.{
  ℕ, zero, suc, ◌+◌, ◌*◌, ◌/◌, ◌^◌, ◌≤◌, ◌<◌, ◌≡◌, inl, inr, refl, Bool, true, some, leb, ◌==◌,
  arith, Bool-cases, subst, sym, eq_of_==, Cmd, MayHalt, goes_on, halts, MayHalt-and_then,
  Leaves-MayHalt,
}
use nxu.Word.{add32}
use nxu.Dtb.{
  fdt_nop, fdt_end, fdt_begin_node, fdt_end_node, fdt_prop, dtb_probe_cap, Parse, Blob, struct_end,
  be32,
}
use nxu.Dtb.Parser.{go_on, Next, again, stop, stuck, prop, token, token_loop, start}
use nxu.World.{DtbCand}
use nxu.Dtb.Stage.{no_cand}
use nxu.Dtb.Lawful.{TokenAt, first, behind, next_token, BlobIsLawful}
use nxu.Dtb.Ends.{Goes, end_node-At, room, begin_node-Goes, prop_at-Goes}

small_end : (b : Blob) → BlobIsLawful b → struct_end b ≤ dtb_probe_cap
small_end b law = omega (arith, law.block)

-- a parser that is behind a token is at one
arrives :
    {b : Blob} {p q r : ℕ}
    → TokenAt b p
    → p + 4 ≤ struct_end b
    → next_token b p ≡ some q
    → r ≡ q
    → TokenAt b r
arrives {b} here h e same = subst (TokenAt b) (sym same) (behind here h e)

token-Goes :
    (b : Blob) (s : Parse)
    → BlobIsLawful b
    → TokenAt b s.pos
    → s.pos + 4 ≤ struct_end b
    → MayHalt (Goes b s.pos) (token b s)
unfolding token prop next_token
token-Goes b s law here h =
    let small = small_end b law in
    let there : add32 s.pos 4 ≡ s.pos + 4 = omega arith in
    let inside : add32 s.pos 4 ≤ struct_end b = omega arith in
    let t : Parse = record s { pos = add32 s.pos 4 } in
    elim (Bool-cases (be32 b.byte s.pos == fdt_nop)) [
      | inl e ↦ rw e (goes_on (omega arith, omega arith, behind here h (rw e refl)))
      | inr e ↦ rw e (elim (Bool-cases (be32 b.byte s.pos == fdt_end)) [
        | inl f ↦ rw f (goes_on tt)
        | inr f ↦ rw f (elim (Bool-cases (be32 b.byte s.pos == fdt_begin_node)) [
          | inl g ↦ rw g (
              MayHalt-and_then (begin_node-Goes b t small inside) (λ _ u p.
                goes_on (omega (arith, p.0, there), p.1, arrives here h (rw (e, f, g) refl) p.2)))
          | inr g ↦ rw g (elim (Bool-cases (be32 b.byte s.pos == fdt_end_node)) [
            | inl i ↦ rw i (
                MayHalt-and_then (Leaves-MayHalt (end_node-At t)) (λ _ u p. goes_on (
                  omega (arith, p, there),
                  omega (arith, p, inside),
                  arrives here h (rw (e, f, g, i) refl) p,
                )))
            | inr i ↦ rw i (elim (Bool-cases (be32 b.byte s.pos == fdt_prop)) [
              | inr j ↦ rw j halts
              | inl j ↦ rw j (
                  prop_at-Goes b t small inside s.pos _ _ (omega (arith, there))
                    (subst (λ x. x + 8 + be32 b.byte x < 2 ^ 32) (sym there)
                      (omega (arith, law.values s.pos here h (eq_of_== _ _ j))))
                    (behind here h (rw (e, f, g, i, j) refl)))
            ])
          ])
        ])
      ])
    ]

-- the loop has come to its end
abbrev pub Ended : Bool → Parse → Type 0
Ended answer s = answer ≡ true

go_on-Ended :
    (b : Blob) (at : ℕ) (next : Next) (rest : Cmd Parse Bool) (s : Parse)
    → Goes b at next s
    → (Goes b at again s → MayHalt Ended (rest s))
    → MayHalt Ended (go_on next rest s)
unfolding go_on
go_on-Ended b at again rest s g r = r g
go_on-Ended b at stop rest s g r = goes_on refl
go_on-Ended b at stuck rest s g r = absurd g

-- Each round of the loop goes on by 4 bytes at least.
loop-Ended :
    (fuel : ℕ) (b : Blob) (s : Parse)
    → BlobIsLawful b
    → TokenAt b s.pos
    → s.pos ≤ struct_end b + 4
    → struct_end b + 4 < s.pos + 4 * fuel
    → MayHalt Ended (token_loop fuel b s)
unfolding token_loop
loop-Ended zero b s law here inside h = absurd (omega arith)
loop-Ended (suc fuel) b s law here inside h =
    elim (Bool-cases (leb (add32 s.pos 4) (struct_end b))) [
      | inr e ↦ rw e (goes_on refl)
      | inl e ↦ rw e (
          MayHalt-and_then
            (token-Goes b s law here (room s.pos (struct_end b) inside (small_end b law) e))
            (λ next t g.
              go_on-Ended b s.pos next (token_loop fuel b) t g
                (λ (p, q, l). loop-Ended fuel b t law l q (omega (arith, p, h)))))
    ]

-- On a blob whose structure block ends within the cap of 2 ^ 20 bytes, and in which the value of every
-- property, at the tokens that follow one another from the start of the block, ends below 2 ^ 32: the
-- parser halts or comes to its end within 2 ^ 18 + 2 tokens.
pub parser-Ended :
    (b : Blob) (c : DtbCand)
    → BlobIsLawful b
    → MayHalt Ended (token_loop (dtb_probe_cap / 4 + 2) b (start b (no_cand c)))
parser-Ended b c law =
    loop-Ended (dtb_probe_cap / 4 + 2) b (start b (no_cand c)) law first (omega (arith, law.block))
      (omega (arith, law.block))
