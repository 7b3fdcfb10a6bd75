-- ===== src/Facts/Merge.antt =====
-- `merge_ctl` of foundation/facts/facts.c on every branch.
use nxu.Base.{
  ℕ, ◌+◌, ◌≡◌, ◌≢◌, refl, Bool, true, false, Outcome, ok, halted, Failure, Bool-cases, inl, inr,
}
use nxu.Codes
use nxu.Range.{Range, range, range_eq}
use nxu.Range.Membership.{range_eq_iff}
use nxu.World.{World, Facts, CtlFact, fail, fail_with}
use nxu.Facts.{merge_ctl}

-- the fact with these fields
abbrev pub fact : ℕ → Range → ℕ → ℕ → CtlFact
fact kind r source grade = record { range = r; kind = kind; source = source; grade = grade }

abbrev pub stored : (CtlFact → Facts → Facts) → World → CtlFact → World
stored store w c = record w { facts = store c (store (fact c.kind (range 0 0) 0 0) w.facts) }

-- How `merge_ctl` ends, for each answer of its two sources.
pub data Merged (store : CtlFact → Facts → Facts) (w : World) (dtb board : Range) (kind : ℕ)
    : Bool → Bool → Bool → Outcome World (Unit {0}) → Type 0 where
  both_agree :
      {required : Bool}
      → dtb ≡ board
      → Merged store w dtb board kind true true required (
          ok tt (
            stored store w
              (fact kind dtb (Codes.src_dtb + Codes.src_board) Codes.grade_corroborated)))
  both_differ :
      {required : Bool} {w' : World} {f : Failure}
      → dtb ≢ board
      → f.code ≡ Codes.fail_fact_mismatch
      → f.a ≡ dtb.base
      → f.b ≡ board.base
      → Merged store w dtb board kind true true required (halted f w')
  only_dtb :
      {required : Bool}
      → Merged store w dtb board kind true false required
          (ok tt (stored store w (fact kind dtb Codes.src_dtb Codes.grade_single)))
  only_board :
      {required : Bool}
      → Merged store w dtb board kind false true required
          (ok tt (stored store w (fact kind board Codes.src_board Codes.grade_single)))
  neither :
      Merged store w dtb board kind false false false
        (ok tt (record w { facts = store (fact kind (range 0 0) 0 0) w.facts }))
  missing :
      {w' : World} {f : Failure}
      → f.code ≡ Codes.fail_fact_mismatch
      → f.a ≡ kind
      → Merged store w dtb board kind false false true (halted f w')

clash : {b : Bool} → b ≡ true → b ≡ false → ⊥
clash u v = cc

-- `merge_ctl` accepts a controller as corroborated only where the device tree and the board give the
-- same range, and halts with NXU_FAIL_FACT_MISMATCH where both give one and the two differ, or where
-- neither gives one and one is required. With one source the fact is graded single, and names it.
pub merge_ctl-Merged :
    (store : CtlFact → Facts → Facts) (w : World) (dtb board : Range) (kind : ℕ)
    (dtb_ok board_ok required : Bool)
    → Merged store w dtb board kind dtb_ok board_ok required
        (merge_ctl store dtb dtb_ok board board_ok kind required w)
unfolding merge_ctl fail fail_with
merge_ctl-Merged store w dtb board kind true true required =
    elim (Bool-cases (range_eq dtb board)) [
      | inl e ↦ rw e (both_agree ((range_eq_iff dtb board).0 e))
      | inr n ↦ rw n (both_differ (λ p. clash ((range_eq_iff dtb board).1 p) n) refl refl refl)
    ]
merge_ctl-Merged store w dtb board kind true false required = only_dtb
merge_ctl-Merged store w dtb board kind false true required = only_board
merge_ctl-Merged store w dtb board kind false false true = missing refl refl
merge_ctl-Merged store w dtb board kind false false false = neither
