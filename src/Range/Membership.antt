-- ===== src/Range/Membership.antt =====
-- What the range tests of include/nxu/range.h say of the addresses in the ranges.
use Prim.Native.Nat.{max}
use nxu.Base.{ℕ, ◌+◌, ◌-◌, ◌≤◌, ◌<◌, ◌≡◌, ◌↔◌, true, arith}
use nxu.Word.{u64_mod}
use nxu.Range.{Range, range_ok, range_contains, range_overlap, range_eq}

-- The address `x` lies in the range, whose end is not wrapped.
abbrev pub Within : ℕ → ℕ → ℕ → Type 0
Within base size x = (base ≤ x) × (x < base + size)

pub range_ok_iff :
    (base size : ℕ)
    → base < u64_mod
    → size < u64_mod
    → (range_ok base size ≡ true) ↔ ((0 < size) × (base + size < u64_mod))
unfolding range_ok
range_ok_iff base size hb hs = ground arith

pub range_eq_iff : (a b : Range) → (range_eq a b ≡ true) ↔ (a ≡ b)
unfolding range_eq
range_eq_iff a b = (λ h. ground arith, λ h. ground arith)

module _ (a asz b bsz : ℕ) (ha : a < u64_mod) (hasz : asz < u64_mod) where
  module _ (hb : b < u64_mod) (hbsz : bsz < u64_mod) where
    contains_bounds :
        range_contains a asz b bsz ≡ true
        → (0 < asz) × (0 < bsz) × (a ≤ b) × (b + bsz ≤ a + asz) × (a + asz < u64_mod)
    unfolding range_contains
    contains_bounds h = ground arith

    contains_of_bounds :
        0 < bsz → a ≤ b → b + bsz ≤ a + asz → a + asz < u64_mod → range_contains a asz b bsz ≡ true
    unfolding range_contains
    contains_of_bounds p q r s = ground arith

    -- `nxu_range_contains` accepts exactly when neither range is empty or reaches past the last
    -- address and every address of the inner range lies in the outer one.
    pub range_contains_iff : (range_contains a asz b bsz ≡ true) ↔ (
        (range_ok a asz ≡ true)
        × (range_ok b bsz ≡ true)
        × ((x : ℕ) → Within b bsz x → Within a asz x))
    range_contains_iff = (
      λ h. (
        (range_ok_iff a asz ha hasz).1 (omega (arith, contains_bounds h)),
        (range_ok_iff b bsz hb hbsz).1 (omega (arith, contains_bounds h)),
        λ x w. omega (arith, contains_bounds h),
      ),
      λ (oka, okb, sub).
          let p = (range_ok_iff a asz ha hasz).0 oka in
          let q = (range_ok_iff b bsz hb hbsz).0 okb in
          let first = sub b (omega arith) in
          let last = sub (b + bsz - 1) (omega arith) in
          contains_of_bounds (omega arith) (omega arith) (omega arith) (omega arith),
    )

    overlap_bounds :
        range_overlap a asz b bsz ≡ true
        → (range_ok a asz ≡ true) × (range_ok b bsz ≡ true) × (b < a + asz) × (a < b + bsz)
    unfolding range_overlap
    overlap_bounds h = ground arith

    overlap_of_bounds :
        a + asz < u64_mod
        → b + bsz < u64_mod
        → 0 < asz
        → 0 < bsz
        → b < a + asz
        → a < b + bsz
        → range_overlap a asz b bsz ≡ true
    unfolding range_overlap
    overlap_of_bounds p q r s t u = ground arith

    -- For two acceptable ranges `nxu_range_overlap` says whether they share an address.
    pub range_overlap_iff :
        range_ok a asz ≡ true
        → range_ok b bsz ≡ true
        → (range_overlap a asz b bsz ≡ true) ↔ ((x : ℕ) × Within a asz x × Within b bsz x)
    range_overlap_iff oka okb =
        let p = (range_ok_iff a asz ha hasz).0 oka in
        let q = (range_ok_iff b bsz hb hbsz).0 okb in
        (
          λ h. common (overlap_bounds h).2 (overlap_bounds h).3 p.0 q.0,
          λ (x, wa, wb).
              overlap_of_bounds (omega arith) (omega arith) (omega arith) (omega arith)
                (omega arith) (omega arith),
        )
      where
        common :
            b < a + asz
            → a < b + bsz
            → 0 < asz
            → 0 < bsz
            → (x : ℕ) × Within a asz x × Within b bsz x
        common s t u v = (max a b, omega arith, omega arith)
