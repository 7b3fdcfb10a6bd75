-- ===== src/Space/Owner.antt =====
-- `nxu_space_owner` of foundation/space/ownership.c.
use nxu.Base.{
  ℕ, zero, suc, ◌+◌, ◌-◌, ◌^◌, ◌≤◌, ◌<◌, ◌≡◌, true, arith, ◌==◌, leb, Bool-cases, inl, inr,
  if◌then◌else◌, subst,
}
use native.Mathlib.Decide.{dec_lt}
use nxu.Codes
use nxu.Range.{range_contains}
use nxu.World.{Space, OwnerRegion}
use nxu.Space.{better, owner_loop, space_owner}

module _ (region : ℕ → OwnerRegion) (pa size : ℕ) where
  -- region `k` holds the whole range
  abbrev pub Covers : ℕ → Type 0
  Covers k = range_contains (region k).range.base (region k).range.size pa size ≡ true

  abbrev pub region_size : ℕ → ℕ
  region_size k = (region k).range.size

  -- The best of the first `n` regions: a covering region of the least size, the last one of that size;
  -- or the start values, if no region covers the range.
  pub data Best (n : ℕ) : ℕ × ℕ → Type 0 where
    nobody : ((k : ℕ) → k < n → ¬ Covers k) → Best n (2 ^ 64 - 1, Codes.owner_unknown)
    somebody :
        (j : ℕ)
        → j < n
        → Covers j
        → ((k : ℕ) → k < n → Covers k → region_size j ≤ region_size k)
        → ((k : ℕ) → k < n → j < k → Covers k → region_size j < region_size k)
        → Best n (region_size j, (region j).owner)

  extend : {P : ℕ → Type 0} {n : ℕ} → ((k : ℕ) → k < n → P k) → P n → (k : ℕ) → k < suc n → P k
  extend {P} {n} h p k lt = elim (dec_lt k n) [
    | yes less ↦ h k less
    | no more ↦ subst P (omega (arith, lt, more)) p
  ]

  Best-skip : {n : ℕ} {b : ℕ × ℕ} → ¬ Covers n → Best n b → Best (suc n) b
  Best-skip out (nobody h) = nobody (extend {P = λ k. ¬ Covers k} h out)
  Best-skip out (somebody j lt c least last) =
      somebody j (omega (arith, lt)) c
        (extend {P = λ k. Covers k → region_size j ≤ region_size k} least (λ c'. absurd (out c')))
        (extend {P = λ k. j < k → Covers k → region_size j < region_size k} last
          (λ _ c'. absurd (out c')))

  Best-take :
      {n : ℕ} {b : ℕ × ℕ}
      → Covers n
      → region_size n ≤ b.0
      → Best n b
      → Best (suc n) (region_size n, (region n).owner)
  Best-take {n} cov le (nobody h) =
      somebody n (omega arith) cov
        (extend {P = λ k. Covers k → region_size n ≤ region_size k} (λ k lt c. absurd (h k lt c))
          (λ _. omega arith))
        (λ k lt more _. absurd (omega arith))
  Best-take {n} cov le (somebody j lt c least last) =
      somebody n (omega arith) cov
        (extend {P = λ k. Covers k → region_size n ≤ region_size k}
          (λ k lt' c'. omega (arith, le, least k lt' c')) (λ _. omega arith))
        (λ k lt' more _. absurd (omega arith))

  Best-keep :
      {n : ℕ} {b : ℕ × ℕ}
      → region_size n < 2 ^ 64
      → Covers n
      → b.0 < region_size n
      → Best n b
      → Best (suc n) b
  Best-keep word cov more (nobody h) = absurd (omega (arith, word, more))
  Best-keep word cov more (somebody j lt c least last) =
      somebody j (omega (arith, lt)) c
        (extend {P = λ k. Covers k → region_size j ≤ region_size k} least
          (λ _. omega (arith, more)))
        (extend {P = λ k. j < k → Covers k → region_size j < region_size k} last (λ _ _. more))

  Best-better :
      {n : ℕ} (b : ℕ × ℕ)
      → region_size n < 2 ^ 64
      → Best n b
      → Best (suc n) (better (region n) pa size b)
  Best-better {n} (best, owner) word h =
      elim (Bool-cases (range_contains (region n).range.base (region_size n) pa size)) [
        | inr out ↦ rw out (Best-skip (λ c. cc) h)
        | inl cov ↦ elim (Bool-cases (leb (region_size n) best)) [
          | inl le ↦ rw (cov, le) (Best-take cov (ground arith) h)
          | inr gt ↦ rw (cov, gt) (Best-keep word cov (ground arith) h)
        ]
      ]

  owner_loop-Best :
      (rounds i : ℕ) {n : ℕ} (b : ℕ × ℕ)
      → ((k : ℕ) → region_size k < 2 ^ 64)
      → n ≡ rounds + i
      → Best i b
      → Best n (owner_loop rounds i region pa size b)
  unfolding owner_loop
  owner_loop-Best zero i b word e h = subst (λ n. Best n b) (omega (arith, e)) h
  owner_loop-Best (suc r) i b word e h =
      owner_loop-Best r (i + 1) _ word (omega (arith, e))
        (subst (λ n. Best n (better (region i) pa size b)) (omega arith) (Best-better b (word i) h))

-- The range that `nxu_space_owner` asks about: a size of 0 counts as 1.
abbrev pub asked : ℕ → ℕ
asked size = if size == 0 then 1 else size

-- `nxu_space_owner` gives the owner of the smallest region of the table that holds the whole range, of
-- the later one where two have that size, and NXU_OWNER_UNKNOWN for a range that no region
-- holds. It needs region sizes that are 64-bit words.
pub space_owner-Best :
    (s : Space) (pa size : ℕ)
    → ((k : ℕ) → (s.region k).range.size < 2 ^ 64)
    → (b : ℕ) × Best s.region pa (asked size) s.count (b, space_owner s pa size)
unfolding space_owner
space_owner-Best s pa size word = (
  (owner_loop s.count 0 s.region pa (asked size) (2 ^ 64 - 1, Codes.owner_unknown)).0,
  owner_loop-Best s.region pa (asked size) s.count 0 _ word (omega arith)
      (nobody λ k lt. absurd (omega arith)),
)
