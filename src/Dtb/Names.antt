-- ===== src/Dtb/Names.antt =====
-- `str_eq` and `str_has` of foundation/facts/fdt.c against what they mean: a list of texts, each ended
-- by a null byte, holds the wanted one.
use nxu.Base.{
  ℕ, zero, suc, ◌+◌, ◌-◌, ◌≤◌, ◌<◌, ◌≡◌, ◌≢◌, ◌↔◌, ◌⊎◌, inl, inr, refl, Bool, true, false, Option,
  none, some, List, [], ◌∷◌, ltb, ◌==◌, arith, Bool-cases, ltb→lt, not_ltb→le, ==_iff, subst, sym,
  ◌∙◌, eq_or_lt,
}
use mathlib.Core.Bool.{true≢false}
use nxu.Word.{add32, u32_mod}
use nxu.Dtb.{Bytes, str_eq, scan, has_loop, str_has}

-- the text `want` and a null byte stand at `a`
abbrev pub Spells : Bytes → ℕ → List ℕ → Type 0
Spells byte a [] = byte a ≡ 0
Spells byte a (c ∷ want) = (byte a ≡ c) × Spells byte (a + 1) want

str_eq-Spells :
    (byte : Bytes) (a : ℕ) (want : List ℕ) → (str_eq byte a want ≡ true) ↔ Spells byte a want
unfolding str_eq
str_eq-Spells byte a [] = ground arith
str_eq-Spells byte a (c ∷ want) = ground (arith, str_eq-Spells byte (a + 1) want)

module _ (byte : Bytes) where
  pub scan-le : (most s : ℕ) → scan most byte s ≤ most
  unfolding scan
  scan-le zero s = omega arith
  scan-le (suc most) s = ground (arith, scan-le most (s + 1))

  null_at : (s : ℕ) → byte (s + 0) ≡ 0 → byte s ≡ 0
  null_at s z = subst (λ x. byte x ≡ 0) (omega arith) z

  shorter :
      (most s : ℕ)
      → (byte s == 0) ≡ false
      → scan (suc most) byte s < suc most
      → scan most byte (s + 1) < most
  unfolding scan
  shorter most s e h = ground arith

  -- a scan that ends early ends at a null byte
  scan-null : (most s : ℕ) → scan most byte s < most → byte (s + scan most byte s) ≡ 0
  unfolding scan
  scan-null zero s h = absurd (omega arith)
  scan-null (suc most) s h = elim (Bool-cases (byte s == 0)) [
    | inl e ↦ rw e (subst (λ x. byte x ≡ 0) (omega arith) ((==_iff (byte s) 0).0 e))
    | inr e ↦ rw e (
        subst (λ x. byte x ≡ 0) {x = s + 1 + scan most byte (s + 1)} (omega arith)
          (scan-null most (s + 1) (shorter most s e h)))
  ]

  -- and it ends at the first
  scan-first : (most s j : ℕ) → j < most → byte (s + j) ≡ 0 → scan most byte s ≤ j
  unfolding scan
  scan-first zero s j h z = absurd (omega arith)
  scan-first (suc most) s zero h z = ground (arith, null_at s z)
  scan-first (suc most) s (suc j) h z =
      ground
        (arith, scan-first most (s + 1) j (omega arith) (subst (λ x. byte x ≡ 0) (omega arith) z))

-- An entry of the list starts at `k`: at its start, or behind a null byte.
abbrev pub Entry : Bytes → ℕ → ℕ → ℕ → Type 0
Entry byte list len k = (k < len) × ((k ≡ 0) ⊎ (byte (list + (k - 1)) ≡ 0))

module _ (byte : Bytes) (list len : ℕ) (want : List ℕ) where
  -- the list holds the text
  abbrev pub Has : Type 0
  Has = (k : ℕ) × Entry byte list len k × Spells byte (list + k) want

  abbrev step : ℕ → ℕ
  step i = i + scan (len - i) byte (list + i) + 1

  -- from one entry the loop goes to the next
  next-Entry : (i : ℕ) → i < len → step i < len → Entry byte list len (step i)
  next-Entry i h k = (
    k,
    inr (subst (λ x. byte x ≡ 0) (omega arith) (scan-null byte (len - i) (list + i) (omega arith))),
  )

  -- and passes over none
  next-le : (i k : ℕ) → i < k → Entry byte list len k → step i ≤ k
  next-le i k h e = omega (
    arith,
    scan-first byte (len - i) (list + i) (k - 1 - i) (omega (arith, e.0)) (null_before e.1),
  )
    where
      null_before : (k ≡ 0) ⊎ (byte (list + (k - 1)) ≡ 0) → byte (list + i + (k - 1 - i)) ≡ 0
      null_before (inl z) = absurd (omega (arith, z))
      null_before (inr z) = subst (λ x. byte x ≡ 0) (omega arith) z

  -- what the loop answers from `i`
  data Answer (i : ℕ) : Option Bool → Type 0 where
    found : Has → Answer i (some true)
    absent :
        ((k : ℕ) → i ≤ k → Entry byte list len k → ¬ Spells byte (list + k) want)
        → Answer i (some false)

  step-le : (i : ℕ) → i < len → step i ≤ len + 1
  step-le i h = omega (arith, scan-le byte (len - i) (list + i))

  no_wrap :
      (i : ℕ) → len + 1 < u32_mod → i < len → add32 i (scan (len - i) byte (list + i) + 1) ≡ step i
  no_wrap i small h = omega (arith, step-le i h)

  after :
      {o : Option Bool} (i : ℕ)
      → i < len
      → str_eq byte (list + i) want ≡ false
      → Answer (step i) o
      → Answer i o
  after i h miss (found x) = found x
  after i h miss (absent f) = absent λ k le e. elim (eq_or_lt i k le) [
    | inl same ↦ λ sp. true≢false (
        sym (
          (str_eq-Spells byte (list + i) want).1
            (subst (λ x. Spells byte (list + x) want) (sym same) sp))
        ∙ miss)
    | inr lt ↦ f k (next-le i k lt e) e
  ]

  has_loop-Answer :
      (fuel i : ℕ)
      → len + 1 < u32_mod
      → 0 < fuel
      → len < fuel + i
      → i ≤ len + 1
      → (i < len → Entry byte list len i)
      → Answer i (has_loop fuel byte list len want i)
  unfolding has_loop
  has_loop-Answer zero i small f g h e = absurd (omega arith)
  has_loop-Answer (suc fuel) i small f g h e = elim (Bool-cases (ltb i len)) [
    | inr past ↦ rw past (absent λ k le en. absurd (omega (arith, not_ltb→le i len past, en.0)))
    | inl more ↦ elim (Bool-cases (str_eq byte (list + i) want)) [
      | inl hit ↦
          rw (more, hit)
            (found (i, e (ltb→lt i len more), (str_eq-Spells byte (list + i) want).0 hit))
      | inr miss ↦
          rw (more, miss)
            (after i (ltb→lt i len more) miss (
              subst (λ j. Answer (step i) (has_loop fuel byte list len want j))
                (sym (no_wrap i small (ltb→lt i len more)))
                (has_loop-Answer fuel (step i) small (omega (arith, ltb→lt i len more))
                  (omega (arith, ltb→lt i len more)) (step-le i (ltb→lt i len more))
                  (next-Entry i (ltb→lt i len more)))))
    ]
  ]

  -- what the answer of the loop at the start of the list says
  decides : {o : Option Bool} → Answer 0 o → (o ≢ none) × ((o ≡ some true) ↔ Has)
  decides (found x) = (cc, ((λ _. x), λ _. refl))
  decides (absent f) = (cc, ((λ h. cc), λ (k, e, sp). absurd (f k (omega arith) e sp)))

  -- On a list of at most 2 ^ 32 - 2 bytes, `str_has` ends, and it answers true exactly when an entry of
  -- the list, at its start or behind a null byte, spells the wanted text and a null byte.
  pub str_has-Has :
      len + 1 < u32_mod
      → (str_has byte list len want ≢ none) × ((str_has byte list len want ≡ some true) ↔ Has)
  unfolding str_has
  str_has-Has small = decides (
      has_loop-Answer (len + 1) 0 small (omega arith) (omega arith) (omega arith)
        (λ h. (h, inl refl)))
