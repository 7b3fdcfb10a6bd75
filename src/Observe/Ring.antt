-- ===== src/Observe/Ring.antt =====
-- The rings of foundation/observe/chronicle.c and foundation/observe/bbox.c against the list of all
-- the records that were stored, newest first.
use native.Mathlib.Decide.{dec_lt}
use native.Mathlib.Nat.{mod-eq_of_lt}
use nxu.Base.{
  ℕ, zero, suc, ◌+◌, ◌-◌, ◌%◌, ◌≤◌, ◌<◌, ◌≡◌, ◌≢◌, refl, List, [], ◌∷◌, some, arith, length,
  get_elem?, update, update_ne, ltb, if◌then◌else◌, lt→ltb, le→not_ltb, ==_refl,
}
use nxu.Word.{u32_mod, add32}

-- where the `k`-th newest record stands in a ring whose next store goes to `next % cap`
abbrev pub place : ℕ → ℕ → ℕ → ℕ
place cap next k = if ltb k next then next - 1 - k else next + cap - 1 - k

module _ {A : Type 0} (cap : ℕ) where
  -- The ring holds the newest `cap` records of the history.
  pub record Keeps (hist : List A) (next count : ℕ) (rec : ℕ → A) : Type 0 where
    pub bound : next ≤ cap
    pub early : length hist ≤ cap → next ≡ length hist
    pub counted : count ≡ length hist % u32_mod
    pub held :
        (k : ℕ) → k < length hist → k < cap → get_elem? hist k ≡ some (rec (place cap next k))

-- A counter that stays at most `cap` is brought below `cap`.
wrap_next : (cap next : ℕ) → 0 < cap → next ≤ cap → next % cap ≡ (if ltb next cap then next else 0)
wrap_next cap next h b = elim (dec_lt next cap) [
  | yes p ↦ rw (lt→ltb next cap p, mod-eq_of_lt p)
  | no p ↦ rw (le→not_ltb next cap (omega arith)) (grind arith)
]

place-suc :
    (cap next k w : ℕ)
    → w ≡ (if ltb next cap then next else 0)
    → next ≤ cap
    → suc k < cap
    → (place cap (w + 1) (suc k) ≡ place cap next k) × (place cap (w + 1) (suc k) ≢ w)
place-suc cap next k w e b c = ground arith

place_zero : (cap w : ℕ) → place cap (w + 1) 0 ≡ w
place_zero cap w = ground arith

module _ {A : Type 0} (cap : ℕ) (pos : 0 < cap) where
  pub Keeps-empty : (rec : ℕ → A) → Keeps cap [] 0 0 rec
  Keeps-empty rec = record {
    bound = omega arith;
    early = λ _. refl;
    counted = refl;
    held = λ k h. absurd (omega arith);
  }

  -- One store of the form `rec[next % cap] = x; next = next % cap + 1; count++`.
  pub Keeps-push :
      {hist : List A} {next count : ℕ} {rec : ℕ → A} (x : A)
      → Keeps cap hist next count rec
      → Keeps cap (x ∷ hist) (next % cap + 1) (add32 count 1) (update rec (next % cap) x)
  Keeps-push {hist} {next} {count} {rec} x s = record {
    bound = ground (arith, wrap);
    early = λ h. ground (arith, wrap, s.early (omega arith));
    counted = omega (arith, s.counted);
    held = held';
  }
    where
      wrap : next % cap ≡ (if ltb next cap then next else 0)
      wrap = wrap_next cap next pos s.bound

      held' :
          (k : ℕ)
          → k < length (x ∷ hist)
          → k < cap
          → get_elem? (x ∷ hist) k ≡ some (update rec (next % cap) x (place cap (next % cap + 1) k))
      held' zero h c = rw (place_zero cap (next % cap), ==_refl (next % cap))
      held' (suc k) h c =
          let step = place-suc cap next k (next % cap) wrap s.bound c in
          rw (update_ne rec x step.1, step.0) (s.held k (omega arith) (omega arith))
