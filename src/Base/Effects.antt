-- ===== src/Base/Effects.antt =====
-- Code that changes a state and may halt. `nxu_fail` does not return, so a failure carries the
-- state at which the kernel stopped and the three values that the call recorded.
use Prim.Native.Nat.{ℕ, zero, suc, ◌+◌, ◌≤◌, ◌<◌}
use mathlib.Core.Path.{◌≡◌, refl, subst}
use mathlib.Core.Bool.{Bool, true, false}
use native.Mathlib.Omega.{arith}
use nxu.Base.Tests.{if◌then◌else◌}

pub record Failure : Type 0 where
  pub code : ℕ
  pub a : ℕ
  pub b : ℕ

pub data Outcome (S A : Type 0) : Type 0 where
  ok : A → S → Outcome S A
  halted : Failure → S → Outcome S A

abbrev pub Cmd : Type 0 → Type 0 → Type 0
Cmd S A = S → Outcome S A

abbrev pub pure : {S A : Type 0} → A → Cmd S A
pure a s = ok a s

module _ {S A B : Type 0} where
  abbrev pub and_then : Outcome S A → (A → Cmd S B) → Outcome S B
  and_then (ok a s) k = k a s
  and_then (halted f s) k = halted f s

  infixl 5 ◌>>=◌ ◌>>◌
  abbrev pub ◌>>=◌ : Cmd S A → (A → Cmd S B) → Cmd S B
  ◌>>=◌ m k s = and_then (m s) k

  abbrev pub ◌>>◌ : Cmd S A → Cmd S B → Cmd S B
  ◌>>◌ m k s = and_then (m s) (λ _. k)

module _ {S : Type 0} where
  abbrev pub modify : (S → S) → Cmd S (Unit {0})
  modify f s = ok tt (f s)

  abbrev pub gets : {A : Type 0} → (S → A) → Cmd S A
  gets f s = ok (f s) s

  abbrev pub when : Bool → Cmd S (Unit {0}) → Cmd S (Unit {0})
  when b m = if b then m else pure tt

  -- for (i = from; i < from + rounds; i++) body(i);
  unfoldable pub for_range : ℕ → ℕ → (ℕ → Cmd S (Unit {0})) → Cmd S (Unit {0})
  for_range zero i body = pure tt
  for_range (suc n) i body = body i >> for_range n (i + 1) body

-- the state that a run leaves
abbrev pub state_of : {S A : Type 0} → Outcome S A → S
state_of (ok a s) = s
state_of (halted f s) = s

-- `nxu_fail` in a component: nothing runs after it.
abbrev pub halt : {S A : Type 0} → ℕ → ℕ → ℕ → Cmd S A
halt code a b s = halted (record { code = code; a = a; b = b }) s

-- Total correctness of a run: it does not halt, and its result has the property.
pub data Returns {S A : Type 0} (P : A → S → Type 0) : Outcome S A → Type 0 where
  returns : {a : A} {s : S} → P a s → Returns P (ok a s)

module _ {S A : Type 0} {P : A → S → Type 0} where
  pub Returns-and_then :
      {B : Type 0} {Q : B → S → Type 0} {r : Outcome S A} {k : A → Cmd S B}
      → Returns P r
      → ((a : A) (s : S) → P a s → Returns Q (k a s))
      → Returns Q (and_then r k)
  Returns-and_then (returns p) next = next _ _ p

  pub Returns-mono :
      {Q : A → S → Type 0} {r : Outcome S A}
      → Returns P r
      → ((a : A) (s : S) → P a s → Q a s)
      → Returns Q r
  Returns-mono (returns p) weaken = returns (weaken _ _ p)

  pub Returns-ok : {a : A} {s : S} → Returns P (ok a s) → P a s
  Returns-ok (returns p) = p

  pub Returns-value : {r : Outcome S A} → Returns P r → (a : A) × (s : S) × P a s
  Returns-value (returns {a} {s} p) = (a, s, p)

-- What a run leaves, whether it comes to its end or halts.
pub data Leaves {S A : Type 0} (P : S → Type 0) : Outcome S A → Type 0 where
  ended : {a : A} {s : S} → P s → Leaves P (ok a s)
  stopped : {f : Failure} {s : S} → P s → Leaves P (halted f s)

module _ {S : Type 0} {P : S → Type 0} where
  pub Leaves-and_then :
      {A B : Type 0} {r : Outcome S A} {k : A → Cmd S B}
      → Leaves P r
      → ((a : A) (s : S) → P s → Leaves P (k a s))
      → Leaves P (and_then r k)
  Leaves-and_then (ended p) next = next _ _ p
  Leaves-and_then (stopped p) next = stopped p

  pub Leaves-when :
      (b : Bool) (m : Cmd S (Unit {0})) (s : S)
      → P s
      → (b ≡ true → Leaves P (m s))
      → Leaves P (when b m s)
  Leaves-when true m s p h = h refl
  Leaves-when false m s p h = ended p

  -- a loop keeps what each round keeps
  pub Leaves-for_range :
      (n i : ℕ) (body : ℕ → Cmd S (Unit {0})) (s : S)
      → ((k : ℕ) (t : S) → i ≤ k → k < i + n → P t → Leaves P (body k t))
      → P s
      → Leaves P (for_range n i body s)
  unfolding for_range
  Leaves-for_range zero i body s round p = ended p
  Leaves-for_range (suc n) i body s round p =
      Leaves-and_then (round i s (omega arith) (omega arith) p) (λ _ t q.
        Leaves-for_range n (i + 1) body t (λ k u le lt. round k u (omega arith) (omega arith)) q)

-- Partial correctness of a run: if it does not halt, its result has the property.
pub data MayHalt {S A : Type 0} (P : A → S → Type 0) : Outcome S A → Type 0 where
  goes_on : {a : A} {s : S} → P a s → MayHalt P (ok a s)
  halts : {f : Failure} {s : S} → MayHalt P (halted f s)

module _ {S A : Type 0} where
  pub MayHalt-and_then :
      {B : Type 0} {P : A → S → Type 0} {Q : B → S → Type 0} {r : Outcome S A} {k : A → Cmd S B}
      → MayHalt P r
      → ((a : A) (s : S) → P a s → MayHalt Q (k a s))
      → MayHalt Q (and_then r k)
  MayHalt-and_then (goes_on p) next = next _ _ p
  MayHalt-and_then halts next = halts

  pub Leaves-MayHalt : {P : S → Type 0} {r : Outcome S A} → Leaves P r → MayHalt (λ _. P) r
  Leaves-MayHalt (ended p) = goes_on p
  Leaves-MayHalt (stopped p) = halts

  pub MayHalt-any : (r : Outcome S A) → MayHalt (λ _ _. Unit {0}) r
  MayHalt-any (ok a s) = goes_on tt
  MayHalt-any (halted f s) = halts

  -- what is followed by a halt halts
  pub MayHalt-stop :
      {B : Type 0} {Q : B → S → Type 0} (r : Outcome S A) {k : A → Cmd S B}
      → ((a : A) (s : S) → MayHalt Q (k a s))
      → MayHalt Q (and_then r k)
  MayHalt-stop (ok a s) h = h a s
  MayHalt-stop (halted f s) h = halts

  pub MayHalt-mono :
      {P Q : A → S → Type 0} {r : Outcome S A}
      → MayHalt P r
      → ((a : A) (s : S) → P a s → Q a s)
      → MayHalt Q r
  MayHalt-mono (goes_on p) weaken = goes_on (weaken _ _ p)
  MayHalt-mono halts weaken = halts

module _ {S : Type 0} {P : Unit {0} → S → Type 0} where
  pub MayHalt-when :
      (b : Bool) (m : Cmd S (Unit {0})) (s : S)
      → P tt s
      → (b ≡ true → MayHalt P (m s))
      → MayHalt P (when b m s)
  MayHalt-when true m s p h = h refl
  MayHalt-when false m s p h = goes_on p

-- a loop whose rounds take the property of one number to that of the next
pub MayHalt-for_range :
    {S : Type 0} (P : ℕ → S → Type 0) (n i : ℕ) (body : ℕ → Cmd S (Unit {0})) (s : S)
    → ((k : ℕ) (t : S) → i ≤ k → k < i + n → P k t → MayHalt (λ _. P (k + 1)) (body k t))
    → P i s
    → MayHalt (λ _. P (i + n)) (for_range n i body s)
unfolding for_range
MayHalt-for_range P zero i body s round p =
    goes_on (subst (λ k. P k s) {x = i} {y = i + 0} (omega arith) p)
MayHalt-for_range P (suc n) i body s round p =
    subst (λ k. MayHalt (λ _. P k) (for_range (suc n) i body s)) {x = i + 1 + n} {y = i + suc n}
      (omega arith)
      (MayHalt-and_then (round i s (omega arith) (omega arith) p) (λ _ t q.
        MayHalt-for_range P n (i + 1) body t (λ k u le lt. round k u (omega arith) (omega arith))
          q))

-- what is known of a run in two ways
pub Returns-both :
    {S A : Type 0} {P Q : A → S → Type 0} {r : Outcome S A}
    → Returns P r
    → MayHalt Q r
    → Returns (λ a s. P a s × Q a s) r
Returns-both (returns p) (goes_on q) = returns (p, q)

pub Returns-MayHalt :
    {S A : Type 0} {P : A → S → Type 0} {r : Outcome S A} → Returns P r → MayHalt P r
Returns-MayHalt (returns p) = goes_on p
