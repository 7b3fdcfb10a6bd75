-- ===== src/World/Halting.antt =====
-- `nxu_fail` of foundation/observe/fail.c in a proof about a run that may halt.
use nxu.Base.{ℕ, ◌≡◌, refl, Bool, true, false, Cmd, when, ◌>>◌, MayHalt, goes_on, halts}
use nxu.World.{World, fail, fail_with}

pub fail-halts :
    {A : Type 0} {P : A → World → Type 0} (code a b : ℕ) (w : World) → MayHalt P (fail code a b w)
unfolding fail fail_with
fail-halts code a b w = halts

-- a guard that does not halt changes nothing
pub guard-keeps :
    (b : Bool) (code x y : ℕ) (w : World) → MayHalt (λ _ v. v ≡ w) (when b (fail code x y) w)
guard-keeps true code x y w = fail-halts code x y w
guard-keeps false code x y w = goes_on refl

-- what is behind a guard runs only where the guard does not halt
pub after_guard :
    {A : Type 0} {Q : A → World → Type 0} (b : Bool) (code x y : ℕ) (k : Cmd World A) (w : World)
    → (b ≡ false → MayHalt Q (k w))
    → MayHalt Q ((when b (fail code x y) >> k) w)
unfolding fail fail_with
after_guard true code x y k w h = halts
after_guard false code x y k w h = h refl

pub guard-passes :
    (b : Bool) (code x y : ℕ) (w : World)
    → MayHalt (λ _ v. (v ≡ w) × (b ≡ false)) (when b (fail code x y) w)
guard-passes true code x y w = fail-halts code x y w
guard-passes false code x y w = goes_on (refl, refl)
