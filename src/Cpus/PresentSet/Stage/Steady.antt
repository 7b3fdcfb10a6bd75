-- ===== src/Cpus/PresentSet/Stage/Steady.antt =====
-- `nxu_s8_present` of foundation/cpu/cpu.c leaves the intake and the number of CPU facts alone.
use nxu.Base.{
  ℕ, zero, suc, ◌+◌, ◌≡◌, Bool, false, not, ◌||◌, ltb, leb, ◌==◌, inl, inr, Bool-cases, MayHalt,
  goes_on, MayHalt-and_then, MayHalt-when, MayHalt-for_range, when,
}
use nxu.Codes
use nxu.Observe.{cpu_bound}
use nxu.World.{World, Intake, put, log3, fail}
use nxu.World.Halting.{fail-halts}
use nxu.Cpus.{present_loop, found_loop, Clusters, cluster_loop, report_clusters, s8_present}

module _ (x : Intake) (n : ℕ) where
  abbrev HasIntake : World → Type 0
  HasIntake u = (u.intake ≡ x) × (u.facts.cpu_count ≡ n)

  guard-HasIntake :
      (b : Bool) (code p q : ℕ) (u : World)
      → HasIntake u
      → MayHalt (λ _. HasIntake) (when b (fail code p q) u)
  guard-HasIntake b code p q u e = MayHalt-when b (fail code p q) u e (λ _. fail-halts code p q u)

  present_loop-HasIntake :
      (rounds i dst boot : ℕ) (u : World)
      → HasIntake u
      → MayHalt (λ _. HasIntake) (present_loop rounds i dst boot u)
  unfolding present_loop
  present_loop-HasIntake zero i dst boot u e = goes_on e
  present_loop-HasIntake (suc rounds) i dst boot u e =
      elim (Bool-cases ((u.facts.cpu i).mpidr == boot)) [
        | inl f ↦ rw f (present_loop-HasIntake rounds (i + 1) dst boot _ e)
        | inr f ↦ rw f (
            MayHalt-and_then (guard-HasIntake (leb cpu_bound dst) Codes.fail_cpu dst 3 u e)
              (λ _ v p. present_loop-HasIntake rounds (i + 1) (dst + 1) boot _ p))
      ]

  found_loop-HasIntake :
      (rounds i : ℕ) (found : Bool) (boot : ℕ) (u : World)
      → HasIntake u
      → MayHalt (λ _. HasIntake) (found_loop rounds i found boot u)
  unfolding found_loop put
  found_loop-HasIntake zero i found boot u e = goes_on e
  found_loop-HasIntake (suc rounds) i found boot u e =
      found_loop-HasIntake rounds (i + 1) _ boot _ e

  cluster_loop-HasIntake :
      (rounds i : ℕ) (c : Clusters) (u : World)
      → HasIntake u
      → MayHalt (λ _. HasIntake) (cluster_loop rounds i c u)
  unfolding cluster_loop log3
  cluster_loop-HasIntake zero i c u e = goes_on e
  cluster_loop-HasIntake (suc rounds) i c u e = cluster_loop-HasIntake rounds (i + 1) _ _ e

  report_clusters-HasIntake :
      (u : World) → HasIntake u → MayHalt (λ _. HasIntake) (report_clusters u)
  unfolding report_clusters log3
  report_clusters-HasIntake u e =
      MayHalt-and_then (cluster_loop-HasIntake u.cpu_present_count 0 _ u e)
        (λ c v p. MayHalt-for_range (λ _. HasIntake) c.count 0 _ v (λ k t _ _ q. goes_on q) p)

  pub s8_present-HasIntake : (u : World) → HasIntake u → MayHalt (λ _. HasIntake) (s8_present u)
  unfolding s8_present put log3
  s8_present-HasIntake u e =
      MayHalt-and_then
        (guard-HasIntake ((u.facts.cpu_count == 0) || ltb cpu_bound u.facts.cpu_count) _ _ _ u e)
        (λ _ v p. MayHalt-and_then (present_loop-HasIntake u.facts.cpu_count 0 1 _ _ p) (λ dst v p.
          MayHalt-and_then (found_loop-HasIntake dst 0 false _ _ p) (λ found v p.
            MayHalt-and_then (guard-HasIntake (not found) _ _ _ v p)
              (λ _ v p. report_clusters-HasIntake _ p))))
