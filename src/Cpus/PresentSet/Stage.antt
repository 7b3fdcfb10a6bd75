-- ===== src/Cpus/PresentSet/Stage.antt =====
-- `nxu_s8_present` of foundation/cpu/cpu.c as a whole: the loops that record the present set leave it
-- alone.
pub mod Steady
use nxu.Base.{
  ℕ, zero, suc, ◌+◌, ◌≤◌, ◌<◌, ◌≡◌, ◌≢◌, ◌⊎◌, inl, inr, refl, Bool, true, false, ◌||◌, ◌==◌, arith,
  sym, update, update_at, Returns, returns, Returns-and_then, for_range,
}
use nxu.Codes
use nxu.Observe.{cpu_bound}
use nxu.Facts.{affinity}
use nxu.World.{World, Facts, Cpu, put, log3}
use nxu.Cpus.{found_loop, Clusters, cluster_loop, report_clusters, s8_present}
use nxu.Cpus.PresentSet.{Listed, Listing, count_ok, present_loop-Listing, complete}

-- at the start only the boot CPU is in the array
start-Listing :
    (w : World) (boot b n : ℕ)
    → Listing
        (λ j. (w.facts.cpu j).mpidr)
        boot
        b
        n
        (update w.cpu 0 (record (w.cpu 0) { mpidr = boot; logical = 0; state = Codes.cpu_present }))
        w.facts
        0
        1
start-Listing w boot b n = record {
  kept = λ j. refl;
  early = omega arith;
  late = omega arith;
  boot_first = refl;
  numbered = λ k h.
      rw
        (update_at w.cpu (record (w.cpu 0) { mpidr = boot; logical = 0; state = Codes.cpu_present })
          (zero_of k h))
        (sym (zero_of k h), refl);
  listed = λ j h. absurd (omega arith);
  from = λ k p h. absurd (omega arith);
  distinct = λ k l kl h. absurd (omega arith);
}
  where
    zero_of : (k : ℕ) → k < 1 → k ≡ 0
    zero_of k h = omega arith

found_step :
    (x boot : ℕ) (found : Bool) → (found ≡ true) ⊎ (x ≡ boot) → ((x == boot) || found) ≡ true
found_step x boot found (inl e) = ground (arith, e)
found_step x boot found (inr e) = ground (arith, e)

-- what the records and the log leave alone
module _ (P : (ℕ → Cpu) → Facts → ℕ → Type 0) where
  abbrev On : World → Type 0
  On w = P w.cpu w.facts w.cpu_present_count

  found_loop-On :
      (rounds i : ℕ) (found : Bool) (boot : ℕ) (w : World)
      → On w
      → (found ≡ true) ⊎ ((0 < rounds) × ((w.cpu i).mpidr ≡ boot))
      → Returns (λ f w'. (f ≡ true) × On w') (found_loop rounds i found boot w)
  unfolding found_loop put
  found_loop-On zero i found boot w p (inl h) = returns (h, p)
  found_loop-On zero i found boot w p (inr h) = absurd (omega (arith, h.0))
  found_loop-On (suc rounds) i found boot w p (inl h) =
      found_loop-On rounds (i + 1) _ boot _ p (inl (found_step (w.cpu i).mpidr boot found (inl h)))
  found_loop-On (suc rounds) i found boot w p (inr h) =
      found_loop-On rounds (i + 1) _ boot _ p
        (inl (found_step (w.cpu i).mpidr boot found (inr h.1)))

  cluster_loop-On :
      (rounds i : ℕ) (c : Clusters) (w : World)
      → On w
      → Returns (λ _ w'. On w') (cluster_loop rounds i c w)
  unfolding cluster_loop log3
  cluster_loop-On zero i c w p = returns p
  cluster_loop-On (suc rounds) i c w p = cluster_loop-On rounds (i + 1) _ _ p

  log_loop-On :
      (rounds k : ℕ) (c : Clusters) (w : World)
      → On w
      → Returns
          (λ _ w'. On w')
          (for_range rounds k
            (λ k. log3 Codes.ev_cpu Codes.sub_cpu (c.id k) (c.n k) Codes.note_cpu_cluster)
            w)
  unfolding for_range log3
  log_loop-On zero k c w p = returns p
  log_loop-On (suc rounds) k c w p = log_loop-On rounds (k + 1) c _ p

  report_clusters-On : (w : World) → On w → Returns (λ _ w'. On w') (report_clusters w)
  unfolding report_clusters
  report_clusters-On w p =
      Returns-and_then (cluster_loop-On w.cpu_present_count 0 _ w p)
        (λ c u q. log_loop-On c.count 0 c u q)

-- When there are at most 8 CPU facts, all different, and one of them is that of the boot CPU, S8 comes
-- to its end, and the present set lists them: it has as many CPUs, each numbered by its index and
-- present, all different, the boot CPU first, and each fact keeps its affinity and names the logical id
-- at which its CPU is.
pub s8_present-Listed :
    (w : World) (b : ℕ)
    → w.facts.cpu_count ≤ cpu_bound
    → b < w.facts.cpu_count
    → (w.facts.cpu b).mpidr ≡ affinity w.intake.mpidr
    → ((j k : ℕ) → j < k → k < w.facts.cpu_count → (w.facts.cpu j).mpidr ≢ (w.facts.cpu k).mpidr)
    → Returns
        (λ _ w'.
          Listed
            (λ j. (w.facts.cpu j).mpidr)
            w.facts.cpu_count
            (affinity w.intake.mpidr)
            w'.cpu
            w'.facts
            w'.cpu_present_count)
        (s8_present w)
unfolding s8_present put log3
s8_present-Listed w b small bn mb apart =
    let m : ℕ → ℕ = λ j. (w.facts.cpu j).mpidr in
    let n = w.facts.cpu_count in
    let boot = affinity w.intake.mpidr in
    rw (count_ok n (omega arith) small) (
      Returns-and_then
        (present_loop-Listing m boot b n n 0 1 _ (start-Listing w boot b n) (omega arith) small bn
          mb apart)
        (λ d u v.
          Returns-and_then
            (found_loop-On (Listed m n boot) d 0 false boot
              (record u { cpu_present_count = d; cpu_present_frozen = false })
              (complete m boot b n u.cpu u.facts d bn v)
              (inr (omega (arith, v.late bn), v.boot_first)))
            (λ f t (e, l). rw e (report_clusters-On (Listed m n boot) _ l))))
