-- ===== src/Facts/Settled/Stage.antt =====
-- `nxu_s4_facts` of foundation/facts/facts.c as a whole: what the facts are when the stage returns.
use nxu.Base.{
  ℕ, ◌≡◌, ◌≢◌, refl, Bool, true, false, not, ◌&&◌, ne_of_==, ◌==◌, ◌!=◌, List, ◌∷◌, MayHalt-when,
  subst, subst₂, sym, MayHalt, goes_on, MayHalt-and_then, MayHalt-mono, ◌>>◌, when, if◌then◌else◌,
}
use nxu.Codes
use nxu.Hardware.{Access, mrs, cntfrq_el0}
use nxu.Range.{range_contains}
use nxu.Silicon.{timer_cntfrq}
use nxu.Observe.{Observe}
use nxu.World.{World, put, fail, ask}
use nxu.World.Halting.{fail-halts, guard-passes, after_guard}
use nxu.Facts.{affinity, merge_ctls, merge_cpu}
use nxu.Facts.Stage.{merge_psci, merge_timer, isa_ppi, s4_facts}
use nxu.Facts.Processors.{Taken, HasCpus, CpusAreSettled}
use nxu.Facts.Processors.Merge.{SourcesAreLawful, merge_cpu-HasCpus}
use nxu.Facts.Settled.{
  Still, Taken-refl, Taken-trans, merge_ctls-Still, merge_psci-Still, merge_mem-Taken,
}

-- The facts of a kernel that has passed S4: the image lies in the first memory range, the CPU facts are
-- settled, and the timer has a frequency and its interrupt. The intake and the image are those of `w`.
pub record FactsAreSettled (w v : World) : Type 0 where
  pub intake : v.intake ≡ w.intake
  pub image : v.image ≡ w.image
  pub image_inside :
      range_contains (v.facts.mem 0).range.base (v.facts.mem 0).range.size w.image.base w.image.size
      ≡ true
  pub cpus : CpusAreSettled (affinity w.intake.mpidr) v.facts
  pub timer_freq : v.facts.timer_freq ≢ 0
  pub timer_ppi : v.facts.timer_ppi ≡ isa_ppi

true_of_not : (b : Bool) → not b ≡ false → b ≡ true
true_of_not true h = refl
true_of_not false h = absurd cc

module _ (w : World) where
  abbrev Inside : World → Type 0
  Inside u =
      range_contains (u.facts.mem 0).range.base (u.facts.mem 0).range.size w.image.base w.image.size
      ≡ true

  abbrev Placed : World → Type 0
  Placed u = Taken w u × Inside u

  Still-Placed : (u v : World) → Placed u → Still u v → Placed v
  Still-Placed u v (t, e) s = (
    Taken-trans w u v t s.taken,
    subst (λ m. range_contains (m 0).range.base (m 0).range.size w.image.base w.image.size ≡ true)
        (sym s.mem_same) e,
  )

  -- the CPU facts, and where the image is
  record Manned (u : World) : Type 0 where
    taken : Taken w u
    holds_image : Inside u
    cpus : CpusAreSettled (affinity w.intake.mpidr) u.facts

  HasCpus-Manned : (u v : World) → Placed u → HasCpus u u.facts.mem v → Manned v
  HasCpus-Manned u v (t, e) h = record {
    taken = Taken-trans w u v t h.taken;
    holds_image =
        subst
          (λ m. range_contains (m 0).range.base (m 0).range.size w.image.base w.image.size ≡ true)
          (sym h.mem_same) e;
    cpus = subst (λ i. CpusAreSettled (affinity i.mpidr) v.facts) t.intake h.cpus;
  }

  -- the end of `merge_timer`, once the frequency is chosen
  abbrev timed : ℕ → World → World
  timed freq u = record u { facts = record (u.facts) { timer_ppi = isa_ppi; timer_freq = freq } }

  timed-Settled :
      (freq : ℕ) (u : World)
      → Manned u
      → MayHalt
          (λ _. FactsAreSettled w)
          ((when (freq == 0) (fail Codes.fail_timer 0 0) >> put Codes.rec_s4_timer freq isa_ppi)
            (timed freq u))
  unfolding put
  timed-Settled freq u m =
      after_guard (freq == 0) Codes.fail_timer 0 0 (put Codes.rec_s4_timer freq isa_ppi)
        (timed freq u)
        (λ e. goes_on (record {
          intake = m.taken.intake;
          image = m.taken.image;
          image_inside = m.holds_image;
          cpus = record {
            bound = m.cpus.bound;
            distinct = m.cpus.distinct;
            boot_fact = m.cpus.boot_fact;
          };
          timer_freq = ne_of_== freq 0 e;
          timer_ppi = refl;
        }))

  asked-Manned : (u : World) (a : List Access) → Manned u → Manned (record u { trace = a })
  asked-Manned u a m = record {
    taken = record {
      cand = m.taken.cand;
      board = m.taken.board;
      intake = m.taken.intake;
      image = m.taken.image;
    };
    holds_image = m.holds_image;
    cpus = m.cpus;
  }

  merge_timer-Settled : (u : World) → Manned u → MayHalt (λ _. FactsAreSettled w) (merge_timer u)
  unfolding merge_timer timer_cntfrq ask
  merge_timer-Settled u m =
      let ppi = u.dtb_cand.timer_ppi in
      MayHalt-and_then
        (MayHalt-when ((ppi != 0) && (ppi != isa_ppi)) (fail Codes.fail_fact_mismatch ppi isa_ppi) u
          m (λ _. fail-halts Codes.fail_fact_mismatch ppi isa_ppi u))
        (λ _ v q.
          let read = v.machine v.trace (mrs cntfrq_el0) in
          timed-Settled (if (read == 0) && u.board.present then u.board.timer_freq else read)
            (record v { trace = mrs cntfrq_el0 ∷ v.trace })
            (asked-Manned v (mrs cntfrq_el0 ∷ v.trace) q))

  -- the image is in the first memory range, or the kernel halts
  guard-Placed :
      (u : World)
      → Taken w u
      → MayHalt
          (λ _. Placed)
          (when
            (not (
              range_contains
                (u.facts.mem 0).range.base
                (u.facts.mem 0).range.size
                u.image.base
                u.image.size))
            (fail Codes.fail_image_ram u.image.base (u.facts.mem 0).range.base)
            u)
  guard-Placed u t =
      let m = (u.facts.mem 0).range in
      let test = not (range_contains m.base m.size u.image.base u.image.size) in
      MayHalt-mono (guard-passes test Codes.fail_image_ram u.image.base m.base u) (λ _ v (same, e).
        subst Placed (sym same) (
          t,
          subst (λ i. range_contains m.base m.size i.base i.size ≡ true) t.image (true_of_not _ e),
        ))

  noted : (v : World) → Placed v → (o : Observe) → Placed (record v { observe = o })
  noted v (t, e) o =
      (record { cand = t.cand; board = t.board; intake = t.intake; image = t.image }, e)

  merge_rest-Settled :
      (u : World)
      → SourcesAreLawful w.dtb_cand w.board
      → Placed u
      → MayHalt
          (λ _. FactsAreSettled w)
          ((merge_ctls >> (merge_psci >> (merge_cpu >> merge_timer))) u)
  merge_rest-Settled u l p =
      MayHalt-and_then {k = λ _. merge_psci >> (merge_cpu >> merge_timer)}
        (merge_ctls-Still u u (still u))
        (λ _ v s.
          MayHalt-and_then {k = λ _. merge_cpu >> merge_timer} (merge_psci-Still u v s) (λ _ x r.
            let q = Still-Placed u x p r in
            MayHalt-and_then {k = λ _. merge_timer}
              (merge_cpu-HasCpus x (subst₂ SourcesAreLawful (sym q.0.cand) (sym q.0.board) l))
              (λ _ y h. merge_timer-Settled y (HasCpus-Manned x y q h))))
    where
      still : (u : World) → Still u u
      still u = record { taken = Taken-refl u; mem_same = refl }

-- When the device tree names at most 8 CPUs, and neither it nor the board names a CPU twice, and S4
-- returns: the image lies in the first memory range; the CPU facts are at most 8, all different, and
-- one of them is that of the boot CPU; the timer has a frequency that is not 0 and its interrupt; and
-- the intake and the image are as they were.
pub s4_facts-Settled :
    (w : World)
    → SourcesAreLawful w.dtb_cand w.board
    → MayHalt (λ _. FactsAreSettled w) (s4_facts w)
unfolding s4_facts put
s4_facts-Settled w l =
    MayHalt-and_then
      (merge_mem-Taken w _ (record { cand = refl; board = refl; intake = refl; image = refl }))
      (λ _ u t.
        let m = u.facts.mem 0 in
        MayHalt-and_then (guard-Placed w u t) (λ _ v p. merge_rest-Settled w _ l (noted w v p _)))
