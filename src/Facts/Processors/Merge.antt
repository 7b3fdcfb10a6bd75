-- ===== src/Facts/Processors/Merge.antt =====
-- The CPU facts of `nxu_s4_facts` (foundation/facts/facts.c) as a whole: the choice of the source, and
-- the search for the boot CPU.
use nxu.Base.{
  ℕ, ◌≤◌, ◌<◌, ◌≡◌, ◌≢◌, inl, inr, refl, Bool, true, false, not, ◌&&◌, arith, Bool-cases,
  not_ltb→le, subst, sym, ap, update, MayHalt, MayHalt-and_then, MayHalt-mono, for_range, ◌>>◌,
  when, ltb,
}
use nxu.Codes
use nxu.Observe.{cpu_bound}
use nxu.World.{World, DtbCand, BoardFacts, Facts, CpuFact, put, fail}
use nxu.World.Halting.{guard-passes, after_guard}
use nxu.Facts.{affinity, board_cpu, boot_found, merge_cpu}
use nxu.Facts.Processors.{
  Taken, Round, Sourced, HasCpus, boot_found-hit, loop-Sourced, dtb_cpu-Round, board_cpu-Round,
}

-- The device tree names at most 8 CPUs, and neither it nor the board names one twice.
pub record SourcesAreLawful (d : DtbCand) (b : BoardFacts) : Type 0 where
  pub bound : d.cpu_count ≤ cpu_bound
  pub cand_apart :
      (j k : ℕ) → j < k → k < d.cpu_count → affinity (d.cpu_mpidr j) ≢ affinity (d.cpu_mpidr k)
  pub board_apart :
      (j k : ℕ) → j < k → k < b.cpu_count → affinity (b.cpu_mpidr j) ≢ affinity (b.cpu_mpidr k)

module _ (w : World) where
  -- the CPU facts are counted from 0
  abbrev counted : World
  counted = record w { facts = record (w.facts) { cpu_count = 0 } }

  counted-Round : (aff : ℕ → ℕ) → Round w w.facts.mem aff 0 counted
  counted-Round aff = record {
    taken = record { cand = refl; board = refl; intake = refl; image = refl };
    mem_same = refl;
    copied = record { count = refl; copied = λ j h. absurd (omega arith) };
  }

  -- with no source there is one fact, that of the CPU that runs
  alone-Sourced :
      (f : Facts → CpuFact) (v : World)
      → Taken w v
      → v.facts ≡ record (w.facts) { cpu = update w.facts.cpu 0 (f w.facts); cpu_count = 1 }
      → Sourced w w.facts.mem v
  alone-Sourced f v t e =
      let one : v.facts.cpu_count ≡ 1 = ap (λ x. x.cpu_count) e in
      record {
        taken = t;
        mem_same = ap (λ x. x.mem) e;
        bound = omega (arith, one);
        distinct = λ j k jk h. absurd (omega (arith, one));
      }

  search-HasCpus :
      (v : World)
      → Sourced w w.facts.mem v
      → MayHalt
          (λ _. HasCpus w w.facts.mem)
          (when
            (not (boot_found v.facts.cpu_count 0 v.facts.cpu (affinity w.intake.mpidr)))
            (fail Codes.fail_cpu (affinity w.intake.mpidr) 2)
            v)
  search-HasCpus v s =
      MayHalt-mono
        (guard-passes (not (boot_found v.facts.cpu_count 0 v.facts.cpu (affinity w.intake.mpidr)))
          Codes.fail_cpu (affinity w.intake.mpidr) 2 v)
        (λ _ t (same, e). subst (HasCpus w w.facts.mem) (sym same) (record {
          taken = s.taken;
          mem_same = s.mem_same;
          cpus = record {
            bound = s.bound;
            distinct = s.distinct;
            boot_fact =
                let r =
                  boot_found-hit v.facts.cpu_count 0 v.facts.cpu (affinity w.intake.mpidr)
                    (not_false _ e) in
                (r.0, omega (arith, r.1), r.2);
          };
        }))
    where
      not_false : (b : Bool) → not b ≡ false → b ≡ true
      not_false true h = refl
      not_false false h = absurd cc

  board_loop-Sourced :
      SourcesAreLawful w.dtb_cand w.board
      → MayHalt
          (λ _. Sourced w w.facts.mem)
          ((when (ltb cpu_bound w.board.cpu_count) (fail Codes.fail_cpu w.board.cpu_count 5)
              >> for_range w.board.cpu_count 0 (board_cpu (affinity w.intake.mpidr)))
            counted)
  board_loop-Sourced l =
      after_guard (ltb cpu_bound w.board.cpu_count) Codes.fail_cpu w.board.cpu_count 5
        (for_range w.board.cpu_count 0 (board_cpu (affinity w.intake.mpidr))) counted
        (λ e.
          loop-Sourced w w.facts.mem (λ j. affinity (w.board.cpu_mpidr j)) w.board.cpu_count _
            counted (λ k t r. board_cpu-Round w w.facts.mem k t r) (not_ltb→le _ _ e) l.board_apart
            (counted-Round _))

-- The CPU facts that S4 makes of lawful sources are at most 8 and all different, and one of them is
-- that of the boot CPU; S4 halts where it finds none. What it takes, and its memory facts, are as they
-- were.
pub merge_cpu-HasCpus :
    (w : World)
    → SourcesAreLawful w.dtb_cand w.board
    → MayHalt (λ _. HasCpus w w.facts.mem) (merge_cpu w)
unfolding merge_cpu put
merge_cpu-HasCpus w l = elim (Bool-cases (w.dtb_cand.valid && ltb 0 w.dtb_cand.cpu_count)) [
  | inl e ↦ rw e (
      MayHalt-and_then
        (loop-Sourced w w.facts.mem (λ j. affinity (w.dtb_cand.cpu_mpidr j)) w.dtb_cand.cpu_count _
          (counted w) (λ k t r. dtb_cpu-Round w w.facts.mem k t r) l.bound l.cand_apart
          (counted-Round w _))
        (λ _ v s. search-HasCpus w v s))
  | inr e ↦ rw e (elim (Bool-cases (w.board.present && ltb 0 w.board.cpu_count)) [
    | inl f ↦ rw f (MayHalt-and_then (board_loop-Sourced w l) (λ _ v s. search-HasCpus w v s))
    | inr f ↦ rw f (
        search-HasCpus w _ (
          alone-Sourced w
            (λ x. record (x.cpu 0) {
              mpidr = affinity w.intake.mpidr;
              state = Codes.cpu_present;
              source = Codes.src_obs;
              grade = Codes.grade_observed;
            })
            _ (record { cand = refl; board = refl; intake = refl; image = refl }) refl))
  ])
]
