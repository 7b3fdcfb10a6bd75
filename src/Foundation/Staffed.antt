-- ===== src/Foundation/Staffed.antt =====
-- The stages S3 to S9 of foundation/enter.c together: each stage gives the next what it needs.
use nxu.Base.{
  ℕ, ◌≤◌, ◌<◌, ◌≡◌, ◌≢◌, refl, Bool, true, false, arith, subst, sym, ap, ◌∙◌, pure, ◌>>◌, MayHalt,
  goes_on, MayHalt-and_then, MayHalt-mono, MayHalt-when, ◌!=◌, Returns-both, Returns-MayHalt,
}
use nxu.Codes
use nxu.Observe.{cpu_bound}
use nxu.Facts.{affinity}
use nxu.Facts.Processors.{CpusAreSettled}
use nxu.Facts.Processors.Merge.{SourcesAreLawful}
use nxu.Facts.Settled.Stage.{s4_facts-Settled}
use nxu.Space.Steady.{Same, s5_ownership-Same, s6_mmu-Same}
use nxu.Boot.{Link, control_el, context_bind_boot, context_bind}
use nxu.Interrupt.{s7_exception}
use nxu.Cpus.{s8_present, s9_init}
use nxu.Cpus.PresentSet.{Listed}
use nxu.Cpus.PresentSet.Stage.{s8_present-Listed}
use nxu.Cpus.PresentSet.Stage.Steady.{s8_present-HasIntake}
use nxu.Cpus.Available.{Bound}
use nxu.Cpus.Available.Stage.{Binding, s9_init-Bound}
use nxu.Dtb.Valid.Tokens.Cand.{HasCand, s3_dtb-HasCand}
use nxu.Board.Apart.{BoardIsApart}
use nxu.World.{World, Intake, tell, put, log, log3, fail}
use nxu.World.Halting.{fail-halts}
use nxu.Foundation.{Outside, ended_then, setup_stages, admit_stages}

-- The kernel has its CPUs: at most 8 are present, one for each CPU fact, at the logical id that the
-- fact names; they are all different, the boot CPU is first, and each is available with a stack and a
-- context of its own.
pub record Staffed (o : Outside) (i : Intake) (v : World) : Type 0 where
  pub size : v.cpu_present_count ≡ v.facts.cpu_count
  pub some_cpu : 0 < v.cpu_present_count
  pub bound : v.cpu_present_count ≤ cpu_bound
  pub boot_first : (v.cpu 0).mpidr ≡ affinity i.mpidr
  pub distinct : (j k : ℕ) → j < k → k < v.cpu_present_count → (v.cpu j).mpidr ≢ (v.cpu k).mpidr
  pub listed :
      (j : ℕ)
      → j < v.facts.cpu_count
      → ((v.facts.cpu j).logical < v.cpu_present_count)
        × ((v.cpu (v.facts.cpu j).logical).mpidr ≡ (v.facts.cpu j).mpidr)
  pub available :
      (j : ℕ) → j < v.cpu_present_count → Bound o.stack_of (affinity i.mpidr) i.sp_nxu j (v.cpu j)

-- the facts of S4, as S8 finds them
record Ready (i : Intake) (v : World) : Type 0 where
  intake : v.intake ≡ i
  cpus : CpusAreSettled (affinity i.mpidr) v.facts

Ready-Same : (i : Intake) (u v : World) → Ready i u → Same u v → Ready i v
Ready-Same i u v r s = record {
  intake = s.intake ∙ r.intake;
  cpus = subst (CpusAreSettled (affinity i.mpidr)) (sym s.facts) r.cpus;
}

s7_exception-Same :
    (w : World) (link : Link) (u : World) → Same w u → MayHalt (λ _. Same w) (s7_exception link u)
unfolding s7_exception context_bind_boot context_bind tell put log log3
s7_exception-Same w link u s =
    let el = control_el u in
    MayHalt-and_then {P = λ _. Same w}
      (MayHalt-when (el != Codes.el1) (fail Codes.fail_bad_el el 3) _
        (record { facts = s.facts; intake = s.intake }) (λ _. fail-halts Codes.fail_bad_el el 3 _))
      (λ _ v p. goes_on (record { facts = p.facts; intake = p.intake }))

-- S8 and S9 on the facts of S4
module _ (o : Outside) (i : Intake) where
  Binding-Staffed :
      (u x v : World)
      → Ready i u
      → (x.intake ≡ u.intake) × (x.facts.cpu_count ≡ u.facts.cpu_count)
      → Listed
          (λ j. (u.facts.cpu j).mpidr)
          u.facts.cpu_count
          (affinity u.intake.mpidr)
          x.cpu
          x.facts
          x.cpu_present_count
      → Binding o.stack_of (affinity x.intake.mpidr) 0 x.cpu_present_count x v
      → Staffed o i v
  Binding-Staffed u x v r e l b =
      let xi : x.intake ≡ i = e.0 ∙ r.intake in
      let facts : v.facts.cpu_count ≡ u.facts.cpu_count = ap (λ f. f.cpu_count) b.facts ∙ e.1 in
      let n : v.cpu_present_count ≡ u.facts.cpu_count = b.count ∙ l.size in
      let same : (j : ℕ) → j < x.cpu_present_count → (v.cpu j).mpidr ≡ (x.cpu j).mpidr =
        λ j h. b.mpidr j (omega arith) h in
      let m : (j : ℕ) → (v.facts.cpu j).mpidr ≡ (u.facts.cpu j).mpidr =
        λ j. ap (λ f. (f.cpu j).mpidr) b.facts ∙ l.kept j in
      let first : 0 < x.cpu_present_count = omega (arith, r.cpus.boot_fact.1, l.size) in
      record {
        size = omega (arith, n, facts);
        some_cpu = omega (arith, first, b.count);
        bound = omega (arith, n, r.cpus.bound);
        boot_first = same 0 first ∙ (l.boot_first ∙ ap (λ y. affinity y.mpidr) r.intake);
        distinct = λ j k jk h e'.
            l.distinct j k jk (omega (arith, b.count))
              (sym (same j (omega (arith, b.count))) ∙ (e' ∙ same k (omega (arith, b.count))));
        listed = λ j h.
            let k = (v.facts.cpu j).logical in
            let place : k ≡ (x.facts.cpu j).logical = ap (λ f. (f.cpu j).logical) b.facts in
            let at = l.listed j (omega (arith, facts)) in
            (
              omega (arith, at.0, place, b.count),
              same k (omega (arith, at.0, place))
                  ∙ (ap (λ c. (x.cpu c).mpidr) place ∙ (at.1 ∙ sym (m j))),
            );
        available = λ j h.
            subst (λ y. Bound o.stack_of (affinity y.mpidr) y.sp_nxu j (v.cpu j)) xi
              (b.bound j (omega arith) (omega (arith, b.count)));
      }

  staff-Staffed :
      (u : World) → Ready i u → MayHalt (λ _. Staffed o i) ((s8_present >> s9_init o.stack_of) u)
  staff-Staffed u r =
      let b = r.cpus.boot_fact in
      MayHalt-and_then {k = λ _. s9_init o.stack_of}
        (Returns-MayHalt (
          Returns-both
            (s8_present-Listed u b.0 r.cpus.bound b.1
              (b.2 ∙ ap (λ y. affinity y.mpidr) (sym r.intake)) r.cpus.distinct)
            (s8_present-HasIntake u.intake u.facts.cpu_count u (refl, refl))))
        (λ _ x (l, e).
          MayHalt-mono (Returns-MayHalt (s9_init-Bound o.stack_of x))
            (λ _ v bd. Binding-Staffed u x v r e l bd))

setup_stages-Staffed :
    (o : Outside) (w : World)
    → SourcesAreLawful w.dtb_cand w.board
    → MayHalt (λ _. Staffed o w.intake) (setup_stages o w)
unfolding setup_stages
setup_stages-Staffed o w l = MayHalt-and_then (s4_facts-Settled w l) (λ _ u f.
    MayHalt-and_then (s5_ownership-Same u u (record { facts = refl; intake = refl })) (λ _ v s.
      MayHalt-and_then (s6_mmu-Same u v s) (λ _ x s.
        MayHalt-and_then (s7_exception-Same u o.link x s) (λ _ y s.
          staff-Staffed o w.intake y
            (Ready-Same w.intake u y (record { intake = f.intake; cpus = f.cpus }) s)))))

-- a valid candidate and a board that names no CPU twice are lawful sources
HasCand-Lawful :
    (w v : World) → BoardIsApart w.board → HasCand w v → SourcesAreLawful v.dtb_cand v.board
HasCand-Lawful w v apart h = record {
  bound = h.cand.cpus;
  cand_apart = λ j k jk kn e.
      h.cand.distinct j k jk kn (sym (h.cand.masked j (omega arith)) ∙ (e ∙ h.cand.masked k kn));
  board_apart = subst BoardIsApart (sym h.board) apart;
}

-- Whatever the device tree is, on a board that names no CPU twice: when the stages S3 to S9 come to
-- their end, the present CPUs are at most 8, one for each CPU fact, at the logical id that the fact
-- names; they are all different, the boot CPU is first, and each is available, with its context bound
-- to it: that of the boot CPU runs on the stack on which the kernel was entered, any other is armed on
-- the stack of its number.
pub admit_stages-Staffed :
    (dtb_fuel : ℕ) (o : Outside) (w : World)
    → BoardIsApart w.board
    → MayHalt (λ ended v. ended ≡ true → Staffed o w.intake v) (admit_stages dtb_fuel o w)
unfolding admit_stages
admit_stages-Staffed dtb_fuel o w apart =
    MayHalt-and_then (s3_dtb-HasCand dtb_fuel w) (λ ended v h. rest ended v h)
  where
    rest :
        (ended : Bool) (v : World)
        → HasCand w v
        → MayHalt
            (λ e t. e ≡ true → Staffed o w.intake t)
            (ended_then ended (setup_stages o >> pure true) v)
    rest true v h =
        MayHalt-and_then {k = λ _. pure true}
          (setup_stages-Staffed o v (HasCand-Lawful w v apart h))
          (λ _ t s. goes_on (λ _. subst (λ y. Staffed o y t) h.intake s))
    rest false v h = goes_on (λ e. absurd cc)
