-- ===== src/Cpus/Available/Stage.antt =====
-- `nxu_s9_init` of foundation/cpu/cpu.c as a whole: its loop over the present set.
use nxu.Base.{
  ℕ, zero, suc, ◌+◌, ◌≤◌, ◌<◌, ◌≡◌, ◌≢◌, inl, inr, refl, arith, eq_or_lt, subst, sym, ap, ◌∙◌,
  Returns, returns, Returns-and_then, Returns-mono, for_range,
}
use nxu.Facts.{affinity}
use nxu.World.{World}
use nxu.Cpus.{init_cpu, s9_init}
use nxu.Cpus.Available.{Elsewhere, Bound, init_cpu-Bound}

-- The CPUs from `i` to `n` are bound, those before `i` are as they were, and no CPU changes its affinity.
pub record Binding (stack_of : ℕ → ℕ) (boot i n : ℕ) (w v : World) : Type 0 where
  pub bound : (j : ℕ) → i ≤ j → j < n → Bound stack_of boot w.intake.sp_nxu j (v.cpu j)
  pub mpidr : (j : ℕ) → i ≤ j → j < n → (v.cpu j).mpidr ≡ (w.cpu j).mpidr
  pub before : (j : ℕ) → j < i → v.cpu j ≡ w.cpu j
  pub count : v.cpu_present_count ≡ w.cpu_present_count
  pub facts : v.facts ≡ w.facts

gt_ne : (i j : ℕ) → i < j → j ≢ i
gt_ne i j h = omega arith

lt_ne : (i j : ℕ) → j < i → j ≢ i
lt_ne i j h = omega arith

-- a round and the rounds behind it
round-Binding :
    (stack_of : ℕ → ℕ) (boot i n : ℕ) (w u v : World)
    → Elsewhere i w u
    → Bound stack_of boot w.intake.sp_nxu i (u.cpu i)
    → Binding stack_of boot (i + 1) n u v
    → Binding stack_of boot i n w v
round-Binding stack_of boot i n w u v e b r =
    let here : v.cpu i ≡ u.cpu i = r.before i (omega arith) in
    record {
      bound = λ j le lt. elim (eq_or_lt i j le) [
        | inl same ↦
            subst (λ x. Bound stack_of boot w.intake.sp_nxu x (v.cpu x)) same
              (subst (Bound stack_of boot w.intake.sp_nxu i) (sym here) b)
        | inr l ↦
            subst (λ x. Bound stack_of boot x.sp_nxu j (v.cpu j)) e.intake
              (r.bound j (omega arith) lt)
      ];
      mpidr = λ j le lt. elim (eq_or_lt i j le) [
        | inl same ↦
            subst (λ x. (v.cpu x).mpidr ≡ (w.cpu x).mpidr) same (ap (λ c. c.mpidr) here ∙ e.mpidr)
        | inr l ↦ r.mpidr j (omega arith) lt ∙ ap (λ c. c.mpidr) (e.others j (gt_ne i j l))
      ];
      before = λ j h. r.before j (omega arith) ∙ e.others j (lt_ne i j h);
      count = r.count ∙ e.count;
      facts = r.facts ∙ e.facts;
    }

init_loop-Binding :
    (stack_of : ℕ → ℕ) (boot rounds i : ℕ) (w : World)
    → Returns
        (λ _ v. Binding stack_of boot i (i + rounds) w v)
        (for_range rounds i (init_cpu stack_of boot) w)
unfolding for_range
init_loop-Binding stack_of boot zero i w = returns (record {
  bound = λ j le lt. absurd (omega arith);
  mpidr = λ j le lt. absurd (omega arith);
  before = λ j h. refl;
  count = refl;
  facts = refl;
})
init_loop-Binding stack_of boot (suc rounds) i w =
    Returns-and_then (init_cpu-Bound stack_of boot i w) (λ _ u (e, b).
      Returns-mono (init_loop-Binding stack_of boot rounds (i + 1) u) (λ _ v r.
        round-Binding stack_of boot i (i + suc rounds) w u v e b (
          subst (λ n. Binding stack_of boot (i + 1) n u v) {x = i + 1 + rounds} {y = i + suc rounds}
            (omega arith) r)))

-- S9 comes to its end and leaves the number and the affinities of the present CPUs and the facts as
-- they were. Every present CPU is then available and has no redistributor frame, and its context names
-- it: that of the boot CPU runs on the stack on which the kernel was entered, any other is armed on the
-- stack of its number.
pub s9_init-Bound :
    (stack_of : ℕ → ℕ) (w : World)
    → Returns
        (λ _ v. Binding stack_of (affinity w.intake.mpidr) 0 w.cpu_present_count w v)
        (s9_init stack_of w)
unfolding s9_init
s9_init-Bound stack_of w =
    let boot = affinity w.intake.mpidr in
    subst
      (λ n.
        Returns (λ _ v. Binding stack_of boot 0 n w v)
          (for_range w.cpu_present_count 0 (init_cpu stack_of boot) w))
      {x = 0 + w.cpu_present_count} {y = w.cpu_present_count} (omega arith)
      (init_loop-Binding stack_of boot w.cpu_present_count 0 w)
