-- ===== src/Interrupt/Freeze.antt =====
-- `nxu_s14_freeze` of foundation/observe/freeze.c: the kernel goes on to the rooms exactly from a lawful
-- state.
use nxu.Base.{
  ℕ, zero, suc, ◌+◌, ◌≡◌, refl, Bool, true, false, not, ◌&&◌, ◌||◌, arith, ◌==◌, ◌!=◌, Outcome, ok,
  halted, and_then, Failure, for_range, subst, sym, when, Cmd,
}
use nxu.Codes
use nxu.World.{World, put, log, fail, fail_with}
use nxu.Boot.{control_el}
use nxu.Interrupt.{freeze_cpu, s14_freeze}

-- the CPU `i` runs the kernel in the kernel's own translation
abbrev pub cpu_ready : World → ℕ → Bool
cpu_ready w i =
    ((w.cpu i).state == Codes.cpu_online)
    && ((((w.cpu i).ctx.life == Codes.ctx_running) || ((w.cpu i).ctx.life == Codes.ctx_waiting))
        && (((w.cpu i).ctx.el == control_el w) && ((w.cpu i).ctx.ttbr == w.mmu.ttbr0)))

-- A check of the kernel, on a state for which its answer is `b`.
pub data Checked (w : World) (b : Bool) : Outcome World (Unit {0}) → Type 0 where
  passed : b ≡ true → Checked w b (ok tt w)
  stopped :
      {f : Failure} {w' : World}
      → b ≡ false
      → f.code ≡ Codes.fail_invariant
      → Checked w b (halted f w')

module _ {w : World} where
  when-Checked : (b : Bool) (x y : ℕ) → Checked w (not b) (when b (fail Codes.fail_invariant x y) w)
  unfolding fail fail_with
  when-Checked true x y = stopped refl refl
  when-Checked false x y = passed refl

  Checked-and_then :
      {b c : Bool} {o : Outcome World (Unit {0})} (rest : Cmd World (Unit {0}))
      → Checked w b o
      → Checked w c (rest w)
      → Checked w (b && c) (and_then o (λ _. rest))
  Checked-and_then {b} {c} {o} rest (passed e) next =
      subst (λ t. Checked w (t && c) (rest w)) (sym e) next
  Checked-and_then {b} {c} rest (stopped {f} {w'} e k) next =
      subst (λ t. Checked w (t && c) (halted f w')) (sym e) (stopped refl k)

  Checked-same : {b c : Bool} {o : Outcome World (Unit {0})} → b ≡ c → Checked w b o → Checked w c o
  Checked-same {o = o} e h = subst (λ t. Checked w t o) e h

freeze_cpu-Checked : (w : World) (i : ℕ) → Checked w (cpu_ready w i) (freeze_cpu i w)
unfolding freeze_cpu
freeze_cpu-Checked w i =
    let c = w.cpu i in
    Checked-same same_tests (
      Checked-and_then _
        (when-Checked ((c.state == Codes.cpu_available) || (c.state == Codes.cpu_starting)) 28 i)
        (Checked-and_then _ (when-Checked (c.state != Codes.cpu_online) 12 i) (
          Checked-and_then _
            (when-Checked ((c.ctx.life != Codes.ctx_running) && (c.ctx.life != Codes.ctx_waiting))
              12 c.ctx.life)
            (Checked-and_then _ (when-Checked (c.ctx.el != control_el w) 11 c.ctx.el)
              (when-Checked (c.ctx.ttbr != w.mmu.ttbr0) 26 i)))))
  where
    same_tests :
        (not (((w.cpu i).state == Codes.cpu_available) || ((w.cpu i).state == Codes.cpu_starting))
          && (not ((w.cpu i).state != Codes.cpu_online)
              && (not (
                    ((w.cpu i).ctx.life != Codes.ctx_running)
                    && ((w.cpu i).ctx.life != Codes.ctx_waiting))
                  && (not ((w.cpu i).ctx.el != control_el w)
                      && not ((w.cpu i).ctx.ttbr != w.mmu.ttbr0)))))
        ≡ cpu_ready w i
    same_tests = ground arith

-- the CPUs from `i` on are ready, `rounds` of them
abbrev pub all_ready : World → ℕ → ℕ → Bool
all_ready w zero i = true
all_ready w (suc rounds) i = cpu_ready w i && all_ready w rounds (i + 1)

freeze_loop-Checked :
    (w : World) (rounds i : ℕ) → Checked w (all_ready w rounds i) (for_range rounds i freeze_cpu w)
unfolding for_range
freeze_loop-Checked w zero i = passed refl
freeze_loop-Checked w (suc r) i =
    Checked-and_then _ (freeze_cpu-Checked w i) (freeze_loop-Checked w r (i + 1))

-- The state that the rooms may start from: the MMU on, the set of CPUs closed and not empty, a timer
-- frequency, no signal of another owner, and every present CPU ready.
abbrev pub kernel_ready : World → Bool
kernel_ready w =
    w.space.armed
    && (w.cpu_present_frozen
        && (not (w.cpu_present_count == 0)
            && (not (w.facts.timer_freq == 0)
                && (not (w.sig_timer.enabled && (w.sig_timer.owner != Codes.sig_owner_tcb))
                    && (not (w.sig_ipi.enabled && (w.sig_ipi.owner != Codes.sig_owner_tcb))
                        && all_ready w w.cpu_present_count 0)))))

-- How `nxu_s14_freeze` ends on a state for which `kernel_ready` is `b`.
pub data Frozen (w : World) (b : Bool) : Outcome World (Unit {0}) → Type 0 where
  frozen :
      {w' : World}
      → b ≡ true
      → (w'.cpu 0).ctx.life ≡ Codes.ctx_waiting
      → w'.mmu ≡ w.mmu
      → w'.facts ≡ w.facts
      → w'.space ≡ w.space
      → w'.rooms ≡ w.rooms
      → Frozen w b (ok tt w')
  refused :
      {f : Failure} {w' : World}
      → b ≡ false
      → f.code ≡ Codes.fail_invariant
      → Frozen w b (halted f w')

not-not : (b : Bool) → not (not b) ≡ b
not-not true = refl
not-not false = refl

and_true : (b : Bool) → (b && true) ≡ b
and_true true = refl
and_true false = refl

Frozen-after :
    {w : World} {b c : Bool} {o : Outcome World (Unit {0})} (rest : Cmd World (Unit {0}))
    → Checked w b o
    → Frozen w c (rest w)
    → Frozen w (b && c) (and_then o (λ _. rest))
Frozen-after {w} {c = c} rest (passed e) next = subst (λ t. Frozen w (t && c) (rest w)) (sym e) next
Frozen-after {w} {c = c} rest (stopped {f} {w'} e k) next =
    subst (λ t. Frozen w (t && c) (halted f w')) (sym e) (refused refl k)

same_ready :
    (w : World)
    → (not (not w.space.armed)
        && (not (not w.cpu_present_frozen)
            && (not (w.cpu_present_count == 0)
                && (not (w.facts.timer_freq == 0)
                    && (not (w.sig_timer.enabled && (w.sig_timer.owner != Codes.sig_owner_tcb))
                        && (not (w.sig_ipi.enabled && (w.sig_ipi.owner != Codes.sig_owner_tcb))
                            && (all_ready w w.cpu_present_count 0 && true)))))))
      ≡ kernel_ready w
same_ready w =
    rw
      (
        not-not w.space.armed,
        not-not w.cpu_present_frozen,
        and_true (all_ready w w.cpu_present_count 0),
      )
      refl

-- `nxu_s14_freeze` returns exactly when the kernel is ready, with CPU 0 waiting and the tables, the
-- facts, the owners and the rooms as before; otherwise it stops with NXU_FAIL_INVARIANT.
pub s14_freeze-Frozen : (w : World) → Frozen w (kernel_ready w) (s14_freeze w)
unfolding s14_freeze put log
s14_freeze-Frozen w =
    subst (λ t. Frozen w t (s14_freeze w)) (same_ready w)
      (Frozen-after _ (when-Checked (not w.space.armed) 7 0) (
        Frozen-after _ (when-Checked (not w.cpu_present_frozen) 9 0) (
          Frozen-after _ (when-Checked (w.cpu_present_count == 0) 8 0) (
            Frozen-after _ (when-Checked (w.facts.timer_freq == 0) 19 0) (
              Frozen-after _
                (when-Checked (w.sig_timer.enabled && (w.sig_timer.owner != Codes.sig_owner_tcb)) 14
                  w.sig_timer.intid)
                (Frozen-after _
                  (when-Checked (w.sig_ipi.enabled && (w.sig_ipi.owner != Codes.sig_owner_tcb)) 14
                    w.sig_ipi.intid)
                  (Frozen-after _ (freeze_loop-Checked w w.cpu_present_count 0)
                    (frozen refl refl refl refl refl refl))))))))
