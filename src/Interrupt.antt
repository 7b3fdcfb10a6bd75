-- ===== src/Interrupt.antt =====
-- The kernel's own interrupts and exceptions, and its last stage: foundation/exception/exception.c,
-- `nxu_irq_dispatch` of foundation/signal/signal.c and foundation/observe/freeze.c.
pub mod Freeze
use nxu.Clock.{timer_ack}
use nxu.Base.{
  ℕ, ◌&&◌, ◌||◌, not, leb, ◌==◌, ◌!=◌, if◌then◌else◌, Cmd, ◌>>=◌, ◌>>◌, modify, gets, when,
  for_range, update,
}
use nxu.Mmu.{mmu_ttbr, mmu_tcr, mmu_mair}
use nxu.Codes
use nxu.Hardware.{
  mrs, msr, dsb, isb, esr_el1, far_el1, elr_el1, esr_el2, far_el2, elr_el2, esr_el3, far_el3,
  elr_el3, vbar_el1,
}
use nxu.Word.{add32}
use nxu.Observe.{slot_of}
use nxu.Boot.{Link, control_el, context_bind_boot}
use nxu.Silicon.{timer_mask_el1, gic_iar, gic_eoi, current_el}
use nxu.World.{World, Cpu, ExecContext, ask, tell, set_cpu, put, log, log3, fail, this_logical}

abbrev pub set_ctx : ℕ → (ExecContext → ExecContext) → Cmd World (Unit {0})
set_ctx id f = set_cpu id (λ c. record c { ctx = f c.ctx })

-- `nxu_irq_dispatch`
unfoldable pub irq_dispatch : ℕ → Cmd World (Unit {0})
unfolding put tell timer_mask_el1
irq_dispatch intid = do
  id ← gets (λ w. slot_of (this_logical w))
  put Codes.rec_irq intid id
  timer ← gets (λ w. w.sig_timer)
  ipi ← gets (λ w. w.sig_ipi)
  if (intid == timer.intid) && timer.enabled
      then (do
        set_cpu id (λ c. record c { timer_fired = add32 c.timer_fired 1 })
        tell dsb
        timer_ack)
      else if (intid == ipi.intid) && ipi.enabled
      then (do
        set_cpu id (λ c. record c { ipi_seen = add32 c.ipi_seen 1 })
        tell dsb
        put Codes.rec_s13_recv intid id)
      else fail Codes.fail_unbound_irq intid id

-- `nxu_irq_c`
unfoldable pub irq_c : Cmd World (Unit {0})
unfolding gic_iar gic_eoi irq_dispatch
irq_c = do
  intid ← gic_iar
  id ← gets (λ w. slot_of (this_logical w))
  set_ctx id (λ c. record c { intid = intid; daif = 0 })
  if leb 1020 intid && leb intid 1023
      then (do gic_eoi intid; set_ctx id (λ c. record c { intid = 0 }))
      else (do irq_dispatch intid; gic_eoi intid; set_ctx id (λ c. record c { intid = 0 }))

-- `nxu_exception`
unfoldable pub exception : ℕ → Cmd World (Unit {0})
unfolding ask put log3 current_el
exception kind = do
  el ← current_el
  esr ←
      ask (mrs (if el == Codes.el3 then esr_el3 else if el == Codes.el2 then esr_el2 else esr_el1))
  far ←
      ask (mrs (if el == Codes.el3 then far_el3 else if el == Codes.el2 then far_el2 else far_el1))
  elr ←
      ask (mrs (if el == Codes.el3 then elr_el3 else if el == Codes.el2 then elr_el2 else elr_el1))
  id ← gets (λ w. slot_of (this_logical w))
  set_ctx id (λ c. record c { esr = esr; far = far; el = el; life = Codes.ctx_faulted; intid = 0 })
  put Codes.rec_s7_fault esr far
  log3 Codes.ev_fault Codes.sub_exc esr far elr
  if kind == 4 then fail Codes.fail_serror esr far else fail Codes.fail_sync esr far

-- `nxu_s7_exception`
unfoldable pub s7_exception : Link → Cmd World (Unit {0})
unfolding context_bind_boot tell put log
s7_exception link = do
  context_bind_boot
  el ← gets control_el
  when (el != Codes.el1) (fail Codes.fail_bad_el el 3)
  tell (msr vbar_el1 link.vec_full)
  tell isb
  life ← gets (λ w. (w.cpu 0).ctx.life)
  put Codes.rec_s7_ctx 0 life
  put Codes.rec_s7_vbar link.vec_full el
  log Codes.ev_exception Codes.sub_exc link.vec_full el

-- one round of the loop of `nxu_s14_freeze`
unfoldable pub freeze_cpu : ℕ → Cmd World (Unit {0})
freeze_cpu i = do
  c ← gets (λ w. w.cpu i)
  el ← gets control_el
  ttbr ← gets (λ w. mmu_ttbr w.mmu)
  when ((c.state == Codes.cpu_available) || (c.state == Codes.cpu_starting))
      (fail Codes.fail_invariant 28 i)
  when (c.state != Codes.cpu_online) (fail Codes.fail_invariant 12 i)
  when ((c.ctx.life != Codes.ctx_running) && (c.ctx.life != Codes.ctx_waiting))
      (fail Codes.fail_invariant 12 c.ctx.life)
  when (c.ctx.el != el) (fail Codes.fail_invariant 11 c.ctx.el)
  when (c.ctx.ttbr != ttbr) (fail Codes.fail_invariant 26 i)

-- `nxu_s14_freeze`
unfoldable pub s14_freeze : Cmd World (Unit {0})
unfolding freeze_cpu for_range put log
s14_freeze = do
  armed ← gets (λ w. w.space.armed)
  when (not armed) (fail Codes.fail_invariant 7 0)
  frozen ← gets (λ w. w.cpu_present_frozen)
  when (not frozen) (fail Codes.fail_invariant 9 0)
  count ← gets (λ w. w.cpu_present_count)
  when (count == 0) (fail Codes.fail_invariant 8 0)
  f ← gets (λ w. w.facts)
  when (f.timer_freq == 0) (fail Codes.fail_invariant 19 0)
  timer ← gets (λ w. w.sig_timer)
  when (timer.enabled && (timer.owner != Codes.sig_owner_tcb))
      (fail Codes.fail_invariant 14 timer.intid)
  ipi ← gets (λ w. w.sig_ipi)
  when (ipi.enabled && (ipi.owner != Codes.sig_owner_tcb)) (fail Codes.fail_invariant 14 ipi.intid)
  for_range count 0 freeze_cpu
  put Codes.rec_s14_freeze count (f.mem 0).range.base
  log Codes.ev_kernel Codes.sub_boot (f.mem 0).range.base count
  set_ctx 0 (λ c. record c { life = Codes.ctx_waiting })
