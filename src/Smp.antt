-- ===== src/Smp.antt =====
-- foundation/cpu/smp.c: the other CPUs are started, one after the other (S12), and what each of them
-- runs. `entry` is the address of the entry code of a CPU, in assembly. The wait for a CPU ends at a
-- deadline that the machine's counter says; its loop takes fuel, and `meanwhile` is what happens
-- between two of its reads.
pub mod Online
use nxu.Clock.{cntpct}
use nxu.Base.{
  ℕ, zero, suc, ◌+◌, ◌-◌, ◌*◌, ◌/◌, ◌%◌, ◌^◌, Bool, true, false, not, ◌&&◌, ◌||◌, ltb, leb, ◌==◌,
  ◌!=◌, if◌then◌else◌, Cmd, pure, ◌>>=◌, ◌>>◌, modify, gets, when, update,
}
use nxu.Codes
use nxu.Hardware.{msr, store32, dsb, isb, wfi, vbar_el1, daifclr}
use nxu.Word.{add64, u64_mod}
use nxu.Boot.{Link, control_el}
use nxu.Facts.{set_facts}
use nxu.Space.{mmu_enable}
use nxu.Silicon.{current_el, gic_sgi, timer_cntpct, timer_mask_el1}
use nxu.Silicon.Gic.{gic_icc_enable, gicr_wake, gicr_enable_ppi, gicr_enable_sgi, psci_cpu_on}
use nxu.World.{World, Gate, ask, tell, set_cpu, put, log, log3, fail}

-- a store into the gate of the CPU `id`
abbrev pub set_gate : ℕ → (Gate → Gate) → Cmd World (Unit {0})
set_gate id f = modify (λ w. record w { cpu_gate = update w.cpu_gate id (f (w.cpu_gate id)) })

-- `release`
unfoldable pub release : ℕ → ℕ → Cmd World ℕ
unfolding tell psci_cpu_on
release entry id = do
  f ← gets (λ w. w.facts)
  mpidr ← gets (λ w. (w.cpu id).mpidr)
  if f.pwrc.size != 0
      then (do
        set_gate id (λ g. record g { context = id; mpidr = mpidr })
        tell dsb
        set_gate id (λ g. record g { ready = 1 })
        tell dsb
        tell (store32 (add64 f.pwrc.base 4) (mpidr % 2 ^ 32))
        pure 0)
      else psci_cpu_on f.psci_conduit mpidr entry id

-- the loop of `nxu_s12_smp` that waits for the CPU `id`; the result is false when the fuel is out
unfoldable pub wait_online : ℕ → ℕ → (ℕ → World → World) → ℕ → ℕ → Cmd World Bool
unfolding timer_cntpct fail
wait_online zero round meanwhile id deadline = pure false
wait_online (suc fuel) round meanwhile id deadline = do
  modify (meanwhile round)
  c ← gets (λ w. w.cpu id)
  if c.state == Codes.cpu_online then pure true else (do
    now ← cntpct
    when (ltb deadline now) (fail Codes.fail_timeout id c.mpidr)
    wait_online fuel (round + 1) meanwhile id deadline)

-- the CPU `id` is starting, and the chronicle says so
unfoldable pub mark_starting : ℕ → Cmd World (Unit {0})
unfolding put
mark_starting id = do
  set_cpu id (λ c. record c { state = Codes.cpu_starting })
  mpidr ← gets (λ w. (w.cpu id).mpidr)
  put Codes.rec_s12_on id mpidr

-- the CPU `id` is released
unfoldable pub turn_on : ℕ → ℕ → Cmd World (Unit {0})
unfolding mark_starting release fail
turn_on entry id = do
  mark_starting id
  ret ← release entry id
  when (ret != 0) (fail Codes.fail_psci ret id)

-- the CPU `id` is online, and the log says so
unfoldable pub note_online : ℕ → Bool → Cmd World Bool
unfolding log
note_online id true = do
  mpidr ← gets (λ w. (w.cpu id).mpidr)
  log Codes.ev_cpu_online Codes.sub_cpu mpidr id
  pure true
note_online id false = pure false

-- the body of the loop of `nxu_s12_smp` over the other CPUs
unfoldable pub start_cpu : ℕ → ℕ → (ℕ → World → World) → ℕ → Cmd World Bool
unfolding turn_on timer_cntpct wait_online note_online
start_cpu fuel entry meanwhile id = do
  turn_on entry id
  now ← cntpct
  freq ← gets (λ w. w.facts.timer_freq)
  online ← wait_online fuel 0 meanwhile id ((now + freq * 2) % u64_mod)
  note_online id online

-- the loop over the other CPUs, from `id`
unfoldable pub start_loop : ℕ → ℕ → (ℕ → World → World) → ℕ → ℕ → Cmd World Bool
unfolding start_cpu
start_loop fuel entry meanwhile zero id = pure true
start_loop fuel entry meanwhile (suc rounds) id = do
  online ← start_cpu fuel entry meanwhile id
  if online then start_loop fuel entry meanwhile rounds (id + 1) else pure false

-- the boot CPU is online, and the log says so
unfoldable pub boot_online : Cmd World (Unit {0})
unfolding log
boot_online = do
  set_cpu 0 (λ c. record c { state = Codes.cpu_online })
  mpidr ← gets (λ w. (w.cpu 0).mpidr)
  log Codes.ev_cpu_online Codes.sub_cpu mpidr 0

-- the facts and the space are frozen
abbrev pub freeze_tables : World → World
freeze_tables w = record w {
  facts = record (w.facts) { frozen = true };
  space = record (w.space) { frozen = true };
}

-- the record of the online set
unfoldable pub note_set : ℕ → Bool → Cmd World Bool
unfolding put
note_set count true = do put Codes.rec_s12_online count 0; pure true
note_set count false = pure false

-- the end of `nxu_s12_smp`: the other CPUs, if there are any
unfoldable pub start_others : ℕ → ℕ → (ℕ → World → World) → Cmd World Bool
unfolding start_loop note_set
start_others fuel entry meanwhile = do
  count ← gets (λ w. w.cpu_present_count)
  if leb count 1
      then note_set 1 true
      else (do online ← start_loop fuel entry meanwhile (count - 1) 1; note_set count online)

-- `nxu_s12_smp`; the result is false when the fuel of a wait is out
unfoldable pub s12_smp : ℕ → ℕ → (ℕ → World → World) → Cmd World Bool
unfolding fail boot_online start_others
s12_smp fuel entry meanwhile = do
  modify freeze_tables
  f ← gets (λ w. w.facts)
  when ((f.psci_conduit == Codes.psci_none) && (f.pwrc.size == 0)) (fail Codes.fail_psci 0 0)
  boot_online
  start_others fuel entry meanwhile

-- `nxu_secondary` up to its loop; `vec_full` is the address of `nxu_vec_full`
unfoldable pub secondary : ℕ → ℕ → Cmd World (Unit {0})
unfolding fail log3 current_el mmu_enable tell gic_icc_enable gicr_wake gicr_enable_ppi
    gicr_enable_sgi timer_mask_el1 put
secondary vec_full logical = do
  let id = logical % 2 ^ 32
  count ← gets (λ w. w.cpu_present_count)
  when ((id == 0) || leb count id) (fail Codes.fail_cpu id 4)
  mpidr ← gets (λ w. (w.cpu id).mpidr)
  log3 Codes.ev_cpu Codes.sub_cpu id mpidr Codes.note_cpu_enter
  el ← current_el
  control ← gets control_el
  when ((el != Codes.el1) || (control != Codes.el1)) (fail Codes.fail_bad_el el 1)
  log3 Codes.ev_cpu Codes.sub_cpu id el Codes.note_cpu_el1
  mmu_enable el
  tell (msr vbar_el1 vec_full)
  tell isb
  log3 Codes.ev_cpu Codes.sub_cpu id vec_full Codes.note_cpu_vbar
  gic_icc_enable el
  gicr ← gets (λ w. (w.cpu id).gicr)
  gicr_wake gicr
  ppi ← gets (λ w. w.facts.timer_ppi)
  gicr_enable_ppi gicr ppi
  gicr_enable_sgi gicr Codes.sgi_ipi
  timer_mask_el1
  set_cpu id (λ c. record c { ctx = record (c.ctx) { life = Codes.ctx_waiting } })
  tell dsb
  set_cpu id (λ c. record c { state = Codes.cpu_online })
  tell dsb
  put Codes.rec_sec_enter id mpidr
  tell (msr daifclr 2)

-- a round of the loop of `nxu_secondary`: behind the wait, the CPU answers when it is asked to
unfoldable pub secondary_round : ℕ → Cmd World (Unit {0})
unfolding tell gic_sgi
secondary_round id = do
  tell wfi
  w ← gets (λ w. w)
  when ((w.ipi_echo == id) && ((w.cpu id).ipi_seen != 0))
      (do modify (λ w. record w { ipi_echo = 0 }); tell dsb; gic_sgi Codes.sgi_ipi (w.cpu 0).mpidr)
