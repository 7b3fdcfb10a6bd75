-- ===== src/Time.antt =====
-- foundation/time/time.c: the one-shot deadline of the boot CPU (S11). `meanwhile` is what happens
-- between two reads of the wait.
pub mod Armed
pub mod Fired
pub mod Handled
use nxu.Clock.{cntpct, timer_istatus}
use nxu.Base.{
  ℕ, zero, suc, ◌+◌, ◌-◌, ◌*◌, ◌/◌, ◌%◌, ◌^◌, ◌≡◌, ◌≢◌, ◌⊎◌, inl, inr, refl, Bool, true, false,
  Option, none, some, Bool-cases, ◌==◌, ◌!=◌, if◌then◌else◌, ne_of_==, arith, Cmd, pure, ◌>>=◌,
  ◌>>◌, modify, gets, when, MayHalt, goes_on, halts, MayHalt-and_then, MayHalt-any, MayHalt-stop,
}
use nxu.Codes
use nxu.Hardware.{
  mrs, msr, dsb, daifset, daifclr, daif_reg, isr_el1, cntp_tval_el0, icc_igrpen1_el1,
  icc_hppir1_el1, icc_hppir0_el1,
}
use nxu.Word.{add64}
use nxu.Silicon.{timer_cntpct, timer_enable_el1, timer_ctl_el1, timer_cval_el1, timer_istatus_el1}
use nxu.Silicon.Timer.{timer_tval_el1}
use nxu.Silicon.Gic.{gic_r32, gicr_enable_ppi}
use nxu.Signals.{wait_loop}
use nxu.World.{World, ask, tell, set_cpu, put, log, fail, fail_with}

-- `nxu_timer_program`
unfoldable pub timer_program : ℕ → Cmd World (Unit {0})
unfolding timer_enable_el1
timer_program ticks = timer_enable_el1 (ticks % 2 ^ 32)

-- `nxu_timer_tval`
unfoldable pub timer_tval : Cmd World ℕ
unfolding timer_tval_el1
timer_tval = timer_tval_el1

-- a line of the log about the machine: what, and the value that the command reads
unfoldable pub observe_reg : ℕ → Cmd World ℕ → Cmd World (Unit {0})
unfolding log
observe_reg what read = do v ← read; log Codes.ev_machine Codes.sub_time what v

-- `nxu_timer_observe_delivery`
unfoldable pub timer_observe_delivery : Cmd World (Unit {0})
unfolding observe_reg gic_r32 ask timer_ctl_el1 timer_cval_el1
timer_observe_delivery = do
  rd ← gets (λ w. (w.cpu 0).gicr)
  gicd ← gets (λ w. w.facts.gicd.range.base)
  let sgi = add64 rd 0x10000
  observe_reg Codes.mach_waker (gic_r32 rd 0x14)
  observe_reg Codes.mach_gicd_ctlr (gic_r32 gicd 0)
  observe_reg Codes.mach_igroupr0 (gic_r32 sgi 0x80)
  observe_reg Codes.mach_isenabler0 (gic_r32 sgi 0x100)
  observe_reg Codes.mach_ispendr0 (gic_r32 sgi 0x200)
  observe_reg Codes.mach_igrpmodr0 (gic_r32 sgi 0xd00)
  observe_reg Codes.mach_daif (ask (mrs daif_reg))
  observe_reg Codes.mach_isr (ask (mrs isr_el1))
  observe_reg Codes.mach_cntp_ctl timer_ctl_el1
  observe_reg Codes.mach_cntp_cval timer_cval_el1
  observe_reg Codes.mach_igrpen1 (ask (mrs icc_igrpen1_el1))
  observe_reg Codes.mach_hppir1 (ask (mrs icc_hppir1_el1))
  observe_reg Codes.mach_hppir0 (ask (mrs icc_hppir0_el1))

-- what `nxu_s11_time` does when the deadline has passed unseen: it reports the timer, and halts
unfoldable pub missed : ℕ → Cmd World (Unit {0})
unfolding log observe_reg timer_cntpct timer_tval timer_istatus_el1 timer_observe_delivery fail
missed t0 = do
  log Codes.ev_machine Codes.sub_time Codes.mach_t0 t0
  observe_reg Codes.mach_tnow cntpct
  observe_reg Codes.mach_tval timer_tval
  observe_reg Codes.mach_istatus timer_istatus
  istatus ← timer_istatus
  ppi ← gets (λ w. w.facts.timer_ppi)
  when (istatus != 0) (timer_observe_delivery >> fail Codes.fail_timer ppi 2)
  fail Codes.fail_timer ppi 1

-- the start of `nxu_s11_time`: the signal has its owner, and no interrupt is counted
unfoldable pub own_deadline : Cmd World (Unit {0})
unfolding tell put log
own_deadline = do
  f ← gets (λ w. w.facts)
  modify (λ w. record w {
    sig_timer = record {
      intid = f.timer_ppi;
      owner = Codes.sig_owner_tcb;
      route_cpu = 0;
      enabled = true;
    };
  })
  set_cpu 0 (λ c. record c { timer_fired = 0 })
  tell dsb
  put Codes.rec_s11_freq f.timer_freq 0
  put Codes.rec_s11_ppi f.timer_ppi 0
  log Codes.ev_timer Codes.sub_time f.timer_ppi f.timer_freq

-- what `nxu_s11_time` does next: the timer is programmed; the result is `t0`
unfoldable pub program_deadline : Cmd World ℕ
unfolding tell own_deadline gicr_enable_ppi timer_cntpct timer_program
program_deadline = do
  own_deadline
  f ← gets (λ w. w.facts)
  gicr ← gets (λ w. (w.cpu 0).gicr)
  gicr_enable_ppi gicr f.timer_ppi
  t0 ← cntpct
  timer_program (f.timer_freq / 100)
  tell (msr daifclr 2)
  pure t0

-- the reads of the wait that may find the deadline not yet seen
abbrev pub deadline_spins : ℕ
deadline_spins = 10000000

-- the end of `nxu_s11_time`
unfoldable pub note_fire : ℕ → Cmd World (Unit {0})
unfolding tell put log timer_cntpct
note_fire spins = do
  tell (msr daifset 0xf)
  now ← cntpct
  put Codes.rec_s11_fire spins now
  late ← cntpct
  log Codes.ev_timer_fire Codes.sub_time late spins

-- `nxu_s11_time`
unfoldable pub s11_time : (ℕ → World → World) → Cmd World (Unit {0})
unfolding program_deadline wait_loop missed note_fire
s11_time meanwhile = do
  t0 ← program_deadline
  spins ← wait_loop deadline_spins 0 meanwhile (λ w. (w.cpu 0).timer_fired == 0)
  elim spins [ none ↦ missed t0 | some n ↦ note_fire n ]
