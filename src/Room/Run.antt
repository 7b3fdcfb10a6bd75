-- ===== src/Room/Run.antt =====
-- `run` of foundation/room/room.c and the checks that the kernel makes of a run. What a room does is the
-- parameter `life`: its events, given the world at its entry and the two arguments that the entry code
-- of foundation/room/room_entry.S passes to it.
use nxu.Base.{
  ℕ, ◌+◌, ◌*◌, ◌/◌, Bool, true, false, not, ◌||◌, List, ltb, leb, ◌==◌, ◌!=◌, if◌then◌else◌, Cmd,
  pure, ◌>>=◌, ◌>>◌, modify, gets, when,
}
use nxu.Codes
use nxu.Hardware.{msr, dsb, isb, daifset, cntp_cval_el0, cntp_tval_el0, cntp_ctl_el0}
use nxu.Word.{add64, has_bit}
use nxu.Observe.{slot_of}
use nxu.Mmu.{mmu_leaf}
use nxu.World.{World, tell, log, fail, in_mmu, word_at, store_word, this_logical}
use nxu.Silicon.{
  mmu_tlbi, timer_cval_el1, timer_cntpct, timer_cntfrq, timer_istatus_el1, timer_ctl_el1, gic_sgi,
  gicr_clear_pending,
}
use nxu.Room.{
  exit_svc, exit_fault, set_rooms, priv, user_open, clear_page, copy_blob, consume, Event, interval,
}

-- the events of a room entered with these values of `data` and `fault_addr`
abbrev pub Life : Type 0
Life = World → ℕ → ℕ → List Event

-- the part of `run` that arms the timer
unfoldable pub arm : Bool → Cmd World (Unit {0})
unfolding tell timer_cntpct timer_cntfrq timer_cval_el1 timer_istatus_el1 timer_ctl_el1 gic_sgi
    gicr_clear_pending log
arm poke = do
  tell (msr daifset 0xf)
  ticks ← gets (λ w. w.facts.timer_freq / 10)
  when ((ticks == 0) || ltb 0x7fffffff ticks) (fail Codes.fail_timer ticks 8)
  now ← timer_cntpct
  tell (msr cntp_cval_el0 (add64 now ticks))
  tell isb
  tell (msr cntp_tval_el0 ticks)
  tell isb
  tell (msr cntp_ctl_el0 1)
  tell isb
  me ← gets (λ w. slot_of (this_logical w))
  cpu ← gets (λ w. w.cpu me)
  ppi ← gets (λ w. w.facts.timer_ppi)
  when (cpu.gicr != 0) (gicr_clear_pending cpu.gicr ppi)
  when poke (gic_sgi Codes.sgi_ipi cpu.mpidr)
  cval ← timer_cval_el1
  now' ← timer_cntpct
  fired ← (if leb cval now' then pure true else do status ← timer_istatus_el1; pure (status != 0))
  when fired (do
    frq ← timer_cntfrq
    log Codes.ev_machine Codes.sub_time Codes.mach_t0 frq
    log Codes.ev_machine Codes.sub_time Codes.mach_tval ticks
    v ← timer_cval_el1
    log Codes.ev_machine Codes.sub_time Codes.mach_cntp_cval v
    n ← timer_cntpct
    log Codes.ev_machine Codes.sub_time Codes.mach_tnow n
    c ← timer_ctl_el1
    log Codes.ev_machine Codes.sub_time Codes.mach_cntp_ctl c
    c' ← timer_ctl_el1
    fail Codes.fail_timer c' 9)
  v ← timer_cval_el1
  set_rooms (λ r. record r { armed_cval = v })

-- `run`
unfoldable pub run : Life → ℕ → List ℕ → ℕ → Bool → Bool → Cmd World (Unit {0})
unfolding consume clear_page priv copy_blob user_open arm log interval tell
run life id src fault wipe poke = do
  consume id
  dat ← gets (λ w. w.rooms.data_pa id)
  when wipe (clear_page dat)
  priv id
  code ← gets (λ w. w.rooms.code_pa id)
  copy_blob code src
  set_rooms (λ r. record r { cur = id })
  user_open id
  arm poke
  log Codes.ev_room Codes.sub_cpu id 6
  events ← gets (λ w. life w dat fault)
  interval events
  tell dsb

-- `expect`
unfoldable pub expect : ℕ → Cmd World (Unit {0})
expect reason = do
  r ← gets (λ w. w.rooms.reason)
  when (r != reason) (fail Codes.fail_invariant r reason)

-- `check_time`
unfoldable pub check_time : Bool → Cmd World (Unit {0})
unfolding timer_cntpct
check_time hit = do
  now ← timer_cntpct
  cval ← gets (λ w. w.rooms.armed_cval)
  if hit
      then when (ltb now cval) (fail Codes.fail_timer now cval)
      else when (leb cval now) (fail Codes.fail_timer now cval)

-- `slot(id)[i]`
abbrev pub slot_word : World → ℕ → ℕ → ℕ
slot_word w id i = word_at w.mem (w.rooms.data_pa id + 8 * i)

-- `plant`
unfoldable pub plant : ℕ → ℕ → Cmd World (Unit {0})
unfolding store_word
plant id val = modify (λ w. record w { mem = store_word w.mem (w.rooms.data_pa id + 32) val })

-- `same`
unfoldable pub same : ℕ → ℕ → Cmd World (Unit {0})
unfolding word_at
same id val = do v ← gets (λ w. slot_word w id 4); when (v != val) (fail Codes.fail_invariant v val)

-- `el0_visible`
abbrev pub el0_visible : ℕ → Bool
el0_visible leaf = has_bit leaf 6

-- `check_boundary`
unfoldable pub check_boundary : Cmd World (Unit {0})
unfolding user_open priv mmu_tlbi log in_mmu
check_boundary = do
  user_open 0
  base ← gets (λ w. w.image.base)
  r ← gets (λ w. w.rooms)
  kernel ← in_mmu (mmu_leaf base)
  code0 ← in_mmu (mmu_leaf (r.code_pa 0))
  data0 ← in_mmu (mmu_leaf (r.data_pa 0))
  code1 ← in_mmu (mmu_leaf (r.code_pa 1))
  data1 ← in_mmu (mmu_leaf (r.data_pa 1))
  priv 0
  mmu_tlbi
  when (not (has_bit kernel 54) || el0_visible kernel) (fail Codes.fail_invariant kernel 31)
  when (not (el0_visible code0) || has_bit code0 54) (fail Codes.fail_invariant code0 32)
  when (not (el0_visible data0) || not (has_bit data0 54)) (fail Codes.fail_invariant data0 33)
  when (el0_visible code1 || el0_visible data1) (fail Codes.fail_invariant code1 40)
  log Codes.ev_bound Codes.sub_space 0 0
  log Codes.ev_room Codes.sub_cpu 0 1
  log Codes.ev_room Codes.sub_cpu 1 1

-- `contained`
unfoldable pub contained : ℕ → Cmd World (Unit {0})
unfolding expect check_time log
contained id = do expect exit_fault; check_time false; log Codes.ev_room Codes.sub_cpu id 4

-- `early_svc`
unfoldable pub early_svc : Cmd World (Unit {0})
unfolding expect check_time
early_svc = do expect exit_svc; check_time false
