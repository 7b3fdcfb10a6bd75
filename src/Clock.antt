-- ===== src/Clock.antt =====
-- foundation/time/time.c: the names by which the kernel asks the timer, each a call of
-- silicon/aarch64/timer/timer.c.
use nxu.Base.{ℕ, Cmd}
use nxu.Silicon.{timer_cntpct, timer_cntfrq, timer_istatus_el1, timer_mask_el1}
use nxu.World.{World}

-- `nxu_cntpct`
abbrev pub cntpct : Cmd World ℕ
cntpct = timer_cntpct

-- `nxu_cntfrq`
abbrev pub cntfrq : Cmd World ℕ
cntfrq = timer_cntfrq

-- `nxu_timer_istatus`
abbrev pub timer_istatus : Cmd World ℕ
timer_istatus = timer_istatus_el1

-- `nxu_timer_ack`
abbrev pub timer_ack : Cmd World (Unit {0})
timer_ack = timer_mask_el1
