-- ===== src/Silicon/Timer.antt =====
-- silicon/aarch64/timer/timer.c and translate/mmu.c: the operations that no other code calls at EL1:
-- the timer of EL2, the value of the EL1 timer, and an address translation.
use nxu.Base.{ℕ, ◌/◌, ◌%◌, Cmd, pure, ◌>>=◌, ◌>>◌}
use nxu.Hardware.{mrs, msr, isb, at_s1e1r, par_el1, cntp_tval_el0, cnthp_tval_el2, cnthp_ctl_el2}
use nxu.World.{World, ask, tell}

-- `nxu_timer_tval_el1`
unfoldable pub timer_tval_el1 : Cmd World ℕ
unfolding ask
timer_tval_el1 = ask (mrs cntp_tval_el0)

-- `nxu_timer_enable_el2`
timer_enable_el2 : ℕ → Cmd World (Unit {0})
unfolding tell
timer_enable_el2 ticks = do tell (msr cnthp_tval_el2 ticks); tell (msr cnthp_ctl_el2 1); tell isb

-- `nxu_timer_ctl_el2`
timer_ctl_el2 : Cmd World ℕ
unfolding ask
timer_ctl_el2 = ask (mrs cnthp_ctl_el2)

-- `nxu_timer_tval_el2`
timer_tval_el2 : Cmd World ℕ
unfolding ask
timer_tval_el2 = ask (mrs cnthp_tval_el2)

-- `nxu_timer_istatus_el2`
timer_istatus_el2 : Cmd World ℕ
unfolding ask
timer_istatus_el2 = do ctl ← ask (mrs cnthp_ctl_el2); pure (ctl / 4 % 2)

-- `nxu_timer_mask_el2`
timer_mask_el2 : Cmd World (Unit {0})
unfolding tell
timer_mask_el2 = do tell (msr cnthp_ctl_el2 3); tell isb

-- `nxu_mmu_probe`
mmu_probe : ℕ → Cmd World ℕ
unfolding ask tell
mmu_probe va = do tell (at_s1e1r va); par ← ask (mrs par_el1); tell isb; pure par
