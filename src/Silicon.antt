-- ===== src/Silicon.antt =====
-- The register operations of silicon/aarch64 that the components call: translate/mmu.c
-- (`nxu_mmu_tlbi`), timer/timer.c and gicv3/gicv3.c.
pub mod Gic
pub mod Uart
pub mod Timer
pub mod Drain
use Prim.Native.Nat.{bit_or}
use nxu.Base.{ℕ, ◌*◌, ◌/◌, ◌%◌, ◌^◌, Cmd, pure, ◌>>=◌, ◌>>◌}
use nxu.Hardware.{
  current_el_reg, mrs, msr, store32, tlbi_vmalle1, dsb, isb, cntpct_el0, cntfrq_el0, cntp_tval_el0,
  cntp_cval_el0, cntp_ctl_el0, icc_iar1_el1, icc_eoir1_el1, icc_sgi1r_el1,
}
use nxu.Word.{add64}
use nxu.World.{World, ask, tell}

-- `nxu_current_el`
unfoldable pub current_el : Cmd World ℕ
unfolding ask
current_el = do v ← ask (mrs current_el_reg); pure (v / 2 ^ 2 % 4)

-- `nxu_mmu_tlbi`
unfoldable pub mmu_tlbi : Cmd World (Unit {0})
unfolding tell
mmu_tlbi = do tell tlbi_vmalle1; tell dsb; tell isb

-- `nxu_timer_cntpct`
unfoldable pub timer_cntpct : Cmd World ℕ
unfolding tell ask
timer_cntpct = do tell isb; ask (mrs cntpct_el0)

-- `nxu_timer_cntfrq`
unfoldable pub timer_cntfrq : Cmd World ℕ
unfolding ask
timer_cntfrq = ask (mrs cntfrq_el0)

-- `nxu_timer_enable_el1`
unfoldable pub timer_enable_el1 : ℕ → Cmd World (Unit {0})
unfolding tell
timer_enable_el1 ticks = do tell (msr cntp_tval_el0 ticks); tell (msr cntp_ctl_el0 1); tell isb

-- `nxu_timer_ctl_el1`
unfoldable pub timer_ctl_el1 : Cmd World ℕ
unfolding ask
timer_ctl_el1 = ask (mrs cntp_ctl_el0)

-- `nxu_timer_cval_el1`
unfoldable pub timer_cval_el1 : Cmd World ℕ
unfolding ask
timer_cval_el1 = ask (mrs cntp_cval_el0)

-- `nxu_timer_istatus_el1`
unfoldable pub timer_istatus_el1 : Cmd World ℕ
unfolding ask
timer_istatus_el1 = do ctl ← ask (mrs cntp_ctl_el0); pure (ctl / 4 % 2)

-- `nxu_timer_mask_el1`
unfoldable pub timer_mask_el1 : Cmd World (Unit {0})
unfolding tell
timer_mask_el1 = do tell (msr cntp_ctl_el0 3); tell isb

-- `nxu_gic_iar`
unfoldable pub gic_iar : Cmd World ℕ
unfolding ask
gic_iar = do v ← ask (mrs icc_iar1_el1); pure (v % 2 ^ 32)

-- `nxu_gic_eoi`
unfoldable pub gic_eoi : ℕ → Cmd World (Unit {0})
unfolding tell
gic_eoi intid = do tell (msr icc_eoir1_el1 intid); tell isb

-- The value that `nxu_gic_sgi` writes. The fields that it joins overlap for an `intid` of 2 ^ 8 or
-- an `aff0` of 16 and more, so they are joined by `|` as in the source.
unfoldable pub sgi_value : ℕ → ℕ → ℕ
sgi_value intid mpidr =
    let aff0 = mpidr % 256 in
    let aff1 = mpidr / 2 ^ 8 % 256 in
    let aff2 = mpidr / 2 ^ 16 % 256 in
    let aff3 = mpidr / 2 ^ 32 % 256 in
    bit_or
      (bit_or (bit_or (bit_or (aff3 * 2 ^ 48) (aff2 * 2 ^ 32)) (aff1 * 2 ^ 16)) (intid * 2 ^ 24))
      (2 ^ (aff0 % 64))

-- `nxu_gic_sgi`
unfoldable pub gic_sgi : ℕ → ℕ → Cmd World (Unit {0})
unfolding tell sgi_value
gic_sgi intid mpidr = do tell dsb; tell (msr icc_sgi1r_el1 (sgi_value intid mpidr)); tell isb

-- `nxu_gicr_clear_pending`
unfoldable pub gicr_clear_pending : ℕ → ℕ → Cmd World (Unit {0})
unfolding tell
gicr_clear_pending gicr intid = do
  tell (store32 (add64 (add64 gicr 0x10000) 0x280) (2 ^ (intid % 32)))
  tell dsb
