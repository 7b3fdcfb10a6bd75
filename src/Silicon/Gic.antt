-- ===== src/Silicon/Gic.antt =====
-- silicon/aarch64/gicv3/gicv3.c: the registers of the distributor, the redistributors and the CPU
-- interface, and silicon/aarch64/psci/psci.c. A loop that polls a register a bounded number of times
-- counts down.
use nxu.Base.{
  ℕ, zero, suc, ◌+◌, ◌-◌, ◌*◌, ◌/◌, ◌%◌, ◌^◌, ◌==◌, if◌then◌else◌, Cmd, pure, ◌>>=◌, ◌>>◌, when,
}
use nxu.Hardware.{
  msr, load32, load64, store32, hvc, smc, dsb, isb, icc_sre_el1, icc_sre_el2, icc_pmr_el1,
  icc_bpr1_el1, icc_igrpen1_el1,
}
use nxu.Word.{add64}
use nxu.World.{World, ask, tell}

-- `nxu_gic_r32`
unfoldable pub gic_r32 : ℕ → ℕ → Cmd World ℕ
unfolding ask
gic_r32 base off = ask (load32 (add64 base off))

-- `nxu_gic_w32`
unfoldable pub gic_w32 : ℕ → ℕ → ℕ → Cmd World (Unit {0})
unfolding tell
gic_w32 base off v = tell (store32 (add64 base off) v)

-- `nxu_gic_r64`
unfoldable pub gic_r64 : ℕ → ℕ → Cmd World ℕ
unfolding ask
gic_r64 base off = ask (load64 (add64 base off))

-- `nxu_gic_icc_sre_el2`
unfoldable pub gic_icc_sre_el2 : Cmd World (Unit {0})
unfolding tell
gic_icc_sre_el2 = do tell (msr icc_sre_el2 7); tell isb

-- `nxu_gic_icc_sre_el1`
unfoldable pub gic_icc_sre_el1 : Cmd World (Unit {0})
unfolding tell
gic_icc_sre_el1 = do tell (msr icc_sre_el1 7); tell isb

-- `nxu_gic_icc_pmr`
unfoldable pub gic_icc_pmr : ℕ → Cmd World (Unit {0})
unfolding tell
gic_icc_pmr v = tell (msr icc_pmr_el1 v)

-- `nxu_gic_icc_bpr`
unfoldable pub gic_icc_bpr : ℕ → Cmd World (Unit {0})
unfolding tell
gic_icc_bpr v = tell (msr icc_bpr1_el1 v)

-- `nxu_gic_icc_igrpen`
unfoldable pub gic_icc_igrpen : Cmd World (Unit {0})
unfolding tell
gic_icc_igrpen = tell (msr icc_igrpen1_el1 1)

-- `nxu_gic_icc_enable`
unfoldable pub gic_icc_enable : ℕ → Cmd World (Unit {0})
unfolding tell gic_icc_sre_el2 gic_icc_sre_el1 gic_icc_pmr gic_icc_bpr gic_icc_igrpen
gic_icc_enable el = do
  when (el == 2) gic_icc_sre_el2
  gic_icc_sre_el1
  gic_icc_pmr 0xff
  gic_icc_bpr 0
  gic_icc_igrpen
  tell isb

-- `nxu_gicd_enable`
unfoldable pub gicd_enable : ℕ → Cmd World (Unit {0})
unfolding tell gic_w32
gicd_enable gicd = do gic_w32 gicd 0 (2 ^ 4); tell dsb; gic_w32 gicd 0 (2 ^ 1 + 2 ^ 4); tell dsb

-- `GICR_SYNCR` is read until its low bit is set, `left` times more at most
unfoldable pub sync_loop : ℕ → ℕ → Cmd World (Unit {0})
unfolding gic_r32
sync_loop zero gicr = do gic_r32 gicr 0xc0; pure tt
sync_loop (suc left) gicr = do v ← gic_r32 gicr 0xc0; when (v % 2 == 0) (sync_loop left gicr)

-- `gicr_frame_sync`
unfoldable pub gicr_frame_sync : ℕ → Cmd World (Unit {0})
unfolding sync_loop
gicr_frame_sync gicr = sync_loop 100000 gicr

-- `gicr_frame_enable`
unfoldable pub gicr_frame_enable : ℕ → ℕ → Cmd World (Unit {0})
unfolding tell gic_r32 gic_w32 gicr_frame_sync
gicr_frame_enable gicr intid = do
  let frame = add64 gicr 0x10000
  let pri_off = 0x400 + (intid - intid % 4)
  let at = intid % 4 * 8
  gic_w32 frame 0x80 0xffffffff
  pri ← gic_r32 frame pri_off
  gic_w32 frame pri_off (pri - pri / 2 ^ at % 2 ^ 8 * 2 ^ at + 0x80 * 2 ^ at)
  gic_w32 frame 0x100 (2 ^ (intid % 32))
  tell dsb
  gicr_frame_sync gicr

-- `nxu_gicr_enable_ppi`
unfoldable pub gicr_enable_ppi : ℕ → ℕ → Cmd World (Unit {0})
unfolding gicr_frame_enable
gicr_enable_ppi gicr intid = gicr_frame_enable gicr intid

-- `nxu_gicr_enable_sgi`
unfoldable pub gicr_enable_sgi : ℕ → ℕ → Cmd World (Unit {0})
unfolding gicr_frame_enable
gicr_enable_sgi gicr intid = gicr_frame_enable gicr intid

-- `GICR_WAKER` is read until ChildrenAsleep is clear, `left` times more at most
unfoldable pub wake_loop : ℕ → ℕ → Cmd World (Unit {0})
unfolding gic_r32
wake_loop zero gicr = do gic_r32 gicr 0x14; pure tt
wake_loop (suc left) gicr = do
  v ← gic_r32 gicr 0x14
  when (v / 2 ^ 2 % 2 == 1) (wake_loop left gicr)

-- ProcessorSleep is cleared
unfoldable pub clear_sleep : ℕ → Cmd World (Unit {0})
unfolding tell gic_r32 gic_w32
clear_sleep gicr = do
  v ← gic_r32 gicr 0x14
  gic_w32 gicr 0x14 (v - v / 2 % 2 * 2)
  gic_w32 gicr 0x14 0
  tell dsb

-- `nxu_gicr_wake`
unfoldable pub gicr_wake : ℕ → Cmd World (Unit {0})
unfolding clear_sleep gicr_frame_sync wake_loop
gicr_wake gicr = do clear_sleep gicr; gicr_frame_sync gicr; wake_loop 10000 gicr

-- `nxu_gicr_typer`
unfoldable pub gicr_typer : ℕ → Cmd World ℕ
unfolding gic_r64
gicr_typer gicr = gic_r64 gicr 0x08

-- `nxu_gicd_iidr`
unfoldable pub gicd_iidr : ℕ → Cmd World ℕ
unfolding gic_r32
gicd_iidr gicd = gic_r32 gicd 0x08

-- `nxu_gicd_typer`
unfoldable pub gicd_typer : ℕ → Cmd World ℕ
unfolding gic_r32
gicd_typer gicd = gic_r32 gicd 0x04

-- `PSCI_CPU_ON_64`
abbrev pub psci_cpu_on_64 : ℕ
psci_cpu_on_64 = 0xc4000003

-- `nxu_psci_cpu_on`
unfoldable pub psci_cpu_on : ℕ → ℕ → ℕ → ℕ → Cmd World ℕ
unfolding ask
psci_cpu_on conduit mpidr entry ctx =
    if conduit == 2
    then ask (hvc psci_cpu_on_64 mpidr entry ctx)
    else ask (smc psci_cpu_on_64 mpidr entry ctx)
