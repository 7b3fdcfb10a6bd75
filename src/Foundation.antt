-- ===== src/Foundation.antt =====
-- foundation/enter.c: the stages in their order, and foundation/observe/halt.c. What the other files
-- take as parameters is an `Outside`.
pub mod Staffed
use nxu.Base.{ℕ, Bool, true, false, Cmd, pure, ◌>>=◌, ◌>>◌}
use nxu.Hardware.{msr, wfi, daifset}
use nxu.World.{World, tell}
use nxu.Boot.{Link, s0, s1_intake, s2_contract}
use nxu.Dtb.Stage.{s3_dtb}
use nxu.Facts.Stage.{s4_facts}
use nxu.Space.{s5_ownership, s6_mmu}
use nxu.Interrupt.{s7_exception, s14_freeze}
use nxu.Cpus.{s8_present, s9_init}
use nxu.Signals.{s10_gic, s13_ipi}
use nxu.Time.{s11_time}
use nxu.Smp.{s12_smp}
use nxu.Room.Run.{Life}
use nxu.Room.Suite.{Blobs, rooms_run}

-- what is outside the modelled code: the symbols of the linker and of the assembly files, what the
-- other CPUs and the interrupts do during the waits, and what the rooms do
pub record Outside : Type 0 where
  pub link : Link
  pub stack_of : ℕ → ℕ
  pub sre3 : ℕ
  pub cpu_entry : ℕ
  pub while_timer : ℕ → World → World
  pub while_start : ℕ → World → World
  pub while_ipi : ℕ → World → World
  pub blobs : Blobs
  pub life : Life

-- a stage whose loop takes fuel is followed by the rest only when it has come to its end
unfoldable pub ended_then : Bool → Cmd World Bool → Cmd World Bool
ended_then true rest = rest
ended_then false rest = pure false

-- a round of `nxu_halt`
unfoldable pub halt_round : Cmd World (Unit {0})
unfolding tell
halt_round = do tell (msr daifset 0xf); tell wfi

-- the stages of `nxu_foundation` behind S12
unfoldable pub late_stages : Outside → Cmd World Bool
unfolding s13_ipi s14_freeze rooms_run halt_round
late_stages o = do
  s13_ipi o.while_ipi
  s14_freeze
  rooms_run o.blobs o.link o.life
  halt_round
  pure true

-- the stages from S4 to S9
unfoldable pub setup_stages : Outside → Cmd World (Unit {0})
setup_stages o = do
  s4_facts
  s5_ownership
  s6_mmu
  s7_exception o.link
  s8_present
  s9_init o.stack_of

-- the stages from S3 to S9; the result is false when the fuel of S3 is out
unfoldable pub admit_stages : ℕ → Outside → Cmd World Bool
unfolding ended_then setup_stages
admit_stages dtb_fuel o = do ended ← s3_dtb dtb_fuel; ended_then ended (setup_stages o >> pure true)

-- the stages from S10 on
unfoldable pub middle_stages : ℕ → Outside → Cmd World Bool
unfolding s10_gic s11_time s12_smp late_stages ended_then
middle_stages smp_fuel o = do
  s10_gic o.sre3
  s11_time o.while_timer
  online ← s12_smp smp_fuel o.cpu_entry o.while_start
  ended_then online (late_stages o)

-- `nxu_foundation`, up to the first round of `nxu_halt`; the result is false when the fuel of S3 or of
-- S12 is out
unfoldable pub foundation : ℕ → ℕ → Outside → Cmd World Bool
unfolding s0 s1_intake s2_contract admit_stages middle_stages ended_then
foundation dtb_fuel smp_fuel o = do
  s0 o.link
  s1_intake
  s2_contract
  ended ← admit_stages dtb_fuel o
  ended_then ended (middle_stages smp_fuel o)
