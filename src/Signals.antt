-- ===== src/Signals.antt =====
-- foundation/signal/signal.c: the interrupt controller (S10) and the interprocessor interrupts (S13).
-- The dispatch of an interrupt is in Interrupt.antt. A loop that waits for another CPU, or for an
-- interrupt of its own, takes what happens between two of its reads as the parameter `meanwhile`: any
-- function of the number of the read and of the state.
pub mod Redist
pub mod Waiting
pub mod Handled
use Prim.Native.Nat.{bit_or}
use nxu.Base.{
  ℕ, zero, suc, ◌+◌, ◌-◌, ◌*◌, ◌/◌, ◌%◌, ◌^◌, Bool, true, false, not, ◌&&◌, ◌||◌, Option, none,
  some, ltb, leb, ◌==◌, ◌!=◌, if◌then◌else◌, ok, Cmd, pure, ◌>>=◌, ◌>>◌, modify, gets, when,
  for_range,
}
use nxu.Codes
use nxu.Hardware.{dsb, isb, msr, daifclr}
use nxu.Word.{add32, add64}
use nxu.Boot.{control_el}
use nxu.Facts.{set_facts}
use nxu.Silicon.{gic_sgi}
use nxu.Silicon.Gic.{
  gic_icc_sre_el1, gic_icc_pmr, gic_icc_bpr, gic_icc_igrpen, gicd_enable, gicr_wake,
  gicr_enable_sgi, gicr_typer, gicd_iidr, gicd_typer,
}
use nxu.World.{World, Facts, CtlFact, Cpu, tell, set_cpu, put, log, log3, fail}

-- `NXU_GICR_STRIDE`
abbrev pub gicr_stride : ℕ
gicr_stride = 0x20000

-- the affinity of a CPU as GICR_TYPER holds it
abbrev pub typer_affinity : ℕ → ℕ
typer_affinity mpidr = mpidr % 2 ^ 24 + mpidr / 2 ^ 32 % 2 ^ 8 * 2 ^ 24

-- the loop of a round of `nxu_s10_gic` over the present set: the frame goes to each CPU of its
-- affinity; the result is `found`
unfoldable pub match_loop : ℕ → ℕ → ℕ → ℕ → Bool → Cmd World Bool
unfolding log3
match_loop zero i gicr aff found = pure found
match_loop (suc rounds) i gicr aff found = do
  mpidr ← gets (λ w. (w.cpu i).mpidr)
  if typer_affinity mpidr == aff
      then (do
        set_cpu i (λ c. record c { gicr = gicr })
        log3 Codes.ev_cpu Codes.sub_gic i aff Codes.note_cpu_gic
        match_loop rounds (i + 1) gicr aff true)
      else match_loop rounds (i + 1) gicr aff found

-- what a round of `nxu_s10_gic` records
unfoldable pub note_redist : ℕ → Bool → Cmd World (Unit {0})
unfolding put log3
note_redist aff found = do
  put Codes.rec_s10_rdist aff (if found then 1 else 0)
  when (not found) (log3 Codes.ev_cpu Codes.sub_gic aff 0 Codes.note_cpu_rdist)

-- a round of `nxu_s10_gic` at the frame `gicr`: is it the last, and is it that of a CPU?
unfoldable pub redist : ℕ → Cmd World (Bool × Bool)
unfolding gicr_typer match_loop note_redist
redist gicr = do
  t ← gicr_typer gicr
  let aff = t / 2 ^ 32 % 2 ^ 32
  count ← gets (λ w. w.cpu_present_count)
  found ← match_loop count 0 gicr aff false
  note_redist aff found
  pure (t / 2 ^ 4 % 2 == 1, found)

-- the loop of `nxu_s10_gic` over the frames, with `left` frames of the region behind this one; the
-- round behind the region's last frame halts, whatever it reads. The result is `nrd`.
unfoldable pub redist_loop : ℕ → ℕ → ℕ → Cmd World ℕ
unfolding redist fail
redist_loop zero gicr nrd = do
  (last, found) ← redist gicr
  fail Codes.fail_gic (if found then nrd + 1 else nrd) 0
redist_loop (suc left) gicr nrd = do
  (last, found) ← redist gicr
  let nrd' = if found then nrd + 1 else nrd
  if last then pure nrd' else redist_loop left (add64 gicr gicr_stride) nrd'

-- every present CPU has its frame
unfoldable pub check_redist : ℕ → Cmd World (Unit {0})
unfolding fail
check_redist i = do c ← gets (λ w. w.cpu i); when (c.gicr == 0) (fail Codes.fail_gic c.mpidr 2)

-- the CPU interface and the distributor are enabled
unfoldable pub enable_interface : ℕ → Cmd World (Unit {0})
unfolding gic_icc_sre_el1 gic_icc_pmr gic_icc_bpr gic_icc_igrpen tell gicd_enable
enable_interface gicd = do
  el ← gets control_el
  when (el == Codes.el1) gic_icc_sre_el1
  gic_icc_pmr 0xff
  gic_icc_bpr 0
  gic_icc_igrpen
  tell isb
  gicd_enable gicd

-- the end of `nxu_s10_gic`: with the frame of the boot CPU awake, the present set is frozen
unfoldable pub enable_gic : ℕ → ℕ → ℕ → Cmd World (Unit {0})
unfolding enable_interface gicr_wake log put
enable_gic gicd nrd sre3 = do
  enable_interface gicd
  boot ← gets (λ w. (w.cpu 0).gicr)
  gicr_wake boot
  log Codes.ev_gic_init Codes.sub_gic boot sre3
  modify (λ w. record w { cpu_present_frozen = true })
  put Codes.rec_s10_freeze nrd boot

-- the start of `nxu_s10_gic`: the distributor answers, and its fact is corroborated
unfoldable pub observe_gicd : ℕ → Cmd World (Unit {0})
unfolding gicd_iidr gicd_typer put log
observe_gicd gicd = do
  iidr ← gicd_iidr gicd
  typer ← gicd_typer gicd
  put Codes.rec_s10_gic iidr typer
  log Codes.ev_gic Codes.sub_gic gicd typer
  set_facts (λ f. record f {
    gicd = record (f.gicd) {
      grade = if f.gicd.grade == Codes.grade_single then Codes.grade_corroborated else f.gicd.grade;
      source = bit_or f.gicd.source Codes.src_obs;
    };
  })

-- `nxu_s10_gic`; `sre3` is `nxu_icc_sre3_obs[7]`, which the entry code in assembly stores
unfoldable pub s10_gic : ℕ → Cmd World (Unit {0})
unfolding observe_gicd redist_loop check_redist for_range fail enable_gic
s10_gic sre3 = do
  gicd ← gets (λ w. w.facts.gicd.range.base)
  gicr ← gets (λ w. w.facts.gicr.range)
  observe_gicd gicd
  nrd ← redist_loop (gicr.size / gicr_stride) gicr.base 0
  count ← gets (λ w. w.cpu_present_count)
  when (nrd != count) (fail Codes.fail_gic nrd count)
  for_range count 0 check_redist
  enable_gic gicd nrd sre3

-- a loop that reads a value until it is no longer pending, `left` times more at most, with `spins`
-- reads made; the result is the number of the reads that found it pending, or none when all did
unfoldable pub wait_loop : ℕ → ℕ → (ℕ → World → World) → (World → Bool) → Cmd World (Option ℕ)
wait_loop zero spins meanwhile pending w =
    let w' = meanwhile spins w in ok (if pending w' then none else some spins) w'
wait_loop (suc left) spins meanwhile pending w =
    let w' = meanwhile spins w in
    elim (pending w') [
      | true ↦ wait_loop left (spins + 1) meanwhile pending w'
      | false ↦ ok (some spins) w'
    ]

-- the reads of a wait for an interprocessor interrupt that may find it pending
abbrev pub ipi_spins : ℕ
ipi_spins = 1000000

-- the wait for an interrupt at the CPU `id`, whose counter was `before`; without one it halts with `a`
-- and `b`
unfoldable pub wait_ipi : (ℕ → World → World) → ℕ → ℕ → ℕ → ℕ → Cmd World (Unit {0})
unfolding wait_loop fail
wait_ipi meanwhile id before a b = do
  spins ← wait_loop ipi_spins 0 meanwhile (λ w. (w.cpu id).ipi_seen == before)
  elim spins [ none ↦ fail Codes.fail_timeout a b | some _ ↦ pure tt ]

-- `ipi_to`
unfoldable pub ipi_to : (ℕ → World → World) → ℕ → ℕ → Cmd World (Unit {0})
unfolding log3 gic_sgi wait_ipi put
ipi_to meanwhile src dst = do
  c ← gets (λ w. w.cpu dst)
  log3 Codes.ev_ipi Codes.sub_smp src dst Codes.ipi_send
  gic_sgi Codes.sgi_ipi c.mpidr
  wait_ipi meanwhile dst c.ipi_seen dst src
  log3 Codes.ev_ipi Codes.sub_smp src dst Codes.ipi_recv
  put Codes.rec_s13_ipi src dst

-- `other_cluster`
unfoldable pub other_cluster : (ℕ → Cpu) → ℕ → Bool
other_cluster cpu id = (cpu id).mpidr / 2 ^ 16 % 2 ^ 8 != (cpu 0).mpidr / 2 ^ 16 % 2 ^ 8

-- the loop of `nxu_s13_ipi` over the other CPUs; the result is `echo` and `cross`
unfoldable pub ipi_loop : (ℕ → World → World) → ℕ → ℕ → ℕ → ℕ → Cmd World (ℕ × ℕ)
unfolding ipi_to other_cluster
ipi_loop meanwhile zero i echo cross = pure (echo, cross)
ipi_loop meanwhile (suc rounds) i echo cross = do
  cpu ← gets (λ w. w.cpu)
  ipi_to meanwhile 0 i
  ipi_loop meanwhile rounds (i + 1) (if echo == 0 then i else echo)
      (if (cross == 0) && other_cluster cpu i then i else cross)

-- the CPU `id` is asked to answer, and the boot CPU waits for the answer
unfoldable pub echo_from : (ℕ → World → World) → ℕ → Cmd World (Unit {0})
unfolding tell ipi_to wait_ipi log3
echo_from meanwhile id = do
  before ← gets (λ w. (w.cpu 0).ipi_seen)
  modify (λ w. record w { ipi_echo = id })
  tell dsb
  ipi_to meanwhile 0 id
  wait_ipi meanwhile 0 before id 0
  log3 Codes.ev_ipi Codes.sub_smp id 0 Codes.ipi_send
  log3 Codes.ev_ipi Codes.sub_smp id 0 Codes.ipi_recv

-- `nxu_s13_ipi`
unfoldable pub s13_ipi : (ℕ → World → World) → Cmd World (Unit {0})
unfolding gicr_enable_sgi tell ipi_to ipi_loop echo_from log
s13_ipi meanwhile = do
  modify (λ w. record w {
    sig_ipi = record {
      intid = Codes.sgi_ipi;
      owner = Codes.sig_owner_tcb;
      route_cpu = 0;
      enabled = true;
    };
  })
  gicr ← gets (λ w. (w.cpu 0).gicr)
  gicr_enable_sgi gicr Codes.sgi_ipi
  tell (msr daifclr 2)
  set_cpu 0 (λ c. record c { ipi_seen = 0 })
  ipi_to meanwhile 0 0
  count ← gets (λ w. w.cpu_present_count)
  (echo, cross) ← ipi_loop meanwhile (count - 1) 1 0 0
  when (echo != 0) (echo_from meanwhile echo)
  when ((cross != 0) && (cross != echo)) (echo_from meanwhile cross)
  log Codes.ev_cpu_set Codes.sub_smp count 0
