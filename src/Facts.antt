-- ===== src/Facts.antt =====
-- foundation/facts/facts.c (S4): the sources of a fact, the device tree and the board, are merged, and a
-- disagreement halts the kernel.
pub mod Merge
pub mod Processors
pub mod Settled
pub mod Stage
use nxu.Base.{
  ℕ, zero, suc, ◌+◌, ◌-◌, ◌*◌, ◌/◌, ◌%◌, ◌^◌, Bool, true, false, not, ◌&&◌, ◌||◌, min, ltb, ◌==◌,
  ◌!=◌, if◌then◌else◌, Cmd, pure, ◌>>=◌, ◌>>◌, modify, gets, when, for_range, update,
}
use nxu.Codes
use nxu.Range.{Range, range, range_eq, range_contains}
use nxu.Observe.{cpu_bound}
use nxu.Boot.{control_el}
use nxu.Silicon.{timer_cntfrq}
use nxu.World.{World, Facts, MemFact, CpuFact, CtlFact, DtbCand, BoardFacts, put, fail}

-- `NXU_MEM_FACT_MAX`
abbrev pub mem_fact_max : ℕ
mem_fact_max = 8

-- `mpidr & 0xFF00FFFFFF`
abbrev pub affinity : ℕ → ℕ
affinity mpidr = mpidr / 2 ^ 32 % 2 ^ 8 * 2 ^ 32 + mpidr % 2 ^ 24

abbrev pub set_facts : (Facts → Facts) → Cmd World (Unit {0})
set_facts f = modify (λ w. record w { facts = f w.facts })

-- `merge_ctl`; `store` is the assignment through `out`
unfoldable pub merge_ctl :
    (CtlFact → Facts → Facts) → Range → Bool → Range → Bool → ℕ → Bool → Cmd World (Unit {0})
unfolding range_eq
merge_ctl store dtb dtb_ok board board_ok kind required =
    let out : Range → ℕ → ℕ → Cmd World (Unit {0}) = λ r source grade.
      set_facts (store (record { range = r; kind = kind; source = source; grade = grade })) in
    out (range 0 0) 0 0
    >> (if dtb_ok && board_ok
        then (if not (range_eq dtb board)
            then fail Codes.fail_fact_mismatch dtb.base board.base
            else out dtb (Codes.src_dtb + Codes.src_board) Codes.grade_corroborated)
        else if dtb_ok
        then out dtb Codes.src_dtb Codes.grade_single
        else if board_ok
        then out board Codes.src_board Codes.grade_single
        else when required (fail Codes.fail_fact_mismatch kind 0))

-- one round of the loop over the memory of the device tree
unfoldable pub dtb_mem : ℕ → Cmd World (Unit {0})
unfolding range_eq
dtb_mem i = do
  d ← gets (λ w. w.dtb_cand)
  b ← gets (λ w. w.board)
  let fact : ℕ → ℕ → MemFact =
      λ source grade. record { range = d.mem i; source = source; grade = grade }
  set_facts (λ f. record f { mem = update f.mem i (fact Codes.src_dtb Codes.grade_single) })
  when (b.present && ltb i b.ram_count) (do
    when (not (range_eq (d.mem i) (b.ram i)))
        (fail Codes.fail_fact_mismatch (d.mem i).base (b.ram i).base)
    set_facts (λ f. record f {
      mem = update f.mem i (fact (Codes.src_dtb + Codes.src_board) Codes.grade_corroborated);
    }))
  set_facts (λ f. record f { mem_count = f.mem_count + 1 })

-- the memory facts of `nxu_s4_facts`
unfoldable pub merge_mem : Cmd World (Unit {0})
unfolding dtb_mem for_range
merge_mem = do
  d ← gets (λ w. w.dtb_cand)
  b ← gets (λ w. w.board)
  if d.valid && ltb 0 d.mem_count
      then for_range (min d.mem_count mem_fact_max) 0 dtb_mem
      else if b.present && ltb 0 b.ram_count
      then set_facts (λ f. record f {
        mem =
            update f.mem 0
              (record { range = b.ram 0; source = Codes.src_board; grade = Codes.grade_single });
        mem_count = 1;
      })
      else fail Codes.fail_no_ram 0 0

-- does one of the first `rounds` CPUs from `j` have the affinity?
unfoldable pub has_affinity : ℕ → ℕ → (ℕ → ℕ) → ℕ → Bool
has_affinity zero j mpidr aff = false
has_affinity (suc rounds) j mpidr aff =
    (affinity (mpidr j) == aff) || has_affinity rounds (j + 1) mpidr aff

-- the store of one CPU fact, and its record
unfoldable pub add_cpu_fact : ℕ → ℕ → ℕ → Cmd World (Unit {0})
unfolding put
add_cpu_fact mpidr source grade = do
  set_facts (λ f. record f {
    cpu = update f.cpu f.cpu_count (record (f.cpu f.cpu_count) {
      mpidr = mpidr;
      state = Codes.cpu_present;
      source = source;
      grade = grade;
    });
    cpu_count = f.cpu_count + 1;
  })
  put Codes.rec_s4_cpu mpidr grade

-- one round of the loop over the CPUs of the device tree
unfoldable pub dtb_cpu : ℕ → ℕ → Cmd World (Unit {0})
unfolding has_affinity add_cpu_fact
dtb_cpu boot_mpidr i = do
  d ← gets (λ w. w.dtb_cand)
  b ← gets (λ w. w.board)
  let m = d.cpu_mpidr i
  let named = b.present && ltb 0 b.cpu_count
  when (named && not (has_affinity b.cpu_count 0 b.cpu_mpidr (affinity m)))
      (fail Codes.fail_cpu m 1)
  let seen = m == boot_mpidr
  add_cpu_fact (affinity m)
      (Codes.src_dtb + (if named then Codes.src_board else 0) + (if seen then Codes.src_obs else 0))
      (if named || seen then Codes.grade_corroborated else Codes.grade_single)

-- one round of the loop over the CPUs of the board
unfoldable pub board_cpu : ℕ → ℕ → Cmd World (Unit {0})
unfolding add_cpu_fact
board_cpu boot_mpidr i = do
  b ← gets (λ w. w.board)
  let m = affinity (b.cpu_mpidr i)
  let seen = m == boot_mpidr
  add_cpu_fact m (Codes.src_board + (if seen then Codes.src_obs else 0))
      (if seen then Codes.grade_corroborated else Codes.grade_single)

-- is one of the first `rounds` CPU facts from `i` the boot CPU?
unfoldable pub boot_found : ℕ → ℕ → (ℕ → CpuFact) → ℕ → Bool
boot_found zero i cpu boot_mpidr = false
boot_found (suc rounds) i cpu boot_mpidr =
    ((cpu i).mpidr == boot_mpidr) || boot_found rounds (i + 1) cpu boot_mpidr

-- the CPU facts of `nxu_s4_facts`
unfoldable pub merge_cpu : Cmd World (Unit {0})
unfolding dtb_cpu board_cpu boot_found for_range put
merge_cpu = do
  boot_mpidr ← gets (λ w. affinity w.intake.mpidr)
  set_facts (λ f. record f { cpu_count = 0 })
  d ← gets (λ w. w.dtb_cand)
  b ← gets (λ w. w.board)
  (if d.valid && ltb 0 d.cpu_count
      then for_range d.cpu_count 0 (dtb_cpu boot_mpidr)
      else if b.present && ltb 0 b.cpu_count
      then (do
        when (ltb cpu_bound b.cpu_count) (fail Codes.fail_cpu b.cpu_count 5)
        for_range b.cpu_count 0 (board_cpu boot_mpidr))
      else (do
        set_facts (λ f. record f {
          cpu = update f.cpu 0 (record (f.cpu 0) {
            mpidr = boot_mpidr;
            state = Codes.cpu_present;
            source = Codes.src_obs;
            grade = Codes.grade_observed;
          });
          cpu_count = 1;
        })
        put Codes.rec_s4_cpu boot_mpidr Codes.grade_observed))
  f ← gets (λ w. w.facts)
  when (not (boot_found f.cpu_count 0 f.cpu boot_mpidr)) (fail Codes.fail_cpu boot_mpidr 2)

-- the controllers of `nxu_s4_facts`
unfoldable pub merge_ctls : Cmd World (Unit {0})
merge_ctls = do
  d ← gets (λ w. w.dtb_cand)
  b ← gets (λ w. w.board)
  merge_ctl (λ c f. record f { gicd = c }) d.gicd (d.valid && (d.gicd.size != 0)) b.gicd
      (b.present && (b.gicd.size != 0)) Codes.ctl_gicd true
  merge_ctl (λ c f. record f { gicr = c }) d.gicr (d.valid && (d.gicr.size != 0)) b.gicr
      (b.present && (b.gicr.size != 0)) Codes.ctl_gicr true
  f ← gets (λ w. w.facts)
  put Codes.rec_s4_gic f.gicd.range.base f.gicr.range.base
  merge_ctl (λ c f. record f { uart = c }) d.uart d.uart_valid b.uart
      (b.present && (b.uart.size != 0)) Codes.ctl_uart false
  set_facts (λ f. record f { uart_valid = (f.uart.range.size != 0) || f.uart_valid })
  f ← gets (λ w. w.facts)
  when f.uart_valid (put Codes.rec_s4_uart f.uart.range.base f.uart.grade)
