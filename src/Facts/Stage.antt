-- ===== src/Facts/Stage.antt =====
-- foundation/facts/facts.c: the conduit, the timer, and `nxu_s4_facts` as a whole.
use nxu.Base.{ℕ, ◌+◌, false, not, ◌&&◌, ◌==◌, ◌!=◌, if◌then◌else◌, Cmd, ◌>>=◌, ◌>>◌, gets, when}
use nxu.Codes
use nxu.Range.{range_contains}
use nxu.Boot.{control_el}
use nxu.Silicon.{timer_cntfrq}
use nxu.World.{World, put, fail}
use nxu.Facts.{set_facts, merge_mem, merge_cpu, merge_ctls}

-- the PSCI conduit of `nxu_s4_facts`
unfoldable pub merge_psci : Cmd World (Unit {0})
merge_psci = do
  d ← gets (λ w. w.dtb_cand)
  b ← gets (λ w. w.board)
  let dc = d.psci_conduit
  let bc = b.psci_conduit
  when ((dc != 0) && (b.present && ((bc != 0) && (dc != bc)))) (fail Codes.fail_fact_mismatch dc bc)
  let conduit = if dc != 0 then dc else bc
  let source =
      (if dc != 0 then Codes.src_dtb else 0)
      + (if b.present && (bc != 0) then Codes.src_board else 0)
  set_facts (λ f. record f {
    psci_conduit = conduit;
    psci_source = source;
    pwrc = if b.present then b.pwrc else f.pwrc;
  })
  put Codes.rec_s4_psci conduit source

-- the INTID of the EL1 physical timer
abbrev pub isa_ppi : ℕ
isa_ppi = 30

-- the timer of `nxu_s4_facts`
unfoldable pub merge_timer : Cmd World (Unit {0})
merge_timer = do
  d ← gets (λ w. w.dtb_cand)
  b ← gets (λ w. w.board)
  when ((d.timer_ppi != 0) && (d.timer_ppi != isa_ppi))
      (fail Codes.fail_fact_mismatch d.timer_ppi isa_ppi)
  read ← timer_cntfrq
  let freq = if (read == 0) && b.present then b.timer_freq else read
  set_facts (λ f. record f { timer_ppi = isa_ppi; timer_freq = freq })
  when (freq == 0) (fail Codes.fail_timer 0 0)
  put Codes.rec_s4_timer freq isa_ppi

-- `nxu_s4_facts`
unfoldable pub s4_facts : Cmd World (Unit {0})
s4_facts = do
  d ← gets (λ w. w.dtb_cand)
  el ← gets control_el
  set_facts (λ f. record f {
    mem_count = 0;
    cpu_count = 0;
    uart_valid = false;
    frozen = false;
    dtb_valid = d.valid;
    dtb_base = d.base;
    dtb_size = d.size;
    control_el = el;
  })
  merge_mem
  m ← gets (λ w. w.facts.mem 0)
  image ← gets (λ w. w.image)
  when (not (range_contains m.range.base m.range.size image.base image.size))
      (fail Codes.fail_image_ram image.base m.range.base)
  put Codes.rec_s4_ram m.range.base m.range.size
  put Codes.rec_s4_grade m.grade m.source
  merge_ctls
  merge_psci
  merge_cpu
  merge_timer
