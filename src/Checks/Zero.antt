-- ===== src/Checks/Zero.antt =====
-- The variables of the kernel as the image holds them before `nxu_s0`: zero.
use nxu.Base.{false}
use nxu.Range.{range}
use nxu.World.{
  Intake, Image, MemFact, CpuFact, CtlFact, Facts, DtbCand, BoardFacts, OwnerRegion, Space,
  ExecContext, Cpu, Signal, Rooms,
}

abbrev pub zero_intake : Intake
zero_intake = record {
  x0 = 0;
  x1 = 0;
  x2 = 0;
  x3 = 0;
  pc = 0;
  sp_in = 0;
  currentel = 0;
  mpidr = 0;
  sctlr = 0;
  daif = 0;
  sp_nxu = 0;
  ttbr0 = 0;
  tcr = 0;
  vbar = 0;
}

abbrev pub zero_image : Image
zero_image = record { base = 0; size = 0; text_end = 0; rodata_end = 0; data_end = 0 }

abbrev zero_mem_fact : MemFact
zero_mem_fact = record { range = range 0 0; source = 0; grade = 0 }

abbrev pub zero_cpu_fact : CpuFact
zero_cpu_fact = record { mpidr = 0; logical = 0; state = 0; source = 0; grade = 0 }

abbrev pub zero_ctl_fact : CtlFact
zero_ctl_fact = record { range = range 0 0; kind = 0; source = 0; grade = 0 }

abbrev pub zero_facts : Facts
zero_facts = record {
  mem_count = 0;
  mem = λ _. zero_mem_fact;
  cpu_count = 0;
  cpu = λ _. zero_cpu_fact;
  gicd = zero_ctl_fact;
  gicr = zero_ctl_fact;
  uart = zero_ctl_fact;
  uart_valid = false;
  psci_conduit = 0;
  psci_source = 0;
  timer_ppi = 0;
  timer_freq = 0;
  pwrc = range 0 0;
  control_el = 0;
  dtb_valid = false;
  dtb_base = 0;
  dtb_size = 0;
  frozen = false;
}

abbrev pub zero_dtb_cand : DtbCand
zero_dtb_cand = record {
  valid = false;
  mem_count = 0;
  mem = λ _. range 0 0;
  cpu_count = 0;
  cpu_mpidr = λ _. 0;
  gicd = range 0 0;
  gicr = range 0 0;
  uart = range 0 0;
  uart_valid = false;
  psci_conduit = 0;
  timer_ppi = 0;
  base = 0;
  size = 0;
}

abbrev pub zero_board_facts : BoardFacts
zero_board_facts = record {
  present = false;
  ram_count = 0;
  ram = λ _. range 0 0;
  gicd = range 0 0;
  gicr = range 0 0;
  uart = range 0 0;
  cpu_count = 0;
  cpu_mpidr = λ _. 0;
  psci_conduit = 0;
  timer_freq = 0;
  pwrc = range 0 0;
}

abbrev zero_owner_region : OwnerRegion
zero_owner_region = record { range = range 0 0; owner = 0 }

abbrev pub zero_space : Space
zero_space = record { count = 0; region = λ _. zero_owner_region; armed = false; frozen = false }

abbrev zero_exec_context : ExecContext
zero_exec_context = record {
  cpu_id = 0;
  context_id = 0;
  generation = 0;
  life = 0;
  el = 0;
  ttbr = 0;
  tcr = 0;
  mair = 0;
  esr = 0;
  far = 0;
  daif = 0;
  intid = 0;
  stack_base = 0;
  stack_limit = 0;
  owner = 0;
}

abbrev pub zero_cpu : Cpu
zero_cpu = record {
  mpidr = 0;
  logical = 0;
  state = 0;
  gicr = 0;
  stack_base = 0;
  stack_limit = 0;
  ipi_seen = 0;
  timer_fired = 0;
  ctx = zero_exec_context;
}

abbrev pub zero_signal : Signal
zero_signal = record { intid = 0; owner = 0; route_cpu = 0; enabled = false }

abbrev pub zero_rooms : Rooms
zero_rooms = record {
  code_pa = λ _. 0;
  data_pa = λ _. 0;
  cur = 0;
  delivered = 0;
  rejected = 0;
  grant = 0;
  armed_cval = 0;
  reason = 0;
}
