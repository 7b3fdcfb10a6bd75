-- ===== src/Codes.antt =====
-- include/nxu/chronicle.h, include/nxu/log.h and include/nxu/config.h: the codes of records,
-- failures and events, and the constants of the configuration.
use nxu.Base.{ℕ}

abbrev pub rec_s0_enter : ℕ
rec_s0_enter = 1

abbrev pub rec_s0_stack : ℕ
rec_s0_stack = 2

abbrev pub rec_s0_vbar : ℕ
rec_s0_vbar = 3

abbrev pub rec_s1_el : ℕ
rec_s1_el = 0x101

abbrev pub rec_s1_mpidr : ℕ
rec_s1_mpidr = 0x102

abbrev pub rec_s1_sctlr : ℕ
rec_s1_sctlr = 0x103

abbrev pub rec_s1_pc : ℕ
rec_s1_pc = 0x104

abbrev pub rec_s1_x0 : ℕ
rec_s1_x0 = 0x105

abbrev pub rec_s1_ttbr : ℕ
rec_s1_ttbr = 0x106

abbrev pub rec_s1_daif : ℕ
rec_s1_daif = 0x107

abbrev pub rec_s1_x23 : ℕ
rec_s1_x23 = 0x108

abbrev pub rec_s2_header : ℕ
rec_s2_header = 0x201

abbrev pub rec_s2_el : ℕ
rec_s2_el = 0x202

abbrev pub rec_s3_dtb : ℕ
rec_s3_dtb = 0x301

abbrev pub rec_s3_dtb_absent : ℕ
rec_s3_dtb_absent = 0x302

abbrev pub rec_s4_ram : ℕ
rec_s4_ram = 0x401

abbrev pub rec_s4_grade : ℕ
rec_s4_grade = 0x402

abbrev pub rec_s4_uart : ℕ
rec_s4_uart = 0x403

abbrev pub rec_s4_gic : ℕ
rec_s4_gic = 0x404

abbrev pub rec_s4_psci : ℕ
rec_s4_psci = 0x405

abbrev pub rec_s4_cpu : ℕ
rec_s4_cpu = 0x406

abbrev pub rec_s4_timer : ℕ
rec_s4_timer = 0x407

abbrev pub rec_s5_owner : ℕ
rec_s5_owner = 0x501

abbrev pub rec_s6_mmu : ℕ
rec_s6_mmu = 0x601

abbrev pub rec_s7_ctx : ℕ
rec_s7_ctx = 0x701

abbrev pub rec_s7_vbar : ℕ
rec_s7_vbar = 0x702

abbrev pub rec_s7_fault : ℕ
rec_s7_fault = 0x703

abbrev pub rec_s8_cpu : ℕ
rec_s8_cpu = 0x801

abbrev pub rec_s8_present : ℕ
rec_s8_present = 0x802

abbrev pub rec_s9_init : ℕ
rec_s9_init = 0x901

abbrev pub rec_s10_gic : ℕ
rec_s10_gic = 0xa01

abbrev pub rec_s10_rdist : ℕ
rec_s10_rdist = 0xa02

abbrev pub rec_s10_freeze : ℕ
rec_s10_freeze = 0xa03

abbrev pub rec_s11_freq : ℕ
rec_s11_freq = 0xb01

abbrev pub rec_s11_ppi : ℕ
rec_s11_ppi = 0xb02

abbrev pub rec_s11_fire : ℕ
rec_s11_fire = 0xb03

abbrev pub rec_s12_on : ℕ
rec_s12_on = 0xc01

abbrev pub rec_s12_online : ℕ
rec_s12_online = 0xc02

abbrev pub rec_s13_ipi : ℕ
rec_s13_ipi = 0xd01

abbrev pub rec_s13_recv : ℕ
rec_s13_recv = 0xd02

abbrev pub rec_s13_target : ℕ
rec_s13_target = 0xd03

abbrev pub rec_s14_freeze : ℕ
rec_s14_freeze = 0xe01

abbrev pub rec_irq : ℕ
rec_irq = 0xf01

abbrev pub rec_sec_enter : ℕ
rec_sec_enter = 0x1001

abbrev pub fail_mmu_on_entry : ℕ
fail_mmu_on_entry = 0x80000001

abbrev pub fail_bad_el : ℕ
fail_bad_el = 0x80000002

abbrev pub fail_bad_header : ℕ
fail_bad_header = 0x80000003

abbrev pub fail_dtb : ℕ
fail_dtb = 0x80000004

abbrev pub fail_dtb_overlap : ℕ
fail_dtb_overlap = 0x80000005

abbrev pub fail_no_ram : ℕ
fail_no_ram = 0x80000006

abbrev pub fail_image_ram : ℕ
fail_image_ram = 0x80000007

abbrev pub fail_fact_mismatch : ℕ
fail_fact_mismatch = 0x80000008

abbrev pub fail_wrap : ℕ
fail_wrap = 0x80000009

abbrev pub fail_pt : ℕ
fail_pt = 0x8000000a

abbrev pub fail_cpu : ℕ
fail_cpu = 0x8000000b

abbrev pub fail_gic : ℕ
fail_gic = 0x8000000c

abbrev pub fail_timer : ℕ
fail_timer = 0x8000000d

abbrev pub fail_psci : ℕ
fail_psci = 0x8000000e

abbrev pub fail_timeout : ℕ
fail_timeout = 0x8000000f

abbrev pub fail_unbound_irq : ℕ
fail_unbound_irq = 0x80000010

abbrev pub fail_sync : ℕ
fail_sync = 0x80000011

abbrev pub fail_serror : ℕ
fail_serror = 0x80000012

abbrev pub fail_stack : ℕ
fail_stack = 0x80000013

abbrev pub fail_invariant : ℕ
fail_invariant = 0x80000014

abbrev pub fail_daif : ℕ
fail_daif = 0x80000015

abbrev pub fail_wrong_target : ℕ
fail_wrong_target = 0x80000016

abbrev pub sev_note : ℕ
sev_note = 1

abbrev pub sev_fail : ℕ
sev_fail = 2

abbrev pub sub_boot : ℕ
sub_boot = 1

abbrev pub sub_fact : ℕ
sub_fact = 2

abbrev pub sub_space : ℕ
sub_space = 3

abbrev pub sub_exc : ℕ
sub_exc = 4

abbrev pub sub_cpu : ℕ
sub_cpu = 5

abbrev pub sub_gic : ℕ
sub_gic = 6

abbrev pub sub_time : ℕ
sub_time = 7

abbrev pub sub_smp : ℕ
sub_smp = 8

abbrev pub sub_fail : ℕ
sub_fail = 9

abbrev pub ev_boot : ℕ
ev_boot = 0x21001

abbrev pub ev_dtb : ℕ
ev_dtb = 0x21002

abbrev pub ev_memory : ℕ
ev_memory = 0x21003

abbrev pub ev_mmu : ℕ
ev_mmu = 0x21004

abbrev pub ev_exception : ℕ
ev_exception = 0x21005

abbrev pub ev_fault : ℕ
ev_fault = 0x21006

abbrev pub ev_cpu : ℕ
ev_cpu = 0x21007

abbrev pub ipi_send : ℕ
ipi_send = 0

abbrev pub ipi_recv : ℕ
ipi_recv = 1

abbrev pub ev_gic : ℕ
ev_gic = 0x21008

abbrev pub ev_gic_init : ℕ
ev_gic_init = 0x21009

abbrev pub ev_timer : ℕ
ev_timer = 0x2100a

abbrev pub ev_timer_fire : ℕ
ev_timer_fire = 0x2100b

abbrev pub ev_cpu_online : ℕ
ev_cpu_online = 0x2100c

abbrev pub ev_cpu_set : ℕ
ev_cpu_set = 0x2100d

abbrev pub ev_ipi : ℕ
ev_ipi = 0x2100e

abbrev pub ev_kernel : ℕ
ev_kernel = 0x2100f

abbrev pub ev_fail : ℕ
ev_fail = 0x21010

abbrev pub ev_machine : ℕ
ev_machine = 0x21011

abbrev pub ev_bound : ℕ
ev_bound = 0x21012

abbrev pub ev_room : ℕ
ev_room = 0x21013

abbrev pub ev_pulse : ℕ
ev_pulse = 0x21014

abbrev pub ev_app : ℕ
ev_app = 0x21015

abbrev pub mach_waker : ℕ
mach_waker = 1

abbrev pub mach_gicd_ctlr : ℕ
mach_gicd_ctlr = 2

abbrev pub mach_igroupr0 : ℕ
mach_igroupr0 = 3

abbrev pub mach_isenabler0 : ℕ
mach_isenabler0 = 4

abbrev pub mach_ispendr0 : ℕ
mach_ispendr0 = 5

abbrev pub mach_igrpmodr0 : ℕ
mach_igrpmodr0 = 6

abbrev pub mach_daif : ℕ
mach_daif = 7

abbrev pub mach_hcr : ℕ
mach_hcr = 8

abbrev pub mach_isr : ℕ
mach_isr = 9

abbrev pub mach_igrpen1 : ℕ
mach_igrpen1 = 0xa

abbrev pub mach_hppir1 : ℕ
mach_hppir1 = 0xb

abbrev pub mach_hppir0 : ℕ
mach_hppir0 = 0xc

abbrev pub mach_t0 : ℕ
mach_t0 = 0xd

abbrev pub mach_tnow : ℕ
mach_tnow = 0xe

abbrev pub mach_tval : ℕ
mach_tval = 0xf

abbrev pub mach_istatus : ℕ
mach_istatus = 0x10

abbrev pub mach_cntp_ctl : ℕ
mach_cntp_ctl = 0x11

abbrev pub mach_cntp_cval : ℕ
mach_cntp_cval = 0x12

abbrev pub note_cpu_present : ℕ
note_cpu_present = 1

abbrev pub note_cpu_init : ℕ
note_cpu_init = 2

abbrev pub note_cpu_gic : ℕ
note_cpu_gic = 3

abbrev pub note_cpu_el1 : ℕ
note_cpu_el1 = 4

abbrev pub note_cpu_vbar : ℕ
note_cpu_vbar = 5

abbrev pub note_cpu_cluster : ℕ
note_cpu_cluster = 6

abbrev pub note_cpu_detect : ℕ
note_cpu_detect = 7

abbrev pub note_cpu_enter : ℕ
note_cpu_enter = 8

abbrev pub note_cpu_rdist : ℕ
note_cpu_rdist = 0x10

abbrev pub owner_max : ℕ
owner_max = 0x10

abbrev pub el1 : ℕ
el1 = 1

abbrev pub el2 : ℕ
el2 = 2

abbrev pub el3 : ℕ
el3 = 3

abbrev pub psci_none : ℕ
psci_none = 0

abbrev pub psci_smc : ℕ
psci_smc = 1

abbrev pub psci_hvc : ℕ
psci_hvc = 2

abbrev pub cpu_present : ℕ
cpu_present = 1

abbrev pub cpu_initialized : ℕ
cpu_initialized = 2

abbrev pub cpu_available : ℕ
cpu_available = 3

abbrev pub cpu_starting : ℕ
cpu_starting = 4

abbrev pub cpu_online : ℕ
cpu_online = 5

abbrev pub cpu_failed : ℕ
cpu_failed = 6

abbrev pub owner_unknown : ℕ
owner_unknown = 0

abbrev pub owner_firmware : ℕ
owner_firmware = 1

abbrev pub owner_image : ℕ
owner_image = 2

abbrev pub owner_nxu : ℕ
owner_nxu = 3

abbrev pub owner_mmio : ℕ
owner_mmio = 4

abbrev pub owner_reserved : ℕ
owner_reserved = 5

abbrev pub grade_observed : ℕ
grade_observed = 1

abbrev pub grade_single : ℕ
grade_single = 2

abbrev pub grade_corroborated : ℕ
grade_corroborated = 3

abbrev pub ctl_gicd : ℕ
ctl_gicd = 1

abbrev pub ctl_gicr : ℕ
ctl_gicr = 2

abbrev pub ctl_uart : ℕ
ctl_uart = 3

abbrev pub ctx_inert : ℕ
ctx_inert = 0

abbrev pub ctx_armed : ℕ
ctx_armed = 1

abbrev pub ctx_running : ℕ
ctx_running = 2

abbrev pub ctx_waiting : ℕ
ctx_waiting = 3

abbrev pub ctx_faulted : ℕ
ctx_faulted = 4

abbrev pub sig_owner_none : ℕ
sig_owner_none = 0

abbrev pub sig_owner_tcb : ℕ
sig_owner_tcb = 1

abbrev pub sgi_ipi : ℕ
sgi_ipi = 0

abbrev pub src_obs : ℕ
src_obs = 1

abbrev pub src_dtb : ℕ
src_dtb = 2

abbrev pub src_board : ℕ
src_board = 4
