-- ===== src/Hardware.antt =====
-- What the kernel asks of the machine: system registers, device registers, barriers and cache
-- maintenance, as the operations of silicon/aarch64/sysreg.h and of the drivers beside it make them.
-- The machine itself is a parameter: its answer to an access is any function of the accesses made
-- before.
use nxu.Base.{ℕ, List}

pub data Reg : Type 0 where
  cntpct_el0 cntfrq_el0 cntp_tval_el0 cntp_cval_el0 cntp_ctl_el0 cntkctl_el1 : Reg
  icc_iar1_el1 icc_eoir1_el1 icc_sgi1r_el1 icc_pmr_el1 icc_bpr1_el1 icc_igrpen1_el1 : Reg
  icc_sre_el1 icc_sre_el2 icc_hppir1_el1 icc_hppir0_el1 isr_el1 daif_reg : Reg
  mair_el1 tcr_el1 ttbr0_el1 sctlr_el1 vbar_el1 daifset daifclr : Reg
  cnthp_tval_el2 cnthp_ctl_el2 par_el1 : Reg
  esr_el1 far_el1 elr_el1 esr_el2 far_el2 elr_el2 esr_el3 far_el3 elr_el3 current_el_reg : Reg

pub data Access : Type 0 where
  mrs : Reg → Access
  msr : Reg → ℕ → Access
  load32 : ℕ → Access
  load64 : ℕ → Access
  store32 : ℕ → ℕ → Access
  -- a call of the firmware: the function, and its three arguments
  hvc smc : ℕ → ℕ → ℕ → ℕ → Access
  -- an address translation, whose result is in PAR_EL1
  at_s1e1r : ℕ → Access
  tlbi_vmalle1 ic_iallu dsb isb wfi : Access

abbrev pub Machine : Type 0
Machine = List Access → Access → ℕ
