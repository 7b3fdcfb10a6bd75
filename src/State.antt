-- ===== src/State.antt =====
-- The state of the whole kernel: the global variables of the components, physical memory and the machine.
use nxu.Base.{ℕ, Bool, List, Failure}
use nxu.Hardware.{Access, Machine}
use nxu.Range.{Range}
use nxu.Mmu.{Mmu}
use nxu.Observe.{Observe, Site}
use nxu.Console.{Sink}

-- `struct nxu_intake`
pub record Intake : Type 0 where
  pub x0 : ℕ
  pub x1 : ℕ
  pub x2 : ℕ
  pub x3 : ℕ
  pub pc : ℕ
  pub sp_in : ℕ
  pub currentel : ℕ
  pub mpidr : ℕ
  pub sctlr : ℕ
  pub daif : ℕ
  pub sp_nxu : ℕ
  pub ttbr0 : ℕ
  pub tcr : ℕ
  pub vbar : ℕ

-- `struct nxu_image`
pub record Image : Type 0 where
  pub base : ℕ
  pub size : ℕ
  pub text_end : ℕ
  pub rodata_end : ℕ
  pub data_end : ℕ

-- `struct nxu_mem_fact`
pub record MemFact : Type 0 where
  pub range : Range
  pub source : ℕ
  pub grade : ℕ

-- `struct nxu_cpu_fact`
pub record CpuFact : Type 0 where
  pub mpidr : ℕ
  pub logical : ℕ
  pub state : ℕ
  pub source : ℕ
  pub grade : ℕ

-- `struct nxu_ctl_fact`
pub record CtlFact : Type 0 where
  pub range : Range
  pub kind : ℕ
  pub source : ℕ
  pub grade : ℕ

-- `struct nxu_facts`
pub record Facts : Type 0 where
  pub mem_count : ℕ
  pub mem : ℕ → MemFact
  pub cpu_count : ℕ
  pub cpu : ℕ → CpuFact
  pub gicd : CtlFact
  pub gicr : CtlFact
  pub uart : CtlFact
  pub uart_valid : Bool
  pub psci_conduit : ℕ
  pub psci_source : ℕ
  pub timer_ppi : ℕ
  pub timer_freq : ℕ
  pub pwrc : Range
  pub control_el : ℕ
  pub dtb_valid : Bool
  pub dtb_base : ℕ
  pub dtb_size : ℕ
  pub frozen : Bool

-- `struct nxu_dtb_cand`
pub record DtbCand : Type 0 where
  pub valid : Bool
  pub mem_count : ℕ
  pub mem : ℕ → Range
  pub cpu_count : ℕ
  pub cpu_mpidr : ℕ → ℕ
  pub gicd : Range
  pub gicr : Range
  pub uart : Range
  pub uart_valid : Bool
  pub psci_conduit : ℕ
  pub timer_ppi : ℕ
  pub base : ℕ
  pub size : ℕ

-- `struct nxu_board_facts`
pub record BoardFacts : Type 0 where
  pub present : Bool
  pub ram_count : ℕ
  pub ram : ℕ → Range
  pub gicd : Range
  pub gicr : Range
  pub uart : Range
  pub cpu_count : ℕ
  pub cpu_mpidr : ℕ → ℕ
  pub psci_conduit : ℕ
  pub timer_freq : ℕ
  pub pwrc : Range

-- `struct nxu_owner_region`
pub record OwnerRegion : Type 0 where
  pub range : Range
  pub owner : ℕ

-- `struct nxu_space`
pub record Space : Type 0 where
  pub count : ℕ
  pub region : ℕ → OwnerRegion
  pub armed : Bool
  pub frozen : Bool

-- `struct nxu_cpu_exec_context`, without the saved registers, which no C code reads or writes
pub record ExecContext : Type 0 where
  pub cpu_id : ℕ
  pub context_id : ℕ
  pub generation : ℕ
  pub life : ℕ
  pub el : ℕ
  pub ttbr : ℕ
  pub tcr : ℕ
  pub mair : ℕ
  pub esr : ℕ
  pub far : ℕ
  pub daif : ℕ
  pub intid : ℕ
  pub stack_base : ℕ
  pub stack_limit : ℕ
  pub owner : ℕ

-- `struct nxu_cpu`
pub record Cpu : Type 0 where
  pub mpidr : ℕ
  pub logical : ℕ
  pub state : ℕ
  pub gicr : ℕ
  pub stack_base : ℕ
  pub stack_limit : ℕ
  pub ipi_seen : ℕ
  pub timer_fired : ℕ
  pub ctx : ExecContext

-- `struct nxu_signal`
pub record Signal : Type 0 where
  pub intid : ℕ
  pub owner : ℕ
  pub route_cpu : ℕ
  pub enabled : Bool

-- `struct nxu_cpu_gate`
pub record Gate : Type 0 where
  pub mpidr : ℕ
  pub context : ℕ
  pub ready : ℕ

-- the static variables of foundation/room/room.c, and `nxu_room_reason`
pub record Rooms : Type 0 where
  pub code_pa : ℕ → ℕ
  pub data_pa : ℕ → ℕ
  pub cur : ℕ
  pub delivered : ℕ
  pub rejected : ℕ
  pub grant : ℕ
  pub armed_cval : ℕ
  pub reason : ℕ

pub record World : Type 0 where
  pub observe : Observe
  pub sink : Sink
  pub intake : Intake
  pub image : Image
  pub board : BoardFacts
  pub dtb_cand : DtbCand
  pub facts : Facts
  pub space : Space
  pub mmu : Mmu
  pub cpu : ℕ → Cpu
  pub cpu_present_count : ℕ
  pub cpu_present_frozen : Bool
  pub sig_timer : Signal
  pub sig_ipi : Signal
  pub rooms : Rooms
  pub cpu_gate : ℕ → Gate
  pub ipi_echo : ℕ
  -- physical memory, a byte at each address
  pub mem : ℕ → ℕ
  -- the register that holds the logical id of the executing CPU
  pub tpidr : ℕ
  -- the machine, and the accesses made so far, newest first
  pub machine : Machine
  pub trace : List Access
  -- the call site that the compiler put into the `nxu_fail` with these values
  pub site_of : Failure → Site
