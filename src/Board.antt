-- ===== src/Board.antt =====
-- board/fvp-base/facts.c, board/qemu-virt/facts.c and board/soc/facts.c: the tables of candidate facts,
-- one of which a build links as `nxu_board`. An entry that a table does not name is zero, as C leaves
-- it.
pub mod Apart
use nxu.Base.{ℕ, zero, suc, true, false, List, [], ◌∷◌}
use nxu.Codes
use nxu.Range.{Range, range}
use nxu.World.{BoardFacts}

-- the entry `i` of an array of CPUs
abbrev pub cpu_entry : List ℕ → ℕ → ℕ
cpu_entry [] i = 0
cpu_entry (m ∷ ms) zero = m
cpu_entry (m ∷ ms) (suc i) = cpu_entry ms i

-- an array of one range
abbrev pub one_ram : Range → ℕ → Range
one_ram r zero = r
one_ram r (suc i) = range 0 0

abbrev pub fvp_base : BoardFacts
fvp_base = record {
  present = true;
  ram_count = 1;
  ram = one_ram (range 0x80000000 0x80000000);
  gicd = range 0x2f000000 0x10000;
  gicr = range 0x2f100000 0x400000;
  uart = range 0x1c090000 0x1000;
  cpu_count = 8;
  cpu_mpidr = cpu_entry (0 ∷ 0x100 ∷ 0x200 ∷ 0x300 ∷ 0x10000 ∷ 0x10100 ∷ 0x10200 ∷ 0x10300 ∷ []);
  psci_conduit = Codes.psci_smc;
  timer_freq = 100000000;
  pwrc = range 0x1c100000 0x1000;
}

abbrev pub qemu_virt : BoardFacts
qemu_virt = record {
  present = true;
  ram_count = 1;
  ram = one_ram (range 0x40000000 0x8000000);
  gicd = range 0x8000000 0x10000;
  gicr = range 0x80a0000 0xf60000;
  uart = range 0x9000000 0x1000;
  cpu_count = 4;
  cpu_mpidr = cpu_entry (0 ∷ 1 ∷ 2 ∷ 3 ∷ []);
  psci_conduit = Codes.psci_hvc;
  timer_freq = 62500000;
  pwrc = range 0 0;
}

abbrev pub soc : BoardFacts
soc = record {
  present = false;
  ram_count = 0;
  ram = λ _. range 0 0;
  gicd = range 0 0;
  gicr = range 0 0;
  uart = range 0 0;
  cpu_count = 0;
  cpu_mpidr = λ _. 0;
  psci_conduit = Codes.psci_none;
  timer_freq = 0;
  pwrc = range 0 0;
}
