-- ===== src/Lib.antt =====
-- The NXU kernel: an AArch64 kernel that takes the machine over, admits only facts that its sources agree
-- on, builds its own page tables and runs two rooms at EL0, one at a time.
--
-- The parts, and where they are modelled:
--   Base, Word      natural numbers as machine words, arrays as functions, and commands that change a
--                   state and may halt: `nxu_fail` does not return, so its three values are a Failure.
--   Range           include/nxu/range.h: `range_ok`, `range_contains`, `range_overlap`.
--   Observe         foundation/observe/chronicle.c and bbox.c: a ring of 128 records and one of 32 for
--                   each CPU, with a failure slot. Observe/History
--                   describes both by the calls made, Observe/History/Kept says what they keep.
--   Console         foundation/observe/console.c, sink.c and the dump of bbox.c, as text; Console/Records has the
--                   text of one record.
--   Mmu             silicon/aarch64/translate/mmu.c. Mmu/Tree is the invariant of the tables, Mmu/Walk
--                   what an address is mapped to, Mmu/MapPage and Mmu/MapRange what a map changes,
--                   Mmu/Perm the rights of a leaf, Mmu/Pool the first state.
--   Hardware        the accesses to registers and devices. The machine is a parameter: its answer is any
--                   function of the accesses made before.
--   State, World    the state of the whole kernel (State): the global variables of all components, physical
--                   memory and the machine; World has its commands, with `log`, `put` and `fail` of
--                   foundation/observe.
--   Silicon, Clock  the operations of silicon/aarch64/timer/timer.c (Silicon/Timer: those of EL2) and
--                   gicv3/gicv3.c (Silicon/Gic, which also has psci/psci.c), and uart/pl011.c at its
--                   registers (Silicon/Uart); Clock has the names of foundation/time/time.c for them.
--   Boot            foundation/intake, foundation/contract and foundation/context.
--   Dtb             foundation/facts/fdt.c: the reads of the blob; Dtb/Parser has the loop over the
--                   tokens, Dtb/Stage `s3_dtb`. Dtb/Header is what its checks accept, Dtb/Valid
--                   the invariant of the parser, Dtb/Lawful a lawful blob, Dtb/Ends its end,
--                   Dtb/Wrap a sum that wraps, Dtb/Names and Dtb/Reg the texts and the ranges.
--   Facts           foundation/facts/facts.c: `s4_facts` (Facts/Stage) and each of its merges.
--   Space           foundation/space: the table of owners and the map of the image (`s6_mmu`).
--                   Space/Plan says which page S6 may map, and how; Mmu/Laid is what it means that
--                   tables follow a plan, Mmu/Guarded that they keep writing and executing apart.
--                   Mmu/Adds has what a map adds, Space/Covered the addresses that S6 has to map.
--   Cpus, Smp       foundation/cpu/cpu.c (`s8_present`, `s9_init`) and smp.c (`s12_smp`, `secondary`).
--   Signals, Time   foundation/signal/signal.c (`s10_gic`, `ipi_to`, `s13_ipi`) and foundation/time/time.c
--                   (`s11_time`). What other CPUs and interrupts do between two reads of a wait is a
--                   parameter, any function of the number of the read and of the state.
--                   Time/Armed is what the wait of S11 begins with, Time/Handled has the kernel's handler.
--   Board           board/*/facts.c: the three tables of candidate facts.
--   Foundation      foundation/enter.c: the stages in their order; Foundation/Staffed joins the theorems
--                   of the stages S3 to S9.
--   Interrupt       foundation/exception/exception.c, `irq_dispatch` of foundation/signal/signal.c, and
--                   foundation/observe/freeze.c.
--   Room            foundation/room/room.c: `pulse`, `consume`, `user_open`, `seal`, `room_exception`
--                   and `room_irq`; Room/Run has `run` and its checks, Room/Suite `nxu_rooms_run`.
--                   Room/Quiet has the commands that leave memory alone, Room/Open what `user_open` maps.
--   Checks          a concrete kernel and the theorems at concrete inputs.
--
-- An operation `nxu_f` or `f` of the source is the definition `f`; what it changes is a field of the
-- state, and its calls are in the order of the source. A static function that two files repeat
-- (`page_up`) is one definition. A w-bit sum is taken modulo 2 ^ w; a sum that the source cannot let
-- wrap (an index below an array's size, bit fields that do not overlap) is written without it.
--
-- Loops have their number of rounds: the pages of a range, the tables in use, the words of a page, the
-- regions of the table, the reads of a bounded wait. Three loops have fuel, and say when it is out: that
-- over the tokens of the device tree, which needs 2 ^ 18 + 2 rounds on a lawful blob (Dtb/Ends/Loop) and has no
-- bound on others (Dtb/Wrap); that of `str_has`, whose fuel is one more than the length of the list, which
-- is enough for any list shorter than 2 ^ 32 - 1 bytes (Dtb/Names); and the wait of S12 for a CPU, which
-- ends at a deadline that only the machine's counter brings. What a room does at EL0 is a list of events
-- (Room.Event): stores, which the tables allow or turn into a fault, exceptions and interrupts. When its
-- events are over the next interrupt comes, as `run` arms the timer before every entry.
--
-- Not modelled: `nxu_debug` (empty without NXU_DEBUG), the assembly files, `nxu_pa_of` and `nxu_runtime`
-- (identities), and the operations of gicv3.c that no C code calls. In the state of the kernel the UART is the
-- text written to it. Translations are those of the tables: a stale entry of the TLB is not. The order in
-- which two CPUs run is modelled only at the waits.
pub mod Base
pub mod Board
pub mod Boot
pub mod Checks
pub mod Clock
pub mod Codes
pub mod Console
pub mod Cpus
pub mod Dtb
pub mod Facts
pub mod Foundation
pub mod Hardware
pub mod Interrupt
pub mod Mmu
pub mod Observe
pub mod Range
pub mod Room
pub mod Signals
pub mod Silicon
pub mod Smp
pub mod Space
pub mod State
pub mod Time
pub mod Word
pub mod World
