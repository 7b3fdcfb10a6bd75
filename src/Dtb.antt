-- ===== src/Dtb.antt =====
-- foundation/facts/fdt.c (S3): the device tree that firmware passes in x0 is read for candidates. The
-- blob is untrusted: `byte` is any function of the offset. Offsets are 32-bit words, as in the source.
pub mod Parser
pub mod Stage
pub mod Valid
pub mod Lawful
pub mod Ends
pub mod Header
pub mod Wrap
pub mod Reg
pub mod Names
use Prim.Native.String.{String}
use nxu.Base.{
  ℕ, zero, suc, ◌+◌, ◌-◌, ◌*◌, ◌/◌, ◌%◌, ◌^◌, Bool, true, false, not, ◌&&◌, ◌||◌, Option, none,
  some, List, [], ◌∷◌, ltb, leb, ◌==◌, ◌!=◌, if◌then◌else◌, Outcome, ok, halted, Cmd, pure, ◌>>=◌,
  ◌>>◌, modify, gets, when, for_range, update, halt,
}
use nxu.Codes
use nxu.Word.{add32, add64, u32_mod, u64_mod}
use nxu.Range.{Range, range, range_ok, range_overlap}
use nxu.Observe.{cpu_bound}
use nxu.Console.{txt}
use nxu.Facts.{affinity, mem_fact_max}
use nxu.World.{World, DtbCand, put, fail, fail_with}

-- `FDT_MAGIC`
abbrev pub fdt_magic : ℕ
fdt_magic = 0xd00dfeed

abbrev pub fdt_begin_node : ℕ
fdt_begin_node = 1

abbrev pub fdt_end_node : ℕ
fdt_end_node = 2

abbrev pub fdt_prop : ℕ
fdt_prop = 3

abbrev pub fdt_nop : ℕ
fdt_nop = 4

abbrev pub fdt_end : ℕ
fdt_end = 9

-- `NXU_DTB_PROBE_CAP`
abbrev pub dtb_probe_cap : ℕ
dtb_probe_cap = 0x100000

-- `struct nxu_fdt_node`
pub record Node : Type 0 where
  pub ac : ℕ
  pub sc : ℕ
  pub reg_ac : ℕ
  pub reg_sc : ℕ
  pub is_mem : Bool
  pub is_cpu : Bool
  pub is_gic : Bool
  pub is_uart : Bool
  pub is_psci : Bool
  pub method : ℕ
  pub nreg : ℕ
  pub regs : ℕ → Range

abbrev pub Bytes : Type 0
Bytes = ℕ → ℕ

-- `be32`
unfoldable pub be32 : Bytes → ℕ → ℕ
be32 byte p = byte p * 2 ^ 24 + byte (p + 1) * 2 ^ 16 + byte (p + 2) * 2 ^ 8 + byte (p + 3)

-- the loop of `be_cells` from the cell `i`
unfoldable pub cells_loop : ℕ → ℕ → Bytes → ℕ → ℕ → ℕ
unfolding be32
cells_loop zero i byte p v = v
cells_loop (suc rounds) i byte p v =
    cells_loop rounds (i + 1) byte p ((v * 2 ^ 32 + be32 byte (p + i * 4 % u32_mod)) % u64_mod)

-- `be_cells`
unfoldable pub be_cells : Bytes → ℕ → ℕ → ℕ
unfolding cells_loop
be_cells byte p cells = cells_loop cells 0 byte p 0

-- `str_eq` with a literal for `b`, without the null byte at its end
unfoldable pub str_eq : Bytes → ℕ → List ℕ → Bool
str_eq byte a [] = byte a == 0
str_eq byte a (c ∷ b) = (byte a == c) && str_eq byte (a + 1) b

-- the length of the text at `s`, counted up to `most`
unfoldable pub scan : ℕ → Bytes → ℕ → ℕ
scan zero byte s = 0
scan (suc most) byte s = if byte s == 0 then 0 else suc (scan most byte (s + 1))

-- the loop of `str_has` from the offset `i`; `none` when the fuel is out
unfoldable pub has_loop : ℕ → Bytes → ℕ → ℕ → List ℕ → ℕ → Option Bool
unfolding str_eq scan
has_loop zero byte list len want i = none
has_loop (suc fuel) byte list len want i =
    let rest = has_loop fuel byte list len want (add32 i (scan (len - i) byte (list + i) + 1)) in
    if ltb i len then (if str_eq byte (list + i) want then some true else rest) else some false

-- `str_has`; a round goes on by a byte at least, and only a list of 2 ^ 32 - 1 bytes can exhaust the fuel
unfoldable pub str_has : Bytes → ℕ → ℕ → List ℕ → Option Bool
unfolding has_loop
str_has byte list len want = has_loop (len + 1) byte list len want 0

-- one of several names in the list, tried from the left
unfoldable pub has_any : Bytes → ℕ → ℕ → List (List ℕ) → Option Bool
unfolding str_has
has_any byte list len [] = some false
has_any byte list len (w ∷ ws) = elim (str_has byte list len w) [
  | none ↦ none
  | some true ↦ some true
  | some false ↦ has_any byte list len ws
]

-- `align4`
unfoldable pub align4 : ℕ → ℕ
align4 v = add32 v 3 - add32 v 3 % 4

-- the loop of `parse_reg`
unfoldable pub reg_loop : ℕ → ℕ → ℕ → Bytes → ℕ → ℕ → ℕ → ℕ → (ℕ → Range) → (ℕ → Range) × ℕ
unfolding be_cells
reg_loop zero off count byte p len ac sc out = (out, count)
reg_loop (suc rounds) off count byte p len ac sc out =
    let step = (ac + sc) * 4 % u32_mod in
    if leb (add32 off step) len
    then reg_loop rounds (add32 off step) (count + 1) byte p len ac sc (
        update out count
          (range (be_cells byte (p + off) ac) (be_cells byte (p + off + ac * 4 % u32_mod) sc)))
    else (out, count)

-- `parse_reg`, with `max` 4; `out` and `count` are the fields `regs` and `nreg` of the node
unfoldable pub parse_reg : Bytes → ℕ → ℕ → Node → Node
unfolding reg_loop
parse_reg byte p len n =
    let ac = if n.reg_ac == 0 then 1 else n.reg_ac in
    let sc = n.reg_sc in
    if sc == 0
    then (if len == ac * 4 % u32_mod
        then record n { regs = update n.regs 0 (range (be_cells byte p ac) 0); nreg = 1 }
        else n)
    else if (ac + sc) * 4 % u32_mod == 0
    then n
    else (let (regs, nreg) = reg_loop 4 0 0 byte p len ac sc n.regs in
        record n { regs = regs; nreg = nreg })

-- the state of the parser: the candidate, the stack of nodes and the offset
pub record Parse : Type 0 where
  pub cand : DtbCand
  pub st : ℕ → Node
  pub depth : ℕ
  pub pos : ℕ

-- the blob, with the sums and sizes that the header gives
pub record Blob : Type 0 where
  pub byte : Bytes
  pub off_struct : ℕ
  pub size_struct : ℕ
  pub off_strings : ℕ
  pub size_strings : ℕ

abbrev pub struct_end : Blob → ℕ
struct_end b = add32 b.off_struct b.size_struct

abbrev pub set_cand : (DtbCand → DtbCand) → Cmd Parse (Unit {0})
set_cand f = modify (λ s. record s { cand = f s.cand })

-- `add_mem`
unfoldable pub add_mem : ℕ → ℕ → Cmd Parse (Unit {0})
unfolding range_ok
add_mem base size = do
  when (not (range_ok base size)) (halt Codes.fail_wrap base size)
  count ← gets (λ s. s.cand.mem_count)
  when (leb mem_fact_max count) (halt Codes.fail_dtb base 3)
  set_cand (λ c. record c { mem = update c.mem count (range base size); mem_count = count + 1 })

-- is one of the first `rounds` CPUs from `i` this one?
unfoldable pub known_cpu : ℕ → ℕ → (ℕ → ℕ) → ℕ → Bool
known_cpu zero i cpus mpidr = false
known_cpu (suc rounds) i cpus mpidr = (cpus i == mpidr) || known_cpu rounds (i + 1) cpus mpidr

-- `add_cpu`
unfoldable pub add_cpu : ℕ → Cmd Parse (Unit {0})
unfolding known_cpu
add_cpu mpidr = do
  c ← gets (λ s. s.cand)
  let m = affinity mpidr
  if known_cpu c.cpu_count 0 c.cpu_mpidr m then pure tt else do
    when (leb cpu_bound c.cpu_count) (halt Codes.fail_cpu m 0)
    set_cand (λ c. record c {
      cpu_mpidr = update c.cpu_mpidr c.cpu_count m;
      cpu_count = c.cpu_count + 1;
    })
