-- ===== src/Dtb/Parser.antt =====
-- The loop of `nxu_s3_dtb` (foundation/facts/fdt.c) over the tokens of the structure block. A round of
-- the loop is `token`; the loop takes fuel, and says whether it came to its end.
use nxu.Base.{
  ℕ, zero, suc, ◌+◌, ◌-◌, Bool, true, false, ◌&&◌, ◌||◌, Option, none, some, List, [], ◌∷◌, ltb,
  leb, ◌==◌, ◌!=◌, if◌then◌else◌, Cmd, pure, ◌>>=◌, ◌>>◌, modify, gets, when, for_range, update,
  halt,
}
use Prim.Native.String.{String}
use nxu.Codes
use nxu.Word.{add32}
use nxu.Range.{range}
use nxu.Console.{txt}
use nxu.World.{DtbCand}
use nxu.Dtb.{
  fdt_begin_node, fdt_end_node, fdt_prop, fdt_nop, fdt_end, Node, Bytes, be32, str_eq, scan,
  has_any, align4, parse_reg, Parse, Blob, struct_end, set_cand, add_mem, add_cpu,
}

abbrev pub set_node : Node → Cmd Parse (Unit {0})
set_node n = modify (λ s. record s { st = update s.st s.depth n })

-- the branch of FDT_BEGIN_NODE
unfoldable pub begin_node : Blob → Cmd Parse (Unit {0})
unfolding scan align4
begin_node b = do
  pos ← gets (λ s. s.pos)
  depth ← gets (λ s. s.depth)
  let nlen = scan (struct_end b - pos) b.byte pos
  when (leb 16 (depth + 1)) (halt Codes.fail_dtb depth 6)
  parent ← gets (λ s. s.st depth)
  modify (λ s. record s { depth = depth + 1 })
  old ← gets (λ s. s.st (depth + 1))
  set_node (record old {
    ac = parent.ac;
    sc = parent.sc;
    reg_ac = parent.ac;
    reg_sc = parent.sc;
    is_mem = false;
    is_cpu = false;
    is_gic = false;
    is_uart = false;
    is_psci = false;
    method = 0;
    nreg = 0;
  })
  modify (λ s. record s { pos = align4 (add32 pos (nlen + 1)) })

-- what a node that is a device does to the candidate
unfoldable pub gic_cand : Node → DtbCand → DtbCand
gic_cand n c =
    if n.is_gic && (leb 2 n.nreg && (c.gicd.size == 0))
    then record c { gicd = n.regs 0; gicr = n.regs 1 }
    else c

unfoldable pub uart_cand : Node → DtbCand → DtbCand
uart_cand n c =
    if n.is_uart && ltb 0 n.nreg then record c { uart = n.regs 0; uart_valid = true } else c

unfoldable pub psci_cand : Node → DtbCand → DtbCand
psci_cand n c = if n.is_psci && (n.method != 0) then record c { psci_conduit = n.method } else c

-- the branch of FDT_END_NODE behind the memory and the CPU of the node `n`
unfoldable pub leave_node : Node → Cmd Parse (Unit {0})
unfolding gic_cand uart_cand psci_cand
leave_node n = do
  set_cand (λ c. psci_cand n (uart_cand n (gic_cand n c)))
  depth ← gets (λ s. s.depth)
  when (depth == 0) (halt Codes.fail_dtb 0 7)
  modify (λ s. record s { depth = depth - 1 })

-- the branch of FDT_END_NODE: what the node was becomes candidates
unfoldable pub end_node : Cmd Parse (Unit {0})
unfolding add_mem add_cpu leave_node for_range
end_node = do
  n ← gets (λ s. s.st s.depth)
  when n.is_mem (for_range n.nreg 0 (λ k. add_mem (n.regs k).base (n.regs k).size))
  when (n.is_cpu && ltb 0 n.nreg) (add_cpu (n.regs 0).base)
  leave_node n

-- the names of the devices
abbrev pub gic_names : List (List ℕ)
gic_names = txt "arm,gic-v3" ∷ []

abbrev pub uart_names : List (List ℕ)
uart_names = txt "arm,pl011" ∷ (txt "arm,pl011-axi" ∷ [])

abbrev pub psci_names : List (List ℕ)
psci_names = txt "arm,psci" ∷ (txt "arm,psci-0.2" ∷ (txt "arm,psci-1.0" ∷ []))

-- the property `compatible`
unfoldable pub compatible : Bytes → ℕ → ℕ → Node → Option Node
unfolding has_any
compatible byte pval plen n = elim (has_any byte pval plen gic_names) [
  | none ↦ none
  | some gic ↦ elim (has_any byte pval plen uart_names) [
    | none ↦ none
    | some uart ↦ elim (has_any byte pval plen psci_names) [
      | none ↦ none
      | some psci ↦ some (record n {
        is_gic = gic || n.is_gic;
        is_uart = uart || n.is_uart;
        is_psci = psci || n.is_psci;
      })
    ]
  ]
]

-- what the property of a name and a value does to its node
unfoldable pub set_prop : Bytes → ℕ → ℕ → ℕ → Node → Option Node
unfolding str_eq be32 compatible parse_reg
set_prop byte pname pval plen n =
    let named : String → Bool = λ s. str_eq byte pname (txt s) in
    let holds : String → Bool = λ s. str_eq byte pval (txt s) in
    if named "#address-cells" && (plen == 4)
    then some (record n { ac = be32 byte pval })
    else if named "#size-cells" && (plen == 4)
    then some (record n { sc = be32 byte pval })
    else if named "device_type" && leb 4 plen
    then some (record n { is_mem = holds "memory" || n.is_mem; is_cpu = holds "cpu" || n.is_cpu })
    else if named "compatible"
    then compatible byte pval plen n
    else if named "reg"
    then some (parse_reg byte pval plen n)
    else if named "method"
    then some (record n {
      method =
          if holds "hvc" then Codes.psci_hvc else if holds "smc" then Codes.psci_smc else n.method;
    })
    else some n

-- how a round of the loop ends: with another round, with `break`, or never (the fuel of `str_has`)
pub data Next : Type 0 where
  again stop stuck : Next

-- what follows a property: its node changes, and the parser goes on at `pos`
unfoldable pub store_prop : ℕ → Option Node → Cmd Parse Next
store_prop pos none = pure stuck
store_prop pos (some n) = do set_node n; modify (λ s. record s { pos = pos }); pure again

-- a property of the length `plen`, with its name at `nameoff` and its value at `pos`
unfoldable pub prop_at : Blob → ℕ → ℕ → ℕ → Cmd Parse Next
unfolding set_prop store_prop align4
prop_at b plen nameoff pos = do
  when (leb b.size_strings nameoff) (halt Codes.fail_dtb nameoff 9)
  when (ltb (struct_end b) (add32 pos plen)) (halt Codes.fail_dtb plen 10)
  n ← gets (λ s. s.st s.depth)
  store_prop (align4 (add32 pos plen)) (set_prop b.byte (b.off_strings + nameoff) pos plen n)

-- the branch of FDT_PROP
unfoldable pub prop : Blob → Cmd Parse Next
unfolding prop_at be32
prop b = do at ← gets (λ s. s.pos); prop_at b (be32 b.byte at) (be32 b.byte (at + 4)) (add32 at 8)

-- the body of the loop, at a token
unfoldable pub token : Blob → Cmd Parse Next
unfolding begin_node end_node prop be32
token b = do
  at ← gets (λ s. s.pos)
  let tok = be32 b.byte at
  modify (λ s. record s { pos = add32 at 4 })
  if tok == fdt_nop
      then pure again
      else if tok == fdt_end
      then pure stop
      else if tok == fdt_begin_node
      then (do begin_node b; pure again)
      else if tok == fdt_end_node
      then (do end_node; pure again)
      else if tok != fdt_prop
      then halt Codes.fail_dtb tok 8
      else prop b

-- how the loop goes on after a round
unfoldable pub go_on : Next → Cmd Parse Bool → Cmd Parse Bool
go_on again rest = rest
go_on stop rest = pure true
go_on stuck rest = pure false

-- the loop of `nxu_s3_dtb`; the result is false when the fuel is out
unfoldable pub token_loop : ℕ → Blob → Cmd Parse Bool
unfolding token go_on
token_loop zero b = pure false
token_loop (suc fuel) b = do
  pos ← gets (λ s. s.pos)
  if leb (add32 pos 4) (struct_end b)
      then (do next ← token b; go_on next (token_loop fuel b))
      else pure true

-- `st[0]` at the start; the fields that the source leaves unset are read only after they are set
abbrev pub root_node : Node
root_node = record {
  ac = 2;
  sc = 1;
  reg_ac = 2;
  reg_sc = 1;
  is_mem = false;
  is_cpu = false;
  is_gic = false;
  is_uart = false;
  is_psci = false;
  method = 0;
  nreg = 0;
  regs = λ _. range 0 0;
}

abbrev pub start : Blob → DtbCand → Parse
start b c = record { cand = c; st = λ _. root_node; depth = 0; pos = b.off_struct }
