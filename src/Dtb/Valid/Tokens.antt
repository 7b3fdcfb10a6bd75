-- ===== src/Dtb/Valid/Tokens.antt =====
-- The parser of foundation/facts/fdt.c keeps its state valid: the ends of the nodes, the tokens and
-- their loop.
pub mod Cand
use nxu.Base.{
  ℕ, zero, suc, inl, inr, Bool, true, false, ◌&&◌, ltb, leb, ◌==◌, ◌!=◌, if◌then◌else◌, arith,
  Bool-cases, Cmd, when, ◌>>◌, for_range, Leaves, ended, stopped, Leaves-and_then, Leaves-when,
  Leaves-for_range,
}
use nxu.Word.{add32}
use nxu.Range.{Range}
use nxu.World.{DtbCand}
use nxu.Dtb.{
  fdt_nop, fdt_end, fdt_begin_node, fdt_end_node, fdt_prop, Node, Parse, Blob, add_mem, add_cpu,
  be32, struct_end,
}
use nxu.Dtb.Stage.{no_cand}
use nxu.Dtb.Parser.{
  gic_cand, uart_cand, psci_cand, leave_node, end_node, go_on, Next, again, stop, stuck, prop,
  token, token_loop, start,
}
use nxu.Dtb.Valid.{
  CandIsValid, ParseIsValid, add_mem-Valid, add_cpu-Valid, begin_node-Valid, prop_at-Valid,
}

if-Valid :
    (b : Bool) (c d : DtbCand) → CandIsValid d → CandIsValid c → CandIsValid (if b then d else c)
if-Valid true c d p q = p
if-Valid false c d p q = q

-- a candidate with the lists of a valid one
with_devices :
    (c : DtbCand) (gicd gicr uart : Range) (uart_valid : Bool) (psci : ℕ)
    → CandIsValid c
    → CandIsValid (record c {
      gicd = gicd;
      gicr = gicr;
      uart = uart;
      uart_valid = uart_valid;
      psci_conduit = psci;
    })
with_devices c gicd gicr uart uart_valid psci v = record {
  mems = v.mems;
  mems_ok = v.mems_ok;
  cpus = v.cpus;
  masked = v.masked;
  distinct = v.distinct;
}

gic_cand-Valid : (n : Node) (c : DtbCand) → CandIsValid c → CandIsValid (gic_cand n c)
unfolding gic_cand
gic_cand-Valid n c v =
    if-Valid (n.is_gic && (leb 2 n.nreg && (c.gicd.size == 0))) c
      (record c { gicd = n.regs 0; gicr = n.regs 1 })
      (with_devices c (n.regs 0) (n.regs 1) c.uart c.uart_valid c.psci_conduit v) v

uart_cand-Valid : (n : Node) (c : DtbCand) → CandIsValid c → CandIsValid (uart_cand n c)
unfolding uart_cand
uart_cand-Valid n c v =
    if-Valid (n.is_uart && ltb 0 n.nreg) c (record c { uart = n.regs 0; uart_valid = true })
      (with_devices c c.gicd c.gicr (n.regs 0) true c.psci_conduit v) v

psci_cand-Valid : (n : Node) (c : DtbCand) → CandIsValid c → CandIsValid (psci_cand n c)
unfolding psci_cand
psci_cand-Valid n c v =
    if-Valid (n.is_psci && (n.method != 0)) c (record c { psci_conduit = n.method })
      (with_devices c c.gicd c.gicr c.uart c.uart_valid n.method v) v

devices-Valid :
    (n : Node) (c : DtbCand)
    → CandIsValid c
    → CandIsValid (psci_cand n (uart_cand n (gic_cand n c)))
devices-Valid n c v = psci_cand-Valid n _ (uart_cand-Valid n _ (gic_cand-Valid n c v))

leave_node-Valid : (n : Node) (s : Parse) → ParseIsValid s → Leaves ParseIsValid (leave_node n s)
unfolding leave_node
leave_node-Valid n s v = elim (Bool-cases (s.depth == 0)) [
  | inl e ↦
      rw e (
        stopped (record { cand = devices-Valid n s.cand v.cand; depth = v.depth; nregs = v.nregs }))
  | inr e ↦ rw e (
      ended (record {
        cand = devices-Valid n s.cand v.cand;
        depth = omega (arith, v.depth);
        nregs = v.nregs;
      }))
]

add_mems-Valid :
    (n : Node) (s : Parse)
    → ParseIsValid s
    → Leaves ParseIsValid (for_range n.nreg 0 (λ k. add_mem (n.regs k).base (n.regs k).size) s)
add_mems-Valid n s v =
    Leaves-for_range n.nreg 0 (λ k. add_mem (n.regs k).base (n.regs k).size) s
      (λ k t _ _ p. add_mem-Valid (n.regs k).base (n.regs k).size t p) v

end_node-Valid : (s : Parse) → ParseIsValid s → Leaves ParseIsValid (end_node s)
unfolding end_node
end_node-Valid s v =
    let n = s.st s.depth in
    Leaves-and_then
      {k = λ _. when (n.is_cpu && ltb 0 n.nreg) (add_cpu (n.regs 0).base) >> leave_node n}
      (Leaves-when n.is_mem _ s v (λ _. add_mems-Valid n s v))
      (λ _ t p.
        Leaves-and_then {k = λ _. leave_node n}
          (Leaves-when (n.is_cpu && ltb 0 n.nreg) (add_cpu (n.regs 0).base) t p
            (λ _. add_cpu-Valid (n.regs 0).base t p))
          (λ _ u q. leave_node-Valid n u q))

moved : (s : Parse) (at : ℕ) → ParseIsValid s → ParseIsValid (record s { pos = at })
moved s at v = record { cand = v.cand; depth = v.depth; nregs = v.nregs }

token-Valid : (b : Blob) (s : Parse) → ParseIsValid s → Leaves ParseIsValid (token b s)
unfolding token prop
token-Valid b s v = elim (Bool-cases (be32 b.byte s.pos == fdt_nop)) [
  | inl e ↦ rw e (ended (moved s _ v))
  | inr e ↦ rw e (elim (Bool-cases (be32 b.byte s.pos == fdt_end)) [
    | inl f ↦ rw f (ended (moved s _ v))
    | inr f ↦ rw f (elim (Bool-cases (be32 b.byte s.pos == fdt_begin_node)) [
      | inl g ↦ rw g (Leaves-and_then (begin_node-Valid b _ (moved s _ v)) (λ _ t p. ended p))
      | inr g ↦ rw g (elim (Bool-cases (be32 b.byte s.pos == fdt_end_node)) [
        | inl h ↦ rw h (Leaves-and_then (end_node-Valid _ (moved s _ v)) (λ _ t p. ended p))
        | inr h ↦ rw h (elim (Bool-cases (be32 b.byte s.pos != fdt_prop)) [
          | inl i ↦ rw i (stopped (moved s _ v))
          | inr i ↦ rw i (prop_at-Valid b _ _ _ _ (moved s _ v))
        ])
      ])
    ])
  ])
]

go_on-Valid :
    (next : Next) (rest : Cmd Parse Bool) (s : Parse)
    → ParseIsValid s
    → Leaves ParseIsValid (rest s)
    → Leaves ParseIsValid (go_on next rest s)
unfolding go_on
go_on-Valid again rest s v r = r
go_on-Valid stop rest s v r = ended v
go_on-Valid stuck rest s v r = ended v

token_loop-Valid :
    (fuel : ℕ) (b : Blob) (s : Parse) → ParseIsValid s → Leaves ParseIsValid (token_loop fuel b s)
unfolding token_loop
token_loop-Valid zero b s v = ended v
token_loop-Valid (suc fuel) b s v = elim (Bool-cases (leb (add32 s.pos 4) (struct_end b))) [
  | inr e ↦ rw e (ended v)
  | inl e ↦ rw e (
      Leaves-and_then (token-Valid b s v)
        (λ next t p. go_on-Valid next (token_loop fuel b) t p (token_loop-Valid fuel b t p)))
]

-- Whatever the bytes of the blob are: when the parser comes to its end, halts, or is out of fuel, the
-- counts of the candidate are within its arrays, each of its memory ranges is not empty and does not
-- wrap, its CPUs are distinct and masked, the depth is below 16, and no node has more than 4 ranges.
pub parser-Valid :
    (fuel : ℕ) (b : Blob) (c : DtbCand)
    → Leaves ParseIsValid (token_loop fuel b (start b (no_cand c)))
parser-Valid fuel b c = token_loop-Valid fuel b (start b (no_cand c)) (record {
  cand = record {
    mems = omega arith;
    mems_ok = λ k h. absurd (omega arith);
    cpus = omega arith;
    masked = λ k h. absurd (omega arith);
    distinct = λ i k ik h. absurd (omega arith);
  };
  depth = omega arith;
  nregs = λ d. omega arith;
})
