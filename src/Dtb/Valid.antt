-- ===== src/Dtb/Valid.antt =====
-- The parser of foundation/facts/fdt.c on any blob: what holds of the candidate and of the stack of
-- nodes at every token.
pub mod Tokens
use nxu.Base.{
  ℕ, zero, suc, ◌+◌, ◌*◌, ◌%◌, ◌≤◌, ◌<◌, ◌≡◌, ◌≢◌, inl, inr, Bool, true, false, ◌&&◌, Option, none,
  some, ltb, leb, ◌==◌, ◌!=◌, if◌then◌else◌, arith, Bool-cases, Option-cases, subst, ||-false,
  eq_or_lt, lt_of_not_leb, ne_of_==, Cmd, when, ◌>>◌, for_range, update, Leaves, ended, stopped,
  Leaves-and_then, Leaves-when, Leaves-for_range,
}
use nxu.Word.{add32, u32_mod}
use nxu.Range.{Range, range, range_ok}
use nxu.Observe.{cpu_bound}
use nxu.Facts.{affinity, mem_fact_max}
use nxu.World.{DtbCand}
use nxu.Dtb.{
  fdt_nop, fdt_end, fdt_begin_node, fdt_end_node, fdt_prop, Bytes, Node, Parse, Blob, add_mem,
  add_cpu, known_cpu, parse_reg, reg_loop, be_cells, be32, has_any, struct_end,
}
use nxu.Dtb.Stage.{no_cand}
use nxu.Dtb.Parser.{
  begin_node, gic_cand, uart_cand, psci_cand, leave_node, end_node, compatible, gic_names,
  uart_names, psci_names, set_prop, go_on, Next, again, stop, stuck, prop, prop_at, store_prop,
  token, token_loop, start,
}

-- The candidate: the counts are within the arrays, every memory range is one, and the CPUs are distinct
-- affinities.
pub record CandIsValid (c : DtbCand) : Type 0 where
  pub mems : c.mem_count ≤ mem_fact_max
  pub mems_ok : (k : ℕ) → k < c.mem_count → range_ok (c.mem k).base (c.mem k).size ≡ true
  pub cpus : c.cpu_count ≤ cpu_bound
  pub masked : (k : ℕ) → k < c.cpu_count → affinity (c.cpu_mpidr k) ≡ c.cpu_mpidr k
  pub distinct : (i k : ℕ) → i < k → k < c.cpu_count → c.cpu_mpidr i ≢ c.cpu_mpidr k

-- The state of the parser: the candidate is valid, the depth is within the stack, and no node has more
-- than 4 ranges.
pub record ParseIsValid (s : Parse) : Type 0 where
  pub cand : CandIsValid s.cand
  pub depth : s.depth < 16
  pub nregs : (d : ℕ) → (s.st d).nreg ≤ 4

affinity_idem : (m : ℕ) → affinity (affinity m) ≡ affinity m
affinity_idem m = omega arith

-- what a failed search says
known_cpu-miss :
    (n i : ℕ) (cpus : ℕ → ℕ) (m : ℕ)
    → known_cpu n i cpus m ≡ false
    → (k : ℕ) → i ≤ k
    → k < i + n
    → cpus k ≢ m
unfolding known_cpu
known_cpu-miss zero i cpus m e k le lt = absurd (omega arith)
known_cpu-miss (suc n) i cpus m e k le lt = elim (eq_or_lt i k le) [
  | inl same ↦ subst (λ j. cpus j ≢ m) same (ne_of_== (cpus i) m (||-false (cpus i == m) _ e).0)
  | inr past ↦
      known_cpu-miss n (i + 1) cpus m (||-false (cpus i == m) _ e).1 k (omega arith) (omega arith)
]

-- a valid candidate with one more range, or one more CPU
add_range :
    (c : DtbCand) (base size : ℕ)
    → range_ok base size ≡ true
    → c.mem_count < mem_fact_max
    → CandIsValid c
    → CandIsValid
        (record c { mem = update c.mem c.mem_count (range base size); mem_count = c.mem_count + 1 })
add_range c base size e lt v = record {
  mems = omega arith;
  mems_ok = λ k h. ground (arith, v.mems_ok k, e);
  cpus = v.cpus;
  masked = v.masked;
  distinct = v.distinct;
}

with_cpu :
    (c : DtbCand) (m : ℕ)
    → affinity m ≡ m
    → ((k : ℕ) → k < c.cpu_count → c.cpu_mpidr k ≢ m)
    → c.cpu_count < cpu_bound
    → CandIsValid c
    → CandIsValid
        (record c { cpu_mpidr = update c.cpu_mpidr c.cpu_count m; cpu_count = c.cpu_count + 1 })
with_cpu c m e new lt v = record {
  mems = v.mems;
  mems_ok = v.mems_ok;
  cpus = omega arith;
  masked = λ k h. ground (arith, v.masked k, e);
  distinct = λ i k ik h. ground (arith, v.distinct i k, new i);
}

pub add_mem-Valid :
    (base size : ℕ) (s : Parse) → ParseIsValid s → Leaves ParseIsValid (add_mem base size s)
unfolding add_mem
add_mem-Valid base size s v = elim (Bool-cases (range_ok base size)) [
  | inr e ↦ rw e (stopped v)
  | inl e ↦ rw e (elim (Bool-cases (leb mem_fact_max s.cand.mem_count)) [
    | inl f ↦ rw f (stopped v)
    | inr f ↦ rw f (
        ended (record {
          cand =
              add_range s.cand base size e (lt_of_not_leb s.cand.mem_count mem_fact_max f) v.cand;
          depth = v.depth;
          nregs = v.nregs;
        }))
  ])
]

pub add_cpu-Valid : (mpidr : ℕ) (s : Parse) → ParseIsValid s → Leaves ParseIsValid (add_cpu mpidr s)
unfolding add_cpu
add_cpu-Valid mpidr s v =
    elim (Bool-cases (known_cpu s.cand.cpu_count 0 s.cand.cpu_mpidr (affinity mpidr))) [
      | inl e ↦ rw e (ended v)
      | inr e ↦ rw e (elim (Bool-cases (leb cpu_bound s.cand.cpu_count)) [
        | inl f ↦ rw f (stopped v)
        | inr f ↦ rw f (
            ended (record {
              cand =
                  with_cpu s.cand (affinity mpidr) (affinity_idem mpidr)
                    (λ k h.
                      known_cpu-miss s.cand.cpu_count 0 s.cand.cpu_mpidr (affinity mpidr) e k
                        (omega arith) (omega arith))
                    (lt_of_not_leb s.cand.cpu_count cpu_bound f) v.cand;
              depth = v.depth;
              nregs = v.nregs;
            }))
      ])
    ]

reg_loop-le :
    (rounds off count : ℕ) (byte : Bytes) (p len ac sc : ℕ) (out : ℕ → Range)
    → (reg_loop rounds off count byte p len ac sc out).1 ≤ count + rounds
unfolding reg_loop
reg_loop-le zero off count byte p len ac sc out = omega arith
reg_loop-le (suc rounds) off count byte p len ac sc out =
    elim (Bool-cases (leb (add32 off ((ac + sc) * 4 % u32_mod)) len)) [
      | inr e ↦ rw e (omega arith)
      | inl e ↦ rw e (
          omega (
            arith,
            reg_loop-le rounds (add32 off ((ac + sc) * 4 % u32_mod)) (count + 1) byte p len ac sc (
                update out count (
                  range (be_cells byte (p + off) ac)
                    (be_cells byte (p + off + ac * 4 % u32_mod) sc))),
          ))
    ]

parse_reg-le :
    (byte : Bytes) (p len : ℕ) (n : Node) → n.nreg ≤ 4 → (parse_reg byte p len n).nreg ≤ 4
unfolding parse_reg
parse_reg-le byte p len n h =
    ground (arith, reg_loop-le 4 0 0 byte p len (if n.reg_ac == 0 then 1 else n.reg_ac) n.sc n.regs)

-- a node with at most 4 ranges, if there is one
data SmallNode : Option Node → Type 0 where
  nowhere : SmallNode none
  small : {n : Node} → n.nreg ≤ 4 → SmallNode (some n)

if-SmallNode :
    (b : Bool) (x y : Option Node) → SmallNode x → SmallNode y → SmallNode (if b then x else y)
if-SmallNode true x y p q = p
if-SmallNode false x y p q = q

compatible-SmallNode :
    (byte : Bytes) (pval plen : ℕ) (n : Node) → n.nreg ≤ 4 → SmallNode (compatible byte pval plen n)
unfolding compatible
compatible-SmallNode byte pval plen n h = elim (Option-cases (has_any byte pval plen gic_names)) [
  | inl e ↦ rw (e, compatible) nowhere
  | inr (a, e) ↦
      rw (e, compatible)
        (elim (Option-cases (has_any byte pval plen uart_names)) [
          | inl f ↦ rw (f, compatible) nowhere
          | inr (b, f) ↦
              rw (f, compatible)
                (elim (Option-cases (has_any byte pval plen psci_names)) [
                  | inl g ↦ rw (g, compatible) nowhere
                  | inr (c, g) ↦ rw (g, compatible) (small h)
                ])
        ])
]

set_prop-SmallNode :
    (byte : Bytes) (pname pval plen : ℕ) (n : Node)
    → n.nreg ≤ 4
    → SmallNode (set_prop byte pname pval plen n)
unfolding set_prop
set_prop-SmallNode byte pname pval plen n h =
    search (if-SmallNode, small, h, compatible-SmallNode, parse_reg-le) depth 12

set_nregs :
    (st : ℕ → Node) (d : ℕ) (n : Node)
    → ((k : ℕ) → (st k).nreg ≤ 4)
    → n.nreg ≤ 4
    → (k : ℕ) → (update st d n k).nreg ≤ 4
set_nregs st d n h hn k = ground (arith, h k)

pub begin_node-Valid :
    (b : Blob) (s : Parse) → ParseIsValid s → Leaves ParseIsValid (begin_node b s)
unfolding begin_node
begin_node-Valid b s v = elim (Bool-cases (leb 16 (s.depth + 1))) [
  | inl e ↦ rw e (stopped v)
  | inr e ↦ rw e (
      ended (record {
        cand = v.cand;
        depth = lt_of_not_leb (s.depth + 1) 16 e;
        nregs = set_nregs s.st (s.depth + 1) _ v.nregs (omega arith);
      }))
]

store_prop-Valid :
    (pos : ℕ) (o : Option Node) (s : Parse)
    → SmallNode o
    → ParseIsValid s
    → Leaves ParseIsValid (store_prop pos o s)
unfolding store_prop
store_prop-Valid pos none s o v = ended v
store_prop-Valid pos (some n) s (small h) v =
    ended (record { cand = v.cand; depth = v.depth; nregs = set_nregs s.st s.depth n v.nregs h })

pub prop_at-Valid :
    (b : Blob) (plen nameoff pos : ℕ) (s : Parse)
    → ParseIsValid s
    → Leaves ParseIsValid (prop_at b plen nameoff pos s)
unfolding prop_at
prop_at-Valid b plen nameoff pos s v = elim (Bool-cases (leb b.size_strings nameoff)) [
  | inl e ↦ rw e (stopped v)
  | inr e ↦ rw e (elim (Bool-cases (ltb (struct_end b) (add32 pos plen))) [
    | inl f ↦ rw f (stopped v)
    | inr f ↦ rw f (store_prop-Valid _ _ s (set_prop-SmallNode b.byte _ _ _ _ (v.nregs s.depth)) v)
  ])
]
