-- ===== src/Facts/Processors.antt =====
-- The CPU facts of `nxu_s4_facts` (foundation/facts/facts.c): one for each CPU of the source, all
-- different, the boot CPU among them.
pub mod Merge
use nxu.Base.{
  ℕ, zero, suc, ◌+◌, ◌≤◌, ◌<◌, ◌≡◌, ◌≢◌, inl, inr, refl, Bool, true, false, not, ◌&&◌, ◌||◌, ◌==◌,
  arith, Bool-cases, eq_of_==, eq_or_lt, not_ltb→le, subst, sym, ap, ◌∙◌, update, update_at,
  update_ne, Cmd, MayHalt, goes_on, halts, MayHalt-and_then, MayHalt-when, MayHalt-mono,
  MayHalt-for_range, for_range, ◌>>◌, when, ltb, if◌then◌else◌,
}
use nxu.Codes
use nxu.Observe.{cpu_bound}
use nxu.World.{World, Facts, CpuFact, MemFact, DtbCand, BoardFacts, put, fail}
use nxu.World.Halting.{fail-halts, guard-keeps, guard-passes, after_guard}
use nxu.Facts.{affinity, has_affinity, add_cpu_fact, dtb_cpu, board_cpu, boot_found, merge_cpu}

-- the first `i` CPU facts are the affinities `aff`
record Copied (aff : ℕ → ℕ) (i : ℕ) (f : Facts) : Type 0 where
  count : f.cpu_count ≡ i
  copied : (j : ℕ) → j < i → (f.cpu j).mpidr ≡ aff j

-- There are at most 8 CPU facts, all different, and the boot CPU is among them.
pub record CpusAreSettled (boot : ℕ) (f : Facts) : Type 0 where
  pub bound : f.cpu_count ≤ cpu_bound
  pub distinct : (j k : ℕ) → j < k → k < f.cpu_count → (f.cpu j).mpidr ≢ (f.cpu k).mpidr
  pub boot_fact : (b : ℕ) × (b < f.cpu_count) × ((f.cpu b).mpidr ≡ boot)

-- what the search for the boot CPU finds
boot_found-hit :
    (n i : ℕ) (cpu : ℕ → CpuFact) (boot : ℕ)
    → boot_found n i cpu boot ≡ true
    → (b : ℕ) × (b < i + n) × ((cpu b).mpidr ≡ boot)
unfolding boot_found
boot_found-hit zero i cpu boot h = absurd cc
boot_found-hit (suc n) i cpu boot h = elim (Bool-cases ((cpu i).mpidr == boot)) [
  | inl e ↦ (i, omega arith, eq_of_== _ _ e)
  | inr e ↦
      let r = boot_found-hit n (i + 1) cpu boot (ground (arith, e, h)) in
      (r.0, omega (arith, r.1), r.2)
]

lt_ne : (a b : ℕ) → a < b → a ≢ b
lt_ne a b h = omega arith

module _ (aff : ℕ → ℕ) where
  Copied-one :
      (i : ℕ) (f : Facts) (c : CpuFact)
      → Copied aff i f
      → c.mpidr ≡ aff i
      → Copied aff
          (i + 1)
          (record f { cpu = update f.cpu f.cpu_count c; cpu_count = f.cpu_count + 1 })
  Copied-one i f c p e = record {
    count = ap (λ n. n + 1) p.count;
    copied = λ j h. elim (eq_or_lt j i (omega arith)) [
      | inl same ↦
          ap (λ x. x.mpidr) (update_at f.cpu c (same ∙ sym p.count)) ∙ (e ∙ ap aff (sym same))
      | inr l ↦
          ap (λ x. x.mpidr) (update_ne f.cpu c (lt_ne j f.cpu_count (omega (arith, p.count))))
          ∙ p.copied j l
    ];
  }

-- The stage takes these from `w`, and `u` has them still.
pub record Taken (w u : World) : Type 0 where
  pub cand : u.dtb_cand ≡ w.dtb_cand
  pub board : u.board ≡ w.board
  pub intake : u.intake ≡ w.intake
  pub image : u.image ≡ w.image

module _ (w : World) (mem : ℕ → MemFact) where
  abbrev boot : ℕ
  boot = affinity w.intake.mpidr

  -- the stage has its memory facts, and the first `i` CPU facts
  record Round (aff : ℕ → ℕ) (i : ℕ) (u : World) : Type 0 where
    taken : Taken w u
    mem_same : u.facts.mem ≡ mem
    copied : Copied aff i u.facts

  add_cpu_fact-Round :
      (aff : ℕ → ℕ) (i m source grade : ℕ) (u : World)
      → Round aff i u
      → m ≡ aff i
      → MayHalt (λ _. Round aff (i + 1)) (add_cpu_fact m source grade u)
  unfolding add_cpu_fact put
  add_cpu_fact-Round aff i m source grade u r e = goes_on (record {
    taken = record {
      cand = r.taken.cand;
      board = r.taken.board;
      intake = r.taken.intake;
      image = r.taken.image;
    };
    mem_same = r.mem_same;
    copied = Copied-one aff i u.facts _ r.copied e;
  })

  dtb_cpu-Round :
      (i : ℕ) (u : World)
      → Round (λ j. affinity (w.dtb_cand.cpu_mpidr j)) i u
      → MayHalt (λ _. Round (λ j. affinity (w.dtb_cand.cpu_mpidr j)) (i + 1)) (dtb_cpu boot i u)
  unfolding dtb_cpu
  dtb_cpu-Round i u r =
      let m = u.dtb_cand.cpu_mpidr i in
      let named = u.board.present && ltb 0 u.board.cpu_count in
      let seen = m == boot in
      let source =
        Codes.src_dtb
        + (if named then Codes.src_board else 0)
        + (if seen then Codes.src_obs else 0) in
      let grade = if named || seen then Codes.grade_corroborated else Codes.grade_single in
      after_guard (named && not (has_affinity u.board.cpu_count 0 u.board.cpu_mpidr (affinity m)))
        Codes.fail_cpu m 1 (add_cpu_fact (affinity m) source grade) u
        (λ _.
          add_cpu_fact-Round _ i _ source grade u r
            (ap (λ d. affinity (d.cpu_mpidr i)) r.taken.cand))

  board_cpu-Round :
      (i : ℕ) (u : World)
      → Round (λ j. affinity (w.board.cpu_mpidr j)) i u
      → MayHalt (λ _. Round (λ j. affinity (w.board.cpu_mpidr j)) (i + 1)) (board_cpu boot i u)
  unfolding board_cpu
  board_cpu-Round i u r =
      let seen = affinity (u.board.cpu_mpidr i) == boot in
      add_cpu_fact-Round _ i _ (Codes.src_board + (if seen then Codes.src_obs else 0))
        (if seen then Codes.grade_corroborated else Codes.grade_single) u r
        (ap (λ d. affinity (d.cpu_mpidr i)) r.taken.board)

  -- the facts are those of a source: its affinities, at most 8 and all different
  record Sourced (u : World) : Type 0 where
    taken : Taken w u
    mem_same : u.facts.mem ≡ mem
    bound : u.facts.cpu_count ≤ cpu_bound
    distinct :
        (j k : ℕ) → j < k → k < u.facts.cpu_count → (u.facts.cpu j).mpidr ≢ (u.facts.cpu k).mpidr

  Round-Sourced :
      (aff : ℕ → ℕ) (n : ℕ) (u : World)
      → Round aff n u
      → n ≤ cpu_bound
      → ((j k : ℕ) → j < k → k < n → aff j ≢ aff k)
      → Sourced u
  Round-Sourced aff n u r le apart = record {
    taken = r.taken;
    mem_same = r.mem_same;
    bound = omega (arith, r.copied.count);
    distinct = λ j k jk h e. apart j k jk (omega (arith, r.copied.count)) (
        sym (r.copied.copied j (omega (arith, r.copied.count)))
        ∙ (e ∙ r.copied.copied k (omega (arith, r.copied.count))));
  }

  loop-Sourced :
      (aff : ℕ → ℕ) (n : ℕ) (body : ℕ → Cmd World (Unit {0})) (u : World)
      → ((k : ℕ) (t : World) → Round aff k t → MayHalt (λ _. Round aff (k + 1)) (body k t))
      → n ≤ cpu_bound
      → ((j k : ℕ) → j < k → k < n → aff j ≢ aff k)
      → Round aff 0 u
      → MayHalt (λ _. Sourced) (for_range n 0 body u)
  loop-Sourced aff n body u round le apart r =
      MayHalt-mono (MayHalt-for_range (Round aff) n 0 body u (λ k t _ _ p. round k t p) r) (λ _ v p.
        Round-Sourced aff n v (subst (λ x. Round aff x v) {x = 0 + n} {y = n} (omega arith) p) le
          apart)

  -- S4 has its CPU facts
  pub record HasCpus (u : World) : Type 0 where
    pub taken : Taken w u
    pub mem_same : u.facts.mem ≡ mem
    pub cpus : CpusAreSettled boot u.facts
