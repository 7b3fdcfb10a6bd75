-- ===== src/Facts/Settled.antt =====
-- The memory facts, the controllers and the conduit in `nxu_s4_facts` of foundation/facts/facts.c: what
-- they leave alone.
pub mod Stage
use nxu.Base.{
  ℕ, zero, ◌+◌, ◌≤◌, ◌<◌, ◌≡◌, ◌≢◌, inl, inr, refl, Bool, true, false, not, ◌&&◌, ◌||◌, arith,
  Bool-cases, ne_of_==, ◌==◌, ◌!=◌, min, subst, subst₂, sym, ap, ◌∙◌, update, Cmd, Outcome, MayHalt,
  goes_on, halts, MayHalt-and_then, MayHalt-mono, MayHalt-when, MayHalt-for_range, for_range, ◌>>◌,
  when, ltb, if◌then◌else◌,
}
use nxu.Codes
use nxu.Range.{Range, range, range_eq, range_contains}
use nxu.Silicon.{timer_cntfrq}
use nxu.World.{World, Facts, CtlFact, MemFact, Intake, Image, put, fail, ask}
use nxu.World.Halting.{fail-halts, guard-keeps, guard-passes, after_guard}
use nxu.Facts.{
  affinity, set_facts, merge_ctl, merge_mem, dtb_mem, mem_fact_max, merge_ctls, merge_cpu,
}
use nxu.Facts.Stage.{merge_psci, merge_timer, isa_ppi, s4_facts}
use nxu.Facts.Merge.{Merged, merge_ctl-Merged}
use nxu.Facts.Processors.{Taken, HasCpus, CpusAreSettled}
use nxu.Facts.Processors.Merge.{SourcesAreLawful, merge_cpu-HasCpus}

-- What `u` has from `w`: the inputs of the stage, and the memory facts.
record Still (w u : World) : Type 0 where
  taken : Taken w u
  mem_same : u.facts.mem ≡ w.facts.mem

Taken-refl : (w : World) → Taken w w
Taken-refl w = record { cand = refl; board = refl; intake = refl; image = refl }

Taken-trans : (w u v : World) → Taken w u → Taken u v → Taken w v
Taken-trans w u v p q = record {
  cand = q.cand ∙ p.cand;
  board = q.board ∙ p.board;
  intake = q.intake ∙ p.intake;
  image = q.image ∙ p.image;
}

-- how `merge_ctl` ends keeps what its stores keep
Merged-keeps :
    (P : World → Type 0) (store : CtlFact → Facts → Facts) (w : World) (dtb board : Range)
    (kind : ℕ)
    → ((c : CtlFact) (u : World) → P u → P (record u { facts = store c u.facts }))
    → P w
    → (dtb_ok board_ok required : Bool) (r : Outcome World (Unit {0}))
    → Merged store w dtb board kind dtb_ok board_ok required r
    → MayHalt (λ _. P) r
Merged-keeps P store w dtb board kind keep p _ _ _ _ (Merged.both_agree e) =
    goes_on (keep _ _ (keep _ _ p))
Merged-keeps P store w dtb board kind keep p _ _ _ _ (Merged.both_differ n a b c) = halts
Merged-keeps P store w dtb board kind keep p _ _ _ _ Merged.only_dtb =
    goes_on (keep _ _ (keep _ _ p))
Merged-keeps P store w dtb board kind keep p _ _ _ _ Merged.only_board =
    goes_on (keep _ _ (keep _ _ p))
Merged-keeps P store w dtb board kind keep p _ _ _ _ Merged.neither = goes_on (keep _ _ p)
Merged-keeps P store w dtb board kind keep p _ _ _ _ (Merged.missing a b) = halts

module _ (w : World) where
  Still-facts :
      (u : World) (f : Facts) → Still w u → f.mem ≡ u.facts.mem → Still w (record u { facts = f })
  Still-facts u f s e = record {
    taken = record {
      cand = s.taken.cand;
      board = s.taken.board;
      intake = s.taken.intake;
      image = s.taken.image;
    };
    mem_same = e ∙ s.mem_same;
  }

  Still-put : (code a b : ℕ) (u : World) → Still w u → MayHalt (λ _. Still w) (put code a b u)
  unfolding put
  Still-put code a b u s = goes_on (record {
    taken = record {
      cand = s.taken.cand;
      board = s.taken.board;
      intake = s.taken.intake;
      image = s.taken.image;
    };
    mem_same = s.mem_same;
  })

  merge_ctl-Still :
      (store : CtlFact → Facts → Facts)
      → ((c : CtlFact) (f : Facts) → (store c f).mem ≡ f.mem)
      → (dtb : Range) (dtb_ok : Bool) (board : Range) (board_ok : Bool) (kind : ℕ) (required : Bool)
        (u : World)
      → Still w u
      → MayHalt (λ _. Still w) (merge_ctl store dtb dtb_ok board board_ok kind required u)
  merge_ctl-Still store same dtb dtb_ok board board_ok kind required u s =
      Merged-keeps (Still w) store u dtb board kind
        (λ c v p. Still-facts v (store c v.facts) p (same c v.facts)) s dtb_ok board_ok required _
        (merge_ctl-Merged store u dtb board kind dtb_ok board_ok required)

  -- the UART is recorded, if there is one
  note_uart-Still :
      (f : Facts) (y : World)
      → Still w y
      → f.mem ≡ y.facts.mem
      → MayHalt
          (λ _. Still w)
          (when f.uart_valid
            (put Codes.rec_s4_uart f.uart.range.base f.uart.grade)
            (record y { facts = f }))
  note_uart-Still f y s e =
      MayHalt-when f.uart_valid (put Codes.rec_s4_uart f.uart.range.base f.uart.grade) _
        (Still-facts y f s e) (λ _. Still-put _ _ _ _ (Still-facts y f s e))

  merge_ctls-Still : (u : World) → Still w u → MayHalt (λ _. Still w) (merge_ctls u)
  unfolding merge_ctls
  merge_ctls-Still u s =
      MayHalt-and_then
        (merge_ctl-Still (λ c f. record f { gicd = c }) (λ c f. refl) _ _ _ _ _ _ u s)
        (λ _ t p.
          MayHalt-and_then
            (merge_ctl-Still (λ c f. record f { gicr = c }) (λ c f. refl) _ _ _ _ _ _ t p)
            (λ _ v q. MayHalt-and_then (Still-put _ _ _ v q) (λ _ x r.
              MayHalt-and_then
                (merge_ctl-Still (λ c f. record f { uart = c }) (λ c f. refl) _ _ _ _ _ _ x r)
                (λ _ y z.
                  note_uart-Still
                    (record (y.facts) {
                      uart_valid = (y.facts.uart.range.size != 0) || y.facts.uart_valid;
                    })
                    y z refl))))

  merge_psci-Still : (u : World) → Still w u → MayHalt (λ _. Still w) (merge_psci u)
  unfolding merge_psci
  merge_psci-Still u s =
      let dc = u.dtb_cand.psci_conduit in
      let bc = u.board.psci_conduit in
      MayHalt-and_then
        (MayHalt-when ((dc != 0) && (u.board.present && ((bc != 0) && (dc != bc))))
          (fail Codes.fail_fact_mismatch dc bc) u s
          (λ _. fail-halts Codes.fail_fact_mismatch dc bc u))
        (λ _ t p.
          let f = record (t.facts) {
            psci_conduit = if dc != 0 then dc else bc;
            psci_source =
                (if dc != 0 then Codes.src_dtb else 0)
                + (if u.board.present && (bc != 0) then Codes.src_board else 0);
            pwrc = if u.board.present then u.board.pwrc else t.facts.pwrc;
          } in
          Still-put Codes.rec_s4_psci f.psci_conduit f.psci_source (record t { facts = f })
            (Still-facts t f p refl))

-- The memory facts of S4 change no input.
module _ (w : World) where
  set_taken : (u : World) → Taken w u → (f : Facts) → Taken w (record u { facts = f })
  set_taken u t f = record { cand = t.cand; board = t.board; intake = t.intake; image = t.image }

  -- a range of the device tree is checked against that of the board
  checked-Taken :
      (d b : Range) (g : Facts → Facts) (u : World)
      → Taken w u
      → MayHalt
          (λ _. Taken w)
          ((when (not (range_eq d b)) (fail Codes.fail_fact_mismatch d.base b.base) >> set_facts g)
            u)
  checked-Taken d b g u t =
      after_guard (not (range_eq d b)) Codes.fail_fact_mismatch d.base b.base (set_facts g) u
        (λ _. goes_on (set_taken u t (g u.facts)))

  dtb_mem-Taken : (i : ℕ) (u : World) → Taken w u → MayHalt (λ _. Taken w) (dtb_mem i u)
  unfolding dtb_mem
  dtb_mem-Taken i u t =
      let d = u.dtb_cand.mem i in
      let fact : ℕ → ℕ → MemFact =
        λ source grade. record { range = d; source = source; grade = grade } in
      let f = record (u.facts) {
        mem = update u.facts.mem i (fact Codes.src_dtb Codes.grade_single);
      } in
      let g : Facts → Facts = λ f. record f {
        mem = update f.mem i (fact (Codes.src_dtb + Codes.src_board) Codes.grade_corroborated);
      } in
      let both =
        when (not (range_eq d (u.board.ram i)))
          (fail Codes.fail_fact_mismatch d.base (u.board.ram i).base)
        >> set_facts g in
      MayHalt-and_then
        (MayHalt-when (u.board.present && ltb i u.board.ram_count) both _ (set_taken u t f)
          (λ _. checked-Taken d (u.board.ram i) g _ (set_taken u t f)))
        (λ _ v p. goes_on (set_taken v p _))

  merge_mem-Taken : (u : World) → Taken w u → MayHalt (λ _. Taken w) (merge_mem u)
  unfolding merge_mem
  merge_mem-Taken u t = elim (Bool-cases (u.dtb_cand.valid && ltb 0 u.dtb_cand.mem_count)) [
    | inl e ↦ rw e (
        MayHalt-for_range (λ _. Taken w) (min u.dtb_cand.mem_count mem_fact_max) 0 dtb_mem u
          (λ k v _ _ p. dtb_mem-Taken k v p) t)
    | inr e ↦ rw e (elim (Bool-cases (u.board.present && ltb 0 u.board.ram_count)) [
      | inl f ↦ rw f (goes_on (set_taken u t _))
      | inr f ↦ rw f (fail-halts _ _ _ u)
    ])
  ]
