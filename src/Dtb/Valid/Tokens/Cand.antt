-- ===== src/Dtb/Valid/Tokens/Cand.antt =====
-- `nxu_s3_dtb` of foundation/facts/fdt.c as a whole: the candidate that it leaves.
use nxu.Base.{
  ℕ, ◌≡◌, refl, Bool, true, false, ◌==◌, arith, inl, inr, Bool-cases, subst, sym, Outcome, ok,
  halted, Leaves, ended, stopped, MayHalt, goes_on, halts, MayHalt-and_then,
}
use nxu.Observe.{Observe}
use nxu.World.{World, put, fail_with}
use nxu.Dtb.{Blob, Parse}
use nxu.Dtb.Parser.{start}
use nxu.Dtb.Stage.{run_parser, blob_at, no_cand, accept_cand, parse_blob, s3_dtb}
use nxu.Dtb.Header.{check_header-Lawful}
use nxu.Dtb.Valid.{CandIsValid, ParseIsValid}
use nxu.Dtb.Valid.Tokens.{token_loop-Valid}

-- The candidate is valid, and the board and the intake are those of `w`.
pub record HasCand (w v : World) : Type 0 where
  pub cand : CandIsValid v.dtb_cand
  pub board : v.board ≡ w.board
  pub intake : v.intake ≡ w.intake

module _ (w : World) where
  -- how the parser ends is how `run_parser` ends
  parsed-HasCand :
      (u : World) (r : Outcome Parse Bool)
      → HasCand w u
      → Leaves ParseIsValid r
      → MayHalt
          (λ _. HasCand w)
          (elim r as (λ _. Outcome World Bool) [
            | ok b s ↦ ok b (record u { dtb_cand = s.cand })
            | halted f s ↦ fail_with f (record u { dtb_cand = s.cand })
          ])
  unfolding fail_with
  parsed-HasCand u _ h (ended p) =
      goes_on (record { cand = p.cand; board = h.board; intake = h.intake })
  parsed-HasCand u _ h (stopped p) = halts

  run_parser-HasCand :
      (fuel : ℕ) (b : Blob) (u : World)
      → HasCand w u
      → MayHalt (λ _. HasCand w) (run_parser fuel b u)
  unfolding run_parser
  run_parser-HasCand fuel b u h = parsed-HasCand u _ h (
      token_loop-Valid fuel b (start b u.dtb_cand)
        (record { cand = h.cand; depth = omega arith; nregs = λ d. omega arith }))

  -- the start and the end of the stage keep the lists of the candidate
  with_place :
      (base size : ℕ) (v : World)
      → HasCand w v
      → HasCand w (record v { dtb_cand = record (v.dtb_cand) { base = base; size = size } })
  with_place base size v h = record {
    cand = record {
      mems = h.cand.mems;
      mems_ok = h.cand.mems_ok;
      cpus = h.cand.cpus;
      masked = h.cand.masked;
      distinct = h.cand.distinct;
    };
    board = h.board;
    intake = h.intake;
  }

  accept_cand-HasCand :
      (ptr total : ℕ) (r : Bool) (v : World)
      → HasCand w v
      → MayHalt (λ _. HasCand w) (accept_cand ptr total r v)
  unfolding accept_cand put
  accept_cand-HasCand ptr total true v h = goes_on (record {
    cand = record {
      mems = h.cand.mems;
      mems_ok = h.cand.mems_ok;
      cpus = h.cand.cpus;
      masked = h.cand.masked;
      distinct = h.cand.distinct;
    };
    board = h.board;
    intake = h.intake;
  })
  accept_cand-HasCand ptr total false v h = goes_on h

  parse_blob-HasCand :
      (fuel ptr total : ℕ) (v : World)
      → HasCand w v
      → MayHalt (λ _. HasCand w) (parse_blob fuel ptr total v)
  unfolding parse_blob
  parse_blob-HasCand fuel ptr total v h =
      MayHalt-and_then {k = accept_cand ptr total}
        (run_parser-HasCand fuel (blob_at v ptr) _ (with_place ptr total v h))
        (λ r t p. accept_cand-HasCand ptr total r t p)

-- the candidate that the stage starts from
start-HasCand :
    (u : World) (o : Observe) → HasCand u (record u { observe = o; dtb_cand = no_cand u.dtb_cand })
start-HasCand u o = record {
  cand = record {
    mems = omega arith;
    mems_ok = λ k h. absurd (omega arith);
    cpus = omega arith;
    masked = λ k h. absurd (omega arith);
    distinct = λ i k ik h. absurd (omega arith);
  };
  board = refl;
  intake = refl;
}

-- Whatever the blob is, and whether or not there is one: when S3 comes to its end, the candidate's
-- counts are within its arrays, each of its memory ranges is not empty and does not wrap, and its CPUs
-- are distinct masked affinities; the board and the intake are as they were.
pub s3_dtb-HasCand : (fuel : ℕ) (w : World) → MayHalt (λ _. HasCand w) (s3_dtb fuel w)
unfolding s3_dtb put
s3_dtb-HasCand fuel w = elim (Bool-cases (w.intake.x0 == 0)) [
  | inl e ↦ rw e (goes_on (start-HasCand w _))
  | inr e ↦ rw e (
      let ptr = w.intake.x0 in
      let u = record w { dtb_cand = no_cand w.dtb_cand } in
      MayHalt-and_then {k = λ total. parse_blob fuel ptr total} (check_header-Lawful u ptr)
        (λ total v (same, _).
          parse_blob-HasCand w fuel ptr total v
            (subst (HasCand w) (sym same) (start-HasCand w w.observe))))
]
