-- ===== src/Signals/Waiting.antt =====
-- The bounded waits of foundation/signal/signal.c and foundation/time/time.c: when they end, and with what.
use nxu.Base.{
  ℕ, zero, suc, ◌+◌, ◌≤◌, ◌<◌, ◌≡◌, ◌⊎◌, inl, inr, Bool-cases, MayHalt, goes_on, MayHalt-mono, refl,
  Bool, true, false, none, some, ◌==◌, arith, ok, ◌>>◌, and_then, state_of, ap, ◌∙◌,
}
use nxu.Codes
use nxu.Silicon.{gic_sgi}
use nxu.World.{World, log3, put, fail, fail_with}
use nxu.Signals.{wait_loop, wait_ipi, ipi_spins, ipi_to}

-- the state at the read `spins + k` of a wait
unfoldable pub at_read : (ℕ → World → World) → ℕ → ℕ → World → World
at_read meanwhile spins zero w = meanwhile spins w
at_read meanwhile spins (suc k) w = at_read meanwhile (spins + 1) k (meanwhile spins w)

module _ (meanwhile : ℕ → World → World) (pending : World → Bool) where
  -- a wait ends at the first read that does not find it pending
  pub wait_loop-first :
      (left spins k : ℕ) (w : World)
      → k ≤ left
      → ((j : ℕ) → j < k → pending (at_read meanwhile spins j w) ≡ true)
      → pending (at_read meanwhile spins k w) ≡ false
      → wait_loop left spins meanwhile pending w
        ≡ ok (some (spins + k)) (at_read meanwhile spins k w)
  unfolding wait_loop at_read
  wait_loop-first zero spins zero w h before now =
      rw now (ap (λ n. ok (some n) (meanwhile spins w)) (omega arith))
  wait_loop-first zero spins (suc k) w h before now = absurd (omega arith)
  wait_loop-first (suc left) spins zero w h before now =
      rw (now, wait_loop) (ap (λ n. ok (some n) (meanwhile spins w)) (omega arith))
  wait_loop-first (suc left) spins (suc k) w h before now =
      rw (before 0 (omega arith), wait_loop)
        (wait_loop-first left (spins + 1) k (meanwhile spins w) (omega arith)
            (λ j l. before (suc j) (omega arith)) now
          ∙ ap (λ n. ok (some n) (at_read meanwhile (spins + 1) k (meanwhile spins w)))
              (omega arith))

  -- and gives up after `left + 1` reads
  pub wait_loop-never :
      (left spins : ℕ) (w : World)
      → ((j : ℕ) → j ≤ left → pending (at_read meanwhile spins j w) ≡ true)
      → wait_loop left spins meanwhile pending w ≡ ok none (at_read meanwhile spins left w)
  unfolding wait_loop at_read
  wait_loop-never zero spins w always = rw (always 0 (omega arith)) refl
  wait_loop-never (suc left) spins w always =
      rw (always 0 (omega arith), wait_loop)
        (wait_loop-never left (spins + 1) (meanwhile spins w) (λ j l. always (suc j) (omega arith)))

-- A wait from `w` ends in `v` at its read `k`, the first that does not find it pending.
pub record EndsAt (meanwhile : ℕ → World → World) (pending : World → Bool) (left spins : ℕ)
    (w : World) (k : ℕ) (v : World) : Type 0 where
  pub soon : k ≤ left
  pub before : (j : ℕ) → j < k → pending (at_read meanwhile spins j w) ≡ true
  pub now : pending (at_read meanwhile spins k w) ≡ false
  pub state : v ≡ at_read meanwhile spins k w

EndsAt-first :
    (left spins : ℕ) (meanwhile : ℕ → World → World) (pending : World → Bool) (w : World)
    → pending (meanwhile spins w) ≡ false
    → EndsAt meanwhile pending left spins w 0 (meanwhile spins w)
unfolding at_read
EndsAt-first left spins meanwhile pending w e = record {
  soon = omega arith;
  before = λ j h. absurd (omega arith);
  now = e;
  state = refl;
}

-- a wait gives up, or has ended at such a read and says which
pub wait_loop-EndsAt :
    (left spins : ℕ) (meanwhile : ℕ → World → World) (pending : World → Bool) (w : World)
    → MayHalt
        (λ r v.
          (r ≡ none)
          ⊎ ((k : ℕ) × (r ≡ some (spins + k)) × EndsAt meanwhile pending left spins w k v))
        (wait_loop left spins meanwhile pending w)
unfolding wait_loop at_read
wait_loop-EndsAt zero spins meanwhile pending w = elim (Bool-cases (pending (meanwhile spins w))) [
  | inl e ↦ rw e (goes_on (inl refl))
  | inr e ↦
      rw e (goes_on (inr (0, ap some (omega arith), EndsAt-first _ spins meanwhile pending w e)))
]
wait_loop-EndsAt (suc left) spins meanwhile pending w =
    elim (Bool-cases (pending (meanwhile spins w))) [
      | inl e ↦
          rw (e, wait_loop)
            (MayHalt-mono (wait_loop-EndsAt left (spins + 1) meanwhile pending (meanwhile spins w))
              (λ r v o. elim o [
                | inl none_left ↦ inl none_left
                | inr (k, found, g) ↦ inr (
                  suc k,
                  found ∙ ap some (omega arith),
                  record {
                    soon = omega (arith, g.soon);
                    before = later e g.before;
                    now = g.now;
                    state = g.state;
                  },
                )
              ]))
      | inr e ↦
          rw (e, wait_loop)
            (goes_on (inr (0, ap some (omega arith), EndsAt-first _ spins meanwhile pending w e)))
    ]
  where
    later :
        {k : ℕ}
        → pending (meanwhile spins w) ≡ true
        → ((j : ℕ) → j < k → pending (at_read meanwhile (spins + 1) j (meanwhile spins w)) ≡ true)
        → (j : ℕ) → j < suc k
        → pending (at_read meanwhile spins j w) ≡ true
    later e before zero h = e
    later e before (suc j) h = before j (omega arith)

-- the state in which `ipi_to` starts to wait: the log has its line, and the interrupt is sent
abbrev pub sent : ℕ → ℕ → World → World
sent src dst w = state_of (
    (log3 Codes.ev_ipi Codes.sub_smp src dst Codes.ipi_send
        >> gic_sgi Codes.sgi_ipi (w.cpu dst).mpidr)
      w)

module _ (meanwhile : ℕ → World → World) (id before a b : ℕ) (w : World) where
  abbrev pub waiting : World → Bool
  waiting t = (t.cpu id).ipi_seen == before

  wait_ipi-first :
      (k : ℕ)
      → k ≤ ipi_spins
      → ((j : ℕ) → j < k → waiting (at_read meanwhile 0 j w) ≡ true)
      → waiting (at_read meanwhile 0 k w) ≡ false
      → wait_ipi meanwhile id before a b w ≡ ok tt (at_read meanwhile 0 k w)
  unfolding wait_ipi
  wait_ipi-first k h pending now =
      rw (wait_loop-first meanwhile waiting ipi_spins 0 k w h pending now) refl

  wait_ipi-never :
      ((j : ℕ) → j ≤ ipi_spins → waiting (at_read meanwhile 0 j w) ≡ true)
      → wait_ipi meanwhile id before a b w
        ≡ fail Codes.fail_timeout a b (at_read meanwhile 0 ipi_spins w)
  unfolding wait_ipi
  wait_ipi-never always = rw (wait_loop-never meanwhile waiting ipi_spins 0 w always) refl

module _ (meanwhile : ℕ → World → World) (src dst : ℕ) (w : World) where
  -- is the counter of the target still what it was?
  abbrev pub unseen : World → Bool
  unseen t = (t.cpu dst).ipi_seen == (w.cpu dst).ipi_seen

  -- When one of the first 1000001 reads of the target's counter finds it changed, `ipi_to` sends the
  -- interrupt, waits until the first such read, and returns with the receipt in the log and in the
  -- chronicle.
  pub ipi_to-returns :
      (k : ℕ)
      → k ≤ ipi_spins
      → ((j : ℕ) → j < k → unseen (at_read meanwhile 0 j (sent src dst w)) ≡ true)
      → unseen (at_read meanwhile 0 k (sent src dst w)) ≡ false
      → ipi_to meanwhile src dst w
        ≡ (log3 Codes.ev_ipi Codes.sub_smp src dst Codes.ipi_recv >> put Codes.rec_s13_ipi src dst)
            (at_read meanwhile 0 k (sent src dst w))
  unfolding ipi_to log3 gic_sgi
  ipi_to-returns k h before now =
      ap
        (λ o. and_then o (λ _.
          log3 Codes.ev_ipi Codes.sub_smp src dst Codes.ipi_recv >> put Codes.rec_s13_ipi src dst))
        (wait_ipi-first meanwhile dst (w.cpu dst).ipi_seen dst src (sent src dst w) k h before now)

  -- When none of the first 1000001 reads of the target's counter finds it changed, `ipi_to` halts the
  -- kernel with NXU_FAIL_TIMEOUT, the target and the source.
  pub ipi_to-times_out :
      ((j : ℕ) → j ≤ ipi_spins → unseen (at_read meanwhile 0 j (sent src dst w)) ≡ true)
      → ipi_to meanwhile src dst w
        ≡ fail Codes.fail_timeout dst src (at_read meanwhile 0 ipi_spins (sent src dst w))
  unfolding ipi_to log3 gic_sgi fail fail_with
  ipi_to-times_out always =
      ap
        (λ o. and_then o (λ _.
          log3 Codes.ev_ipi Codes.sub_smp src dst Codes.ipi_recv >> put Codes.rec_s13_ipi src dst))
        (wait_ipi-never meanwhile dst (w.cpu dst).ipi_seen dst src (sent src dst w) always)
