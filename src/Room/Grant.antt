-- ===== src/Room/Grant.antt =====
-- The entry that room 1 is owed: `pulse` and `consume` of foundation/room/room.c as a state machine.
use nxu.Base.{
  ℕ, suc, ◌≤◌, ◌<◌, ◌≡◌, ◌⊎◌, inl, inr, refl, Bool, arith, ◌==◌, Outcome, ok, halted, Failure,
  if◌then◌else◌, Bool-cases, eq_of_==, ne_of_==, ◌≢◌, ap, ◌∙◌, sym, subst, Returns, Returns-ok,
  ==_of_ne,
}
use nxu.Word.{add32}
use nxu.Codes.{fail_invariant}
use nxu.World.{World, fail, fail_with}
use nxu.Room.{room_n, pulse, consume}
use nxu.Room.Pulse.{Pulsed, accepts, pulse-Pulsed}

-- `consume` on every branch: the root room is always entered, room 1 only if it is owed an entry,
-- which is then spent, and otherwise the kernel stops with NXU_FAIL_INVARIANT and the two ids.
pub data Consumed (w : World) (id : ℕ) : Outcome World (Unit {0}) → Type 0 where
  root : id ≡ 0 → Consumed w id (ok tt w)
  owed :
      id ≢ 0
      → w.rooms.grant ≡ id
      → Consumed w id (ok tt (record w { rooms = record (w.rooms) { grant = room_n } }))
  stopped :
      {w' : World} {f : Failure}
      → id ≢ 0
      → w.rooms.grant ≢ id
      → f.code ≡ fail_invariant
      → f.a ≡ w.rooms.grant
      → f.b ≡ id
      → w'.rooms ≡ w.rooms
      → Consumed w id (halted f w')

pub consume-Consumed : (w : World) (id : ℕ) → Consumed w id (consume id w)
unfolding consume fail fail_with
consume-Consumed w id = elim (Bool-cases (id == 0)) [
  | inl a ↦ rw a (root (eq_of_== _ _ a))
  | inr a ↦ elim (Bool-cases (w.rooms.grant == id)) [
    | inl b ↦ rw (a, b) (owed (ne_of_== _ _ a) (eq_of_== _ _ b))
    | inr b ↦ rw (a, b) (stopped (ne_of_== _ _ a) (ne_of_== _ _ b) refl refl refl refl)
  ]
]

-- What happens to the grant, with the pulses delivered and the entries of room 1 counted. `aside` is
-- any code that leaves the grant alone.
pub data History (w0 : World) : (delivered entered : ℕ) → World → Type 0 where
  start : History w0 0 0 w0
  pulsed :
      {d e : ℕ} {w w' : World} (arg0 : ℕ)
      → History w0 d e w
      → pulse arg0 w ≡ ok tt w'
      → History w0 (if accepts w arg0 then suc d else d) e w'
  entered :
      {d e : ℕ} {w w' : World} (id : ℕ)
      → History w0 d e w
      → id < room_n
      → consume id w ≡ ok tt w'
      → History w0 d (if id == 0 then e else suc e) w'
  aside :
      {d e : ℕ} {w w' : World}
      → History w0 d e w
      → w'.rooms.grant ≡ w.rooms.grant
      → History w0 d e w'

-- What holds of the counts in a state: room 1 is owed an entry only for a delivery not yet answered.
pub record Balance (d e : ℕ) (w : World) : Type 0 where
  pub covered : e ≤ d
  pub owed_one : w.rooms.grant ≡ 1 → e < d
  pub one_or_none : (w.rooms.grant ≡ 1) ⊎ (w.rooms.grant ≡ room_n)

Balance-pulse :
    {d e : ℕ} {w w' : World} (arg0 : ℕ)
    → Balance d e w
    → Pulsed w arg0 w'
    → Balance (if accepts w arg0 then suc d else d) e w'
Balance-pulse {d} {e} {w} {w'} arg0 b p = elim (Bool-cases (accepts w arg0)) [
  | inl a ↦
      let g : w'.rooms.grant ≡ 1 = ap (λ r. r.grant) p.rooms ∙ ap (λ t. (grant_after t)) a in
      rw a (record {
        covered = omega (arith, b.covered);
        owed_one = λ _. omega (arith, b.covered);
        one_or_none = inl g;
      })
  | inr a ↦
      let g : w'.rooms.grant ≡ w.rooms.grant =
        ap (λ r. r.grant) p.rooms ∙ ap (λ t. (grant_after t)) a in
      rw a (record {
        covered = b.covered;
        owed_one = λ h. b.owed_one (sym g ∙ h);
        one_or_none = rw g b.one_or_none;
      })
]
  where
    grant_after : Bool → ℕ
    grant_after t =
        (if t
          then record (w.rooms) { delivered = add32 w.rooms.delivered 1; grant = 1 }
          else record (w.rooms) { rejected = add32 w.rooms.rejected 1 }).grant

Balance-enter :
    {d e : ℕ} {w w' : World} (id : ℕ)
    → id < room_n
    → Balance d e w
    → Consumed w id (ok tt w')
    → Balance d (if id == 0 then e else suc e) w'
Balance-enter id lt b (root z) = rw (z) b
Balance-enter {d} {e} {w} id lt b (owed n g) = rw (==_of_ne id 0 n) (record {
  covered = elim b.one_or_none [ inl h ↦ b.owed_one h | inr h ↦ absurd (omega (arith, h, g)) ];
  owed_one = λ h. absurd (omega (arith, h));
  one_or_none = inr refl;
})

-- From a state in which no entry is owed, room 1 is entered at most once for each delivered pulse, and
-- at most one entry is owed at a time, however pulses and entries are interleaved.
pub History-Balance :
    {w0 w : World} {d e : ℕ} → w0.rooms.grant ≡ room_n → History w0 d e w → Balance d e w
History-Balance g start = record {
  covered = omega arith;
  owed_one = λ h. absurd (omega (arith, g, h));
  one_or_none = inr g;
}
History-Balance g (pulsed {w = w} arg0 h p) =
    Balance-pulse arg0 (History-Balance g h)
      (Returns-ok (subst (Returns _) p (pulse-Pulsed w arg0)))
History-Balance g (entered {w = w} id h lt p) =
    Balance-enter id lt (History-Balance g h) (subst (Consumed w id) p (consume-Consumed w id))
History-Balance g (aside h same) =
    let b = History-Balance g h in
    record {
      covered = b.covered;
      owed_one = λ k. b.owed_one (sym same ∙ k);
      one_or_none = rw same b.one_or_none;
    }
