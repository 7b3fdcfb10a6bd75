-- ===== src/Room/Pulse.antt =====
-- `pulse` of foundation/room/room.c on every branch.
use nxu.Base.{
  ℕ, ◌+◌, ◌≡◌, refl, inl, inr, Bool, true, ◌&&◌, arith, ◌==◌, if◌then◌else◌, ap, eq_of_==,
  Bool-cases, Returns, returns, Returns-mono, ◌∙◌, ◌<◌,
}
use nxu.Word.{add32, page_size, u64_mod}
use nxu.World.{World, log, word_at, store_word}
use nxu.Room.{payload, inside, pulse}

-- What the source permits: room 0 sends to room 1 the one payload, and the message lies in its data
-- page.
abbrev pub accepts : World → ℕ → Bool
accepts w arg0 =
    (w.rooms.cur == 0)
    && (inside w.rooms 0 arg0
        && ((word_at w.mem arg0 == 1) && (word_at w.mem (arg0 + 8) == payload)))

-- What a pulse changes beside the records of the observers.
pub record Pulsed (w : World) (arg0 : ℕ) (w' : World) : Type 0 where
  pub mem :
      w'.mem ≡ (if accepts w arg0 then store_word w.mem (w.rooms.data_pa 1 + 8) payload else w.mem)
  pub rooms : w'.rooms ≡ (
      if accepts w arg0
      then record (w.rooms) { delivered = add32 w.rooms.delivered 1; grant = 1 }
      else record (w.rooms) { rejected = add32 w.rooms.rejected 1 })
  pub mmu : w'.mmu ≡ w.mmu
  pub facts : w'.facts ≡ w.facts
  pub machine : w'.machine ≡ w.machine

-- On every path `pulse` returns. It delivers exactly when room 0 is active, the message begins in the
-- data page of room 0, names room 1 and carries the one payload: then the payload is stored in the
-- second word of the data page of room 1, the delivery is counted and room 1 is owed its entry.
-- Otherwise memory and the grant stay, and the rejection is counted. The page tables never change.
pub pulse-Pulsed : (w : World) (arg0 : ℕ) → Returns (λ _ w'. Pulsed w arg0 w') (pulse arg0 w)
unfolding pulse log
pulse-Pulsed w arg0 = elim (Bool-cases (w.rooms.cur == 0)) [
  | inr a ↦ rw (a) (
      returns (record {
        mem = rw (a) refl;
        rooms = rw (a) refl;
        mmu = refl;
        facts = refl;
        machine = refl;
      }))
  | inl a ↦ elim (Bool-cases (inside w.rooms 0 arg0)) [
    | inr b ↦
        rw (a, b)
          (returns (record {
            mem = rw (a, b) refl;
            rooms = rw (a, b) refl;
            mmu = refl;
            facts = refl;
            machine = refl;
          }))
    | inl b ↦ elim (Bool-cases (word_at w.mem arg0 == 1)) [
      | inr c ↦
          rw (a, b, c)
            (returns (record {
              mem = rw (a, b, c) refl;
              rooms = rw (a, b, c) refl;
              mmu = refl;
              facts = refl;
              machine = refl;
            }))
      | inl c ↦ elim (Bool-cases (word_at w.mem (arg0 + 8) == payload)) [
        | inr d ↦
            rw (a, b, c, d)
              (returns (record {
                mem = rw (a, b, c, d) refl;
                rooms = rw (a, b, c, d) refl;
                mmu = refl;
                facts = refl;
                machine = refl;
              }))
        | inl d ↦
            rw (a, b, c, d)
              (returns (record {
                mem =
                    rw (a, b, c, d)
                      (ap (store_word w.mem (w.rooms.data_pa 1 + 8)) (eq_of_== _ _ d));
                rooms = rw (a, b, c, d, eq_of_== (word_at w.mem arg0) 1 c) refl;
                mmu = refl;
                facts = refl;
                machine = refl;
              }))
      ]
    ]
  ]
]

-- A message in the last word of the data page of room 0 is delivered if the first word of the next page
-- holds the payload: `pulse` reads its second word there. `nxu_rooms_run` puts the code page of room 1
-- there.
pub pulse-straddle :
    (w : World)
    → w.rooms.cur ≡ 0
    → w.rooms.data_pa 0 + page_size < u64_mod
    → word_at w.mem (w.rooms.data_pa 0 + 0xff8) ≡ 1
    → word_at w.mem (w.rooms.data_pa 0 + page_size) ≡ payload
    → Returns
        (λ _ w'. w'.rooms.delivered ≡ add32 w.rooms.delivered 1)
        (pulse (w.rooms.data_pa 0 + 0xff8) w)
unfolding inside
pulse-straddle w cur room dest value =
    Returns-mono (pulse-Pulsed w (w.rooms.data_pa 0 + 0xff8))
      λ _ w' p. ap (λ r. r.delivered) p.rooms ∙ rw accepted refl
  where
    is_inside : inside w.rooms 0 (w.rooms.data_pa 0 + 0xff8) ≡ true
    is_inside = ground arith

    next : w.rooms.data_pa 0 + 0xff8 + 8 ≡ w.rooms.data_pa 0 + page_size
    next = omega arith

    accepted : accepts w (w.rooms.data_pa 0 + 0xff8) ≡ true
    accepted = rw (cur, is_inside, dest, next, value) refl
