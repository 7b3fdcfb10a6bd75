-- ===== src/Room/Isolation.antt =====
-- Memory across an execution interval of a room: foundation/room/room.c and the hardware's check of a
-- store from EL0.
use nxu.Base.{
  ℕ, ◌+◌, ◌/◌, ◌%◌, ◌^◌, ◌<◌, ◌≡◌, ◌≢◌, refl, ap, ◌∙◌, sym, subst, ◌⊎◌, inl, inr, Bool, true, false,
  ◌&&◌, ◌==◌, arith, List, [], ◌∷◌, Outcome, ok, halted, Failure, and_then, Cmd, Bool-cases,
  ==_of_ne, eq_of_==, if◌then◌else◌, ltb, ltb→lt, Returns, returns, pure,
}
use nxu.Word.{page_size}
use nxu.Range.Membership.{Within}
use nxu.Mmu.Walk.{view}
use nxu.World.{World, store_word}
use nxu.Room.{
  exit_svc, exit_fault, Event, store, sync, irq, interval, el0_event, room_exception, el0_store_ok,
  data_abort, payload,
}
use nxu.Room.Pulse.{accepts, Pulsed, pulse-Pulsed}
use nxu.Room.Quiet.{SameMem, same_ok, same_halted, leave-Quiet, room_irq-Quiet}

-- the addresses that room `id` may change: its data page, and for the root room the word of the data page
-- of room 1 that a pulse is delivered to
abbrev pub Mine : World → ℕ → ℕ → Type 0
Mine w id x =
    Within (w.rooms.data_pa id) page_size x ⊎ ((id ≡ 0) × Within (w.rooms.data_pa 1 + 8) 8 x)

abbrev pub Same : World → World → ℕ → Type 0
Same w w' id = (x : ℕ) → ¬ Mine w id x → w'.mem x ≡ w.mem x

-- Room `id` runs, and EL0 may store only to its data page.
pub record Fenced (w : World) (id : ℕ) : Type 0 where
  pub active : w.rooms.cur ≡ id
  pub fence :
      (x : ℕ)
      → x < 2 ^ 48
      → el0_store_ok (view w.mmu x) ≡ true
      → Within (w.rooms.data_pa id) page_size x

-- one event of a fenced room
data Step (w : World) (id : ℕ) : Outcome World Bool → Type 0 where
  stays :
      {w' : World}
      → Fenced w' id
      → w'.rooms.data_pa ≡ w.rooms.data_pa
      → Same w w' id
      → Step w id (ok false w')
  leaves : {w' : World} → w'.mem ≡ w.mem → Step w id (ok true w')
  stops : {f : Failure} {w' : World} → w'.mem ≡ w.mem → Step w id (halted f w')

Step-left :
    {w : World} {id : ℕ} {o : Outcome World (Unit {0})}
    → SameMem w.mem o
    → Step w id (and_then o (λ _. pure true))
Step-left (same_ok e) = leaves e
Step-left (same_halted e) = stops e

module _ {w w' : World} {arg0 : ℕ} (p : Pulsed w arg0 w') where
  pulsed_cur : w'.rooms.cur ≡ w.rooms.cur
  pulsed_cur = elim (Bool-cases (accepts w arg0)) [
    | inl a ↦ ap (λ r. r.cur) p.rooms ∙ rw a refl
    | inr a ↦ ap (λ r. r.cur) p.rooms ∙ rw a refl
  ]

  pulsed_data : w'.rooms.data_pa ≡ w.rooms.data_pa
  pulsed_data = elim (Bool-cases (accepts w arg0)) [
    | inl a ↦ ap (λ r. r.data_pa) p.rooms ∙ rw a refl
    | inr a ↦ ap (λ r. r.data_pa) p.rooms ∙ rw a refl
  ]

store_word_outside : (mem : ℕ → ℕ) (a v x : ℕ) → ¬ Within a 8 x → store_word mem a v x ≡ mem x
unfolding store_word
store_word_outside mem a v x out = ground arith

pub &&-right : (a b : Bool) → (a && b) ≡ true → b ≡ true
&&-right true b h = h
&&-right false b h = absurd (ff h)
  where
    ff : false ≡ true → ⊥
    ff e = cc

pub &&-left : (a b : Bool) → (a && b) ≡ true → a ≡ true
&&-left true b h = refl
&&-left false b h = h

accepts_root : (w : World) (arg0 : ℕ) → accepts w arg0 ≡ true → w.rooms.cur ≡ 0
accepts_root w arg0 h = eq_of_== _ _ (&&-left _ _ h)

Pulsed-mem : {w w' : World} {id arg0 : ℕ} → Fenced w id → Pulsed w arg0 w' → Same w w' id
Pulsed-mem {w} {w'} {id} {arg0} fen p x out =
    ap (λ m. m x) p.mem ∙ elim (Bool-cases (accepts w arg0)) [
      | inl a ↦ rw a (
          store_word_outside w.mem _ payload x
            (λ h. out (inr (sym fen.active ∙ accepts_root w arg0 a, h))))
      | inr a ↦ rw a refl
    ]

Step-pulse :
    {w : World} {id : ℕ} (arg0 : ℕ) {o : Outcome World (Unit {0})}
    → Fenced w id
    → Returns (λ _ w'. Pulsed w arg0 w') o
    → Step w id (and_then o (λ _. pure false))
Step-pulse {w} {id} arg0 fen (returns {s = w'} p) =
    stays
      (record {
        active = pulsed_cur p ∙ fen.active;
        fence = λ x lt h.
            rw (ap (λ f. f id) (pulsed_data p))
              (fen.fence x lt (subst (λ m. el0_store_ok (view m x) ≡ true) p.mmu h));
      })
      (pulsed_data p) (Pulsed-mem fen p)

Step-exception :
    {w : World} {id : ℕ} (esr arg0 : ℕ) → Fenced w id → Step w id (room_exception esr arg0 w)
unfolding room_exception
Step-exception {w} {id} esr arg0 fen =
    elim (Bool-cases ((esr / 2 ^ 26 % 64 == 0x15) && (esr % 2 ^ 16 == 1))) [
      | inl a ↦ rw a (Step-pulse arg0 fen (pulse-Pulsed w arg0))
      | inr a ↦ elim (Bool-cases ((esr / 2 ^ 26 % 64 == 0x15) && (esr % 2 ^ 16 == 0))) [
        | inl b ↦ rw (a, b) (Step-left (leave-Quiet exit_svc w))
        | inr b ↦ rw (a, b) (Step-left (leave-Quiet exit_fault w))
      ]
    ]

Step-event : {w : World} {id : ℕ} (e : Event) → Fenced w id → Step w id (el0_event e w)
unfolding el0_event
Step-event {w} {id} (store addr byte) fen =
    elim (Bool-cases (ltb addr (2 ^ 48) && el0_store_ok (view w.mmu addr))) [
      | inl a ↦ rw a (
          stays (record { active = fen.active; fence = fen.fence }) refl
            (λ x out. untouched x (λ e. out (
              inl (
                subst (λ y. Within (w.rooms.data_pa id) page_size y) (sym e)
                  (fen.fence addr (ltb→lt addr _ (&&-left _ _ a)) (&&-right _ _ a)))))))
      | inr a ↦ rw a (Step-exception data_abort 0 fen)
    ]
  where
    untouched : (x : ℕ) → x ≢ addr → (if x == addr then byte else w.mem x) ≡ w.mem x
    untouched x ne = rw (==_of_ne x addr ne) refl
Step-event (sync esr x0) fen = Step-exception esr x0 fen
Step-event {w} irq fen = Step-left (room_irq-Quiet w)

pub data Confined (w : World) (id : ℕ) : Outcome World (Unit {0}) → Type 0 where
  confined : {w' : World} → Same w w' id → Confined w id (ok tt w')
  confined_halted : {f : Failure} {w' : World} → Same w w' id → Confined w id (halted f w')

Confined-same :
    {w : World} {id : ℕ} {o : Outcome World (Unit {0})} → SameMem w.mem o → Confined w id o
Confined-same (same_ok e) = confined λ x _. ap (λ m. m x) e
Confined-same (same_halted e) = confined_halted λ x _. ap (λ m. m x) e

Mine-same :
    (w w' : World) {id x : ℕ} → w'.rooms.data_pa ≡ w.rooms.data_pa → Mine w id x → Mine w' id x
Mine-same w w' {id} {x} d m =
    subst (λ f. Within (f id) page_size x ⊎ ((id ≡ 0) × Within (f 1 + 8) 8 x)) (sym d) m

Confined-after :
    {w w' : World} {id : ℕ} {o : Outcome World (Unit {0})}
    → w'.rooms.data_pa ≡ w.rooms.data_pa
    → Same w w' id
    → Confined w' id o
    → Confined w id o
Confined-after {w} {w'} {id} d s (confined c) =
    confined λ x out. c x (λ m. out (Mine-same w' w (sym d) m)) ∙ s x out
Confined-after {w} {w'} {id} d s (confined_halted c) =
    confined_halted λ x out. c x (λ m. out (Mine-same w' w (sym d) m)) ∙ s x out

Step-then :
    {w : World} {id : ℕ} {o : Outcome World Bool} (rest : Cmd World (Unit {0}))
    → Step w id o
    → ((w' : World) → Fenced w' id → Confined w' id (rest w'))
    → Confined w id (and_then o (λ left. if left then pure tt else rest))
Step-then rest (stays f d s) next = Confined-after d s (next _ f)
Step-then rest (leaves e) next = confined λ x _. ap (λ m. m x) e
Step-then rest (stops e) next = confined_halted λ x _. ap (λ m. m x) e

-- Whatever a fenced room does until it is left, and whether or not the kernel then stops, memory changes
-- only in the room's own data page and, if the room is the root, in the word that a pulse is delivered to.
pub interval-Confined :
    (es : List Event) {w : World} {id : ℕ} → Fenced w id → Confined w id (interval es w)
unfolding interval
interval-Confined [] {w} fen = Confined-same (room_irq-Quiet w)
interval-Confined (e ∷ es) {w} {id} fen =
    Step-then (interval es) (Step-event e fen) λ w' f. interval-Confined es f
