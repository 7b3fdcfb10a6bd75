-- ===== src/Observe/History/Kept.antt =====
-- What the black box and the chronicle of a CPU keep after any sequence of calls of
-- `nxu_chronicle_put` and `nxu_chronicle_fail`.
use nxu.Base.{
  ℕ, ◌%◌, ◌≡◌, refl, inl, inr, true, List, [], ◌∷◌, arith, length, ◌==◌, ◌∙◌, Bool-cases,
}
use nxu.Word.{u32_mod}
use nxu.Observe.{
  Observe, ChronicleRecord, Chronicle, BboxRec, Bbox, bbox_cap, chronicle_cap, slot_of,
  chronicle_init, chronicle_put, chronicle_fail, bbox_push, chronicle_push,
}
use nxu.Observe.Ring.{Keeps-empty}
use nxu.Observe.History.{
  Call, note, failure, after, bbox_rec, bbox_history, chronicle_rec, chronicle_history,
  last_failure, bbox_slot, chronicle_slot, BoxKeeps, ChronicleKeeps, push-BoxKeeps, slot-push,
  push-ChronicleKeeps, chronicle_slot-push, mark, chronicle_mark, bbox-note, chronicle-note,
  bbox-failure, chronicle-failure,
}

-- What is known of the box and of the chronicle of CPU `id` after the calls `cs`.
pub record Shows (id : ℕ) (cs : List Call) (o : Observe) : Type 0 where
  pub box : BoxKeeps (bbox_history id cs) (o.bbox id)
  pub box_slot : bbox_slot (o.bbox id) ≡ last_failure id cs
  pub chron : ChronicleKeeps (chronicle_history id cs) (o.chronicle id)
  pub chron_slot : chronicle_slot (o.chronicle id) ≡ last_failure id cs

Shows-init : (id : ℕ) (o : Observe) → Shows id [] (chronicle_init o)
unfolding chronicle_init bbox_history chronicle_history last_failure
Shows-init id o = record {
  box = Keeps-empty bbox_cap (omega arith) _;
  box_slot = refl;
  chron = Keeps-empty chronicle_cap (omega arith) _;
  chron_slot = refl;
}

Shows-note :
    (id cpu code a b : ℕ) (cs : List Call) (o : Observe)
    → Shows id cs o
    → Shows id (note cpu code a b ∷ cs) (chronicle_put cpu code a b o)
unfolding bbox_history chronicle_history last_failure
Shows-note id cpu code a b cs o s = elim (Bool-cases (id == slot_of cpu)) [
  | inl here ↦ record {
    box = rw (bbox-note id cpu code a b o, here) (push-BoxKeeps (o.bbox id) id code a b s.box);
    box_slot =
        rw (bbox-note id cpu code a b o, here) (slot-push id code a b (o.bbox id) ∙ s.box_slot);
    chron =
        rw (chronicle-note id cpu code a b o, here)
          (push-ChronicleKeeps (o.chronicle id) code a b s.chron);
    chron_slot =
        rw (chronicle-note id cpu code a b o, here)
          (chronicle_slot-push code a b (o.chronicle id) ∙ s.chron_slot);
  }
  | inr away ↦ record {
    box = rw (bbox-note id cpu code a b o, away) s.box;
    box_slot = rw (bbox-note id cpu code a b o, away) s.box_slot;
    chron = rw (chronicle-note id cpu code a b o, away) s.chron;
    chron_slot = rw (chronicle-note id cpu code a b o, away) s.chron_slot;
  }
]

marked_box :
    {hist : List BboxRec} (box : Bbox) (id code a b : ℕ)
    → BoxKeeps hist box
    → BoxKeeps
        (bbox_rec id code a b ∷ bbox_rec id code a b ∷ hist)
        (mark code a b (bbox_push id code a b (bbox_push id code a b box)))
unfolding mark
marked_box box id code a b k =
    push-BoxKeeps (bbox_push id code a b box) id code a b (push-BoxKeeps box id code a b k)

slot-mark :
    (code a b : ℕ) (box : Bbox)
    → bbox_slot (mark code a b box) ≡ record { code = code; a = a; b = b; valid = true }
unfolding mark
slot-mark code a b box = refl

marked_chronicle :
    {hist : List ChronicleRecord} (c : Chronicle) (code a b : ℕ)
    → ChronicleKeeps hist c
    → ChronicleKeeps
        (chronicle_rec (length hist % u32_mod) code a b ∷ hist)
        (chronicle_push code a b (chronicle_mark code a b c))
unfolding chronicle_mark
marked_chronicle c code a b k = push-ChronicleKeeps (chronicle_mark code a b c) code a b k

chronicle_slot-mark :
    (code a b : ℕ) (c : Chronicle)
    → chronicle_slot (chronicle_push code a b (chronicle_mark code a b c))
      ≡ record { code = code; a = a; b = b; valid = true }
unfolding chronicle_mark chronicle_push
chronicle_slot-mark code a b c = refl

Shows-failure :
    (id cpu code a b : ℕ) (cs : List Call) (o : Observe)
    → Shows id cs o
    → Shows id (failure cpu code a b ∷ cs) (chronicle_fail cpu code a b o)
unfolding bbox_history chronicle_history last_failure
Shows-failure id cpu code a b cs o s = elim (Bool-cases (id == slot_of cpu)) [
  | inl here ↦ record {
    box = rw (bbox-failure id cpu code a b o, here) (marked_box (o.bbox id) id code a b s.box);
    box_slot = rw (bbox-failure id cpu code a b o, here) (slot-mark code a b _);
    chron =
        rw (chronicle-failure id cpu code a b o, here)
          (marked_chronicle (o.chronicle id) code a b s.chron);
    chron_slot =
        rw (chronicle-failure id cpu code a b o, here)
          (chronicle_slot-mark code a b (o.chronicle id));
  }
  | inr away ↦ record {
    box = rw (bbox-failure id cpu code a b o, away) s.box;
    box_slot = rw (bbox-failure id cpu code a b o, away) s.box_slot;
    chron = rw (chronicle-failure id cpu code a b o, away) s.chron;
    chron_slot = rw (chronicle-failure id cpu code a b o, away) s.chron_slot;
  }
]

-- After any sequence of calls since `nxu_chronicle_init`, made by any CPUs, the black box of CPU
-- `id` holds its newest 32 records and the chronicle of CPU `id` its newest 128, numbered in order
-- modulo 2 ^ 32, and the failure slot of either shows the CPU's last failure: no note changes it.
pub after-Shows : (id : ℕ) (cs : List Call) (o : Observe) → Shows id cs (after cs o)
unfolding after
after-Shows id [] o = Shows-init id o
after-Shows id (note cpu code a b ∷ cs) o =
    Shows-note id cpu code a b cs (after cs o) (after-Shows id cs o)
after-Shows id (failure cpu code a b ∷ cs) o =
    Shows-failure id cpu code a b cs (after cs o) (after-Shows id cs o)
