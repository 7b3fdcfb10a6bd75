-- ===== src/Observe/History.antt =====
-- What the chronicle and the black box of a CPU hold after any sequence of calls of
-- `nxu_chronicle_put` and `nxu_chronicle_fail` (foundation/observe/chronicle.c, bbox.c).
pub mod Kept
use nxu.Base.{
  ℕ, ◌%◌, ◌≡◌, refl, inl, inr, Bool, true, false, List, [], ◌∷◌, arith, length, ◌==◌, if◌then◌else◌,
  ◌∙◌, Bool-cases,
}
use nxu.Word.{u32_mod}
use nxu.Observe.{
  Observe, ChronicleRecord, Chronicle, BboxRec, Bbox, bbox_cap, chronicle_cap, slot_of,
  chronicle_init, chronicle_put, chronicle_fail, bbox_push, chronicle_push, bbox_put,
}
use nxu.Observe.Ring.{Keeps, Keeps-empty, Keeps-push}

-- a call, with the CPU that makes it
pub data Call : Type 0 where
  note : (cpu code a b : ℕ) → Call
  failure : (cpu code a b : ℕ) → Call

unfoldable pub perform : Call → Observe → Observe
perform (note cpu code a b) o = chronicle_put cpu code a b o
perform (failure cpu code a b) o = chronicle_fail cpu code a b o

-- the calls in a list, newest first, from the state that `nxu_chronicle_init` leaves
unfoldable pub after : List Call → Observe → Observe
unfolding perform
after [] o = chronicle_init o
after (c ∷ cs) o = perform c (after cs o)

abbrev pub bbox_rec : ℕ → ℕ → ℕ → ℕ → BboxRec
bbox_rec cpu code a b = record { code = code; cpu = cpu; a = a; b = b }

-- The records of the box of CPU `id`, newest first. A failure is stored twice: `nxu_chronicle_fail`
-- calls `nxu_chronicle_put` and then `nxu_bbox_fail`.
unfoldable pub bbox_history : ℕ → List Call → List BboxRec
bbox_history id [] = []
bbox_history id (note cpu code a b ∷ cs) =
    if id == slot_of cpu then bbox_rec id code a b ∷ bbox_history id cs else bbox_history id cs
bbox_history id (failure cpu code a b ∷ cs) =
    if id == slot_of cpu
    then bbox_rec id code a b ∷ (bbox_rec id code a b ∷ bbox_history id cs)
    else bbox_history id cs

abbrev pub chronicle_rec : ℕ → ℕ → ℕ → ℕ → ChronicleRecord
chronicle_rec seq code a b = record { seq = seq; code = code; a = a; b = b }

-- The records of the chronicle of CPU `id`, newest first, each with the number of those before it.
unfoldable pub chronicle_history : ℕ → List Call → List ChronicleRecord
chronicle_history id [] = []
chronicle_history id (note cpu code a b ∷ cs) =
    let rest = chronicle_history id cs in
    if id == slot_of cpu then chronicle_rec (length rest % u32_mod) code a b ∷ rest else rest
chronicle_history id (failure cpu code a b ∷ cs) =
    let rest = chronicle_history id cs in
    if id == slot_of cpu then chronicle_rec (length rest % u32_mod) code a b ∷ rest else rest

-- what the failure slot of CPU `id` shows: its last failure
pub record Slot : Type 0 where
  pub code : ℕ
  pub a : ℕ
  pub b : ℕ
  pub valid : Bool

unfoldable pub last_failure : ℕ → List Call → Slot
last_failure id [] = record { code = 0; a = 0; b = 0; valid = false }
last_failure id (note cpu code a b ∷ cs) = last_failure id cs
last_failure id (failure cpu code a b ∷ cs) =
    if id == slot_of cpu
    then record { code = code; a = a; b = b; valid = true }
    else last_failure id cs

abbrev pub bbox_slot : Bbox → Slot
bbox_slot x = record { code = x.fail_code; a = x.fail_a; b = x.fail_b; valid = x.fail_valid }

abbrev pub chronicle_slot : Chronicle → Slot
chronicle_slot x = record { code = x.fail_code; a = x.fail_a; b = x.fail_b; valid = x.fail_valid }

abbrev pub BoxKeeps : List BboxRec → Bbox → Type 0
BoxKeeps hist box = Keeps bbox_cap hist box.next box.count box.rec

abbrev pub ChronicleKeeps : List ChronicleRecord → Chronicle → Type 0
ChronicleKeeps hist c = Keeps chronicle_cap hist c.next c.count c.rec

pub push-BoxKeeps :
    {hist : List BboxRec} (box : Bbox) (id code a b : ℕ)
    → BoxKeeps hist box
    → BoxKeeps (bbox_rec id code a b ∷ hist) (bbox_push id code a b box)
unfolding bbox_push
push-BoxKeeps box id code a b k = Keeps-push bbox_cap (omega arith) (bbox_rec id code a b) k

pub slot-push :
    (id code a b : ℕ) (box : Bbox) → bbox_slot (bbox_push id code a b box) ≡ bbox_slot box
unfolding bbox_push
slot-push id code a b box = refl

pub push-ChronicleKeeps :
    {hist : List ChronicleRecord} (c : Chronicle) (code a b : ℕ)
    → ChronicleKeeps hist c
    → ChronicleKeeps
        (chronicle_rec (length hist % u32_mod) code a b ∷ hist)
        (chronicle_push code a b c)
unfolding chronicle_push
push-ChronicleKeeps c code a b k =
    rw (← k.counted) (Keeps-push chronicle_cap (omega arith) (chronicle_rec c.count code a b) k)

pub chronicle_slot-push :
    (code a b : ℕ) (c : Chronicle) → chronicle_slot (chronicle_push code a b c) ≡ chronicle_slot c
unfolding chronicle_push
chronicle_slot-push code a b c = refl

-- `nxu_bbox_fail` marks the box that it has just stored into.
pub mark : ℕ → ℕ → ℕ → Bbox → Bbox
mark code a b x = record x { fail_code = code; fail_a = a; fail_b = b; fail_valid = true }

-- `nxu_chronicle_fail` marks the chronicle that it then stores into.
pub chronicle_mark : ℕ → ℕ → ℕ → Chronicle → Chronicle
chronicle_mark code a b x = record x { fail_code = code; fail_a = a; fail_b = b; fail_valid = true }

module _ (id cpu code a b : ℕ) (o : Observe) where
  pub bbox-note :
      (chronicle_put cpu code a b o).bbox id
      ≡ (if id == slot_of cpu then bbox_push id code a b (o.bbox id) else o.bbox id)
  unfolding chronicle_put bbox_put
  bbox-note = ground arith

  pub chronicle-note :
      (chronicle_put cpu code a b o).chronicle id
      ≡ (if id == slot_of cpu then chronicle_push code a b (o.chronicle id) else o.chronicle id)
  unfolding chronicle_put bbox_put
  chronicle-note = ground arith

  pub bbox-failure : (chronicle_fail cpu code a b o).bbox id ≡ (
      if id == slot_of cpu
      then mark code a b (bbox_push id code a b (bbox_push id code a b (o.bbox id)))
      else o.bbox id)
  unfolding chronicle_fail mark
  bbox-failure = ground arith

  pub chronicle-failure : (chronicle_fail cpu code a b o).chronicle id ≡ (
      if id == slot_of cpu
      then chronicle_push code a b (chronicle_mark code a b (o.chronicle id))
      else o.chronicle id)
  unfolding chronicle_fail chronicle_mark
  chronicle-failure = ground arith
