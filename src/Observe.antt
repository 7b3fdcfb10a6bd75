-- ===== src/Observe.antt =====
-- foundation/observe: the state of the chronicle (chronicle.c), the black box (bbox.c) and the sink
-- (sink.c). An array of C is a function of the index. The parameter `cpu` of an operation is the
-- value of `nxu_this_logical()`.
pub mod Ring
pub mod History
pub mod Dump
use nxu.Base.{
  ℕ, zero, suc, ◌+◌, ◌%◌, Bool, true, false, Option, none, some, List, [], ◌∷◌, update, ltb,
  if◌then◌else◌,
}
use nxu.Word.{add32}

-- `NXU_CPU_BOUND`
abbrev pub cpu_bound : ℕ
cpu_bound = 8

-- `NXU_CHRONICLE_CAP`
abbrev pub chronicle_cap : ℕ
chronicle_cap = 128

-- `NXU_BBOX_CAP`
abbrev pub bbox_cap : ℕ
bbox_cap = 32

-- `struct nxu_chronicle_record`
pub record ChronicleRecord : Type 0 where
  pub seq : ℕ
  pub code : ℕ
  pub a : ℕ
  pub b : ℕ

-- the call site that the macro `nxu_fail` passes: `__func__`, `__FILE__` and `__LINE__`
pub record Site : Type 0 where
  pub func : List ℕ
  pub file : List ℕ
  pub line : ℕ

-- `struct nxu_chronicle`; `fail_site` is `fail_func`, `fail_file` and `fail_line`, with `none` for the
-- null pointers that `nxu_chronicle_init` stores.
pub record Chronicle : Type 0 where
  pub next : ℕ
  pub count : ℕ
  pub fail_code : ℕ
  pub fail_a : ℕ
  pub fail_b : ℕ
  pub fail_site : Option Site
  pub fail_valid : Bool
  pub rec : ℕ → ChronicleRecord

-- `struct nxu_bbox_rec`
pub record BboxRec : Type 0 where
  pub code : ℕ
  pub cpu : ℕ
  pub a : ℕ
  pub b : ℕ

-- `struct nxu_bbox`
pub record Bbox : Type 0 where
  pub next : ℕ
  pub count : ℕ
  pub fail_code : ℕ
  pub fail_valid : Bool
  pub fail_a : ℕ
  pub fail_b : ℕ
  pub rec : ℕ → BboxRec

pub record Observe : Type 0 where
  pub chronicle : ℕ → Chronicle
  pub bbox : ℕ → Bbox

-- `if (id >= NXU_CPU_BOUND) id = 0U;`, the first lines of `nxu_chronicle_this` and `bbox_this`
abbrev pub slot_of : ℕ → ℕ
slot_of id = if ltb id cpu_bound then id else 0

abbrev zero_chronicle : Chronicle
zero_chronicle = record {
  next = 0;
  count = 0;
  fail_code = 0;
  fail_a = 0;
  fail_b = 0;
  fail_site = none;
  fail_valid = false;
  rec = λ i. record { seq = 0; code = 0; a = 0; b = 0 };
}

abbrev zero_bbox : ℕ → Bbox
zero_bbox cpu = record {
  next = 0;
  count = 0;
  fail_code = 0;
  fail_valid = false;
  fail_a = 0;
  fail_b = 0;
  rec = λ i. record { code = 0; cpu = cpu; a = 0; b = 0 };
}

-- `nxu_bbox_init`: every box of the array, every record of a box
unfoldable pub bbox_init : Observe → Observe
bbox_init o = record o { bbox = zero_bbox }

-- `nxu_chronicle_init`
unfoldable pub chronicle_init : Observe → Observe
unfolding bbox_init
chronicle_init o = bbox_init (record o { chronicle = λ cpu. zero_chronicle })

-- one store into a box: the body of `nxu_bbox_put`
unfoldable pub bbox_push : ℕ → ℕ → ℕ → ℕ → Bbox → Bbox
bbox_push cpu code va vb box =
    let i = box.next % bbox_cap in
    record box {
      rec = update box.rec i (record { code = code; cpu = cpu; a = va; b = vb });
      next = i + 1;
      count = add32 box.count 1;
    }

-- `nxu_bbox_put`
unfoldable pub bbox_put : ℕ → ℕ → ℕ → ℕ → Observe → Observe
bbox_put cpu code va vb o =
    let id = slot_of cpu in
    record o { bbox = update o.bbox id (bbox_push id code va vb (o.bbox id)) }

-- `nxu_bbox_fail`
unfoldable pub bbox_fail : ℕ → ℕ → ℕ → ℕ → Observe → Observe
unfolding bbox_put
bbox_fail cpu code va vb o =
    let o' = bbox_put cpu code va vb o in
    let id = slot_of cpu in
    let box = o'.bbox id in
    record o' {
      bbox =
          update o'.bbox id
            (record box { fail_code = code; fail_a = va; fail_b = vb; fail_valid = true });
    }

-- the index that `nxu_bbox_dump` reads in its round `i`
abbrev pub dump_index : Bbox → ℕ → ℕ
dump_index box i = if ltb bbox_cap box.count then (box.next + i) % bbox_cap else i

dump_from : Bbox → ℕ → ℕ → List BboxRec
dump_from box zero i = []
dump_from box (suc rounds) i = box.rec (dump_index box i) ∷ dump_from box rounds (i + 1)

-- the records that `nxu_bbox_dump` prints for one box, in its order
unfoldable pub dump_records : Bbox → List BboxRec
unfolding dump_from
dump_records box = dump_from box (if ltb bbox_cap box.count then bbox_cap else box.count) 0

-- one store into a chronicle: the body of `nxu_chronicle_put` but for its last call
unfoldable pub chronicle_push : ℕ → ℕ → ℕ → Chronicle → Chronicle
chronicle_push code a b c =
    let i = c.next % chronicle_cap in
    record c {
      rec = update c.rec i (record { seq = c.count; code = code; a = a; b = b });
      next = i + 1;
      count = add32 c.count 1;
    }

-- `nxu_chronicle_put`
unfoldable pub chronicle_put : ℕ → ℕ → ℕ → ℕ → Observe → Observe
chronicle_put cpu code a b o =
    let id = slot_of cpu in
    bbox_put cpu code a b
      (record o { chronicle = update o.chronicle id (chronicle_push code a b (o.chronicle id)) })

-- `nxu_chronicle_fail`
unfoldable pub chronicle_fail : ℕ → ℕ → ℕ → ℕ → Observe → Observe
unfolding chronicle_put bbox_fail
chronicle_fail cpu code a b o =
    let id = slot_of cpu in
    let c = o.chronicle id in
    let failed = record c { fail_code = code; fail_a = a; fail_b = b; fail_valid = true } in
    bbox_fail cpu code a b
      (chronicle_put cpu code a b (record o { chronicle = update o.chronicle id failed }))

-- the stores of `nxu_fail_at` into the chronicle before it calls `nxu_chronicle_fail`
unfoldable pub mark_site : ℕ → Site → Observe → Observe
mark_site cpu site o =
    let id = slot_of cpu in
    let c = o.chronicle id in
    record o { chronicle = update o.chronicle id (record c { fail_site = some site }) }
