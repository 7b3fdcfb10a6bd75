-- ===== src/Observe/Dump.antt =====
-- The order in which `nxu_bbox_dump` of foundation/observe/bbox.c prints the records of a box.
use mathlib.Core.List.{reverse, reverse-append}
use nxu.Base.{
  ℕ, zero, suc, ◌+◌, ◌≤◌, ◌<◌, ◌≡◌, refl, sym, ◌∙◌, ap, ap₂, List, [], ◌∷◌, ◌++◌, some, arith,
  length, get_elem?, take, ltb, if◌then◌else◌, min,
}
use nxu.Word.{u32_mod}
use nxu.Observe.{Observe, BboxRec, Bbox, bbox_cap, dump_index, dump_from, dump_records}
use nxu.Observe.Ring.{place}
use nxu.Observe.History.{BoxKeeps, Call, bbox_history, after}
use nxu.Observe.History.Kept.{after-Shows}

-- The index read in round `i`, with `r` rounds to follow, is the place of the record that is `r` back.
dump_place :
    (box : Bbox) (r i : ℕ)
    → box.next ≤ bbox_cap
    → (box.count ≤ bbox_cap → box.next ≡ box.count)
    → suc r + i ≡ min box.count bbox_cap
    → dump_index box i ≡ place bbox_cap box.next r
dump_place box r i h e en = ground (arith, e)

eq_zero : (m : ℕ) → m ≡ 0 → m ≡ 0
eq_zero m e = e

module _ {A : Type 0} where
  take-suc :
      (xs : List A) (k : ℕ) {x : A}
      → get_elem? xs k ≡ some x
      → take (suc k) xs ≡ take k xs ++ (x ∷ [])
  take-suc [] k h = cc
  take-suc (y ∷ xs) zero h = ap (λ z. z ∷ []) (ground arith)
  take-suc (y ∷ xs) (suc k) h = ap (λ t. y ∷ t) (take-suc xs k h)

  reverse-take :
      (xs : List A) (k : ℕ) {x : A}
      → get_elem? xs k ≡ some x
      → reverse (take (suc k) xs) ≡ x ∷ reverse (take k xs)
  reverse-take xs k {x} h = ap reverse (take-suc xs k h) ∙ reverse-append (take k xs) (x ∷ [])

  take-min : (xs : List A) (n m : ℕ) → m ≡ min (length xs) n → take m xs ≡ take n xs
  take-min [] zero m e = rw (eq_zero m (omega arith))
  take-min [] (suc n) m e = rw (eq_zero m (omega arith))
  take-min (x ∷ xs) zero m e = rw (eq_zero m (omega arith))
  take-min (x ∷ xs) (suc n) zero e = absurd (omega arith)
  take-min (x ∷ xs) (suc n) (suc m) e = ap (λ t. x ∷ t) (take-min xs n m (omega arith))

module _ {hist : List BboxRec} (box : Bbox) (k : BoxKeeps hist box)
    (small : length hist < u32_mod) where
  count_exact : box.count ≡ length hist
  count_exact = omega (arith, k.counted)

  dump_from-reverse :
      (r i : ℕ) → r + i ≡ min (length hist) bbox_cap → dump_from box r i ≡ reverse (take r hist)
  unfolding dump_from
  dump_from-reverse zero i e = refl
  dump_from-reverse (suc r) i e =
      ap₂ ◌∷◌
        (ap box.rec (
          dump_place box r i k.bound (λ h. k.early (omega (arith, count_exact)) ∙ sym count_exact)
            (omega (arith, count_exact))))
        (dump_from-reverse r (i + 1) (omega arith))
      ∙ sym (reverse-take hist r (k.held r (omega arith) (omega arith)))

  dump-reverse : dump_records box ≡ reverse (take bbox_cap hist)
  unfolding dump_records
  dump-reverse =
      let n = min (length hist) bbox_cap in
      let rounds : (if ltb bbox_cap box.count then bbox_cap else box.count) ≡ n =
        ground (arith, count_exact) in
      rw rounds (dump_from-reverse n 0 (omega arith) ∙ ap reverse (take-min hist bbox_cap n refl))

-- After any sequence of calls that stores fewer than 2 ^ 32 records for CPU `id`, `nxu_bbox_dump`
-- prints for that CPU its newest 32 records, oldest first.
pub dump-after :
    (id : ℕ) (cs : List Call) (o : Observe)
    → length (bbox_history id cs) < u32_mod
    → dump_records ((after cs o).bbox id) ≡ reverse (take bbox_cap (bbox_history id cs))
dump-after id cs o small = dump-reverse ((after cs o).bbox id) (after-Shows id cs o).box small
