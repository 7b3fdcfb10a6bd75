-- ===== src/Mmu/Leaf.antt =====
-- What an address is mapped to when a leaf entry is written: the last store of `map_page` of
-- silicon/aarch64/translate/mmu.c.
use native.Mathlib.Decide.{ℕ_discrete}
use nxu.Base.{
  ℕ, zero, suc, ◌+◌, ◌*◌, ◌/◌, ◌%◌, ◌^◌, ◌<◌, ◌≤◌, ◌≡◌, ◌≢◌, ap, ◌∙◌, sym, inl, inr, arith,
  Bool-cases,
}
use nxu.Mmu.{Mmu, is_valid, index_at, set_entry}
use nxu.Mmu.Tree.{Tree, Child, Named, kid, cover}
use nxu.Mmu.Walk.{walk, below}

-- the page of an address, below the 48 bits that the tables translate
abbrev pub page_of : ℕ → ℕ
page_of pa = pa % 2 ^ 48 / 2 ^ 12

pub cover-suc :
    (k p pa : ℕ) → k ≤ 2 → p ≡ cover (suc k) pa → p * 512 + index_at (suc k) pa ≡ cover k pa
cover-suc zero p pa h e = omega arith
cover-suc (suc zero) p pa h e = omega arith
cover-suc (suc (suc zero)) p pa h e = omega arith
cover-suc (suc (suc (suc k))) p pa h e = absurd (omega arith)

module _ {m : Mmu} (T : Tree m) (t pa v : ℕ) (ht : t < m.used) (leaf : T.height t ≡ 0) where
  abbrev pub leafed : Mmu
  leafed = set_entry t (index_at 0 pa) v m

  pub table-leafed_ne : (s j : ℕ) → s ≢ t → leafed.table s j ≡ m.table s j
  table-leafed_ne s j n = ground arith

  pub table-leafed_inner : (s j : ℕ) → T.height s ≢ 0 → leafed.table s j ≡ m.table s j
  table-leafed_inner s j n = table-leafed_ne s j (λ z. n (ap T.height z ∙ leaf))

  pub Child-leafed :
      (s j : ℕ)
      → T.height s ≢ 0
      → Child m T.height T.prefix s j
      → Child leafed T.height T.prefix s j
  Child-leafed s j n c =
      let same = table-leafed_inner s j n in
      record {
        entry = rw same c.entry;
        kid_used = rw same c.kid_used;
        kid_height = rw same c.kid_height;
        kid_prefix = rw same c.kid_prefix;
      }

  pub Named-leafed :
      (s : ℕ) → Named m T.height T.parent T.slot s → Named leafed T.height T.parent T.slot s
  Named-leafed s n =
      let same = table-leafed_inner (T.parent s) (T.slot s) n.inner in
      record {
        parent_used = n.parent_used;
        slot_lt = n.slot_lt;
        inner = n.inner;
        entry_valid = rw same n.entry_valid;
        names = rw same n.names;
      }

  -- A store into a leaf table leaves the tree as it is.
  unfoldable pub Tree-leafed : Tree leafed
  Tree-leafed = record {
    height = T.height;
    prefix = T.prefix;
    parent = T.parent;
    slot = T.slot;
    aligned = T.aligned;
    placed = T.placed;
    some_used = T.some_used;
    few_used = T.few_used;
    root_height = T.root_height;
    root_prefix = T.root_prefix;
    low = T.low;
    child = λ s j hs hj n e.
        Child-leafed s j n (T.child s j hs hj n (rw (← table-leafed_inner s j n) e));
    named = λ s nz h. Named-leafed s (T.named s nz h);
    clear = λ s j h. table-leafed_ne s j (omega arith) ∙ T.clear s j h;
    unique = T.unique;
  }

  module _ (covers : T.prefix t ≡ cover 0 pa) (pa' : ℕ) (other : page_of pa' ≢ page_of pa) where
    leaf_entry :
        (s : ℕ)
        → s < m.used
        → T.height s ≡ 0
        → T.prefix s ≡ cover 0 pa'
        → leafed.table s (index_at 0 pa') ≡ m.table s (index_at 0 pa')
    leaf_entry s hs e p = elim (ℕ_discrete s t) [
      | no a ↦ table-leafed_ne s (index_at 0 pa') a
      | yes a ↦
          let same : cover 0 pa' ≡ cover 0 pa = sym p ∙ ap T.prefix a ∙ covers in
          let ne : index_at 0 pa' ≢ index_at 0 pa = λ z. other (omega arith) in ground arith
    ]

    -- Other pages keep their leaf.
    pub walk-leafed_ne :
        (k s : ℕ)
        → s < m.used
        → T.height s ≡ k
        → T.prefix s ≡ cover k pa'
        → walk leafed k s pa' ≡ walk m k s pa'
    unfolding walk
    walk-leafed_ne zero s hs e p = leaf_entry s hs e p
    walk-leafed_ne (suc k) s hs e p =
        let same = table-leafed_inner s (index_at (suc k) pa') (λ z. omega (arith, e, z)) in
        elim (Bool-cases (is_valid (m.table s (index_at (suc k) pa')))) [
          | inr n ↦ rw (same, n)
          | inl v ↦
              let c = below T k s pa' hs e v in
              rw (same, v)
                (walk-leafed_ne k (kid m s (index_at (suc k) pa')) c.kid_used
                  (omega (arith, c.kid_height))
                  (c.kid_prefix ∙ cover-suc k (T.prefix s) pa' (omega (arith, T.low s hs)) p))
        ]
