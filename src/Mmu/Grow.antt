-- ===== src/Mmu/Grow.antt =====
-- A new page table keeps the tree: `pt_alloc` and the store of the entry that names the new table.
use nxu.Base.{
  ℕ, suc, ◌+◌, ◌-◌, ◌*◌, ◌≤◌, ◌<◌, ◌≡◌, ◌≢◌, ◌⊎◌, ap, ◌∙◌, sym, inl, inr, true, false, arith,
  update, update_at, update_ne, ==_refl, subst, subst₂,
}
use native.Mathlib.Decide.{ℕ_discrete}
use nxu.Mmu.{Mmu, pt_pages, pt_pa, is_valid, set_entry}
use nxu.Mmu.Tree.{Tree, Child, Named, kid, kid_of-entry}

module _ {m : Mmu} (T : Tree m) (t l : ℕ) (ht : t < m.used) (hl : l < 512) where
  module _ (inner : T.height t ≢ 0) (free : is_valid (m.table t l) ≡ false)
      (spare : m.used < pt_pages) where
    abbrev pub grown : Mmu
    grown = set_entry t l (pt_pa m m.used + 3) (record m { used = m.used + 1 })

    abbrev pub height' : ℕ → ℕ
    height' = update T.height m.used (T.height t - 1)

    abbrev pub prefix' : ℕ → ℕ
    prefix' = update T.prefix m.used (T.prefix t * 512 + l)

    abbrev pub parent' : ℕ → ℕ
    parent' = update T.parent m.used t

    abbrev pub slot' : ℕ → ℕ
    slot' = update T.slot m.used l

    pub table-grown_self : grown.table t l ≡ pt_pa m m.used + 3
    table-grown_self = ground arith

    pub table-grown_ne : (s j : ℕ) → (s ≢ t) ⊎ (j ≢ l) → grown.table s j ≡ m.table s j
    table-grown_ne s j (inl n) = ground arith
    table-grown_ne s j (inr n) = ground arith

    -- an entry that was valid is the same
    pub table-grown_valid :
        (s j : ℕ) → is_valid (m.table s j) ≡ true → grown.table s j ≡ m.table s j
    table-grown_valid s j v = ground arith

    pub kid-grown : kid grown t l ≡ m.used
    kid-grown = rw table-grown_self (kid_of-entry m.pool m.used T.aligned T.placed spare)

    pub new_clear : (j : ℕ) → grown.table m.used j ≡ 0
    new_clear j = table-grown_ne m.used j (inl (omega arith)) ∙ T.clear m.used j (omega arith)

    pub height_old : (s : ℕ) → s < m.used → height' s ≡ T.height s
    height_old s h = update_ne T.height _ (omega arith)

    pub prefix_old : (s : ℕ) → s < m.used → prefix' s ≡ T.prefix s
    prefix_old s h = update_ne T.prefix _ (omega arith)

    pub new-Child : Child grown height' prefix' t l
    new-Child = record {
      entry = rw kid-grown table-grown_self;
      kid_used = rw kid-grown (omega arith);
      kid_height = rw (kid-grown, ==_refl m.used, height_old t ht) (omega arith);
      kid_prefix = rw (kid-grown, ==_refl m.used, prefix_old t ht);
    }

    old-Child :
        (s j : ℕ)
        → s < m.used
        → grown.table s j ≡ m.table s j
        → Child m T.height T.prefix s j
        → Child grown height' prefix' s j
    old-Child s j hs e c = record {
      entry = rw e c.entry;
      kid_used = rw e (omega (arith, c.kid_used));
      kid_height = rw (e, height_old s hs, height_old (kid m s j) c.kid_used) c.kid_height;
      kid_prefix = rw (e, prefix_old s hs, prefix_old (kid m s j) c.kid_used) c.kid_prefix;
    }

    clear_invalid : (s j : ℕ) → s ≡ m.used → is_valid (grown.table s j) ≡ true → ⊥
    clear_invalid s j e v =
        let v' = subst (λ x. is_valid (grown.table x j) ≡ true) e v in ground (arith, new_clear j)

    Child-old :
        (s j : ℕ)
        → s < m.used
        → j < 512
        → height' s ≢ 0
        → is_valid (grown.table s j) ≡ true
        → (s ≢ t) ⊎ (j ≢ l)
        → Child grown height' prefix' s j
    Child-old s j hs hj n v ne =
        let e = table-grown_ne s j ne in
        old-Child s j hs e (T.child s j hs hj (λ z. n (height_old s hs ∙ z)) (rw (← e) v))

    pub child' :
        (s j : ℕ)
        → s < m.used + 1
        → j < 512
        → height' s ≢ 0
        → is_valid (grown.table s j) ≡ true
        → Child grown height' prefix' s j
    child' s j hs hj n v = elim (ℕ_discrete s m.used) [
      | yes e ↦ absurd (clear_invalid s j e v)
      | no e ↦ elim (ℕ_discrete s t) [
        | no a ↦ Child-old s j (omega arith) hj n v (inl a)
        | yes a ↦ elim (ℕ_discrete j l) [
          | no b ↦ Child-old s j (omega arith) hj n v (inr b)
          | yes b ↦ rw (a, b) new-Child
        ]
      ]
    ]

    unique_new :
        (s : ℕ) → s < m.used → T.height s ≡ T.height t - 1 → T.prefix s ≡ T.prefix t * 512 + l → ⊥
    unique_new s hs h p = elim (ℕ_discrete s 0) [
      | yes z ↦ omega (arith, T.root_height, T.low t ht, ap T.height z)
      | no nz ↦
          let n = T.named s nz hs in
          let c = T.child (T.parent s) (T.slot s) n.parent_used n.slot_lt n.inner n.entry_valid in
          let up : suc (T.height s) ≡ T.height (T.parent s) =
            ap (λ x. suc (T.height x)) (sym n.names) ∙ c.kid_height in
          let path : T.prefix s ≡ T.prefix (T.parent s) * 512 + T.slot s =
            ap T.prefix (sym n.names) ∙ c.kid_prefix in
          let same =
            T.unique (T.parent s) t n.parent_used ht (omega arith) (omega (arith, n.slot_lt)) in
          let entry : T.slot s ≡ l = omega (arith, n.slot_lt) in
          let v : is_valid (m.table t l) ≡ true =
            subst₂ (λ x y. is_valid (m.table x y) ≡ true) same entry n.entry_valid in
          cc
    ]

    pub unique' :
        (a b : ℕ)
        → a < m.used + 1
        → b < m.used + 1
        → height' a ≡ height' b
        → prefix' a ≡ prefix' b
        → a ≡ b
    unique' a b ha hb h p = elim (ℕ_discrete a m.used) [
      | yes ea ↦ elim (ℕ_discrete b m.used) [
        | yes eb ↦ ea ∙ sym eb
        | no nb ↦ absurd (
            unique_new b (omega arith)
              (sym (height_old b (omega arith)) ∙ sym h ∙ update_at T.height (T.height t - 1) ea)
              (sym (prefix_old b (omega arith))
                ∙ sym p
                ∙ update_at T.prefix (T.prefix t * 512 + l) ea))
      ]
      | no na ↦ elim (ℕ_discrete b m.used) [
        | yes eb ↦ absurd (
            unique_new a (omega arith)
              (sym (height_old a (omega arith)) ∙ h ∙ update_at T.height (T.height t - 1) eb)
              (sym (prefix_old a (omega arith)) ∙ p ∙ update_at T.prefix (T.prefix t * 512 + l) eb))
        | no nb ↦
            T.unique a b (omega arith) (omega arith)
              (sym (height_old a (omega arith)) ∙ h ∙ height_old b (omega arith))
              (sym (prefix_old a (omega arith)) ∙ p ∙ prefix_old b (omega arith))
      ]
    ]

    pub low' : (s : ℕ) → s < m.used + 1 → height' s ≤ 3
    low' s h = elim (ℕ_discrete s m.used) [
      | yes e ↦ rw (update_at T.height (T.height t - 1) e) (omega (arith, T.low t ht))
      | no n ↦ rw (height_old s (omega arith)) (T.low s (omega arith))
    ]

    Named-of :
        (s p j : ℕ)
        → parent' s ≡ p
        → slot' s ≡ j
        → p < m.used + 1
        → j < 512
        → height' p ≢ 0
        → is_valid (grown.table p j) ≡ true
        → kid grown p j ≡ s
        → Named grown height' parent' slot' s
    Named-of s p j ep ej hp hj n v k = record {
      parent_used = rw ep hp;
      slot_lt = rw ej hj;
      inner = rw ep n;
      entry_valid = rw (ep, ej) v;
      names = rw (ep, ej) k;
    }

    pub new_valid : is_valid (grown.table t l) ≡ true
    new_valid = rw table-grown_self (ground (arith, T.aligned))

    pub named' : (s : ℕ) → s ≢ 0 → s < m.used + 1 → Named grown height' parent' slot' s
    named' s nz h = elim (ℕ_discrete s m.used) [
      | yes e ↦
          Named-of s t l (update_at T.parent t e) (update_at T.slot l e) (omega arith) hl
            (λ z. inner (sym (height_old t ht) ∙ z)) new_valid (kid-grown ∙ sym e)
      | no n ↦
          let k = T.named s nz (omega arith) in
          let p = T.parent s in
          let j = T.slot s in
          let same = table-grown_valid p j k.entry_valid in
          Named-of s p j (update_ne T.parent t n) (update_ne T.slot l n)
            (omega (arith, k.parent_used)) k.slot_lt
            (λ z. k.inner (sym (height_old p k.parent_used) ∙ z)) (rw same k.entry_valid)
            (rw same k.names)
    ]

    -- A table allocated for an entry that was not valid leaves a tree.
    unfoldable pub Tree-grown : Tree grown
    Tree-grown = record {
      height = height';
      prefix = prefix';
      parent = parent';
      slot = slot';
      aligned = T.aligned;
      placed = T.placed;
      some_used = omega arith;
      few_used = omega arith;
      root_height = height_old 0 T.some_used ∙ T.root_height;
      root_prefix = prefix_old 0 T.some_used ∙ T.root_prefix;
      low = low';
      child = child';
      named = named';
      clear = λ s j h. table-grown_ne s j (inl (omega arith)) ∙ T.clear s j (omega arith);
      unique = unique';
    }
