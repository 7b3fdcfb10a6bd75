-- ===== src/Mmu/Walk.antt =====
-- What an address is mapped to: `nxu_mmu_leaf` of silicon/aarch64/translate/mmu.c against a walk of
-- the tree, and the walk when a table is added or a leaf is written.
use native.Mathlib.Decide.{ℕ_discrete}
use nxu.Base.{
  ℕ, zero, suc, ◌<◌, ◌≡◌, ◌≢◌, ap, ◌∙◌, sym, inl, inr, true, false, arith, subst₂, if◌then◌else◌,
  Bool-cases, ok,
}
use nxu.Mmu.{Mmu, pt_pages, is_valid, index_at, mmu_leaf}
use nxu.Mmu.Tree.{Tree, Child, kid, pt_index-kid}
use nxu.Mmu.Grow.{grown, table-grown_ne, table-grown_valid, kid-grown, new_clear, new_valid}

-- the leaf that the hardware finds below a table `k` levels above the leaf tables
unfoldable pub walk : Mmu → ℕ → ℕ → ℕ → ℕ
walk m zero t pa = m.table t (index_at 0 pa)
walk m (suc k) t pa =
    if is_valid (m.table t (index_at (suc k) pa))
    then walk m k (kid m t (index_at (suc k) pa)) pa
    else 0

-- the leaf entry of an address, 0 where nothing is mapped
abbrev pub view : Mmu → ℕ → ℕ
view m pa = walk m 3 0 pa

pub index_at-lt : (k pa : ℕ) → index_at k pa < 512
index_at-lt zero pa = omega arith
index_at-lt (suc zero) pa = omega arith
index_at-lt (suc (suc zero)) pa = omega arith
index_at-lt (suc (suc (suc k))) pa = omega arith

module _ {m : Mmu} (T : Tree m) where
  -- the entry of a used table that is not a leaf table
  abbrev pub IsChild : ℕ → ℕ → Type 0
  IsChild t l = Child m T.height T.prefix t l

  pub below :
      (k t pa : ℕ)
      → t < m.used
      → T.height t ≡ suc k
      → is_valid (m.table t (index_at (suc k) pa)) ≡ true
      → IsChild t (index_at (suc k) pa)
  below k t pa h e v =
      T.child t (index_at (suc k) pa) h (index_at-lt (suc k) pa) (λ z. omega (arith, e, z)) v

  -- `nxu_mmu_leaf` never halts on a tree, and reads the leaf of the address.
  pub mmu_leaf-view : (pa : ℕ) → mmu_leaf pa m ≡ ok (view m pa) m
  unfolding mmu_leaf walk
  mmu_leaf-view pa = elim (Bool-cases (is_valid (m.table 0 (index_at 3 pa)))) [
    | inr n ↦ rw n
    | inl v ↦
        let c = below 2 0 pa T.some_used T.root_height v in
        let t1 = kid m 0 (index_at 3 pa) in
        elim (Bool-cases (is_valid (m.table t1 (index_at 2 pa)))) [
          | inr n ↦ rw (v, pt_index-kid T 0 (index_at 3 pa) c, n)
          | inl v1 ↦
              let c1 = below 1 t1 pa c.kid_used (omega (arith, c.kid_height, T.root_height)) v1 in
              let t2 = kid m t1 (index_at 2 pa) in
              elim (Bool-cases (is_valid (m.table t2 (index_at 1 pa)))) [
                | inr n ↦ rw (
                  v,
                  pt_index-kid T 0 (index_at 3 pa) c,
                  v1,
                  pt_index-kid T t1 (index_at 2 pa) c1,
                  n,
                )
                | inl v2 ↦
                    let c2 =
                      below 0 t2 pa c1.kid_used
                        (omega (arith, c.kid_height, c1.kid_height, T.root_height)) v2 in
                    rw (
                      v,
                      pt_index-kid T 0 (index_at 3 pa) c,
                      v1,
                      pt_index-kid T t1 (index_at 2 pa) c1,
                      v2,
                      pt_index-kid T t2 (index_at 1 pa) c2,
                    )
              ]
        ]
  ]

walk-clear : (m : Mmu) (k s pa : ℕ) → ((j : ℕ) → m.table s j ≡ 0) → walk m k s pa ≡ 0
unfolding walk
walk-clear m zero s pa h = h (index_at 0 pa)
walk-clear m (suc k) s pa h = rw (h (index_at (suc k) pa))

module _ {m : Mmu} (T : Tree m) (t l : ℕ) (ht : t < m.used) (hl : l < 512) where
  module _ (inner : T.height t ≢ 0) (free : is_valid (m.table t l) ≡ false)
      (spare : m.used < pt_pages) where
    abbrev grown_here : Mmu
    grown_here = grown T t l ht hl inner free spare

    grown_entry :
        (s j : ℕ)
        → s ≡ t
        → j ≡ l
        → (is_valid (grown_here.table s j) ≡ true) × (kid grown_here s j ≡ m.used)
    grown_entry s j a b =
        subst₂ (λ x y. (is_valid (grown_here.table x y) ≡ true) × (kid grown_here x y ≡ m.used))
          (sym a) (sym b)
          (new_valid T t l ht hl inner free spare, kid-grown T t l ht hl inner free spare)

    -- Allocating a table changes what no address is mapped to.
    pub walk-grown :
        (k s pa : ℕ) → s < m.used → T.height s ≡ k → walk grown_here k s pa ≡ walk m k s pa
    unfolding walk
    walk-grown zero s pa hs e =
        table-grown_ne T t l ht hl inner free spare s (index_at 0 pa)
          (inl (λ z. inner (ap T.height (sym z) ∙ e)))
    walk-grown (suc k) s pa hs e = elim (Bool-cases (is_valid (m.table s (index_at (suc k) pa)))) [
      | inl v ↦
          let c = below T k s pa hs e v in
          rw (table-grown_valid T t l ht hl inner free spare s (index_at (suc k) pa) v, v)
            (walk-grown k (kid m s (index_at (suc k) pa)) pa c.kid_used
              (omega (arith, c.kid_height)))
      | inr n ↦ elim (ℕ_discrete s t) [
        | no a ↦ rw (table-grown_ne T t l ht hl inner free spare s (index_at (suc k) pa) (inl a), n)
        | yes a ↦ elim (ℕ_discrete (index_at (suc k) pa) l) [
          | no b ↦
              rw (table-grown_ne T t l ht hl inner free spare s (index_at (suc k) pa) (inr b), n)
          | yes b ↦
              rw
                (
                  n,
                  (grown_entry s (index_at (suc k) pa) a b).0,
                  (grown_entry s (index_at (suc k) pa) a b).1,
                )
                (walk-clear grown_here k m.used pa (new_clear T t l ht hl inner free spare))
        ]
      ]
    ]
