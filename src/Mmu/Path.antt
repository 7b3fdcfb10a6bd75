-- ===== src/Mmu/Path.antt =====
-- The tables that an address leads through, and the leaf at their end.
use nxu.Base.{
  ℕ, zero, suc, ◌<◌, ◌≡◌, refl, ap, ◌∙◌, sym, subst, inl, inr, Bool-cases, true, false, arith,
}
use nxu.Mmu.{Mmu, is_valid, index_at}
use nxu.Mmu.Tree.{Tree, kid}
use nxu.Mmu.Walk.{walk, view, below}
use nxu.Mmu.Leaf.{page_of, leafed, table-leafed_inner}
use nxu.Mmu.Descend.{Extends}

-- From table `s`, `k` levels above the leaf tables, the address leads to the leaf table `t`.
pub data Leads (m : Mmu) (pa t : ℕ) : ℕ → ℕ → Type 0 where
  here : Leads m pa t 0 t
  down :
      {k s c : ℕ}
      → is_valid (m.table s (index_at (suc k) pa)) ≡ true
      → kid m s (index_at (suc k) pa) ≡ c
      → Leads m pa t k c
      → Leads m pa t (suc k) s

walk_step :
    (m : Mmu) (pa k s c : ℕ)
    → is_valid (m.table s (index_at (suc k) pa)) ≡ true
    → kid m s (index_at (suc k) pa) ≡ c
    → walk m (suc k) s pa ≡ walk m k c pa
unfolding walk
walk_step m pa k s c v n = rw (v, n)

walk_stop :
    (m : Mmu) (pa k s : ℕ)
    → is_valid (m.table s (index_at (suc k) pa)) ≡ false
    → walk m (suc k) s pa ≡ 0
unfolding walk
walk_stop m pa k s n = rw n

-- The address leads from the root to the table `c`, `k` levels above the leaf tables.
pub data Follows (m : Mmu) (pa : ℕ) : ℕ → ℕ → Type 0 where
  root : Follows m pa 3 0
  step :
      {k s c : ℕ}
      → Follows m pa (suc k) s
      → is_valid (m.table s (index_at (suc k) pa)) ≡ true
      → kid m s (index_at (suc k) pa) ≡ c
      → Follows m pa k c

pub Follows-Extends :
    {m m' : Mmu} {T : Tree m} {T' : Tree m'} {pa k s : ℕ}
    → Extends T T'
    → Follows m pa k s
    → Follows m' pa k s
Follows-Extends e root = root
Follows-Extends {m} {m'} {pa} e (step {k} {s} r v n) =
    let same = e.entries s (index_at (suc k) pa) v in
    step (Follows-Extends e r) (rw same v) (rw (same, e.pool) n)

pub Follows-Leads :
    {m : Mmu} {pa t k s : ℕ} → Follows m pa k s → Leads m pa t k s → Leads m pa t 3 0
Follows-Leads root l = l
Follows-Leads (step r v n) l = Follows-Leads r (down v n l)

pub Follows-view : {m : Mmu} {pa k s : ℕ} → Follows m pa k s → view m pa ≡ walk m k s pa
Follows-view root = refl
Follows-view {m} {pa} (step {k} {s} {c} r v n) = Follows-view r ∙ walk_step m pa k s c v n

-- Where the address has a valid leaf, all the entries above it are valid.
pub Follows-valid :
    {m : Mmu} {pa k s : ℕ}
    → Follows m pa (suc k) s
    → is_valid (view m pa) ≡ true
    → is_valid (m.table s (index_at (suc k) pa)) ≡ true
Follows-valid {m} {pa} {k} {s} f v =
    elim (Bool-cases (is_valid (m.table s (index_at (suc k) pa)))) [
      | inl ok ↦ ok
      | inr n ↦
          let dead : view m pa ≡ 0 = Follows-view f ∙ walk_stop m pa k s n in
          let v' = subst (λ x. is_valid x ≡ true) dead v in cc
    ]

pub Follows-stop :
    {m : Mmu} {pa k s : ℕ}
    → Follows m pa (suc k) s
    → is_valid (m.table s (index_at (suc k) pa)) ≡ false
    → is_valid (view m pa) ≡ false
Follows-stop {m} {pa} {k} {s} f n =
    let dead : view m pa ≡ 0 = Follows-view f ∙ walk_stop m pa k s n in
    subst (λ x. is_valid x ≡ false) (sym dead) refl

index_at-page : (k a b : ℕ) → page_of a ≡ page_of b → index_at k a ≡ index_at k b
index_at-page zero a b h = omega arith
index_at-page (suc zero) a b h = omega arith
index_at-page (suc (suc zero)) a b h = omega arith
index_at-page (suc (suc (suc k))) a b h = omega arith

module _ {m : Mmu} (T : Tree m) (pa t v : ℕ) (ht : t < m.used) (leaf : T.height t ≡ 0) where
  -- Every address of the page leads to the new leaf.
  pub walk-leafed_self :
      {k s : ℕ} (pa' : ℕ)
      → page_of pa' ≡ page_of pa
      → Leads m pa t k s
      → s < m.used
      → T.height s ≡ k
      → walk (leafed T t pa v ht leaf) k s pa' ≡ v
  unfolding walk
  walk-leafed_self pa' e here hs h = ground (arith, index_at-page 0 pa' pa e)
  walk-leafed_self pa' e (down {k} {s} u n r) hs h =
      let ch = below T k s pa hs h u in
      let same =
        table-leafed_inner T t pa v ht leaf s (index_at (suc k) pa) (λ z. omega (arith, h, z)) in
      rw (index_at-page (suc k) pa' pa e, same, u, n)
        (walk-leafed_self pa' e r (rw (← n) ch.kid_used)
          (omega (arith, ch.kid_height, ap T.height n)))
