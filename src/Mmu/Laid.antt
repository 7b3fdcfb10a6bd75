-- ===== src/Mmu/Laid.antt =====
-- What the maps of silicon/aarch64/translate/mmu.c put where: a plan says which page may have which
-- mode, and maps that follow the plan keep the tables within it.
use nxu.Base.{
  ℕ, zero, suc, ◌+◌, ◌*◌, ◌/◌, ◌%◌, ◌≤◌, ◌<◌, ◌≡◌, Bool, true, false, ◌==◌, inl, inr, Bool-cases,
  eq_of_==, ne_of_==, arith, ◌∙◌, subst, sym, Outcome, MayHalt, goes_on, halts, MayHalt-and_then,
  Returns, returns,
}
use nxu.Word.{page_size, add64, u64_mod}
use nxu.Range.{range_ok}
use nxu.Range.Membership.{range_ok_iff}
use nxu.Mmu.{Mmu, is_valid, map_pages, mmu_map, mmu_init_pool}
use nxu.Mmu.Tree.{Tree}
use nxu.Mmu.Walk.{view}
use nxu.Mmu.Leaf.{page_of}
use nxu.Mmu.MapPage.{Mapped, mapped, full, leaf_of, map_page-Mapped}
use nxu.Mmu.MapRange.{leaf_of-page}
use nxu.Mmu.Pool.{Fresh, mmu_init_pool-Tree}

-- The tables form a tree, and each address that is mapped is mapped to itself with a mode that the plan
-- `W` gives its page.
pub record Laid (W : ℕ → ℕ → Type 0) (m : Mmu) : Type 0 where
  pub tree : Tree m
  pub planned :
      (x : ℕ)
      → is_valid (view m x) ≡ true
      → (perm : ℕ) × (view m x ≡ leaf_of x perm) × W (page_of x) perm

module _ (W : ℕ → ℕ → Type 0) (perm : ℕ) where
  Mapped-Laid :
      {m : Mmu} (g : Laid W m) (pa : ℕ)
      → W (page_of pa) perm
      → {r : Outcome Mmu (Unit {0})} → Mapped g.tree pa perm r
      → MayHalt (λ _. Laid W) r
  Mapped-Laid g pa here (mapped {m'} T rm u s) = goes_on (record {
    tree = T;
    planned = λ x v. elim (Bool-cases (page_of x == page_of pa)) [
      | inl e ↦ (
        perm,
        rm.here x (eq_of_== _ _ e) ∙ sym (leaf_of-page x pa perm (eq_of_== _ _ e)),
        subst (λ p. W p perm) (sym (eq_of_== _ _ e)) here,
      )
      | inr e ↦
          let same = rm.elsewhere x (ne_of_== _ _ e) in
          let old = g.planned x (subst (λ l. is_valid l ≡ true) same v) in
          (old.0, same ∙ old.1, old.2)
    ];
  })
  Mapped-Laid g pa here (full T same c v few) = halts

  map_pages-Laid :
      (rounds off pa : ℕ) (m : Mmu)
      → pa + off + rounds * page_size ≤ u64_mod
      → ((y : ℕ) → pa + off ≤ y → y < pa + off + rounds * page_size → W (page_of y) perm)
      → Laid W m
      → MayHalt (λ _. Laid W) (map_pages rounds off pa perm m)
  unfolding map_pages
  map_pages-Laid zero off pa m fits plan g = goes_on g
  map_pages-Laid (suc rounds) off pa m fits plan g =
      let at : add64 pa off ≡ pa + off = omega arith in
      MayHalt-and_then
        (Mapped-Laid g (add64 pa off)
          (subst (λ y. W (page_of y) perm) (sym at) (plan (pa + off) (omega arith) (omega arith)))
          (map_page-Mapped g.tree (add64 pa off) perm))
        (λ _ n h.
          map_pages-Laid rounds (off + page_size) pa n (omega arith)
            (λ y lo hi. plan y (omega arith) (omega arith)) h)

  -- a map of a range whose pages the plan gives the mode
  pub mmu_map-Laid :
      (pa size : ℕ) (m : Mmu)
      → pa < u64_mod
      → size < u64_mod
      → (pa + size < u64_mod → (y : ℕ) → pa ≤ y → y < pa + size → W (page_of y) perm)
      → Laid W m
      → MayHalt (λ _. Laid W) (mmu_map pa size perm m)
  unfolding mmu_map
  mmu_map-Laid pa size m lp ls plan g = elim (Bool-cases (range_ok pa size)) [
    | inr e ↦ rw e halts
    | inl e ↦ rw e (elim (Bool-cases (pa % page_size == 0)) [
      | inr f ↦ rw f halts
      | inl f ↦ rw f (elim (Bool-cases (size % page_size == 0)) [
        | inr h ↦ rw h halts
        | inl h ↦
            let whole = eq_of_== _ _ h in
            let fits = (range_ok_iff pa size lp ls).0 e in
            rw h (
              map_pages-Laid (size / page_size) 0 pa m (omega (arith, whole, fits))
                (λ y lo hi. plan (fits.1) y (omega arith) (omega (arith, whole))) g)
      ])
    ])
  ]

-- a clear pool has nothing mapped
pub mmu_init_pool-Laid :
    (W : ℕ → ℕ → Type 0) (m : Mmu) (el : ℕ) → Fresh m → MayHalt (λ _. Laid W) (mmu_init_pool el m)
mmu_init_pool-Laid W m el f = of_tree _ (mmu_init_pool-Tree m el f)
  where
    clash : {b : Bool} → b ≡ false → b ≡ true → ⊥
    clash p q = cc

    of_tree :
        (r : Outcome Mmu (Unit {0}))
        → Returns (λ _ n. Tree n × ((x : ℕ) → is_valid (view n x) ≡ false)) r
        → MayHalt (λ _. Laid W) r
    of_tree _ (returns (T, none)) =
        goes_on (record { tree = T; planned = λ x v. absurd (clash (none x) v) })
