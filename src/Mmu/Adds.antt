-- ===== src/Mmu/Adds.antt =====
-- What the maps of silicon/aarch64/translate/mmu.c add to the tables: the addresses of their range, and
-- none is lost.
use nxu.Base.{
  ℕ, zero, suc, ◌+◌, ◌*◌, ◌/◌, ◌%◌, ◌≤◌, ◌<◌, ◌≡◌, true, ◌==◌, inl, inr, Bool-cases, eq_of_==,
  ne_of_==, arith, subst, sym, Outcome, MayHalt, goes_on, halts, MayHalt-and_then, MayHalt-mono,
  ltb,
}
use nxu.Word.{page_size, add64, u64_mod}
use nxu.Range.{range_ok}
use nxu.Range.Membership.{range_ok_iff}
use nxu.Mmu.{Mmu, is_valid, map_pages, mmu_map}
use nxu.Mmu.Tree.{Tree}
use nxu.Mmu.Walk.{view}
use nxu.Mmu.Leaf.{page_of}
use nxu.Mmu.MapPage.{Mapped, mapped, full, map_page-Mapped}
use nxu.Mmu.Perm.{leaf_of-valid}

-- Every address from `a` up to `b` is mapped.
abbrev pub On : Mmu → ℕ → ℕ → Type 0
On m a b = (y : ℕ) → a ≤ y → y < b → is_valid (view m y) ≡ true

-- `m'` is a tree that maps what `m` maps.
pub record Keeps (m m' : Mmu) : Type 0 where
  pub tree : Tree m'
  pub kept : (x : ℕ) → is_valid (view m x) ≡ true → is_valid (view m' x) ≡ true

pub Keeps-trans : {m n o : Mmu} → Keeps m n → Keeps n o → Keeps m o
Keeps-trans p q = record { tree = q.tree; kept = λ x v. q.kept x (p.kept x v) }

pub On-kept : {m n : Mmu} {a b : ℕ} → Keeps m n → On m a b → On n a b
On-kept k on y lo hi = k.kept y (on y lo hi)

module _ (perm : ℕ) where
  map_page-Adds :
      {m : Mmu} (T : Tree m) (pa : ℕ)
      → pa % page_size ≡ 0
      → {r : Outcome Mmu (Unit {0})} → Mapped T pa perm r
      → MayHalt (λ _ n. Keeps m n × On n pa (pa + page_size)) r
  map_page-Adds {m} T pa al (mapped {m'} T' rm u s) = goes_on (
    record {
      tree = T';
      kept = λ x v. elim (Bool-cases (page_of x == page_of pa)) [
        | inl e ↦ at x (eq_of_== _ _ e)
        | inr e ↦ subst (λ l. is_valid l ≡ true) (sym (rm.elsewhere x (ne_of_== _ _ e))) v
      ];
    },
    λ y lo hi. at y (omega arith),
  )
    where
      at : (x : ℕ) → page_of x ≡ page_of pa → is_valid (view m' x) ≡ true
      at x e = subst (λ l. is_valid l ≡ true) (sym (rm.here x e)) (leaf_of-valid pa perm)
  map_page-Adds T pa al (full T' same c v few) = halts

  map_pages-Adds :
      (rounds off pa : ℕ) (m : Mmu)
      → pa % page_size ≡ 0
      → off % page_size ≡ 0
      → pa + off + rounds * page_size ≤ u64_mod
      → Tree m
      → MayHalt
          (λ _ n. Keeps m n × On n (pa + off) (pa + off + rounds * page_size))
          (map_pages rounds off pa perm m)
  unfolding map_pages
  map_pages-Adds zero off pa m al ao fits T =
      goes_on (record { tree = T; kept = λ x v. v }, λ y lo hi. absurd (omega arith))
  map_pages-Adds (suc rounds) off pa m al ao fits T =
      let at : add64 pa off ≡ pa + off = omega arith in
      MayHalt-and_then
        (map_page-Adds T (add64 pa off) (omega arith) (map_page-Mapped T (add64 pa off) perm))
        (λ _ n h.
          MayHalt-mono
            (map_pages-Adds rounds (off + page_size) pa n al (omega arith) (omega arith) (h.0.tree))
            (λ _ o q. (
              Keeps-trans (h.0) (q.0),
              λ y lo hi. elim (Bool-cases (ltb y (pa + off + page_size))) [
                | inl e ↦ q.0.kept y (h.1 y (omega arith) (ground arith))
                | inr e ↦ q.1 y (ground arith) (omega arith)
              ],
            )))

  -- a map of a range that returns
  pub mmu_map-Adds :
      (pa size : ℕ) (m : Mmu)
      → pa < u64_mod
      → size < u64_mod
      → Tree m
      → MayHalt
          (λ _ n. Keeps m n × (pa + size < u64_mod) × On n pa (pa + size))
          (mmu_map pa size perm m)
  unfolding mmu_map
  mmu_map-Adds pa size m lp ls T = elim (Bool-cases (range_ok pa size)) [
    | inr e ↦ rw e halts
    | inl e ↦ rw e (elim (Bool-cases (pa % page_size == 0)) [
      | inr f ↦ rw f halts
      | inl f ↦ rw f (elim (Bool-cases (size % page_size == 0)) [
        | inr h ↦ rw h halts
        | inl h ↦
            let whole = eq_of_== _ _ h in
            let fits = (range_ok_iff pa size lp ls).0 e in
            rw h (
              MayHalt-mono
                (map_pages-Adds (size / page_size) 0 pa m (eq_of_== _ _ f) (omega arith)
                  (omega (arith, whole, fits)) T)
                (λ _ n q. (q.0, fits.1, λ y lo hi. q.1 y (omega arith) (omega (arith, whole)))))
      ])
    ])
  ]
