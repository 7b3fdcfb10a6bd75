-- ===== src/Mmu/MapRange.antt =====
-- `nxu_mmu_map` of silicon/aarch64/translate/mmu.c over a whole range of pages.
use native.Mathlib.Decide.{dec_lt}
use nxu.Base.{
  ℕ, zero, suc, ◌+◌, ◌*◌, ◌/◌, ◌%◌, ◌^◌, ◌≤◌, ◌<◌, ◌≡◌, ◌≢◌, refl, ap, ◌∙◌, sym, true, false, arith,
  Outcome, ok, halted, and_then, Failure, Cmd, subst,
}
use nxu.Codes.{fail_pt}
use nxu.Word.{page_size, add64}
use nxu.Range.{range_ok}
use nxu.Range.Membership.{Within, range_ok_iff}
use nxu.Mmu.{Mmu, pt_pages, is_valid, map_pages, mmu_map, leaf_attr, frame_of}
use nxu.Mmu.Tree.{Tree}
use nxu.Mmu.Walk.{view}
use nxu.Mmu.Leaf.{page_of}
use nxu.Mmu.MapPage.{Remaps, Mapped, mapped, full, leaf_of, map_page-Mapped}

-- Every address of the range has a valid leaf.
abbrev pub Present : Mmu → ℕ → ℕ → Type 0
Present m pa size = (x : ℕ) → Within pa size x → is_valid (view m x) ≡ true

-- The addresses of the range are mapped to themselves with `perm`, all others as they were.
pub record RemapsRange (m m' : Mmu) (pa size perm : ℕ) : Type 0 where
  pub within : (x : ℕ) → Within pa size x → view m' x ≡ leaf_of x perm
  pub outside : (x : ℕ) → x < 2 ^ 48 → ¬ Within pa size x → view m' x ≡ view m x
  pub pool : m'.pool ≡ m.pool

pub data RangeMapped {m : Mmu} (T : Tree m) (pa rounds perm : ℕ)
    : Outcome Mmu (Unit {0}) → Type 0 where
  range_mapped :
      {m' : Mmu} (T' : Tree m')
      → RemapsRange m m' pa (rounds * page_size) perm
      → m'.used ≤ m.used + 3 * rounds
      → (Present m pa (rounds * page_size) → m'.used ≡ m.used)
      → RangeMapped T pa rounds perm (ok tt m')
  range_full :
      {m' : Mmu} {f : Failure}
      → f.code ≡ fail_pt
      → ¬ Present m pa (rounds * page_size)
      → pt_pages < m.used + 3 * rounds
      → RangeMapped T pa rounds perm (halted f m')

pub leaf_of-page : (x a perm : ℕ) → page_of x ≡ page_of a → leaf_of x perm ≡ leaf_of a perm
leaf_of-page x a perm e = ap (λ f. f + leaf_attr perm) frames
  where
    frames : frame_of x ≡ frame_of a
    frames = omega arith

module _ (m m1 : Mmu) (a r : ℕ) (al : a % page_size ≡ 0)
    (fits : a + suc r * page_size ≤ 2 ^ 48) where
  later-Present :
      ((x : ℕ) → page_of x ≢ page_of a → view m1 x ≡ view m x)
      → Present m a (suc r * page_size)
      → Present m1 (a + page_size) (r * page_size)
  later-Present e p x w = rw (e x (λ z. omega (arith, z))) (p x (omega arith))

  join-Remaps :
      {m' : Mmu} (perm : ℕ)
      → Remaps m m1 a perm
      → RemapsRange m1 m' (a + page_size) (r * page_size) perm
      → RemapsRange m m' a (suc r * page_size) perm
  join-Remaps {m'} perm first rest = record {
    within = within';
    outside =
        λ x h n. rest.outside x h (λ w. n (omega arith)) ∙ first.elsewhere x (λ z. n (omega arith));
    pool = rest.pool ∙ first.pool;
  }
    where
      within' : (x : ℕ) → Within a (suc r * page_size) x → view m' x ≡ leaf_of x perm
      within' x w = elim (dec_lt x (a + page_size)) [
        | yes h ↦
            rest.outside x (omega arith) (λ v. omega arith)
            ∙ first.here x (omega arith)
            ∙ sym (leaf_of-page x a perm (omega arith))
        | no h ↦ rest.within x (omega arith)
      ]

-- the first page, and then the rest
module _ {m : Mmu} (T : Tree m) (a r perm : ℕ) (al : a % page_size ≡ 0)
    (fits : a + suc r * page_size ≤ 2 ^ 48) where
  first-Present : Present m a (suc r * page_size) → is_valid (view m a) ≡ true
  first-Present p = p a (omega arith)

  join :
      {m1 : Mmu} {T1 : Tree m1} {o : Outcome Mmu (Unit {0})}
      → Remaps m m1 a perm
      → m1.used ≤ m.used + 3
      → (is_valid (view m a) ≡ true → m1.used ≡ m.used)
      → RangeMapped T1 (a + page_size) r perm o
      → RangeMapped T a (suc r) perm o
  join first u k (range_mapped T' rest u' k') =
      range_mapped T' (join-Remaps m _ a r al fits perm first rest) (omega arith)
        (λ p. k' (later-Present m _ a r al fits first.elsewhere p) ∙ k (first-Present p))
  join first u k (range_full c np u') =
      range_full c (λ p. np (later-Present m _ a r al fits first.elsewhere p)) (omega arith)

  range_cons :
      {o : Outcome Mmu (Unit {0})} {rest : Cmd Mmu (Unit {0})}
      → Mapped T a perm o
      → ((m1 : Mmu) (T1 : Tree m1) → RangeMapped T1 (a + page_size) r perm (rest m1))
      → RangeMapped T a (suc r) perm (and_then o (λ _. rest))
  range_cons (mapped T1 first u k) next = join first u k (next _ T1)
  range_cons (full T1 same c inv few) next =
      range_full c (λ p. clash (first-Present p) inv) (omega arith)
    where
      clash : is_valid (view m a) ≡ true → is_valid (view m a) ≡ false → ⊥
      clash u v = cc

map_pages-RangeMapped :
    (rounds off pa perm : ℕ) {m : Mmu} (T : Tree m)
    → (pa + off) % page_size ≡ 0
    → pa + off + rounds * page_size ≤ 2 ^ 48
    → RangeMapped T (pa + off) rounds perm (map_pages rounds off pa perm m)
unfolding map_pages
map_pages-RangeMapped zero off pa perm T al fits =
    range_mapped T
      (record { within = λ x w. absurd (omega arith); outside = λ x h n. refl; pool = refl })
      (omega arith) (λ _. refl)
map_pages-RangeMapped (suc r) off pa perm {m} T al fits =
    let at : add64 pa off ≡ pa + off = omega arith in
    let shift : pa + (off + page_size) ≡ pa + off + page_size = omega arith in
    rw at (
      range_cons T (pa + off) r perm al fits (map_page-Mapped T (pa + off) perm) λ m1 T1.
        subst (λ s. RangeMapped T1 s r perm (map_pages r (off + page_size) pa perm m1)) shift
          (map_pages-RangeMapped r (off + page_size) pa perm T1 (omega arith) (omega arith)))

start : (pa : ℕ) → pa + 0 ≡ pa
start pa = omega arith

-- On a range of whole pages below 2 ^ 48, `nxu_mmu_map` maps every address of the range to itself with
-- `perm` and leaves all other addresses as they were, taking at most three tables a page from the pool
-- and none if the range was mapped before. It can halt only with NXU_FAIL_PT, and not if the range is
-- mapped or the pool has three tables for each page.
pub mmu_map-RangeMapped :
    {m : Mmu} (T : Tree m) (pa rounds perm : ℕ)
    → pa % page_size ≡ 0
    → 0 < rounds
    → pa + rounds * page_size ≤ 2 ^ 48
    → RangeMapped T pa rounds perm (mmu_map pa (rounds * page_size) perm m)
unfolding mmu_map
mmu_map-RangeMapped {m} T pa rounds perm al pos fits =
    let fine : range_ok pa (rounds * page_size) ≡ true =
      (range_ok_iff pa (rounds * page_size) (omega arith) (omega arith)).1 (omega arith) in
    let whole : rounds * page_size % page_size ≡ 0 = omega arith in
    let count : rounds * page_size / page_size ≡ rounds = omega arith in
    rw (fine, al, whole, count)
      (subst (λ s. RangeMapped T s rounds perm (map_pages rounds 0 pa perm m)) (start pa)
        (map_pages-RangeMapped rounds 0 pa perm T (omega arith) (omega arith)))
