-- ===== src/Space/Covered.antt =====
-- `nxu_s6_mmu` of foundation/space/mmu_policy.c: nothing that it is to map is left out.
use nxu.Base.{
  ℕ, ◌+◌, ◌<◌, ◌≡◌, refl, Bool, true, false, ltb, ◌==◌, ◌!=◌, ◌∙◌, eq_of_==, ne_of_==,
  if◌then◌else◌, Bool-cases, inl, inr, Outcome, ok, halted, Cmd, MayHalt, goes_on, halts,
  MayHalt-and_then, MayHalt-mono, MayHalt-when, MayHalt-for_range, Returns, returns, for_range,
  when, subst, sym, arith,
}
use nxu.Codes
use nxu.Word.{u64_mod, page_size, page_down, sub64}
use nxu.Mmu.{Mmu, is_valid, mmu_init_pool, mmu_map, map_rx, map_r, map_rw, map_dev}
use nxu.Mmu.Tree.{Tree}
use nxu.Mmu.Walk.{view}
use nxu.Mmu.Pool.{Fresh, mmu_init_pool-Tree}
use nxu.Mmu.Adds.{On, On-kept, Keeps, Keeps-trans, mmu_map-Adds}
use nxu.Silicon.{current_el}
use nxu.World.{World, OwnerRegion, ask, tell, put, log, log3, fail_with, in_mmu}
use nxu.World.Halting.{after_guard}
use nxu.Space.{note_mmu, mmu_enable, map_region, map_image, space_owner, s6_mmu}
use nxu.Space.Plan.{
  text_end_of, ro_end_of, img_end_of, region_size, page_up-lt, page_down-le, sub64-lt,
}
use nxu.Space.Guarded.{text_end-lt, ro_end-lt}

-- `v` has the image and the regions of `u`, and maps what `u` maps.
record Grown (u v : World) : Type 0 where
  keeps : Keeps u.mmu v.mmu
  image : v.image ≡ u.image
  count : v.space.count ≡ u.space.count
  region : v.space.region ≡ u.space.region

Grown-refl : (u : World) → Tree u.mmu → Grown u u
Grown-refl u T = record {
  keeps = record { tree = T; kept = λ x v. v };
  image = refl;
  count = refl;
  region = refl;
}

Grown-trans : {u v w : World} → Grown u v → Grown v w → Grown u w
Grown-trans p q = record {
  keeps = Keeps-trans p.keeps q.keeps;
  image = q.image ∙ p.image;
  count = q.count ∙ p.count;
  region = q.region ∙ p.region;
}

-- a map that returns
map-Grown :
    (pa size perm : ℕ) (u : World)
    → pa < u64_mod
    → size < u64_mod
    → Tree u.mmu
    → MayHalt
        (λ _ v. Grown u v × (pa + size < u64_mod) × On v.mmu pa (pa + size))
        (in_mmu (mmu_map pa size perm) u)
unfolding in_mmu fail_with
map-Grown pa size perm u lp ls T =
    ends (mmu_map pa size perm u.mmu) (mmu_map-Adds perm pa size u.mmu lp ls T)
  where
    ends :
        (r : Outcome Mmu (Unit {0}))
        → MayHalt (λ _ m. Keeps u.mmu m × (pa + size < u64_mod) × On m pa (pa + size)) r
        → MayHalt
            (λ _ v. Grown u v × (pa + size < u64_mod) × On v.mmu pa (pa + size))
            (elim r as (λ _. Outcome World (Unit {0})) [
              | ok a m ↦ ok a (record u { mmu = m })
              | halted f m ↦ fail_with f (record u { mmu = m })
            ])
    ends (ok a m) (goes_on (k, fits, on)) =
        goes_on (record { keeps = k; image = refl; count = refl; region = refl }, fits, on)
    ends (halted f m) l = halts

-- a map from `a` up to `b`, where the source has it
upto-Grown :
    (a b perm : ℕ) (u : World)
    → a < u64_mod
    → b < u64_mod
    → Tree u.mmu
    → MayHalt (λ _ v. Grown u v × On v.mmu a b) (in_mmu (mmu_map a (sub64 b a) perm) u)
upto-Grown a b perm u la lb T =
    MayHalt-mono (map-Grown a (sub64 b a) perm u la (sub64-lt b a) T) (λ _ v p. (
      p.0,
      λ y lo hi.
          p.2 y lo (subst (λ e. y < e) {x = b} {y = a + sub64 b a} (omega (arith, la, lb, p.1)) hi),
    ))

guarded-Grown :
    (a b perm : ℕ) (u : World)
    → a < u64_mod
    → b < u64_mod
    → Tree u.mmu
    → MayHalt
        (λ _ v. Grown u v × On v.mmu a b)
        (when (ltb a b) (in_mmu (mmu_map a (sub64 b a) perm)) u)
guarded-Grown a b perm u la lb T = elim (Bool-cases (ltb a b)) [
  | inl e ↦ rw e (upto-Grown a b perm u la lb T)
  | inr e ↦ rw e (goes_on (Grown-refl u T, λ y lo hi. absurd (ground arith)))
]

map_image-Grown :
    (u : World)
    → u.image.base < u64_mod
    → Tree u.mmu
    → MayHalt (λ _ v. Grown u v × On v.mmu u.image.base (img_end_of u.image)) (map_image u)
unfolding map_image
map_image-Grown u low T =
    let i = u.image in
    let t = text_end_of i in
    let r = ro_end_of i in
    let e = img_end_of i in
    MayHalt-and_then (upto-Grown i.base t map_rx u low (text_end-lt i) T) (λ _ v p.
      MayHalt-and_then (guarded-Grown t r map_r v (text_end-lt i) (ro_end-lt i) p.0.keeps.tree)
        (λ _ x q.
          MayHalt-mono (guarded-Grown r e map_rw x (ro_end-lt i) (page_up-lt _) q.0.keeps.tree)
            (λ _ z s. (
              Grown-trans p.0 (Grown-trans q.0 s.0),
              λ y lo hi. elim (Bool-cases (ltb y t)) [
                | inl a ↦ s.0.keeps.kept y (q.0.keeps.kept y (p.1 y lo (ground arith)))
                | inr a ↦ elim (Bool-cases (ltb y r)) [
                  | inl b ↦ s.0.keeps.kept y (q.1 y (ground arith) (ground arith))
                  | inr b ↦ s.1 y (ground arith) hi
                ]
              ],
            ))))

-- the pages of the region `r` are mapped, if it is MMIO
abbrev pub DeviceOn : Mmu → OwnerRegion → Type 0
DeviceOn m r =
    r.owner ≡ Codes.owner_mmio
    → On m (page_down r.range.base) (page_down r.range.base + region_size r)

map_region-Grown :
    (r : OwnerRegion) (u : World)
    → r.range.base < u64_mod
    → Tree u.mmu
    → MayHalt (λ _ v. Grown u v × DeviceOn v.mmu r) (map_region r u)
unfolding map_region
map_region-Grown r u low T = elim (Bool-cases (r.owner == Codes.owner_mmio)) [
  | inl e ↦ rw e (
      MayHalt-mono
        (map-Grown (page_down r.range.base) (region_size r) map_dev u
          (omega (arith, page_down-le r.range.base)) (page_up-lt _) T)
        (λ _ v p. (p.0, λ _. p.2)))
  | inr e ↦ rw e (goes_on (Grown-refl u T, λ o. absurd (ne_of_== _ _ e o)))
]

-- the loop over the regions
regions-Grown :
    (n : ℕ) (region : ℕ → OwnerRegion) (u : World)
    → ((k : ℕ) → k < n → (region k).range.base < u64_mod)
    → Tree u.mmu
    → MayHalt
        (λ _ v. Grown u v × ((k : ℕ) → k < n → DeviceOn v.mmu (region k)))
        (for_range n 0 (λ i. map_region (region i)) u)
regions-Grown n region u lows T =
    MayHalt-mono
      (MayHalt-for_range (λ j v. Grown u v × ((k : ℕ) → k < j → DeviceOn v.mmu (region k))) n 0
        (λ i. map_region (region i)) u
        (λ j t _ lt p.
          MayHalt-mono (map_region-Grown (region j) t (lows j (omega (arith, lt))) p.0.keeps.tree)
            (λ _ v q. (
              Grown-trans p.0 q.0,
              λ k le o. elim (Bool-cases (k == j)) [
                | inl e ↦
                    subst
                      (λ i.
                        On v.mmu (page_down (region i).range.base)
                          (page_down (region i).range.base + region_size (region i)))
                      (sym (eq_of_== _ _ e))
                      (q.1 (subst (λ i. (region i).owner ≡ Codes.owner_mmio) (eq_of_== _ _ e) o))
                | inr e ↦ On-kept q.0.keeps (p.1 k (omega (arith, le, ne_of_== _ _ e)) o)
              ],
            )))
        (Grown-refl u T, λ k lt. absurd (omega arith)))
      (λ _ v p. (p.0, λ k lt. p.1 k (omega (arith, lt))))

-- All of the image and of the MMIO regions of `w` is mapped.
pub record Covers (w : World) (m : Mmu) : Type 0 where
  pub image : On m w.image.base (img_end_of w.image)
  pub devices : (k : ℕ) → k < w.space.count → DeviceOn m (w.space.region k)

-- what comes after the maps leaves the tables alone
note_mmu-keeps : (el : ℕ) (u : World) → MayHalt (λ _ v. v.mmu ≡ u.mmu) (note_mmu el u)
unfolding note_mmu put log log3
note_mmu-keeps el u =
    MayHalt-and_then {P = λ _ v. v.mmu ≡ u.mmu}
      (MayHalt-when u.facts.uart_valid _ _ refl (λ _. goes_on refl))
      (λ _ v p.
        MayHalt-and_then {P = λ _ v. v.mmu ≡ u.mmu}
          (either u.facts.dtb_valid _ _ _ (goes_on p) (goes_on p)) (λ _ x q. goes_on q))
  where
    either :
        (b : Bool) (m n : Cmd World (Unit {0})) (v : World)
        → MayHalt (λ _ z. z.mmu ≡ u.mmu) (m v)
        → MayHalt (λ _ z. z.mmu ≡ u.mmu) (n v)
        → MayHalt (λ _ z. z.mmu ≡ u.mmu) ((if b then m else n) v)
    either true m n v p q = p
    either false m n v p q = q

mmu_enable-keeps : (el : ℕ) (u : World) → MayHalt (λ _ v. v.mmu ≡ u.mmu) (mmu_enable el u)
unfolding mmu_enable ask tell
mmu_enable-keeps el u = after_guard (el != Codes.el1) Codes.fail_bad_el el 3 _ u (λ _. goes_on refl)

-- `u` has the image and the regions of `w`, and its tables form a tree.
record Ready (w u : World) : Type 0 where
  tree : Tree u.mmu
  image : u.image ≡ w.image
  count : u.space.count ≡ w.space.count
  region : u.space.region ≡ w.space.region

-- what `nxu_current_el` leaves alone
abbrev Untouched : World → World → Type 0
Untouched w u =
    (u.mmu ≡ w.mmu)
    × (u.image ≡ w.image)
    × (u.space.count ≡ w.space.count)
    × (u.space.region ≡ w.space.region)

current_el-keeps : (w : World) → MayHalt (λ _. Untouched w) (current_el w)
unfolding current_el ask
current_el-keeps w = goes_on (refl, refl, refl, refl)

-- the first tables
first-Ready :
    {w : World} (el : ℕ) (u : World)
    → Fresh w.mmu
    → Untouched w u
    → MayHalt (λ _. Ready w) (in_mmu (mmu_init_pool el) u)
unfolding in_mmu fail_with
first-Ready {w} el u f (m, i, c, r) = ends _ (mmu_init_pool-Tree u.mmu el (subst Fresh (sym m) f))
  where
    ends :
        (o : Outcome Mmu (Unit {0}))
        → Returns (λ _ n. Tree n × ((x : ℕ) → is_valid (view n x) ≡ false)) o
        → MayHalt
            (λ _. Ready w)
            (elim o as (λ _. Outcome World (Unit {0})) [
              | ok a n ↦ ok a (record u { mmu = n })
              | halted g n ↦ fail_with g (record u { mmu = n })
            ])
    ends _ (returns (T, none)) = goes_on (record { tree = T; image = i; count = c; region = r })

-- what the maps of the image and of the regions give together
joined-Covers :
    {w u x v : World}
    → Ready w u
    → Grown u x × On x.mmu u.image.base (img_end_of u.image)
    → Grown x v × ((k : ℕ) → k < x.space.count → DeviceOn v.mmu (x.space.region k))
    → Covers w v.mmu
joined-Covers {w} {u} {x} {v} g p q = record {
  image = subst (λ i. On v.mmu i.base (img_end_of i)) g.image (On-kept q.0.keeps p.1);
  devices = λ k lt.
      subst (λ f. DeviceOn v.mmu (f k)) (p.0.region ∙ g.region)
        (q.1 k (subst (λ n. k < n) (sym (p.0.count ∙ g.count)) lt));
}

-- When the pool is clear, the image and the regions start at 64-bit words, and S6 comes to its end:
-- every address of the image, up to the end of its last page, and every address of a page of an MMIO
-- region is mapped.
pub s6_mmu-Covers :
    (w : World)
    → Fresh w.mmu
    → w.image.base < u64_mod
    → ((k : ℕ) → k < w.space.count → (w.space.region k).range.base < u64_mod)
    → MayHalt (λ _ v. Covers w v.mmu) (s6_mmu w)
unfolding s6_mmu
s6_mmu-Covers w f low lows = MayHalt-and_then (current_el-keeps w) (λ now t same.
    MayHalt-and_then (first-Ready now t f same) (λ _ u g.
      MayHalt-and_then (map_image-Grown u (subst (λ i. i.base < u64_mod) (sym g.image) low) g.tree)
        (λ _ x p.
          MayHalt-and_then
            (regions-Grown x.space.count x.space.region x
              (λ k lt.
                subst (λ r. (r k).range.base < u64_mod) (sym (p.0.region ∙ g.region))
                  (lows k (subst (λ n. k < n) (p.0.count ∙ g.count) lt)))
              p.0.keeps.tree)
            (λ _ v q.
              after_guard (space_owner v.space v.image.base page_size != Codes.owner_image)
                Codes.fail_invariant 5 0 _ v
                (λ _. MayHalt-and_then (mmu_enable-keeps _ v) (λ _ y e.
                  MayHalt-mono (note_mmu-keeps _ y)
                    (λ _ z d. subst (Covers w) (sym (d ∙ e)) (joined-Covers g p q))))))))
