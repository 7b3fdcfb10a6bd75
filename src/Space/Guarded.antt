-- ===== src/Space/Guarded.antt =====
-- `nxu_s6_mmu` of foundation/space/mmu_policy.c: the tables with which it turns translation on follow
-- its plan.
use nxu.Base.{
  ℕ, ◌+◌, ◌≤◌, ◌<◌, ◌≡◌, refl, Bool, true, false, ltb, leb, ◌==◌, ◌!=◌, eq_of_==, if◌then◌else◌,
  Bool-cases, inl, inr, Outcome, ok, halted, Cmd, MayHalt, goes_on, halts, MayHalt-and_then,
  MayHalt-mono, MayHalt-when, MayHalt-for_range, for_range, when, subst, sym, arith,
}
use nxu.Codes
use nxu.Word.{u64_mod, page_size, page_up, page_down, sub64}
use nxu.Mmu.{Mmu, mmu_init_pool, mmu_map, map_rx, map_r, map_rw, map_dev}
use nxu.Mmu.Leaf.{page_of}
use nxu.Mmu.Pool.{Fresh}
use nxu.Mmu.Perm.{intended}
use nxu.Mmu.Laid.{Laid, mmu_map-Laid, mmu_init_pool-Laid}
use nxu.Mmu.Guarded.{KernelOnly, Guarded, Laid-Guarded}
use nxu.Silicon.{current_el}
use nxu.World.{World, Image, OwnerRegion, ask, tell, put, log, log3, fail_with, in_mmu}
use nxu.World.Halting.{after_guard}
use nxu.Space.{note_mmu, mmu_enable, map_region, map_image, space_owner, s6_mmu}
use nxu.Space.Plan.{
  InPlan, text, rodata, other, mmio, text_end_of, ro_end_of, img_end_of, region_size, page_up-lt,
  page_down-le, sub64-lt, sub64-end,
}

pub text_end-lt : (i : Image) → text_end_of i < u64_mod
text_end-lt i = elim (Bool-cases (leb (page_up i.text_end) i.base)) [
  | inl e ↦ rw e (omega arith)
  | inr e ↦ rw e (page_up-lt i.text_end)
]

pub ro_end-lt : (i : Image) → ro_end_of i < u64_mod
ro_end-lt i = elim (Bool-cases (ltb (page_up i.rodata_end) (text_end_of i))) [
  | inl e ↦ rw e (text_end-lt i)
  | inr e ↦ rw e (page_up-lt i.rodata_end)
]

-- `u` has the image and the regions of `w`, and its tables follow the plan that these give
record Follows (w u : World) : Type 0 where
  laid : Laid (InPlan w.image w.space.count w.space.region) u.mmu
  image : u.image ≡ w.image
  count : u.space.count ≡ w.space.count
  region : u.space.region ≡ w.space.region

module _ (w : World) where
  abbrev Plan : ℕ → ℕ → Type 0
  Plan = InPlan w.image w.space.count w.space.region

  -- a command of mmu.c in the kernel
  in_mmu-Follows :
      (c : Cmd Mmu (Unit {0})) (u : World)
      → Follows w u
      → MayHalt (λ _. Laid Plan) (c u.mmu)
      → MayHalt (λ _. Follows w) (in_mmu c u)
  unfolding in_mmu fail_with
  in_mmu-Follows c u g h = ends (c u.mmu) h
    where
      ends :
          (r : Outcome Mmu (Unit {0}))
          → MayHalt (λ _. Laid Plan) r
          → MayHalt
              (λ _. Follows w)
              (elim r as (λ _. Outcome World (Unit {0})) [
                | ok a m ↦ ok a (record u { mmu = m })
                | halted f m ↦ fail_with f (record u { mmu = m })
              ])
      ends (ok a m) (goes_on l) =
          goes_on (record { laid = l; image = g.image; count = g.count; region = g.region })
      ends (halted f m) l = halts

  map_if-Follows :
      (b : Bool) (pa size perm : ℕ) (u : World)
      → pa < u64_mod
      → size < u64_mod
      → (b ≡ true → pa + size < u64_mod → (y : ℕ) → pa ≤ y → y < pa + size → Plan (page_of y) perm)
      → Follows w u
      → MayHalt (λ _. Follows w) (when b (in_mmu (mmu_map pa size perm)) u)
  map_if-Follows b pa size perm u lp ls plan g =
      MayHalt-when b (in_mmu (mmu_map pa size perm)) u g (λ e.
        in_mmu-Follows (mmu_map pa size perm) u g
          (mmu_map-Laid Plan perm pa size u.mmu lp ls (plan e) g.laid))

  map_region-Follows :
      (k : ℕ) (u : World)
      → (w.space.region k).range.base < u64_mod
      → k < w.space.count
      → Follows w u
      → MayHalt (λ _. Follows w) (map_region (w.space.region k) u)
  unfolding map_region
  map_region-Follows k u low lt g =
      let r = w.space.region k in
      map_if-Follows (r.owner == Codes.owner_mmio) (page_down r.range.base) (region_size r) map_dev
        u (omega (arith, page_down-le r.range.base)) (page_up-lt _)
        (λ e _ y lo hi. mmio refl k lt (eq_of_== _ _ e) y lo hi refl) g

  map_image-Follows :
      (u : World) → w.image.base < u64_mod → Follows w u → MayHalt (λ _. Follows w) (map_image u)
  unfolding map_image
  map_image-Follows u low g =
      let i = u.image in
      let t = text_end_of i in
      let r = ro_end_of i in
      let e = img_end_of i in
      let low_i : i.base < u64_mod = subst (λ x. x.base < u64_mod) (sym g.image) low in
      let plan : (p perm : ℕ) → InPlan i w.space.count w.space.region p perm → Plan p perm =
        λ p perm q. subst (λ x. InPlan x w.space.count w.space.region p perm) g.image q in
      MayHalt-and_then
        (in_mmu-Follows (mmu_map i.base (sub64 t i.base) map_rx) u g (
          mmu_map-Laid Plan map_rx i.base (sub64 t i.base) u.mmu low_i (sub64-lt t i.base)
            (λ fits y lo hi.
              plan _ _ (text refl y lo (sub64-end t i.base y (text_end-lt i) low_i fits hi) refl))
            g.laid))
        (λ _ v p.
          MayHalt-and_then
            (map_if-Follows (ltb t r) t (sub64 r t) map_r v (text_end-lt i) (sub64-lt r t)
              (λ _ fits y lo hi.
                plan _ _
                  (rodata refl y lo (sub64-end r t y (ro_end-lt i) (text_end-lt i) fits hi) refl))
              p)
            (λ _ x q.
              map_if-Follows (ltb r e) r (sub64 e r) map_rw x (ro_end-lt i) (sub64-lt e r)
                (λ _ fits y lo hi.
                  plan _ _
                    (other refl y lo (sub64-end e r y (page_up-lt _) (ro_end-lt i) fits hi) refl))
                q))

  note_mmu-Follows : (el : ℕ) (u : World) → Follows w u → MayHalt (λ _. Follows w) (note_mmu el u)
  unfolding note_mmu put log log3
  note_mmu-Follows el u g =
      MayHalt-and_then {P = λ _. Follows w}
        (MayHalt-when u.facts.uart_valid _ _
          (record { laid = g.laid; image = g.image; count = g.count; region = g.region })
          (λ _.
            goes_on
              (record { laid = g.laid; image = g.image; count = g.count; region = g.region })))
        (λ _ v p.
          MayHalt-and_then {P = λ _. Follows w}
            (either u.facts.dtb_valid _ _ _
              (goes_on
                (record { laid = p.laid; image = p.image; count = p.count; region = p.region }))
              (goes_on
                (record { laid = p.laid; image = p.image; count = p.count; region = p.region })))
            (λ _ x q.
              goes_on
                (record { laid = q.laid; image = q.image; count = q.count; region = q.region })))
    where
      either :
          (b : Bool) (m n : Cmd World (Unit {0})) (u : World)
          → MayHalt (λ _. Follows w) (m u)
          → MayHalt (λ _. Follows w) (n u)
          → MayHalt (λ _. Follows w) ((if b then m else n) u)
      either true m n u p q = p
      either false m n u p q = q

  mmu_enable-Follows :
      (el : ℕ) (u : World) → Follows w u → MayHalt (λ _. Follows w) (mmu_enable el u)
  unfolding mmu_enable ask tell
  mmu_enable-Follows el u g =
      after_guard (el != Codes.el1) Codes.fail_bad_el el 3 _ u (λ _.
        goes_on (record { laid = g.laid; image = g.image; count = g.count; region = g.region }))

  -- what `nxu_current_el` leaves alone
  abbrev Untouched : World → Type 0
  Untouched u =
      (u.mmu ≡ w.mmu)
      × (u.image ≡ w.image)
      × (u.space.count ≡ w.space.count)
      × (u.space.region ≡ w.space.region)

  current_el-keeps : MayHalt (λ _. Untouched) (current_el w)
  unfolding current_el ask
  current_el-keeps = goes_on (refl, refl, refl, refl)

  -- the first tables
  first-Follows :
      (el : ℕ) (u : World)
      → Fresh w.mmu
      → Untouched u
      → MayHalt (λ _. Follows w) (in_mmu (mmu_init_pool el) u)
  unfolding in_mmu fail_with
  first-Follows el u f (m, i, c, r) =
      ends (mmu_init_pool el u.mmu) (mmu_init_pool-Laid Plan u.mmu el (subst Fresh (sym m) f))
    where
      ends :
          (o : Outcome Mmu (Unit {0}))
          → MayHalt (λ _. Laid Plan) o
          → MayHalt
              (λ _. Follows w)
              (elim o as (λ _. Outcome World (Unit {0})) [
                | ok a n ↦ ok a (record u { mmu = n })
                | halted g n ↦ fail_with g (record u { mmu = n })
              ])
      ends (ok a n) (goes_on l) = goes_on (record { laid = l; image = i; count = c; region = r })
      ends (halted g n) l = halts

-- the regions are mapped
regions-Follows :
    (w v : World)
    → ((k : ℕ) → k < w.space.count → (w.space.region k).range.base < u64_mod)
    → Follows w v
    → MayHalt (λ _. Follows w) (for_range v.space.count 0 (λ i. map_region (v.space.region i)) v)
regions-Follows w v lows g =
    MayHalt-for_range (λ _. Follows w) v.space.count 0 (λ i. map_region (v.space.region i)) v
      (λ k t _ lt p.
        let lt' : k < w.space.count = omega (arith, g.count) in
        subst (λ r. MayHalt (λ _. Follows w) (map_region (r k) t)) (sym g.region)
          (map_region-Follows w k t (lows k lt') lt' p))
      g

s6_mmu-Follows :
    (w : World)
    → Fresh w.mmu
    → w.image.base < u64_mod
    → ((k : ℕ) → k < w.space.count → (w.space.region k).range.base < u64_mod)
    → MayHalt (λ _. Follows w) (s6_mmu w)
unfolding s6_mmu
s6_mmu-Follows w f low lows = MayHalt-and_then (current_el-keeps w) (λ now u same.
    MayHalt-and_then (first-Follows w now u f same) (λ _ x g.
      MayHalt-and_then (map_image-Follows w x low g) (λ _ v p.
        MayHalt-and_then (regions-Follows w v lows p) (λ _ v p.
          after_guard (space_owner v.space v.image.base page_size != Codes.owner_image)
            Codes.fail_invariant 5 0 _ v
            (λ _.
              MayHalt-and_then (mmu_enable-Follows w _ v p) (λ _ x q. note_mmu-Follows w _ x q))))))

-- the plan has the modes of the kernel alone
InPlan-kernel :
    (i : Image) (n : ℕ) (region : ℕ → OwnerRegion) (p perm : ℕ)
    → InPlan i n region p perm
    → KernelOnly (intended perm)
InPlan-kernel i n region p perm (text e y lo hi s) = rw e (refl, refl, refl, refl)
InPlan-kernel i n region p perm (rodata e y lo hi s) = rw e (refl, refl, refl, refl)
InPlan-kernel i n region p perm (other e y lo hi s) = rw e (refl, refl, refl, refl)
InPlan-kernel i n region p perm (mmio e k lt o y lo hi s) = rw e (refl, refl, refl, refl)

-- When the pool is clear, the image and the regions start at 64-bit words, and S6 comes to its end: the
-- tables form a tree, every address that is mapped is mapped to itself by the plan (the image's text to
-- be executed, its read-only data to be read, its other data to be written, and each MMIO region as a
-- device), no address is both writable and executable for EL1, and EL0 may read, write and execute
-- none.
pub s6_mmu-Planned :
    (w : World)
    → Fresh w.mmu
    → w.image.base < u64_mod
    → ((k : ℕ) → k < w.space.count → (w.space.region k).range.base < u64_mod)
    → MayHalt
        (λ _ v. Laid (InPlan w.image w.space.count w.space.region) v.mmu × Guarded v.mmu)
        (s6_mmu w)
s6_mmu-Planned w f low lows = MayHalt-mono (s6_mmu-Follows w f low lows) (λ _ v g. (
  g.laid,
  Laid-Guarded (Plan w) v.mmu (InPlan-kernel w.image w.space.count w.space.region) g.laid,
))
