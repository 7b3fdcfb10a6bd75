-- ===== src/Space/Plan.antt =====
-- The plan of `nxu_s6_mmu` (foundation/space/mmu_policy.c): which page has which mode.
use nxu.Base.{ℕ, ◌+◌, ◌≤◌, ◌<◌, ◌≡◌, ltb, leb, if◌then◌else◌, arith}
use nxu.Codes
use nxu.Word.{u64_mod, page_size, page_up, page_down, add64, sub64}
use nxu.Mmu.{map_rx, map_r, map_rw, map_dev}
use nxu.Mmu.Leaf.{page_of}
use nxu.World.{Image, OwnerRegion}

-- the ends of the text, of the read-only data and of the image, as whole pages
abbrev pub text_end_of : Image → ℕ
text_end_of i =
    if leb (page_up i.text_end) i.base then add64 i.base page_size else page_up i.text_end

abbrev pub ro_end_of : Image → ℕ
ro_end_of i =
    if ltb (page_up i.rodata_end) (text_end_of i) then text_end_of i else page_up i.rodata_end

abbrev pub img_end_of : Image → ℕ
img_end_of i = page_up (add64 i.base i.size)

-- the size of a region, in whole pages from the page of its start
abbrev pub region_size : OwnerRegion → ℕ
region_size r = page_up (add64 r.range.size (sub64 r.range.base (page_down r.range.base)))

-- The page `p` has the mode `perm` by the plan: it is a page of the image's text, of its read-only data
-- or of its other data, or a page of one of the first `n` regions that is MMIO.
pub data InPlan (i : Image) (n : ℕ) (region : ℕ → OwnerRegion) (p perm : ℕ) : Type 0 where
  text :
      perm ≡ map_rx
      → (y : ℕ) → i.base ≤ y
      → y < text_end_of i
      → page_of y ≡ p
      → InPlan i n region p perm
  rodata :
      perm ≡ map_r
      → (y : ℕ) → text_end_of i ≤ y
      → y < ro_end_of i
      → page_of y ≡ p
      → InPlan i n region p perm
  other :
      perm ≡ map_rw
      → (y : ℕ) → ro_end_of i ≤ y
      → y < img_end_of i
      → page_of y ≡ p
      → InPlan i n region p perm
  mmio :
      perm ≡ map_dev
      → (k : ℕ) → k < n
      → (region k).owner ≡ Codes.owner_mmio
      → (y : ℕ) → page_down (region k).range.base ≤ y
      → y < page_down (region k).range.base + region_size (region k)
      → page_of y ≡ p
      → InPlan i n region p perm

pub page_up-lt : (n : ℕ) → page_up n < u64_mod
unfolding page_up
page_up-lt n = omega arith

pub page_down-le : (n : ℕ) → page_down n ≤ n
unfolding page_down
page_down-le n = omega arith

pub sub64-lt : (a b : ℕ) → sub64 a b < u64_mod
sub64-lt a b = omega arith

-- a difference that does not wrap
pub sub64-end :
    (a b y : ℕ) → a < u64_mod → b < u64_mod → b + sub64 a b < u64_mod → y < b + sub64 a b → y < a
sub64-end a b y ha hb fits h = omega arith
