-- ===== src/Mmu.antt =====
-- silicon/aarch64/translate/mmu.c: the pool of stage-1 page tables, the map of a range and the walk
-- to a leaf. `table t l` is `nxu_pt[t][l]`; `pool` is the physical address of `nxu_pt`, which the
-- linker places at a page boundary. Where the source joins disjoint bit fields by `|`, the model
-- adds them.
pub mod Grow
pub mod Descend
pub mod Leaf
pub mod MapPage
pub mod MapRange
pub mod Path
pub mod Perm
pub mod Pool
pub mod Guarded
pub mod Laid
pub mod Adds
pub mod Tree
pub mod Walk
use Prim.Native.Nat.{bit_or}
use nxu.Base.{
  ℕ, zero, suc, ◌+◌, ◌-◌, ◌*◌, ◌/◌, ◌%◌, ◌^◌, Bool, not, Option, none, some, update, leb, ◌==◌,
  ◌!=◌, if◌then◌else◌, Cmd, ok, pure, ◌>>=◌, ◌>>◌, modify, gets, halt,
}
use nxu.Word.{page_size, add64}
use nxu.Range.{range_ok}
use nxu.Codes.{fail_pt, fail_wrap}

-- the state that mmu.c keeps in its static variables
pub record Mmu : Type 0 where
  pub table : ℕ → ℕ → ℕ
  pub used : ℕ
  pub ttbr0 : ℕ
  pub tcr_val : ℕ
  pub mair_val : ℕ
  pub pool : ℕ

-- `nxu_mmu_ttbr`
abbrev pub mmu_ttbr : Mmu → ℕ
mmu_ttbr m = m.ttbr0

-- `nxu_mmu_tcr`
abbrev pub mmu_tcr : Mmu → ℕ
mmu_tcr m = m.tcr_val

-- `nxu_mmu_mair`
abbrev pub mmu_mair : Mmu → ℕ
mmu_mair m = m.mair_val

-- `NXU_PT_PAGES`
abbrev pub pt_pages : ℕ
pt_pages = 64

abbrev pub map_rx : ℕ
map_rx = 1

abbrev pub map_r : ℕ
map_r = 2

abbrev pub map_rw : ℕ
map_rw = 3

abbrev pub map_dev : ℕ
map_dev = 4

abbrev pub map_user_rx : ℕ
map_user_rx = 5

abbrev pub map_user_rw : ℕ
map_user_rw = 6

abbrev pte_valid : ℕ
pte_valid = 1

abbrev pte_table : ℕ
pte_table = 2

abbrev pte_page : ℕ
pte_page = 2

abbrev pte_af : ℕ
pte_af = 2 ^ 10

abbrev pte_ish : ℕ
pte_ish = 3 * 2 ^ 8

abbrev pte_ap_rw : ℕ
pte_ap_rw = 0

abbrev pte_ap_ro : ℕ
pte_ap_ro = 2 * 2 ^ 6

abbrev pte_nx : ℕ
pte_nx = 2 ^ 54

abbrev pte_pxn : ℕ
pte_pxn = 2 ^ 53

abbrev pte_attr : ℕ → ℕ
pte_attr i = i * 2 ^ 2

-- `pt_pa`
abbrev pub pt_pa : Mmu → ℕ → ℕ
pt_pa m idx = m.pool + idx * page_size

-- `pt_alloc`
unfoldable pub pt_alloc : Cmd Mmu ℕ
pt_alloc m =
    if leb pt_pages m.used
    then halt fail_pt m.used 0 m
    else ok m.used (record m { used = m.used + 1 })

-- the loop of `pt_index` from index `i`, with `rounds` indices to try
unfoldable pub pt_find : ℕ → ℕ → Mmu → ℕ → Option ℕ
pt_find zero i m pa = none
pt_find (suc rounds) i m pa = if pt_pa m i == pa then some i else pt_find rounds (i + 1) m pa

-- `pt_index`
unfoldable pub pt_index : ℕ → Cmd Mmu ℕ
unfolding pt_find
pt_index pa m = elim (pt_find m.used 0 m pa) [ some i ↦ ok i m | none ↦ halt fail_pt pa 1 m ]

-- `leaf_attr`
unfoldable pub leaf_attr : ℕ → ℕ
leaf_attr perm =
    let a = bit_or (bit_or pte_valid pte_af) pte_ish in
    let b = bit_or a (pte_attr 1) in
    if perm == map_dev
    then bit_or a (bit_or (bit_or (bit_or (bit_or (pte_attr 0) pte_ap_rw) pte_nx) pte_pxn) pte_page)
    else if perm == map_rx
    then bit_or b (bit_or (bit_or pte_ap_ro pte_nx) pte_page)
    else if perm == map_user_rx
    then bit_or b (bit_or (bit_or (3 * 2 ^ 6) pte_pxn) pte_page)
    else if perm == map_user_rw
    then bit_or b (bit_or (bit_or (bit_or (1 * 2 ^ 6) pte_nx) pte_pxn) pte_page)
    else if perm == map_r
    then bit_or b (bit_or (bit_or (bit_or pte_ap_ro pte_nx) pte_pxn) pte_page)
    else bit_or b (bit_or (bit_or (bit_or pte_ap_rw pte_nx) pte_pxn) pte_page)

-- `w & 0x0000FFFFFFFFF000ULL`
abbrev pub frame_of : ℕ → ℕ
frame_of w = w % 2 ^ 48 - w % 2 ^ 12

abbrev pub is_valid : ℕ → Bool
is_valid e = e % 2 == 1

-- The index of an address into a table that is `k` levels above the leaf tables: `l3` at 0, `l2` at
-- 1, `l1` at 2 and `l0` at 3.
abbrev pub index_at : ℕ → ℕ → ℕ
index_at zero pa = pa / 2 ^ 12 % 512
index_at (suc zero) pa = pa / 2 ^ 21 % 512
index_at (suc (suc zero)) pa = pa / 2 ^ 30 % 512
index_at (suc (suc (suc k))) pa = pa / 2 ^ 39 % 512

abbrev pub set_entry : ℕ → ℕ → ℕ → Mmu → Mmu
set_entry t l e m = record m { table = update m.table t (update (m.table t) l e) }

-- One of the three steps of `map_page` down the tables: the table that entry `l` of table `t` names,
-- or a new one.
unfoldable pub next_table : ℕ → ℕ → Cmd Mmu ℕ
unfolding pt_alloc pt_index
next_table t l = do
  e ← gets (λ m. m.table t l)
  if is_valid e then pt_index (frame_of e) else do
    t' ← pt_alloc
    modify (λ m. set_entry t l (pt_pa m t' + (pte_valid + pte_table)) m)
    pure t'

-- `map_page`
unfoldable pub map_page : ℕ → ℕ → Cmd Mmu (Unit {0})
unfolding next_table leaf_attr
map_page pa perm = do
  t1 ← next_table 0 (index_at 3 pa)
  t2 ← next_table t1 (index_at 2 pa)
  t3 ← next_table t2 (index_at 1 pa)
  modify (set_entry t3 (index_at 0 pa) (frame_of pa + leaf_attr perm))

-- the loop of `nxu_mmu_map` from the offset `off`, with `rounds` pages to map
unfoldable pub map_pages : ℕ → ℕ → ℕ → ℕ → Cmd Mmu (Unit {0})
map_pages zero off pa perm = pure tt
map_pages (suc rounds) off pa perm =
    map_page (add64 pa off) perm >> map_pages rounds (off + page_size) pa perm

-- `nxu_mmu_map`; the loop runs while `off < size`, and `size` is a whole number of pages there.
unfoldable pub mmu_map : ℕ → ℕ → ℕ → Cmd Mmu (Unit {0})
unfolding map_pages
mmu_map pa size perm =
    if not (range_ok pa size)
    then halt fail_wrap pa size
    else if pa % page_size != 0
    then halt fail_pt pa 2
    else if size % page_size != 0
    then halt fail_pt size 3
    else map_pages (size / page_size) 0 pa perm

-- `nxu_mmu_leaf`
unfoldable pub mmu_leaf : ℕ → Cmd Mmu ℕ
unfolding pt_index
mmu_leaf pa m =
    if not (is_valid (m.table 0 (index_at 3 pa)))
    then ok 0 m
    else (pt_index (frame_of (m.table 0 (index_at 3 pa))) >>= λ t1 m.
          if not (is_valid (m.table t1 (index_at 2 pa)))
          then ok 0 m
          else (pt_index (frame_of (m.table t1 (index_at 2 pa))) >>= λ t2 m.
                if not (is_valid (m.table t2 (index_at 1 pa)))
                then ok 0 m
                else (pt_index (frame_of (m.table t2 (index_at 1 pa))) >>= λ t3 m.
                      ok (m.table t3 (index_at 0 pa)) m)
                    m)
              m)
        m

-- `nxu_mmu_init_pool`, at the exception level `el`
unfoldable pub mmu_init_pool : ℕ → Cmd Mmu (Unit {0})
unfolding pt_alloc
mmu_init_pool el = do
  modify (λ m. record m { used = 0 })
  pt_alloc
  modify (λ m. record m {
    ttbr0 = pt_pa m 0;
    mair_val = 0xFF00;
    tcr_val =
        if el == 2
        then 16 + 2 ^ 8 + 2 ^ 10 + 3 * 2 ^ 12 + 5 * 2 ^ 16
        else 16 + 2 ^ 8 + 2 ^ 10 + 3 * 2 ^ 12 + 5 * 2 ^ 32 + 2 ^ 23;
  })
