-- ===== src/Mmu/Tree.antt =====
-- The invariant of the page tables of silicon/aarch64/translate/mmu.c: the tables in use form a tree
-- of four levels in which a table is named by one entry, and the unused tables are clear.
use nxu.Base.{
  ℕ, zero, suc, ◌+◌, ◌-◌, ◌*◌, ◌/◌, ◌%◌, ◌^◌, ◌≤◌, ◌<◌, ◌≡◌, ◌≢◌, ap, inl, inr, true, some, arith,
  ◌==◌, ok, Bool-cases,
}
use nxu.Word.{page_size}
use nxu.Mmu.{Mmu, pt_pages, pt_pa, pt_find, pt_index, frame_of, is_valid}

-- the table that a valid table entry names
unfoldable pub kid_of : ℕ → ℕ → ℕ
kid_of pool e = (frame_of e - pool) / page_size

abbrev pub kid : Mmu → ℕ → ℕ → ℕ
kid m t l = kid_of m.pool (m.table t l)

-- the part of an address that is fixed below a table `k` levels above the leaf tables
abbrev pub cover : ℕ → ℕ → ℕ
cover zero pa = pa % 2 ^ 48 / 2 ^ 21
cover (suc zero) pa = pa % 2 ^ 48 / 2 ^ 30
cover (suc (suc zero)) pa = pa % 2 ^ 48 / 2 ^ 39
cover (suc (suc (suc k))) pa = 0

-- what a table entry holds when its table is at height `suc k`
pub record Child (m : Mmu) (height prefix : ℕ → ℕ) (t l : ℕ) : Type 0 where
  pub entry : m.table t l ≡ pt_pa m (kid m t l) + 3
  pub kid_used : kid m t l < m.used
  pub kid_height : suc (height (kid m t l)) ≡ height t
  pub kid_prefix : prefix (kid m t l) ≡ prefix t * 512 + l

-- A table other than the root stands below an entry that names it.
pub record Named (m : Mmu) (height parent slot : ℕ → ℕ) (s : ℕ) : Type 0 where
  pub parent_used : parent s < m.used
  pub slot_lt : slot s < 512
  pub inner : height (parent s) ≢ 0
  pub entry_valid : is_valid (m.table (parent s) (slot s)) ≡ true
  pub names : kid m (parent s) (slot s) ≡ s

pub record Tree (m : Mmu) : Type 0 where
  -- the distance of a table from the leaf tables, and the part of the address that it stands for
  pub height : ℕ → ℕ
  pub prefix : ℕ → ℕ
  -- the entry that names a table
  pub parent : ℕ → ℕ
  pub slot : ℕ → ℕ
  pub aligned : m.pool % page_size ≡ 0
  pub placed : m.pool + pt_pages * page_size ≤ 2 ^ 48
  pub some_used : 0 < m.used
  pub few_used : m.used ≤ pt_pages
  pub root_height : height 0 ≡ 3
  pub root_prefix : prefix 0 ≡ 0
  pub low : (t : ℕ) → t < m.used → height t ≤ 3
  pub child :
      (t l : ℕ)
      → t < m.used
      → l < 512
      → height t ≢ 0
      → is_valid (m.table t l) ≡ true
      → Child m height prefix t l
  pub named : (s : ℕ) → s ≢ 0 → s < m.used → Named m height parent slot s
  pub clear : (t l : ℕ) → m.used ≤ t → m.table t l ≡ 0
  pub unique :
      (t s : ℕ) → t < m.used → s < m.used → height t ≡ height s → prefix t ≡ prefix s → t ≡ s

pt_find-some :
    (rounds i c : ℕ) (m : Mmu) → i ≤ c → c < i + rounds → pt_find rounds i m (pt_pa m c) ≡ some c
unfolding pt_find
pt_find-some zero i c m h k = absurd (omega arith)
pt_find-some (suc r) i c m h k = elim (Bool-cases (pt_pa m i == pt_pa m c)) [
  | inl e ↦ rw e (ap some (ground arith))
  | inr n ↦ rw n (pt_find-some r (i + 1) c m (ground arith) (omega arith))
]

-- `pt_index` finds every table in use by its address.
pub pt_index-pa : (m : Mmu) (c : ℕ) → c < m.used → pt_index (pt_pa m c) m ≡ ok c m
unfolding pt_index
pt_index-pa m c h = rw (pt_find-some m.used 0 c m (omega arith) (omega arith), pt_index)

frame_of-entry :
    (pool c e : ℕ)
    → pool % page_size ≡ 0
    → pool + pt_pages * page_size ≤ 2 ^ 48
    → c < pt_pages
    → e ≡ pool + c * page_size + 3
    → frame_of e ≡ pool + c * page_size
frame_of-entry pool c e al pl h k = omega arith

pub kid_of-entry :
    (pool c : ℕ)
    → pool % page_size ≡ 0
    → pool + pt_pages * page_size ≤ 2 ^ 48
    → c < pt_pages
    → kid_of pool (pool + c * page_size + 3) ≡ c
unfolding kid_of
kid_of-entry pool c al pl h = omega arith

module _ {m : Mmu} (T : Tree m) where
  pub pt_index-kid :
      (t l : ℕ)
      → Child m T.height T.prefix t l
      → pt_index (frame_of (m.table t l)) m ≡ ok (kid m t l) m
  pt_index-kid t l c =
      let few : kid m t l < pt_pages = omega (arith, T.few_used, c.kid_used) in
      rw (frame_of-entry m.pool (kid m t l) (m.table t l) T.aligned T.placed few c.entry)
        (pt_index-pa m (kid m t l) c.kid_used)
