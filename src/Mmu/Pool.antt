-- ===== src/Mmu/Pool.antt =====
-- `nxu_mmu_init_pool` of silicon/aarch64/translate/mmu.c.
use nxu.Base.{ℕ, ◌+◌, ◌*◌, ◌%◌, ◌^◌, ◌≤◌, ◌≡◌, refl, false, arith, Returns, returns}
use nxu.Word.{page_size}
use nxu.Mmu.{Mmu, pt_pages, is_valid, index_at, mmu_init_pool}
use nxu.Mmu.Tree.{Tree}
use nxu.Mmu.Walk.{walk, view}

-- A fresh pool: whole pages below 2 ^ 48, all clear.
pub record Fresh (m : Mmu) : Type 0 where
  pub aligned : m.pool % page_size ≡ 0
  pub placed : m.pool + pt_pages * page_size ≤ 2 ^ 48
  pub clear : (t l : ℕ) → m.table t l ≡ 0

pub one_table : {m : Mmu} → Fresh m → m.used ≡ 1 → Tree m
one_table {m} f e = record {
  height = λ _. 3;
  prefix = λ _. 0;
  parent = λ _. 0;
  slot = λ _. 0;
  aligned = f.aligned;
  placed = f.placed;
  some_used = omega (arith, e);
  few_used = omega (arith, e);
  root_height = refl;
  root_prefix = refl;
  low = λ t h. omega arith;
  child = λ t l h k n v. ground (arith, f.clear t l);
  named = λ s n h. absurd (omega (arith, e));
  clear = λ t l _. f.clear t l;
  unique = λ t s h k a b. omega (arith, e);
}

-- On a clear pool `nxu_mmu_init_pool` returns, and leaves tables that form a tree of one table in
-- which no address is mapped.
pub mmu_init_pool-Tree :
    (m : Mmu) (el : ℕ)
    → Fresh m
    → Returns (λ _ m'. Tree m' × ((x : ℕ) → is_valid (view m' x) ≡ false)) (mmu_init_pool el m)
unfolding mmu_init_pool walk
mmu_init_pool-Tree m el f = returns (
  one_table (record { aligned = f.aligned; placed = f.placed; clear = f.clear }) refl,
  λ x. rw (f.clear 0 (index_at 3 x)) refl,
)
