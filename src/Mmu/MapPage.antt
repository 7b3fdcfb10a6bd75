-- ===== src/Mmu/MapPage.antt =====
-- `map_page` of silicon/aarch64/translate/mmu.c maps one page, and nothing else.
use nxu.Base.{
  ℕ, suc, ◌+◌, ◌≤◌, ◌<◌, ◌≡◌, ◌≢◌, refl, ◌∙◌, true, false, arith, Outcome, ok, halted, and_then,
  Failure, Cmd,
}
use nxu.Codes.{fail_pt}
use nxu.Mmu.{
  Mmu, pt_pages, frame_of, is_valid, index_at, set_entry, leaf_attr, next_table, map_page,
}
use nxu.Mmu.Tree.{Tree, cover}
use nxu.Mmu.Walk.{view, index_at-lt}
use nxu.Mmu.Leaf.{page_of, Tree-leafed, walk-leafed_ne, cover-suc}
use nxu.Mmu.Descend.{
  Extends, Extends-refl, Extends-trans, Names, Descended, down, exhausted, next_table-Descended,
}
use nxu.Mmu.Path.{
  Follows, root, step, Follows-Extends, Follows-Leads, Follows-valid, Follows-stop, here,
  walk-leafed_self,
}

-- the leaf entry that `map_page` writes
abbrev pub leaf_of : ℕ → ℕ → ℕ
leaf_of pa perm = frame_of pa + leaf_attr perm

-- The page of `pa` has the new leaf in `m'`, and every other page the leaf that it has in `m`.
pub record Remaps (m m' : Mmu) (pa perm : ℕ) : Type 0 where
  pub here : (x : ℕ) → page_of x ≡ page_of pa → view m' x ≡ leaf_of pa perm
  pub elsewhere : (x : ℕ) → page_of x ≢ page_of pa → view m' x ≡ view m x
  pub pool : m'.pool ≡ m.pool

pub data Mapped {m : Mmu} (T : Tree m) (pa perm : ℕ) : Outcome Mmu (Unit {0}) → Type 0 where
  mapped :
      {m' : Mmu} (T' : Tree m')
      → Remaps m m' pa perm
      → m'.used ≤ m.used + 3
      → (is_valid (view m pa) ≡ true → m'.used ≡ m.used)
      → Mapped T pa perm (ok tt m')
  full :
      {m' : Mmu} {f : Failure} (T' : Tree m')
      → ((x : ℕ) → view m' x ≡ view m x)
      → f.code ≡ fail_pt
      → is_valid (view m pa) ≡ false
      → pt_pages < m.used + 3
      → Mapped T pa perm (halted f m')

-- What is known when `map_page` has come to table `c`, `k` levels above the leaf tables.
record At {m : Mmu} (T : Tree m) {n : Mmu} (N : Tree n) (pa k c : ℕ) : Type 0 where
  extends : Extends T N
  in_use : c < n.used
  height : N.height c ≡ k
  prefix : N.prefix c ≡ cover k pa
  follows : Follows n pa k c
  spent : n.used + k ≤ m.used + 3
  kept : is_valid (view m pa) ≡ true → n.used ≡ m.used

At-root : {m : Mmu} (T : Tree m) (pa : ℕ) → At T T pa 3 0
At-root T pa = record {
  extends = Extends-refl T;
  in_use = T.some_used;
  height = T.root_height;
  prefix = T.root_prefix;
  follows = root;
  spent = omega arith;
  kept = λ _. refl;
}

module _ {m n : Mmu} {T : Tree m} {N : Tree n} {pa k t : ℕ} (a : At T N pa (suc k) t) where
  view_same : view n pa ≡ view m pa
  view_same = a.extends.walks 3 0 pa T.some_used T.root_height

  At-down :
      {n' : Mmu} (N' : Tree n') {c : ℕ}
      → k ≤ 2
      → Extends N N'
      → Names N' t (index_at (suc k) pa) c
      → n'.used ≤ n.used + 1
      → (is_valid (n.table t (index_at (suc k) pa)) ≡ true → n'.used ≡ n.used)
      → At T N' pa k c
  At-down N' low e nm u s =
      let h : N'.height t ≡ suc k = e.heights t a.in_use ∙ a.height in
      record {
        extends = Extends-trans a.extends e;
        in_use = nm.used;
        height = omega (arith, nm.height, h);
        prefix = nm.prefix ∙ cover-suc k (N'.prefix t) pa low (e.prefixes t a.in_use ∙ a.prefix);
        follows = step (Follows-Extends e a.follows) nm.valid nm.names;
        spent = omega (arith, a.spent);
        kept = λ v. s (Follows-valid a.follows (rw view_same v)) ∙ a.kept v;
      }

  At-full :
      (perm : ℕ)
      → is_valid (n.table t (index_at (suc k) pa)) ≡ false
      → n.used ≡ pt_pages
      → Mapped T pa perm (halted (record { code = fail_pt; a = n.used; b = 0 }) n)
  At-full perm v e =
      full N (λ x. a.extends.walks 3 0 x T.some_used T.root_height) refl
        (rw (← view_same) (Follows-stop a.follows v)) (omega (arith, a.spent))

  -- One step down, and then the rest of the function.
  At-then :
      (perm : ℕ) {r : Outcome Mmu ℕ} {rest : ℕ → Cmd Mmu (Unit {0})}
      → k ≤ 2
      → Descended N t (index_at (suc k) pa) r
      → ((n' : Mmu) (N' : Tree n') (c : ℕ) → At T N' pa k c → Mapped T pa perm (rest c n'))
      → Mapped T pa perm (and_then r rest)
  At-then perm low (down {c} N' e nm u s) next = next _ N' c (At-down N' low e nm u s)
  At-then perm low (exhausted v e) next = At-full perm v e

  At-Descended : k ≤ 2 → Descended N t (index_at (suc k) pa) (next_table t (index_at (suc k) pa) n)
  At-Descended low =
      next_table-Descended N t (index_at (suc k) pa) a.in_use (index_at-lt (suc k) pa)
        (λ z. omega (arith, a.height, z))

module _ {m n : Mmu} {T : Tree m} {N : Tree n} {pa t : ℕ} (perm : ℕ) (a : At T N pa 0 t) where
  At-leaf : Mapped T pa perm (ok tt (set_entry t (index_at 0 pa) (leaf_of pa perm) n))
  At-leaf =
      let v = leaf_of pa perm in
      mapped (Tree-leafed N t pa v a.in_use a.height)
        (record {
          here = λ x e.
              walk-leafed_self N pa t v a.in_use a.height x e (Follows-Leads a.follows here)
                N.some_used N.root_height;
          elsewhere = λ x ne.
              walk-leafed_ne N t pa v a.in_use a.height a.prefix x ne 3 0 N.some_used N.root_height
                N.root_prefix
              ∙ a.extends.walks 3 0 x T.some_used T.root_height;
          pool = a.extends.pool;
        })
        (omega (arith, a.spent)) a.kept

-- `map_page` gives the page of `pa` the leaf for `perm` and leaves what every other page is mapped to
-- as it was, taking at most three tables from the pool, and none where the page is mapped already.
-- It halts only with NXU_FAIL_PT, when the page is not mapped and fewer than three tables are left,
-- and then no page is mapped differently. Either way the tables form a tree again.
pub map_page-Mapped : {m : Mmu} (T : Tree m) (pa perm : ℕ) → Mapped T pa perm (map_page pa perm m)
unfolding map_page
map_page-Mapped T pa perm =
    At-then (At-root T pa) perm (omega arith) (At-Descended (At-root T pa) (omega arith))
      λ n1 N1 t1 a1. At-then a1 perm (omega arith) (At-Descended a1 (omega arith)) λ n2 N2 t2 a2.
        At-then a2 perm (omega arith) (At-Descended a2 (omega arith)) λ n3 N3 t3 a3. At-leaf perm a3
