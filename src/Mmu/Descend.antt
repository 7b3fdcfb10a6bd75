-- ===== src/Mmu/Descend.antt =====
-- One step of `map_page` of silicon/aarch64/translate/mmu.c down the tables.
use nxu.Base.{
  ℕ, suc, ◌+◌, ◌*◌, ◌≤◌, ◌<◌, ◌≡◌, ◌≢◌, refl, ap, ◌∙◌, sym, inl, inr, true, false, arith, leb,
  Bool-cases, Outcome, ok, halted,
}
use nxu.Codes.{fail_pt}
use nxu.Mmu.{Mmu, pt_pages, is_valid, next_table}
use nxu.Mmu.Tree.{Tree, Child, kid, pt_index-kid}
use nxu.Mmu.Grow.{
  Tree-grown, table-grown_valid, kid-grown, new_valid, height_old, prefix_old, new-Child,
}
use nxu.Mmu.Walk.{walk, walk-grown}

-- The tables `m'` have all that `m` has, and map every address as `m` does.
pub record Extends {m : Mmu} (T : Tree m) {m' : Mmu} (T' : Tree m') : Type 0 where
  pub pool : m'.pool ≡ m.pool
  pub more : m.used ≤ m'.used
  pub heights : (s : ℕ) → s < m.used → T'.height s ≡ T.height s
  pub prefixes : (s : ℕ) → s < m.used → T'.prefix s ≡ T.prefix s
  pub entries : (s j : ℕ) → is_valid (m.table s j) ≡ true → m'.table s j ≡ m.table s j
  pub walks : (k s pa : ℕ) → s < m.used → T.height s ≡ k → walk m' k s pa ≡ walk m k s pa

pub Extends-refl : {m : Mmu} (T : Tree m) → Extends T T
Extends-refl T = record {
  pool = refl;
  more = omega arith;
  heights = λ s h. refl;
  prefixes = λ s h. refl;
  entries = λ s j v. refl;
  walks = λ k s pa h e. refl;
}

pub Extends-trans :
    {a b c : Mmu} {A : Tree a} {B : Tree b} {C : Tree c} → Extends A B → Extends B C → Extends A C
Extends-trans p q = record {
  pool = q.pool ∙ p.pool;
  more = omega (arith, p.more, q.more);
  heights = λ s h. q.heights s (omega (arith, p.more)) ∙ p.heights s h;
  prefixes = λ s h. q.prefixes s (omega (arith, p.more)) ∙ p.prefixes s h;
  entries = λ s j v. q.entries s j (rw (p.entries s j v) v) ∙ p.entries s j v;
  walks =
      λ k s pa h e. q.walks k s pa (omega (arith, p.more)) (p.heights s h ∙ e) ∙ p.walks k s pa h e;
}

-- the entry `l` of table `t` names the table `c`, one level down
pub record Names {m : Mmu} (T : Tree m) (t l c : ℕ) : Type 0 where
  pub valid : is_valid (m.table t l) ≡ true
  pub names : kid m t l ≡ c
  pub used : c < m.used
  pub height : suc (T.height c) ≡ T.height t
  pub prefix : T.prefix c ≡ T.prefix t * 512 + l

pub data Descended {m : Mmu} (T : Tree m) (t l : ℕ) : Outcome Mmu ℕ → Type 0 where
  down :
      {m' : Mmu} {c : ℕ} (T' : Tree m')
      → Extends T T'
      → Names T' t l c
      → m'.used ≤ m.used + 1
      → (is_valid (m.table t l) ≡ true → m'.used ≡ m.used)
      → Descended T t l (ok c m')
  exhausted :
      is_valid (m.table t l) ≡ false
      → m.used ≡ pt_pages
      → Descended T t l (halted (record { code = fail_pt; a = m.used; b = 0 }) m)

module _ {m : Mmu} (T : Tree m) (t l : ℕ) (ht : t < m.used) (hl : l < 512)
    (inner : T.height t ≢ 0) where
  Names-Child :
      Child m T.height T.prefix t l → is_valid (m.table t l) ≡ true → Names T t l (kid m t l)
  Names-Child c v = record {
    valid = v;
    names = refl;
    used = c.kid_used;
    height = c.kid_height;
    prefix = c.kid_prefix;
  }

  module _ (free : is_valid (m.table t l) ≡ false) (spare : m.used < pt_pages) where
    Extends-grown : Extends T (Tree-grown T t l ht hl inner free spare)
    unfolding Tree-grown
    Extends-grown = record {
      pool = refl;
      more = omega arith;
      heights = height_old T t l ht hl inner free spare;
      prefixes = prefix_old T t l ht hl inner free spare;
      entries = table-grown_valid T t l ht hl inner free spare;
      walks = walk-grown T t l ht hl inner free spare;
    }

    Names-grown : Names (Tree-grown T t l ht hl inner free spare) t l m.used
    unfolding Tree-grown
    Names-grown =
        let c = new-Child T t l ht hl inner free spare in
        let k = kid-grown T t l ht hl inner free spare in
        let G = Tree-grown T t l ht hl inner free spare in
        record {
          valid = new_valid T t l ht hl inner free spare;
          names = k;
          used = omega arith;
          height = ap (λ x. suc (G.height x)) (sym k) ∙ c.kid_height;
          prefix = ap G.prefix (sym k) ∙ c.kid_prefix;
        }

  -- `next_table` follows a valid entry, makes a table for one that is not valid, and halts only when
  -- the pool is used up.
  pub next_table-Descended : Descended T t l (next_table t l m)
  unfolding next_table
  next_table-Descended = elim (Bool-cases (is_valid (m.table t l))) [
    | inl v ↦
        let c = T.child t l ht hl inner v in
        rw (v, pt_index-kid T t l c)
          (down T (Extends-refl T) (Names-Child c v) (omega arith) (λ _. refl))
    | inr n ↦ elim (Bool-cases (leb pt_pages m.used)) [
      | inl full ↦ rw (n, full) (exhausted n (ground (arith, T.few_used)))
      | inr room ↦
          let spare : m.used < pt_pages = ground arith in
          rw (n, room)
            (down (Tree-grown T t l ht hl inner n spare) (Extends-grown n spare)
              (Names-grown n spare) (omega arith) (λ v. cc))
    ]
  ]
