-- ===== src/Board/Apart.antt =====
-- The tables of board/*/facts.c name no CPU twice.
use nxu.Base.{
  ℕ, zero, suc, ◌<◌, ◌≤◌, ◌≡◌, ◌≢◌, inl, inr, refl, Bool, true, ◌&&◌, ltb, ltb→lt, eq_or_lt, arith,
  sym, subst,
}
use nxu.Facts.{affinity}
use nxu.World.{BoardFacts}
use nxu.Board.{fvp_base, qemu_virt, soc}

-- the first values of `f`, up to the index `n`, rise
abbrev rises : ℕ → (ℕ → ℕ) → Bool
rises zero f = true
rises (suc n) f = ltb (f n) (f (suc n)) && rises n f

rises-lt : (n : ℕ) (f : ℕ → ℕ) → rises n f ≡ true → (j k : ℕ) → j < k → k ≤ n → f j < f k
rises-lt zero f e j k jk kn = absurd (omega arith)
rises-lt (suc n) f e j k jk kn = elim (eq_or_lt k (suc n) kn) [
  | inr l ↦ rises-lt n f (right _ _ e) j k jk (omega arith)
  | inl same ↦
      subst (λ x. f j < f x) (sym same)
        (elim (eq_or_lt j n (omega arith)) [
          | inl last ↦ subst (λ x. f x < f (suc n)) (sym last) (ltb→lt _ _ (left _ _ e))
          | inr l ↦ omega (
            arith,
            rises-lt n f (right _ _ e) j n l (omega arith),
            ltb→lt (f n) (f (suc n)) (left _ _ e),
          )
        ])
]
  where
    left : (a b : Bool) → (a && b) ≡ true → a ≡ true
    left a b h = ground (arith, h)

    right : (a b : Bool) → (a && b) ≡ true → b ≡ true
    right a b h = ground (arith, h)

-- the board names no CPU twice
abbrev pub BoardIsApart : BoardFacts → Type 0
BoardIsApart b =
    (j k : ℕ) → j < k → k < b.cpu_count → affinity (b.cpu_mpidr j) ≢ affinity (b.cpu_mpidr k)

pub fvp_base-BoardIsApart : BoardIsApart fvp_base
fvp_base-BoardIsApart j k jk kn = λ e.
    omega (arith, rises-lt 7 (λ i. affinity (fvp_base.cpu_mpidr i)) refl j k jk (omega arith), e)

pub qemu_virt-BoardIsApart : BoardIsApart qemu_virt
qemu_virt-BoardIsApart j k jk kn = λ e.
    omega (arith, rises-lt 3 (λ i. affinity (qemu_virt.cpu_mpidr i)) refl j k jk (omega arith), e)

pub soc-BoardIsApart : BoardIsApart soc
soc-BoardIsApart j k jk kn = absurd (omega arith)
