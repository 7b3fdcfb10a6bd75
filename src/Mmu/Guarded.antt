-- ===== src/Mmu/Guarded.antt =====
-- Tables of silicon/aarch64/translate/mmu.c with the modes of the kernel alone: writing and executing
-- are apart, and EL0 is out.
use nxu.Base.{ℕ, ◌≡◌, refl, false, ◌&&◌, inl, inr, Bool-cases, subst, sym}
use nxu.Mmu.{Mmu, is_valid}
use nxu.Mmu.Tree.{Tree}
use nxu.Mmu.Walk.{view}
use nxu.Mmu.Leaf.{page_of}
use nxu.Mmu.Laid.{Laid}
use nxu.Mmu.Perm.{Rights, rights, intended, rights-leaf_of}

-- EL1 does not both write and execute, and EL0 does nothing.
abbrev pub KernelOnly : Rights → Type 0
KernelOnly (w, x, r0, w0, x0) = ((w && x) ≡ false) × (r0 ≡ false) × (w0 ≡ false) × (x0 ≡ false)

-- The tables form a tree, and every address has such rights.
pub record Guarded (m : Mmu) : Type 0 where
  pub tree : Tree m
  pub apart : (x : ℕ) → KernelOnly (rights (view m x))

-- an address that is not mapped has no rights
unmapped : (leaf : ℕ) → is_valid leaf ≡ false → KernelOnly (rights leaf)
unmapped leaf e = rw e (refl, refl, refl, refl)

-- A plan with the modes of the kernel alone keeps the tables guarded.
pub Laid-Guarded :
    (W : ℕ → ℕ → Type 0) (m : Mmu)
    → ((p perm : ℕ) → W p perm → KernelOnly (intended perm))
    → Laid W m
    → Guarded m
Laid-Guarded W m kernel l = record {
  tree = l.tree;
  apart = λ x. elim (Bool-cases (is_valid (view m x))) [
    | inr e ↦ unmapped _ e
    | inl e ↦
        let p = l.planned x e in
        subst (λ r. KernelOnly (rights r)) (sym p.1)
          (subst KernelOnly (sym (rights-leaf_of x p.0)) (kernel (page_of x) p.0 p.2))
  ];
}
