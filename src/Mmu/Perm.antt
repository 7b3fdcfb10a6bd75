-- ===== src/Mmu/Perm.antt =====
-- `leaf_attr` of silicon/aarch64/translate/mmu.c, and the meaning of its bits: the architecture's rules
-- for a stage-1 leaf of the EL1 translation regime.
use nxu.Base.{
  ℕ, ◌+◌, ◌*◌, ◌/◌, ◌%◌, ◌^◌, ◌≤◌, ◌<◌, ◌≡◌, refl, Bool, true, false, not, ◌&&◌, arith, ◌==◌,
  if◌then◌else◌, Bool-cases, inl, inr, eq_of_==,
}
use nxu.Word.{has_bit}
use nxu.Mmu.{is_valid, frame_of, leaf_attr, map_rx, map_r, map_dev, map_user_rx, map_user_rw}
use nxu.Mmu.MapPage.{leaf_of}

-- EL1 may write: AP[2] (bit 7) is clear.
abbrev pub el1_writes : ℕ → Bool
el1_writes leaf = is_valid leaf && not (has_bit leaf 7)

-- EL1 may execute: PXN (bit 53) is clear.
abbrev pub el1_executes : ℕ → Bool
el1_executes leaf = is_valid leaf && not (has_bit leaf 53)

-- EL0 may read: AP[1] (bit 6) is set.
abbrev pub el0_reads : ℕ → Bool
el0_reads leaf = is_valid leaf && has_bit leaf 6

abbrev pub el0_writes : ℕ → Bool
el0_writes leaf = is_valid leaf && (has_bit leaf 6 && not (has_bit leaf 7))

-- EL0 may execute: UXN (bit 54) is clear.
abbrev pub el0_executes : ℕ → Bool
el0_executes leaf = is_valid leaf && not (has_bit leaf 54)

-- the rights of a leaf
abbrev pub Rights : Type 0
Rights = Bool × Bool × Bool × Bool × Bool

abbrev pub rights : ℕ → Rights
rights leaf =
    (el1_writes leaf, el1_executes leaf, el0_reads leaf, el0_writes leaf, el0_executes leaf)

-- what each of the six modes is meant to give, in the order of `rights`
abbrev pub intended : ℕ → Rights
intended perm =
    if perm == map_rx
    then (false, true, false, false, false)
    else if perm == map_user_rx
    then (false, false, true, false, true)
    else if perm == map_user_rw
    then (true, false, true, true, false)
    else if perm == map_r
    then (false, false, false, false, false)
    else (true, false, false, false, false)

-- An attribute word: bits below 12, and bits from 48 on.
module _ (f hi low : ℕ) (page : f % 4096 ≡ 0) (small : f + 4096 ≤ 2 ^ 48) (h : low < 4096) where
  same_valid : (f + (hi * 2 ^ 48 + low)) % 2 ≡ (hi * 2 ^ 48 + low) % 2
  same_valid = omega arith

  same_6 : (f + (hi * 2 ^ 48 + low)) / 2 ^ 6 % 2 ≡ (hi * 2 ^ 48 + low) / 2 ^ 6 % 2
  same_6 = omega arith

  same_7 : (f + (hi * 2 ^ 48 + low)) / 2 ^ 7 % 2 ≡ (hi * 2 ^ 48 + low) / 2 ^ 7 % 2
  same_7 = omega arith

  same_53 : (f + (hi * 2 ^ 48 + low)) / 2 ^ 53 % 2 ≡ (hi * 2 ^ 48 + low) / 2 ^ 53 % 2
  same_53 = omega arith

  same_54 : (f + (hi * 2 ^ 48 + low)) / 2 ^ 54 % 2 ≡ (hi * 2 ^ 48 + low) / 2 ^ 54 % 2
  same_54 = omega arith

  rights-frame : rights (f + (hi * 2 ^ 48 + low)) ≡ rights (hi * 2 ^ 48 + low)
  rights-frame = rw (same_valid, same_6, same_7, same_53, same_54) refl

rights-leaf :
    (pa perm hi low : ℕ)
    → leaf_attr perm ≡ hi * 2 ^ 48 + low
    → low < 4096
    → rights (leaf_of pa perm) ≡ rights (hi * 2 ^ 48 + low)
rights-leaf pa perm hi low e h =
    rw e (rights-frame (frame_of pa) hi low (omega arith) (omega arith) h)

-- The leaf that `map_page` writes for any page and any mode gives EL1 the write and execute rights, and
-- EL0 the read, write and execute rights, that the mode is meant to give.
pub rights-leaf_of : (pa perm : ℕ) → rights (leaf_of pa perm) ≡ intended perm
unfolding leaf_attr
rights-leaf_of pa perm = elim (Bool-cases (perm == map_dev)) [
  | inl e0 ↦
      rw (eq_of_== _ _ e0)
        (rights-frame (frame_of pa) 96 1795 (omega arith) (omega arith) (omega arith))
  | inr e0 ↦ elim (Bool-cases (perm == map_rx)) [
    | inl e1 ↦
        rw (eq_of_== _ _ e1)
          (rights-frame (frame_of pa) 64 1927 (omega arith) (omega arith) (omega arith))
    | inr e1 ↦ elim (Bool-cases (perm == map_user_rx)) [
      | inl e2 ↦
          rw (eq_of_== _ _ e2)
            (rights-frame (frame_of pa) 32 1991 (omega arith) (omega arith) (omega arith))
      | inr e2 ↦ elim (Bool-cases (perm == map_user_rw)) [
        | inl e3 ↦
            rw (eq_of_== _ _ e3)
              (rights-frame (frame_of pa) 96 1863 (omega arith) (omega arith) (omega arith))
        | inr e3 ↦ elim (Bool-cases (perm == map_r)) [
          | inl e4 ↦
              rw (eq_of_== _ _ e4)
                (rights-frame (frame_of pa) 96 1927 (omega arith) (omega arith) (omega arith))
          | inr e4 ↦
              rw (e0, e1, e2, e3, e4)
                (rights-frame (frame_of pa) 96 1799 (omega arith) (omega arith) (omega arith))
        ]
      ]
    ]
  ]
]

attr_odd : (perm : ℕ) → leaf_attr perm % 2 ≡ 1
unfolding leaf_attr
attr_odd perm = ground arith

pub leaf_of-valid : (pa perm : ℕ) → is_valid (leaf_of pa perm) ≡ true
leaf_of-valid pa perm = rw (odd) refl
  where
    odd : leaf_of pa perm % 2 ≡ 1
    odd = omega (arith, attr_odd perm)
