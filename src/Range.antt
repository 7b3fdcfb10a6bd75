-- ===== src/Range.antt =====
-- include/nxu/range.h: physical ranges whose end does not wrap.
pub mod Membership
use nxu.Base.{ℕ, Bool, true, false, ◌==◌, ltb, leb, if◌then◌else◌, ◌&&◌, not}
use nxu.Word.{add64}

-- `struct nxu_range`
pub record Range : Type 0 where
  pub base : ℕ
  pub size : ℕ

abbrev pub range : ℕ → ℕ → Range
range base size = record { base = base; size = size }

-- `nxu_range_ok`
unfoldable pub range_ok : ℕ → ℕ → Bool
range_ok base size = if size == 0 then false else if ltb (add64 base size) base then false else true

-- `nxu_range_contains`
unfoldable pub range_contains : ℕ → ℕ → ℕ → ℕ → Bool
unfolding range_ok
range_contains outer_base outer_size inner_base inner_size =
    if not (range_ok outer_base outer_size)
    then false
    else if not (range_ok inner_base inner_size)
    then false
    else if ltb inner_base outer_base
    then false
    else if ltb (add64 outer_base outer_size) (add64 inner_base inner_size)
    then false
    else true

-- `nxu_range_overlap`
unfoldable pub range_overlap : ℕ → ℕ → ℕ → ℕ → Bool
unfolding range_ok
range_overlap a asz b bsz =
    if not (range_ok a asz && range_ok b bsz)
    then false
    else if leb (add64 a asz) b
    then false
    else if leb (add64 b bsz) a
    then false
    else true

-- `range_eq` of foundation/facts/facts.c
unfoldable pub range_eq : Range → Range → Bool
range_eq a b = (a.base == b.base) && (a.size == b.size)
