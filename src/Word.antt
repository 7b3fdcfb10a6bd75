-- ===== src/Word.antt =====
-- include/nxu/types.h and the page arithmetic of foundation/room/room.c and foundation/space.
-- A word is a natural number below its modulus. `x >> k` is `x / 2 ^ k`, `x & (2 ^ k - 1)` is
-- `x % 2 ^ k`, and `x & ~(2 ^ k - 1)` is `x - x % 2 ^ k`.
use nxu.Base.{ℕ, ◌+◌, ◌-◌, ◌/◌, ◌%◌, ◌^◌, ◌≤◌, ◌<◌, ◌≡◌, Bool, arith, ◌==◌}

abbrev pub u8_mod : ℕ
u8_mod = 2 ^ 8

abbrev pub u32_mod : ℕ
u32_mod = 2 ^ 32

abbrev pub u64_mod : ℕ
u64_mod = 2 ^ 64

abbrev pub add32 : ℕ → ℕ → ℕ
add32 a b = (a + b) % u32_mod

abbrev pub add64 : ℕ → ℕ → ℕ
add64 a b = (a + b) % u64_mod

abbrev pub sub64 : ℕ → ℕ → ℕ
sub64 a b = (a + u64_mod - b) % u64_mod

-- `(w >> k) & 1 != 0`
abbrev pub has_bit : ℕ → ℕ → Bool
has_bit w k = w / 2 ^ k % 2 == 1

abbrev pub page_size : ℕ
page_size = 0x1000

unfoldable pub page_up : ℕ → ℕ
page_up n = sub64 (add64 n page_size) 1 - sub64 (add64 n page_size) 1 % page_size

unfoldable pub page_down : ℕ → ℕ
page_down n = n - n % page_size

-- `page_up` is the least page boundary at or above its argument, unless that is past 2 ^ 64 - 1.
pub page_up_bounds :
    (n : ℕ)
    → n + page_size ≤ u64_mod
    → (n ≤ page_up n) × (page_up n < n + page_size) × (page_up n % page_size ≡ 0)
unfolding page_up
page_up_bounds n h = omega arith

-- `page_down` is the greatest page boundary at or below its argument.
pub page_down_bounds :
    (n : ℕ) → (page_down n ≤ n) × (n < page_down n + page_size) × (page_down n % page_size ≡ 0)
unfolding page_down
page_down_bounds n = omega arith

-- In the last page of the address space the addition wraps and `page_up` returns 0.
pub page_up_wraps : (n : ℕ) → u64_mod < n + page_size → n < u64_mod → page_up n ≡ 0
unfolding page_up
page_up_wraps n h k = omega arith
