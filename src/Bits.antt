-- ===== src/Bits.antt =====
-- Machine words of src/core/price_bitset.h as native numbers below `2 ^ 64`: the bit of a word, the
-- writes `w |= 1ULL << k` and `w &= ~(1ULL << k)`, and the builtins that count zeros.
pub mod Step
pub mod Laws
pub mod Zeros
use Prim.Native.Nat.{bit_and, bit_or}
use trade_feed.Prelude.{
  ℕ, zero, suc, ◌+◌, ◌-◌, ◌*◌, ◌/◌, ◌%◌, ◌^◌, ◌≤◌, ◌<◌, ◌≡◌, Bool, true, false, ◌==◌, if◌then◌else◌,
}

abbrev pub word_mod : ℕ
word_mod = 2 ^ 64

-- `(w >> k) & 1`, as the recursion that the laws go by.
unfoldable pub test_bit : ℕ → ℕ → Bool
test_bit w zero = w % 2 == 1
test_bit w (suc k) = test_bit (w / 2) k

-- `w | (1ULL << k)`, for k < 64.
unfoldable pub set_bit : ℕ → ℕ → ℕ
set_bit w k = bit_or w (2 ^ k)

-- `w & ~(1ULL << k)`, for k < 64.
unfoldable pub clear_bit : ℕ → ℕ → ℕ
clear_bit w k = bit_and w (word_mod - 1 - 2 ^ k)

-- The number of zeros below the lowest one, among the lowest `n` digits.
unfoldable pub low_zeros : ℕ → ℕ → ℕ
low_zeros zero w = 0
low_zeros (suc n) w = if w % 2 == 1 then 0 else suc (low_zeros n (w / 2))

-- The number of digits up to the highest one, among the lowest `n`.
unfoldable pub digit_count : ℕ → ℕ → ℕ
digit_count zero w = 0
digit_count (suc n) w = if w == 0 then 0 else suc (digit_count n (w / 2))

-- `__builtin_ctzll` and `__builtin_clzll`; both are undefined at 0, and never called there.
unfoldable pub ctzll : ℕ → ℕ
unfolding low_zeros
ctzll w = low_zeros 64 w

unfoldable pub clzll : ℕ → ℕ
unfolding digit_count
clzll w = 64 - digit_count 64 w
