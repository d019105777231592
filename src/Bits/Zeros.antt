-- ===== src/Bits/Zeros.antt =====
-- The builtins `__builtin_ctzll` and `__builtin_clzll`, on a word that is not 0.
use native.Mathlib.Nat.{pow-suc}
use trade_feed.Prelude.{
  ℕ, zero, suc, ◌-◌, ◌/◌, ◌%◌, ◌^◌, ◌≤◌, ◌<◌, ◌≡◌, ◌≢◌, refl, true, false, ◌==◌, arith, ℕ_discrete,
  Bool-cases, inl, inr,
}
use trade_feed.Bits.{word_mod, test_bit, low_zeros, digit_count, ctzll, clzll}

pub test_bit-zero : (k : ℕ) → test_bit 0 k ≡ false
unfolding test_bit
test_bit-zero zero = refl
test_bit-zero (suc k) = test_bit-zero k

test_bit_above : (n w k : ℕ) → w < 2 ^ n → n ≤ k → test_bit w k ≡ false
unfolding test_bit
test_bit_above zero zero k h l = test_bit-zero k
test_bit_above zero (suc w) k h l = absurd (omega arith)
test_bit_above (suc n) w zero h l = absurd (omega arith)
test_bit_above (suc n) w (suc k) h l = ground (arith, pow-suc 2 n, test_bit_above n (w / 2) k)

low_zeros_lem :
    (n w : ℕ) → w < 2 ^ n → w ≢ 0 → (test_bit w (low_zeros n w) ≡ true) × (low_zeros n w < n)
unfolding test_bit low_zeros
low_zeros_lem zero w h nz = absurd (omega arith)
low_zeros_lem (suc n) w h nz = elim (Bool-cases (w % 2 == 1)) [
  | inl odd ↦ rw odd (odd, omega arith)
  | inr even ↦ rw even (ground (arith, pow-suc 2 n, low_zeros_lem n (w / 2)))
]

low_zeros_below : (n w k : ℕ) → k < low_zeros n w → test_bit w k ≡ false
unfolding test_bit low_zeros
low_zeros_below zero w k l = absurd (omega arith)
low_zeros_below (suc n) w zero l = ground arith
low_zeros_below (suc n) w (suc k) l = ground (arith, low_zeros_below n (w / 2) k)

digit_count-zero : (n : ℕ) → digit_count n 0 ≡ 0
unfolding digit_count
digit_count-zero zero = refl
digit_count-zero (suc n) = refl

digit_count_lem :
    (n w : ℕ)
    → w < 2 ^ n
    → w ≢ 0
    → (d : ℕ) × (digit_count n w ≡ suc d) × (d < n) × (test_bit w d ≡ true)
unfolding test_bit digit_count
digit_count_lem zero w h nz = absurd (omega arith)
digit_count_lem (suc n) w h nz = elim (ℕ_discrete (w / 2) 0) [
  | yes e ↦ (0, ground (arith, digit_count-zero n), omega arith, ground arith)
  | no ne ↦
      let (d, count, small, bit) = digit_count_lem n (w / 2) (omega (arith, pow-suc 2 n)) ne in
      (suc d, ground arith, omega arith, bit)
]

digit_count_above : (n w k : ℕ) → w < 2 ^ n → digit_count n w ≤ k → test_bit w k ≡ false
unfolding digit_count test_bit
digit_count_above zero w k h l = test_bit_above 0 w k h (omega arith)
digit_count_above (suc n) w zero h l = ground (arith, digit_count-zero n)
digit_count_above (suc n) w (suc k) h l =
    ground (arith, pow-suc 2 n, digit_count_above n (w / 2) k, test_bit-zero k)

digit_count-le : (n w : ℕ) → digit_count n w ≤ n
unfolding digit_count
digit_count-le zero w = omega arith
digit_count-le (suc n) w = ground (arith, digit_count-le n (w / 2))

-- `__builtin_ctzll` is the position of the lowest bit that is set.
pub ctzll_lem : (w : ℕ) → w < word_mod → w ≢ 0 → (test_bit w (ctzll w) ≡ true) × (ctzll w < 64)
unfolding ctzll
ctzll_lem w h nz = low_zeros_lem 64 w h nz

pub ctzll_below : (w k : ℕ) → k < ctzll w → test_bit w k ≡ false
unfolding ctzll
ctzll_below w k l = low_zeros_below 64 w k l

-- `63 - __builtin_clzll` is the position of the highest bit that is set.
pub clzll_lem : (w : ℕ) → w < word_mod → w ≢ 0 → (test_bit w (63 - clzll w) ≡ true) × (clzll w < 64)
unfolding clzll
clzll_lem w h nz =
    let (d, count, small, bit) = digit_count_lem 64 w h nz in
    (rw (count) (let e : 63 - (64 - suc d) ≡ d = omega arith in rw e bit), omega arith)

pub clzll_above : (w k : ℕ) → w < word_mod → 63 - clzll w < k → test_bit w k ≡ false
unfolding clzll
clzll_above w k h l = digit_count_above 64 w k h (omega (arith, digit_count-le 64 w))

-- A word is 0 exactly when none of its bits is set.
pub zero_of_bits : (w : ℕ) → w < word_mod → ((k : ℕ) → k < 64 → test_bit w k ≡ false) → w ≡ 0
zero_of_bits w h all = elim (ℕ_discrete w 0) [
  | yes e ↦ e
  | no ne ↦ let (bit, small) = ctzll_lem w h ne in absurd (cc (all (ctzll w) small))
]
