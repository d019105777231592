-- ===== src/Bits/Laws.antt =====
-- What the writes of one bit do to every bit of a word, for words below `2 ^ 64`.
use Prim.Native.Nat.{bit_and, bit_or}
use native.Mathlib.Nat.{pow-suc, one-le-pow}
use trade_feed.Prelude.{
  ℕ, zero, suc, ◌-◌, ◌/◌, ◌%◌, ◌^◌, ◌<◌, ◌≡◌, refl, true, false, ◌==◌, if◌then◌else◌, arith,
}
use trade_feed.Prelude.Order.{lt_wf}
use mathlib.Core.WellFounded
use trade_feed.Bits.{word_mod, test_bit, set_bit, clear_bit}
use trade_feed.Bits.Step.{or_digit, and_digit}

pow_lt : (k n : ℕ) → k < n → 2 ^ k < 2 ^ n
pow_lt k zero h = absurd (omega arith)
pow_lt zero (suc n) h = omega (arith, pow-suc 2 n, one-le-pow n 2 (omega arith))
pow_lt (suc k) (suc n) h = omega (arith, pow-suc 2 n, pow-suc 2 k, pow_lt k n (omega arith))

or_zero : (x : ℕ) → bit_or x 0 ≡ x
or_zero x = WellFounded.induction lt_wf {C = λ n. bit_or n 0 ≡ n} x λ n ih. by_digit n ih
  where
    by_digit : (n : ℕ) → ((m : ℕ) → m < n → bit_or m 0 ≡ m) → bit_or n 0 ≡ n
    by_digit zero ih = refl
    by_digit (suc n) ih = omega (arith, or_digit (suc n) 0, ih (suc n / 2) (omega arith))

and_zero : (x : ℕ) → bit_and x 0 ≡ 0
and_zero x = WellFounded.induction lt_wf {C = λ n. bit_and n 0 ≡ 0} x λ n ih. by_digit n ih
  where
    by_digit : (n : ℕ) → ((m : ℕ) → m < n → bit_and m 0 ≡ 0) → bit_and n 0 ≡ 0
    by_digit zero ih = refl
    by_digit (suc n) ih = omega (arith, and_digit (suc n) 0, ih (suc n / 2) (omega arith))

-- A mask of `n` ones keeps a word of `n` digits.
and_ones : (n x : ℕ) → x < 2 ^ n → bit_and x (2 ^ n - 1) ≡ x
and_ones zero x h = omega (arith, and_zero x)
and_ones (suc n) x h =
    ground (arith, and_digit x (2 ^ suc n - 1), pow-suc 2 n, and_ones n (x / 2), one-le-pow n 2)

set_bit-zero : (w : ℕ) → (set_bit w 0 % 2 ≡ 1) × (set_bit w 0 / 2 ≡ w / 2)
unfolding set_bit
set_bit-zero w = omega (arith, or_digit w 1, or_zero (w / 2))

set_bit-suc :
    (w k : ℕ) → (set_bit w (suc k) % 2 ≡ w % 2) × (set_bit w (suc k) / 2 ≡ set_bit (w / 2) k)
unfolding set_bit
set_bit-suc w k = ground (arith, or_digit w (2 ^ suc k), pow-suc 2 k)

-- `w |= 1ULL << k` sets the bit at `k` and leaves the others.
pub test_bit-set_bit :
    (w k j : ℕ) → test_bit (set_bit w k) j ≡ (if j == k then true else test_bit w j)
unfolding test_bit
test_bit-set_bit w zero zero = ground (arith, set_bit-zero w)
test_bit-set_bit w zero (suc j) = ground (arith, set_bit-zero w)
test_bit-set_bit w (suc k) zero = ground (arith, set_bit-suc w k)
test_bit-set_bit w (suc k) (suc j) = ground (arith, set_bit-suc w k, test_bit-set_bit (w / 2) k j)

set_bit-lt_pow : (n w k : ℕ) → k < n → w < 2 ^ n → set_bit w k < 2 ^ n
set_bit-lt_pow zero w k hk h = absurd (omega arith)
set_bit-lt_pow (suc n) w zero hk h = omega (arith, set_bit-zero w, pow-suc 2 n)
set_bit-lt_pow (suc n) w (suc k) hk h = omega (
  arith,
  set_bit-suc w k,
  pow-suc 2 n,
  set_bit-lt_pow n (w / 2) k (omega arith) (omega (arith, pow-suc 2 n)),
)

pub set_bit-lt : (w k : ℕ) → k < 64 → w < word_mod → set_bit w k < word_mod
set_bit-lt w k = set_bit-lt_pow 64 w k

-- The mask with a hole at `k`, in a word of `n` digits.
masked : ℕ → ℕ → ℕ → ℕ
masked n w k = bit_and w (2 ^ n - 1 - 2 ^ k)

masked-zero :
    (n w : ℕ) → w < 2 ^ suc n → (masked (suc n) w 0 % 2 ≡ 0) × (masked (suc n) w 0 / 2 ≡ w / 2)
unfolding masked
masked-zero n w h =
    ground (arith, and_digit w (2 ^ suc n - 1 - 1), pow-suc 2 n, one-le-pow n 2, and_ones n (w / 2))

masked-suc :
    (n w k : ℕ)
    → k < n
    → (masked (suc n) w (suc k) % 2 ≡ w % 2) × (masked (suc n) w (suc k) / 2 ≡ masked n (w / 2) k)
unfolding masked
masked-suc n w k h =
    ground (arith, and_digit w (2 ^ suc n - 1 - 2 ^ suc k), pow-suc 2 n, pow-suc 2 k, pow_lt k n h)

test_bit-masked :
    (n w k j : ℕ)
    → k < n
    → w < 2 ^ n
    → test_bit (masked n w k) j ≡ (if j == k then false else test_bit w j)
unfolding test_bit
test_bit-masked zero w k j hk h = absurd (omega arith)
test_bit-masked (suc n) w zero zero hk h = ground (arith, masked-zero n w)
test_bit-masked (suc n) w zero (suc j) hk h = ground (arith, masked-zero n w)
test_bit-masked (suc n) w (suc k) zero hk h = ground (arith, masked-suc n w k)
test_bit-masked (suc n) w (suc k) (suc j) hk h =
    ground (arith, masked-suc n w k, pow-suc 2 n, test_bit-masked n (w / 2) k j)

masked-lt : (n w k : ℕ) → k < n → w < 2 ^ n → masked n w k < 2 ^ n
masked-lt zero w k hk h = absurd (omega arith)
masked-lt (suc n) w zero hk h = omega (arith, masked-zero n w h, pow-suc 2 n)
masked-lt (suc n) w (suc k) hk h =
    ground (arith, masked-suc n w k, pow-suc 2 n, masked-lt n (w / 2) k)

-- `w &= ~(1ULL << k)` clears the bit at `k` and leaves the others.
pub test_bit-clear_bit :
    (w k j : ℕ)
    → k < 64
    → w < word_mod
    → test_bit (clear_bit w k) j ≡ (if j == k then false else test_bit w j)
unfolding clear_bit masked
test_bit-clear_bit w k j hk h = test_bit-masked 64 w k j hk h

pub clear_bit-lt : (w k : ℕ) → k < 64 → w < word_mod → clear_bit w k < word_mod
unfolding clear_bit masked
clear_bit-lt w k hk h = masked-lt 64 w k hk h
