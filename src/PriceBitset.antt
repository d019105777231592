-- ===== src/PriceBitset.antt =====
-- src/core/price_bitset.h: one bit for each price level, and two tiers that summarise the words
-- below them. `i >> 6` is `i / 64` and `i & 63` is `i % 64`.
pub mod Tiers
pub mod Writes
pub mod Search
use trade_feed.Prelude.{
  ℕ, zero, suc, ◌+◌, ◌-◌, ◌*◌, ◌/◌, ◌%◌, Bool, true, false, not, ◌==◌, if◌then◌else◌,
}
use trade_feed.Prelude.Array.{write}
use trade_feed.Types.{price_levels, u64_mod}
use trade_feed.Bits.{test_bit, set_bit, clear_bit, ctzll, clzll}

abbrev pub l0_words : ℕ
l0_words = (price_levels + 63) / 64

abbrev pub l1_words : ℕ
l1_words = (l0_words + 63) / 64

abbrev pub l2_words : ℕ
l2_words = (l1_words + 63) / 64

-- The arrays of words, `l0_words`, `l1_words` and `l2_words` long.
pub record PriceBitset : Type 0 where
  pub l0 : ℕ → ℕ
  pub l1 : ℕ → ℕ
  pub l2 : ℕ → ℕ

-- `NONE`, the greatest `size_t`.
abbrev pub none_index : ℕ
none_index = u64_mod - 1

unfoldable pub empty_bitset : PriceBitset
empty_bitset = record { l0 = λ _. 0; l1 = λ _. 0; l2 = λ _. 0 }

unfoldable pub set : PriceBitset → ℕ → PriceBitset
set b i =
    let w0 = i / 64 in
    let w1 = w0 / 64 in
    record {
      l0 = write b.l0 w0 (set_bit (b.l0 w0) (i % 64));
      l1 = write b.l1 w1 (set_bit (b.l1 w1) (w0 % 64));
      l2 = write b.l2 (w1 / 64) (set_bit (b.l2 (w1 / 64)) (w1 % 64));
    }

-- An early return leaves the tiers above as they are.
unfoldable pub clear : PriceBitset → ℕ → PriceBitset
clear b i =
    let w0 = i / 64 in
    let w1 = w0 / 64 in
    let x0 = clear_bit (b.l0 w0) (i % 64) in
    let x1 = clear_bit (b.l1 w1) (w0 % 64) in
    let x2 = clear_bit (b.l2 (w1 / 64)) (w1 % 64) in
    if not (x0 == 0)
    then record b { l0 = write b.l0 w0 x0 }
    else if not (x1 == 0)
    then record b { l0 = write b.l0 w0 x0; l1 = write b.l1 w1 x1 }
    else record { l0 = write b.l0 w0 x0; l1 = write b.l1 w1 x1; l2 = write b.l2 (w1 / 64) x2 }

unfoldable pub test : PriceBitset → ℕ → Bool
test b i = test_bit (b.l0 (i / 64)) (i % 64)

unfoldable pub top_bit : ℕ → ℕ
top_bit w = 63 - clzll w

-- The three lookups of `highest` and `lowest` below word `w2` of the top tier.
unfoldable pub top_index : PriceBitset → ℕ → ℕ
unfolding top_bit
top_index b w2 =
    let w1 = w2 * 64 + top_bit (b.l2 w2) in
    let w0 = w1 * 64 + top_bit (b.l1 w1) in w0 * 64 + top_bit (b.l0 w0)

unfoldable pub bottom_index : PriceBitset → ℕ → ℕ
bottom_index b w2 =
    let w1 = w2 * 64 + ctzll (b.l2 w2) in
    let w0 = w1 * 64 + ctzll (b.l1 w1) in w0 * 64 + ctzll (b.l0 w0)

-- `for (w2 = n; w2-- > 0; )`.
unfoldable pub highest_below : PriceBitset → ℕ → ℕ
highest_below b zero = none_index
highest_below b (suc w2) =
    let rest = highest_below b w2 in if b.l2 w2 == 0 then rest else top_index b w2

unfoldable pub highest : PriceBitset → ℕ
highest b = highest_below b l2_words

-- `for (; w2 < L2_WORDS; ++w2)`, with `n` words left.
unfoldable pub lowest_from : PriceBitset → ℕ → ℕ → ℕ
lowest_from b zero w2 = none_index
lowest_from b (suc n) w2 =
    let rest = lowest_from b n (w2 + 1) in if b.l2 w2 == 0 then rest else bottom_index b w2

unfoldable pub lowest : PriceBitset → ℕ
lowest b = lowest_from b l2_words 0
