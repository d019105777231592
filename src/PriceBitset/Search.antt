-- ===== src/PriceBitset/Search.antt =====
-- `highest` and `lowest` of the bitset, against the set of prices that `test` reads.
use trade_feed.Prelude.{
  ℕ, zero, suc, ◌+◌, ◌-◌, ◌*◌, ◌/◌, ◌%◌, ◌≤◌, ◌<◌, ◌≡◌, ◌≢◌, true, false, ◌==◌, arith, refl, ◌⊎◌,
  inl, inr, dec_lt, Bool-cases,
}
use trade_feed.Types.{price_levels}
use trade_feed.Bits.{ctzll, clzll}
use trade_feed.Bits.Zeros.{test_bit-zero, ctzll_lem, ctzll_below, clzll_lem, clzll_above}
use trade_feed.PriceBitset.{
  PriceBitset, none_index, test, top_bit, top_index, bottom_index, highest_below, lowest_from,
  highest, lowest,
}
use trade_feed.PriceBitset.Tiers.{Summary, AreWords}
use trade_feed.PriceBitset.Writes.{IsValid}

-- One tier of a lookup: below an upper word that is not 0, the lower word at its highest bit is not
-- 0, and every lower word beyond it in the same block is.
module _ (lower upper : ℕ → ℕ) (s : Summary lower upper) (words : AreWords upper) where
  top_word : (w : ℕ) → upper w ≢ 0 → lower (w * 64 + top_bit (upper w)) ≢ 0
  unfolding top_bit
  top_word w nz e =
      ground (arith, s (w * 64 + (63 - clzll (upper w))), words w, clzll_lem (upper w))

  top_word_last : (w k : ℕ) → w * 64 + top_bit (upper w) < k → k < (w + 1) * 64 → lower k ≡ 0
  unfolding top_bit
  top_word_last w k l h = ground (arith, s k, words w, clzll_above (upper w) (k % 64))

  bottom_word : (w : ℕ) → upper w ≢ 0 → lower (w * 64 + ctzll (upper w)) ≢ 0
  bottom_word w nz e = ground (arith, s (w * 64 + ctzll (upper w)), words w, ctzll_lem (upper w))

  bottom_word_first :
      (w k : ℕ) → k < w * 64 + ctzll (upper w) → w * 64 ≤ k → upper w ≢ 0 → lower k ≡ 0
  bottom_word_first w k l h nz =
      ground (arith, s k, words w, ctzll_lem (upper w), ctzll_below (upper w) (k % 64))

  no_word : (w k : ℕ) → upper w ≡ 0 → w * 64 ≤ k → k < (w + 1) * 64 → lower k ≡ 0
  no_word w k e l h = ground (arith, s k, test_bit-zero (k % 64))

-- What a lookup promises: no index is occupied, or the result is the extreme occupied one.
abbrev pub IsHighest : PriceBitset → ℕ → Type 0
IsHighest b r =
    ((r ≡ none_index) × ((j : ℕ) → test b j ≡ false))
    ⊎ ((test b r ≡ true) × (r < price_levels) × ((j : ℕ) → r < j → test b j ≡ false))

abbrev pub IsLowest : PriceBitset → ℕ → Type 0
IsLowest b r =
    ((r ≡ none_index) × ((j : ℕ) → test b j ≡ false))
    ⊎ ((test b r ≡ true) × (r < price_levels) × ((j : ℕ) → j < r → test b j ≡ false))

module _ (b : PriceBitset) (v : IsValid b) where
  below_levels : (i : ℕ) → test b i ≡ true → i < price_levels
  below_levels i t = elim (dec_lt i price_levels) [
    | yes h ↦ h
    | no out ↦ cc (v.range i (omega arith))
  ]

  test_empty_word : (j : ℕ) → b.l0 (j / 64) ≡ 0 → test b j ≡ false
  unfolding test
  test_empty_word j e = rw e (test_bit-zero (j % 64))

  top_index-test : (w : ℕ) → b.l2 w ≢ 0 → test b (top_index b w) ≡ true
  unfolding test top_index
  top_index-test w nz =
      let w1 = w * 64 + top_bit (b.l2 w) in
      let w0 = w1 * 64 + top_bit (b.l1 w1) in
      let nz1 = top_word b.l1 b.l2 v.summary2 v.words2 w nz in
      let nz0 = top_word b.l0 b.l1 v.summary1 v.words1 w1 nz1 in
      ground (arith, v.words0 w0, clzll_lem (b.l0 w0))

  -- No index stands in a block of the middle tier whose word is 0.
  test_empty_block : (j : ℕ) → b.l1 (j / 64 / 64) ≡ 0 → test b j ≡ false
  test_empty_block j e =
      test_empty_word j
        (no_word b.l0 b.l1 v.summary1 v.words1 (j / 64 / 64) (j / 64) e (omega arith) (omega arith))

  test_empty_top : (j : ℕ) → b.l2 (j / 64 / 64 / 64) ≡ 0 → test b j ≡ false
  test_empty_top j e = test_empty_block j (
      no_word b.l1 b.l2 v.summary2 v.words2 (j / 64 / 64 / 64) (j / 64 / 64) e (omega arith)
        (omega arith))

  top_index_last :
      (w j : ℕ) → b.l2 w ≢ 0 → top_index b w < j → j < (w + 1) * 262_144 → test b j ≡ false
  unfolding top_index test
  top_index_last w j nz l h =
      let w1 = w * 64 + top_bit (b.l2 w) in
      let w0 = w1 * 64 + top_bit (b.l1 w1) in
      elim (dec_lt w1 (j / 64 / 64)) [
        | yes far ↦
            test_empty_block j
              (top_word_last b.l1 b.l2 v.summary2 v.words2 w (j / 64 / 64) far (omega arith))
        | no near ↦ elim (dec_lt w0 (j / 64)) [
          | yes far ↦
              test_empty_word j
                (top_word_last b.l0 b.l1 v.summary1 v.words1 w1 (j / 64) far (omega arith))
          | no near' ↦
              let e : j / 64 ≡ w0 = omega arith in
              rw e (clzll_above (b.l0 w0) (j % 64) (v.words0 w0) (unfold top_bit in omega arith))
        ]
      ]

  bottom_index-test : (w : ℕ) → b.l2 w ≢ 0 → test b (bottom_index b w) ≡ true
  unfolding test bottom_index
  bottom_index-test w nz =
      let w1 = w * 64 + ctzll (b.l2 w) in
      let w0 = w1 * 64 + ctzll (b.l1 w1) in
      let nz1 = bottom_word b.l1 b.l2 v.summary2 v.words2 w nz in
      let nz0 = bottom_word b.l0 b.l1 v.summary1 v.words1 w1 nz1 in
      ground (arith, v.words0 w0, ctzll_lem (b.l0 w0))

  bottom_index_first :
      (w j : ℕ) → b.l2 w ≢ 0 → w * 262_144 ≤ j → j < bottom_index b w → test b j ≡ false
  unfolding bottom_index test
  bottom_index_first w j nz h l =
      let w1 = w * 64 + ctzll (b.l2 w) in
      let w0 = w1 * 64 + ctzll (b.l1 w1) in
      let nz1 = bottom_word b.l1 b.l2 v.summary2 v.words2 w nz in
      let nz0 = bottom_word b.l0 b.l1 v.summary1 v.words1 w1 nz1 in
      elim (dec_lt (j / 64 / 64) w1) [
        | yes far ↦
            test_empty_block j
              (bottom_word_first b.l1 b.l2 v.summary2 v.words2 w (j / 64 / 64) far (omega arith) nz)
        | no near ↦ elim (dec_lt (j / 64) w0) [
          | yes far ↦
              test_empty_word j
                (bottom_word_first b.l0 b.l1 v.summary1 v.words1 w1 (j / 64) far (omega arith) nz1)
          | no near' ↦
              let (_, small) = ctzll_lem (b.l0 w0) (v.words0 w0) nz0 in
              let e : j / 64 ≡ w0 = omega arith in
              rw e (ctzll_below (b.l0 w0) (j % 64) (omega arith))
        ]
      ]

  highest_below-IsHighest :
      (n : ℕ) → ((j : ℕ) → n * 262_144 ≤ j → test b j ≡ false) → IsHighest b (highest_below b n)
  unfolding highest_below
  highest_below-IsHighest zero above = inl (refl, λ j. above j (omega arith))
  highest_below-IsHighest (suc n) above = elim (Bool-cases (b.l2 n == 0)) [
    | inl gone ↦ rw gone (
        highest_below-IsHighest n λ j h. elim (dec_lt j (suc n * 262_144)) [
          | yes l ↦
              let e : j / 64 / 64 / 64 ≡ n = omega arith in test_empty_top j (rw e (ground arith))
          | no l ↦ above j (omega arith)
        ])
    | inr more ↦ rw more (
        inr (
          top_index-test n (ground arith),
          below_levels (top_index b n) (top_index-test n (ground arith)),
          λ j h. elim (dec_lt j (suc n * 262_144)) [
            | yes l ↦ top_index_last n j (ground arith) h (omega arith)
            | no l ↦ above j (omega arith)
          ],
        ))
  ]

  lowest_from-IsLowest :
      (n w : ℕ)
      → n + w ≡ 4
      → ((j : ℕ) → j < w * 262_144 → test b j ≡ false)
      → IsLowest b (lowest_from b n w)
  unfolding lowest_from
  lowest_from-IsLowest zero w e below = inl (
    refl,
    λ j. elim (dec_lt j (w * 262_144)) [ yes l ↦ below j l | no l ↦ v.range j (omega arith) ],
  )
  lowest_from-IsLowest (suc n) w e below = elim (Bool-cases (b.l2 w == 0)) [
    | inl gone ↦ rw gone (
        lowest_from-IsLowest n (w + 1) (omega arith) λ j h. elim (dec_lt j (w * 262_144)) [
          | yes l ↦ below j l
          | no l ↦
              let e : j / 64 / 64 / 64 ≡ w = omega arith in test_empty_top j (rw e (ground arith))
        ])
    | inr more ↦ rw more (
        inr (
          bottom_index-test w (ground arith),
          below_levels (bottom_index b w) (bottom_index-test w (ground arith)),
          λ j h. elim (dec_lt j (w * 262_144)) [
            | yes l ↦ below j l
            | no l ↦ bottom_index_first w j (ground arith) (omega arith) h
          ],
        ))
  ]

  -- In a valid bitset `highest` is the greatest occupied index, and `NONE` exactly where no index
  -- is occupied.
  pub highest-IsHighest : IsHighest b (highest b)
  unfolding highest
  highest-IsHighest = highest_below-IsHighest 4 (λ j h. v.range j (omega arith))

  -- In a valid bitset `lowest` is the least occupied index, and `NONE` exactly where no index is
  -- occupied.
  pub lowest-IsLowest : IsLowest b (lowest b)
  unfolding lowest
  lowest-IsLowest = lowest_from-IsLowest 4 0 (omega arith) (λ j h. absurd (omega arith))
