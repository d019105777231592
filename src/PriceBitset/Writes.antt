-- ===== src/PriceBitset/Writes.antt =====
-- `set` and `clear` of the bitset, as writes to the set of prices that `test` reads.
use trade_feed.Prelude.{
  ℕ, ◌/◌, ◌%◌, ◌≤◌, ◌<◌, ◌≡◌, ◌≢◌, true, false, ◌==◌, if◌then◌else◌, arith, Bool-cases, inl, inr,
}
use trade_feed.Prelude.Array.{write}
use trade_feed.Types.{price_levels}
use trade_feed.Bits.{word_mod, test_bit, set_bit, clear_bit}
use trade_feed.Bits.Laws.{test_bit-set_bit, test_bit-clear_bit, set_bit-lt, clear_bit-lt}
use trade_feed.Bits.Zeros.{test_bit-zero, zero_of_bits}
use trade_feed.PriceBitset.{PriceBitset, empty_bitset, set, clear, test}
use trade_feed.PriceBitset.Tiers.{
  Summary, AreWords, Summary-set, Summary-clear, Summary-keep, AreWords-write,
}

-- The invariant of the class: words are words, a tier summarises the tier below, and no bit is
-- set at or beyond the number of price levels.
pub record IsValid (b : PriceBitset) : Type 0 where
  pub words0 : AreWords b.l0
  pub words1 : AreWords b.l1
  pub words2 : AreWords b.l2
  pub summary1 : Summary b.l0 b.l1
  pub summary2 : Summary b.l1 b.l2
  pub range : (i : ℕ) → price_levels ≤ i → test b i ≡ false

pub empty_bitset-IsValid : IsValid empty_bitset
unfolding empty_bitset test
empty_bitset-IsValid = record {
  words0 = λ w. omega arith;
  words1 = λ w. omega arith;
  words2 = λ w. omega arith;
  summary1 = λ w. test_bit-zero (w % 64);
  summary2 = λ w. test_bit-zero (w % 64);
  range = λ i _. test_bit-zero (i % 64);
}

pub test-empty_bitset : (i : ℕ) → test empty_bitset i ≡ false
unfolding empty_bitset test
test-empty_bitset i = test_bit-zero (i % 64)

-- `set(i)` adds `i` to the occupied indices.
pub test-set : (b : PriceBitset) (i j : ℕ) → test (set b i) j ≡ (if j == i then true else test b j)
unfolding test set
test-set b i j = ground (arith, test_bit-set_bit (b.l0 (i / 64)) (i % 64) (j % 64))

set_bit-ne-zero : (w k : ℕ) → set_bit w k ≢ 0
set_bit-ne-zero w k e = ground (arith, test_bit-set_bit w k k, test_bit-zero k)

-- `clear(i)` takes `i` from the occupied indices, on each of its three exits.
pub test-clear :
    (b : PriceBitset) (i j : ℕ)
    → IsValid b
    → test (clear b i) j ≡ (if j == i then false else test b j)
unfolding test clear
test-clear b i j v =
    ground (arith, v.words0 (i / 64), test_bit-clear_bit (b.l0 (i / 64)) (i % 64) (j % 64))

-- `set` keeps a bitset valid, for an index below the number of price levels.
pub set-IsValid : (b : PriceBitset) (i : ℕ) → i < price_levels → IsValid b → IsValid (set b i)
unfolding set
set-IsValid b i h v = record {
  words0 =
      AreWords-write b.l0 w0 x0 (set_bit-lt (b.l0 w0) (i % 64) (omega arith) (v.words0 w0))
        v.words0;
  words1 =
      AreWords-write b.l1 w1 x1 (set_bit-lt (b.l1 w1) (w0 % 64) (omega arith) (v.words1 w1))
        v.words1;
  words2 =
      AreWords-write b.l2 w2 _ (set_bit-lt (b.l2 w2) (w1 % 64) (omega arith) (v.words2 w2))
        v.words2;
  summary1 = Summary-set b.l0 b.l1 w0 x0 (set_bit-ne-zero _ _) v.summary1;
  summary2 = Summary-set b.l1 b.l2 w1 x1 (set_bit-ne-zero _ _) v.summary2;
  range = λ j out. ground (arith, test-set b i j, v.range j);
}
  where
    w0 : ℕ
    w0 = i / 64

    w1 : ℕ
    w1 = w0 / 64

    w2 : ℕ
    w2 = w1 / 64

    x0 : ℕ
    x0 = set_bit (b.l0 w0) (i % 64)

    x1 : ℕ
    x1 = set_bit (b.l1 w1) (w0 % 64)

-- The word that `clear` empties or leaves was not 0 where the cleared word is not.
clear_bit-ne-zero : (w k : ℕ) → k < 64 → w < word_mod → clear_bit w k ≢ 0 → w ≢ 0
clear_bit-ne-zero w k hk h nz e =
    absurd (nz (zero_of_bits (clear_bit w k) (clear_bit-lt w k hk h) bits))
  where
    bits : (j : ℕ) → j < 64 → test_bit (clear_bit w k) j ≡ false
    bits j hj = ground (arith, test_bit-clear_bit w k j hk h, test_bit-zero j)

module _ (b : PriceBitset) (i : ℕ) (v : IsValid b) where
  abbrev w0 : ℕ
  w0 = i / 64

  abbrev w1 : ℕ
  w1 = w0 / 64

  abbrev x0 : ℕ
  x0 = clear_bit (b.l0 w0) (i % 64)

  abbrev x1 : ℕ
  x1 = clear_bit (b.l1 w1) (w0 % 64)

  abbrev x2 : ℕ
  x2 = clear_bit (b.l2 (w1 / 64)) (w1 % 64)

  words0' : AreWords (write b.l0 w0 x0)
  words0' = AreWords-write b.l0 w0 x0 (clear_bit-lt _ (i % 64) (omega arith) (v.words0 w0)) v.words0

  words1' : AreWords (write b.l1 w1 x1)
  words1' =
      AreWords-write b.l1 w1 x1 (clear_bit-lt _ (w0 % 64) (omega arith) (v.words1 w1)) v.words1

  words2' : AreWords (write b.l2 (w1 / 64) x2)
  words2' =
      AreWords-write b.l2 (w1 / 64) x2 (clear_bit-lt _ (w1 % 64) (omega arith) (v.words2 (w1 / 64)))
        v.words2

  clear-range : (j : ℕ) → price_levels ≤ j → test (clear b i) j ≡ false
  clear-range j out = ground (arith, test-clear b i j v, v.range j)

  summary1' : x0 ≡ 0 → Summary (write b.l0 w0 x0) (write b.l1 w1 x1)
  summary1' e = Summary-clear b.l0 b.l1 w0 x0 e v.words1 v.summary1

  -- `clear` keeps a bitset valid on each of its three exits: a summary bit is set exactly where the
  -- word below it is not zero.
  pub clear-IsValid : IsValid (clear b i)
  clear-IsValid = elim (Bool-cases (x0 == 0)) [
    | inr more ↦ record {
      words0 = unfold clear in rw more words0';
      words1 = unfold clear in rw more v.words1;
      words2 = unfold clear in rw more v.words2;
      summary1 =
          unfold clear in
          rw more (
            Summary-keep b.l0 b.l1 w0 x0 (ground arith)
              (clear_bit-ne-zero _ (i % 64) (omega arith) (v.words0 w0) (ground arith)) v.summary1);
      summary2 = unfold clear in rw more v.summary2;
      range = clear-range;
    }
    | inl gone ↦ elim (Bool-cases (x1 == 0)) [
      | inr more ↦ record {
        words0 = unfold clear in rw (gone, more) words0';
        words1 = unfold clear in rw (gone, more) words1';
        words2 = unfold clear in rw (gone, more) v.words2;
        summary1 = unfold clear in rw (gone, more) (summary1' (ground arith));
        summary2 =
            unfold clear in
            rw (gone, more)
              (Summary-keep b.l1 b.l2 w1 x1 (ground arith)
                (clear_bit-ne-zero _ (w0 % 64) (omega arith) (v.words1 w1) (ground arith))
                v.summary2);
        range = clear-range;
      }
      | inl empty ↦ record {
        words0 = unfold clear in rw (gone, empty) words0';
        words1 = unfold clear in rw (gone, empty) words1';
        words2 = unfold clear in rw (gone, empty) words2';
        summary1 = unfold clear in rw (gone, empty) (summary1' (ground arith));
        summary2 =
            unfold clear in
            rw (gone, empty) (Summary-clear b.l1 b.l2 w1 x1 (ground arith) v.words2 v.summary2);
        range = clear-range;
      }
    ]
  ]
