-- ===== src/PriceBitset/Tiers.antt =====
-- Two neighbouring tiers of the bitset, apart from the third.
use trade_feed.Prelude.{ℕ, ◌/◌, ◌%◌, ◌<◌, ◌≡◌, ◌≢◌, not, ◌==◌, arith}
use trade_feed.Prelude.Array.{write}
use trade_feed.Bits.{word_mod, test_bit, set_bit, clear_bit}
use trade_feed.Bits.Laws.{test_bit-set_bit, test_bit-clear_bit}

-- An upper bit is set exactly when its lower word is not 0.
abbrev pub Summary : (ℕ → ℕ) → (ℕ → ℕ) → Type 0
Summary lower upper = (w : ℕ) → test_bit (upper (w / 64)) (w % 64) ≡ not (lower w == 0)

abbrev pub AreWords : (ℕ → ℕ) → Type 0
AreWords a = (w : ℕ) → a w < word_mod

module _ (lower upper : ℕ → ℕ) where
  pub Summary-set :
      (w x : ℕ)
      → x ≢ 0
      → Summary lower upper
      → Summary (write lower w x) (write upper (w / 64) (set_bit (upper (w / 64)) (w % 64)))
  Summary-set w x nz s v = ground (arith, s v, test_bit-set_bit (upper (w / 64)) (w % 64) (v % 64))

  pub Summary-clear :
      (w x : ℕ)
      → x ≡ 0
      → AreWords upper
      → Summary lower upper
      → Summary (write lower w x) (write upper (w / 64) (clear_bit (upper (w / 64)) (w % 64)))
  Summary-clear w x z words s v =
      ground (arith, s v, words (w / 64), test_bit-clear_bit (upper (w / 64)) (w % 64) (v % 64))

  pub Summary-keep :
      (w x : ℕ) → x ≢ 0 → lower w ≢ 0 → Summary lower upper → Summary (write lower w x) upper
  Summary-keep w x nz nz' s v = ground (arith, s v)

pub AreWords-write : (a : ℕ → ℕ) (w x : ℕ) → x < word_mod → AreWords a → AreWords (write a w x)
AreWords-write a w x h words v = ground (arith, words v)
