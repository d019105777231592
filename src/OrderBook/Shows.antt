-- ===== src/OrderBook/Shows.antt =====
-- How the bitsets follow the levels when one level changes.
use trade_feed.Prelude.{
  ℕ, ◌<◌, ◌≡◌, ◌≢◌, refl, ◌⊎◌, inl, inr, arith, sym, ◌∙◌, not, ℕ_discrete, subst, false, true,
}
use trade_feed.Types.{Side, buy, sell, price_levels}
use trade_feed.PriceLevel.{is_empty}
use trade_feed.OrderBook.State.{OrderBook, level}
use trade_feed.OrderBook.Invariant.{Apart}
use trade_feed.PriceBitset.{test, set, clear}
use trade_feed.PriceBitset.Writes.{IsValid, test-set, test-clear, set-IsValid, clear-IsValid}
use trade_feed.OrderBook.Invariant.{ShowsLevels, bits}

pub Side-cases : (s t : Side) → (s ≡ t) ⊎ (s ≢ t)
Side-cases buy buy = inl refl
Side-cases buy sell = inr (λ e. cc)
Side-cases sell buy = inr (λ e. cc)
Side-cases sell sell = inl refl

pub place_cases : (u s : Side) (j i : ℕ) → ((u ≡ s) × (j ≡ i)) ⊎ Apart u j s i
place_cases u s j i = elim (Side-cases u s) [
  | inr ne ↦ inr (λ e _. ne e)
  | inl e ↦ elim (ℕ_discrete j i) [ yes f ↦ inl (e, f) | no ne ↦ inr (λ _ f. ne f) ]
]

-- The best prices are no part of the bitsets.
pub requote_bits :
    (b : OrderBook) (bid ask : ℕ) (u : Side)
    → bits (record b { best_bid = bid; best_ask = ask }) u ≡ bits b u
requote_bits b bid ask buy = refl
requote_bits b bid ask sell = refl

pub shows_same :
    (b b' : OrderBook)
    → ShowsLevels b
    → ((u : Side) → bits b' u ≡ bits b u)
    → ((u : Side) (j : ℕ) → level b' u j ≡ level b u j)
    → ShowsLevels b'
shows_same b b' w e f = record {
  valid = λ u. rw (e u) (w.valid u);
  shows = λ u j. rw (e u, f u j) (w.shows u j);
}

module _ (b b' : OrderBook) (s : Side) (i : ℕ) (w : ShowsLevels b)
    (elsewhere : (u : Side) (j : ℕ) → Apart u j s i → level b' u j ≡ level b u j) where
  pub shows_update :
      ((u : Side) → IsValid (bits b' u))
      → ((u : Side) (j : ℕ) → Apart u j s i → test (bits b' u) j ≡ test (bits b u) j)
      → test (bits b' s) i ≡ not (is_empty (level b' s i))
      → ShowsLevels b'
  shows_update valid others here = record {
    valid = valid;
    shows = λ u j. elim (place_cases u s j i) [
      | inl (e, f) ↦
          subst (λ t. test (bits b' t) j ≡ not (is_empty (level b' t j))) (sym e)
            (subst (λ k. test (bits b' s) k ≡ not (is_empty (level b' s k))) (sym f) here)
      | inr apart ↦ rw (others u j apart, elsewhere u j apart) (w.shows u j)
    ];
  }

  -- The level was shown, and is still not empty.
  pub shows_kept :
      ((u : Side) → bits b' u ≡ bits b u)
      → test (bits b s) i ≡ true
      → is_empty (level b' s i) ≡ false
      → ShowsLevels b'
  shows_kept same shown more =
      shows_update (λ u. rw (same u) (w.valid u)) (λ u j apart. rw (same u))
        (rw (same s, more) shown)

  module _ (same : (u : Side) → u ≢ s → bits b' u ≡ bits b u) where
    IsValid-other : IsValid (bits b' s) → (u : Side) → IsValid (bits b' u)
    IsValid-other v u = elim (Side-cases u s) [
      | inl e ↦ rw e v
      | inr ne ↦ rw (same u ne) (w.valid u)
    ]

    by_side :
        ((j : ℕ) → j ≢ i → test (bits b' s) j ≡ test (bits b s) j)
        → (u : Side) (j : ℕ) → Apart u j s i
        → test (bits b' u) j ≡ test (bits b u) j
    by_side h u j apart = elim (Side-cases u s) [
      | inl e ↦ rw e (h j (apart e))
      | inr ne ↦ rw (same u ne)
    ]

    -- The level is empty, and its bit was cleared.
    pub shows_cleared :
        bits b' s ≡ clear (bits b s) i → is_empty (level b' s i) ≡ true → ShowsLevels b'
    shows_cleared e gone =
        shows_update (IsValid-other (rw e (clear-IsValid (bits b s) i (w.valid s))))
          (by_side λ j ne. rw e (test-clear (bits b s) i j (w.valid s) ∙ ground arith))
          (rw (e, gone) (test-clear (bits b s) i i (w.valid s) ∙ ground arith))

    -- The level is not empty, and its bit was set.
    pub shows_set :
        i < price_levels
        → bits b' s ≡ set (bits b s) i
        → is_empty (level b' s i) ≡ false
        → ShowsLevels b'
    shows_set small e more =
        shows_update (IsValid-other (rw e (set-IsValid (bits b s) i small (w.valid s))))
          (by_side λ j ne. rw e (test-set (bits b s) i j ∙ ground arith))
          (rw (e, more) (test-set (bits b s) i i ∙ ground arith))
