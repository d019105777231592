-- ===== src/OrderBook/Spent.antt =====
-- `match_order` trades by price-time priority until nothing is left to trade.
use trade_feed.Prelude.{
  ℕ, ◌+◌, ◌<◌, ◌≤◌, ◌≡◌, refl, ◌⊎◌, inl, inr, List, [], ◌∷◌, arith, ap, false, true, Bool-cases,
  map, dec_lt, subst, sym,
}
use trade_feed.Types.{
  Side, buy, sell, OrderType, limit, market, unnamed_type, price_levels, is_filled,
}
use trade_feed.PriceLevel.Chain.{In}
use trade_feed.OrderBook.State.{OrderBook, order}
use trade_feed.OrderBook.Invariant.{Queues, IsSound, SameOrder}
use trade_feed.OrderBook.Matching.{
  match_order, limit_hits_ask, limit_hits_bid, market_hits_ask, market_hits_bid,
}
use trade_feed.OrderBook.Priority.{Accepts, AnyPrice, opposite, IsSpent}
use trade_feed.OrderBook.Trace
use trade_feed.OrderBook.Trace.{view, taker, entry, remaining-filled}
use trade_feed.OrderBook.Best.{Traded, bids_above, asks_below}
use trade_feed.OrderBook.Match.{
  StoppedAt, limit_hits, market_hits, match_limit-Stopped, match_market-Stopped,
}

-- No queue is off the grid.
view_off_grid :
    (b : OrderBook) (q : Queues) (held : List ℕ) (s : Side) (j : ℕ)
    → IsSound b q held
    → price_levels ≤ j
    → view b q s j ≡ []
view_off_grid b q held s j v far = ap (map λ x. entry (order b x)) (none_of (q s j) refl)
  where
    none_of : (xs : List ℕ) → q s j ≡ xs → q s j ≡ []
    none_of [] e = e
    none_of (x ∷ xs) e =
        let r = v.book.rests s j x (subst (In x) (sym e) (inl refl)) in
        absurd (omega (arith, r.in_range))

abbrev pub Bound : OrderType → Side → ℕ → ℕ → Type 0
Bound limit s = Accepts s
Bound market s = AnyPrice
Bound (unnamed_type _) s = Accepts s

module _ (b : OrderBook) (q : Queues) (g : ℕ) (v : IsSound b q (g ∷ [])) where
  filled_left : is_filled (order b g) ≡ true → (Trace.market b q g).left ≡ 0
  filled_left = remaining-filled (order b g) (v.book.held_open g (inl refl))

  no_asks : (j : ℕ) → (j + 1 < b.best_ask) ⊎ (price_levels < b.best_ask) → view b q sell j ≡ []
  no_asks j (inl h) = asks_below b q (g ∷ []) j v h
  no_asks j (inr h) = elim (dec_lt (j + 1) b.best_ask) [
    | yes low ↦ asks_below b q (g ∷ []) j v low
    | no high ↦ view_off_grid b q (g ∷ []) sell j v (omega arith)
  ]

  limit-IsSpent :
      (s : Side)
      → limit_hits s b g ≡ false
      → IsSpent (opposite s) (Accepts s (order b g).price) (Trace.market b q g)
  unfolding limit_hits_ask limit_hits_bid
  limit-IsSpent s halt = elim (Bool-cases (is_filled (order b g))) [
    | inl filled ↦ inl (filled_left filled)
    | inr open_ ↦ inr (by_side s halt open_)
  ]
    where
      by_side :
          (s : Side)
          → limit_hits s b g ≡ false
          → is_filled (order b g) ≡ false
          → (i : ℕ) → Accepts s (order b g).price i
          → view b q (opposite s) i ≡ []
      by_side buy halt open_ i ok = no_asks i (ground arith)
      by_side sell halt open_ i ok = bids_above b q (g ∷ []) i v (ground arith)

  market-IsSpent :
      (s : Side)
      → market_hits s b g ≡ false
      → IsSpent (opposite s) (AnyPrice (order b g).price) (Trace.market b q g)
  unfolding market_hits_ask market_hits_bid
  market-IsSpent s halt = elim (Bool-cases (is_filled (order b g))) [
    | inl filled ↦ inl (filled_left filled)
    | inr open_ ↦ inr (by_side s halt open_)
  ]
    where
      by_side :
          (s : Side)
          → market_hits s b g ≡ false
          → is_filled (order b g) ≡ false
          → (i : ℕ) → AnyPrice (order b g).price i
          → view b q (opposite s) i ≡ []
      by_side buy halt open_ i ok = no_asks i (inr (ground arith))
      by_side sell halt open_ i ok = bids_above b q (g ∷ []) i v (ground arith)

-- What matching the order `g` of side `s` does, as a market.
abbrev pub MatchedBy : OrderType → Side → OrderBook → Queues → ℕ → OrderBook → Type 0
MatchedBy t s b q g b' =
    (q' : Queues) × IsSound b' q' (g ∷ [])
    × SameOrder (order b' g) (order b g)
    × Traded s (Bound t s) b q g b' q'
    × IsSpent (opposite s) (Bound t s (order b g).price) (Trace.market b' q' g)

limit_matched :
    (s : Side) (b : OrderBook) (q : Queues) (g : ℕ) (b' : OrderBook)
    → StoppedAt s (Accepts s) (limit_hits s) b q g b'
    → MatchedBy limit s b q g b'
limit_matched s b q g b' (q', w, same, traded, halt) = (
  q',
  w,
  same,
  traded,
  subst (λ p. IsSpent (opposite s) (Accepts s p) (Trace.market b' q' g)) same.price
      (limit-IsSpent b' q' g w s halt),
)

-- Matching an order against a sound book that holds it is a sequence of trades by price-time
-- priority, and it ends when nothing is left to trade.
pub match_order-MatchedBy :
    (b : OrderBook) (q : Queues) (g : ℕ) (t : OrderType) (s : Side)
    → (order b g).side ≡ s
    → IsSound b q (g ∷ [])
    → MatchedBy t s b q g (match_order b t g)
unfolding match_order
match_order-MatchedBy b q g limit s e v = limit_matched s b q g _ (match_limit-Stopped b q g s e v)
match_order-MatchedBy b q g (unnamed_type _) s e v =
    limit_matched s b q g _ (match_limit-Stopped b q g s e v)
match_order-MatchedBy b q g market s e v =
    let (q', w, same, traded, halt) = match_market-Stopped b q g s e v in
    (q', w, same, traded, market-IsSpent _ q' g w s halt)

-- The loop of a limit order ends by its condition.
pub match_order-halts :
    (b : OrderBook) (q : Queues) (g : ℕ) (t : OrderType) (s : Side)
    → (order b g).side ≡ s
    → IsSound b q (g ∷ [])
    → t ≡ limit
    → limit_hits s (match_order b t g) g ≡ false
unfolding match_order
match_order-halts b q g limit s e v _ = (match_limit-Stopped b q g s e v).4
match_order-halts b q g (unnamed_type _) s e v _ = (match_limit-Stopped b q g s e v).4
match_order-halts b q g market s e v is = absurd (ground arith)
