-- ===== src/OrderBook/Match.antt =====
-- `match_limit` and `match_market`: the loops end by their conditions and keep the book sound.
use trade_feed.Prelude.{
  ℕ, ◌+◌, ◌-◌, ◌<◌, ◌≤◌, ◌≡◌, refl, ◌⊎◌, inl, inr, [], ◌∷◌, arith, Bool, false, true, Bool-cases,
  suc, zero,
}
use trade_feed.Types.{Side, buy, sell, price_levels, is_filled}
use trade_feed.OrderBook.State.{OrderBook, order}
use trade_feed.OrderBook.Invariant.{Queues, SameOrder, SameOrder-eq}
use trade_feed.OrderBook.Matching.{sweep_ask, sweep_bid}
use trade_feed.OrderBook.Round.{SameOrder-trans}
use trade_feed.OrderBook.Sweep.{idx_lem}
use trade_feed.OrderBook.State.{idx}
use trade_feed.OrderBook.Priority.{Accepts, AnyPrice, stop}
use trade_feed.OrderBook.Best.{Traded, Traded-trans, Crosses-TradesAt, bids_above, asks_below}
use trade_feed.OrderBook.Invariant.{IsSound}
use trade_feed.OrderBook.SweepAsk.{sweep_ask-Swept}
use trade_feed.OrderBook.SweepBid.{sweep_bid-Swept}
use trade_feed.OrderBook.Matching.{
  match_loop, match_fuel, match_limit, match_market, limit_hits_ask, limit_hits_bid,
  market_hits_ask, market_hits_bid,
}

-- What a round of a loop gives: a sound book, the same aggressor, trades by priority, and an aggressor
-- that is filled or a measure that fell.
abbrev RoundOf :
    Side → (ℕ → ℕ → Type 0) → (OrderBook → ℕ) → OrderBook → Queues → ℕ → OrderBook → Type 0
RoundOf t ok measure b q g b' =
    (q' : Queues) × IsSound b' q' (g ∷ [])
    × SameOrder (order b' g) (order b g)
    × Traded t ok b q g b' q'
    × ((is_filled (order b' g) ≡ true) ⊎ (measure b' < measure b))

-- What the whole loop gives: trades by priority, until its condition failed.
abbrev pub StoppedAt :
    Side → (ℕ → ℕ → Type 0) → (OrderBook → ℕ → Bool) → OrderBook → Queues → ℕ → OrderBook → Type 0
StoppedAt t ok hits b q g b' =
    (q' : Queues) × IsSound b' q' (g ∷ [])
    × SameOrder (order b' g) (order b g)
    × Traded t ok b q g b' q'
    × (hits b' g ≡ false)

module _ (t : Side) (ok : ℕ → ℕ → Type 0) (hits : OrderBook → ℕ → Bool)
    (sweep : OrderBook → ℕ → OrderBook) (measure : OrderBook → ℕ)
    (filled_stops : (b : OrderBook) (g : ℕ) → is_filled (order b g) ≡ true → hits b g ≡ false)
    (round : (b : OrderBook) (q : Queues) (g : ℕ)
      → IsSound b q (g ∷ [])
      → hits b g ≡ true
      → RoundOf t ok measure b q g (sweep b g)) where
  match_loop_done :
      (fuel : ℕ) (b : OrderBook) (g : ℕ) → hits b g ≡ false → match_loop hits sweep fuel b g ≡ b
  unfolding match_loop
  match_loop_done zero b g e = refl
  match_loop_done (suc fuel) b g e = rw (e, match_loop)

  match_loop-Stopped :
      (fuel : ℕ) (b : OrderBook) (q : Queues) (g : ℕ)
      → IsSound b q (g ∷ [])
      → measure b < fuel
      → StoppedAt t ok hits b q g (match_loop hits sweep fuel b g)
  unfolding match_loop
  match_loop-Stopped zero b q g v h = absurd (omega arith)
  match_loop-Stopped (suc fuel) b q g v h = elim (Bool-cases (hits b g)) [
    | inr halt ↦ rw (halt, match_loop) (q, v, SameOrder-eq _ _ refl, stop, halt)
    | inl more ↦
        let (q1, w, same, traded, progress) = round b q g v more in
        rw (more, match_loop)
          (elim progress [
            | inl filled ↦
                let halt = filled_stops (sweep b g) g filled in
                rw (match_loop_done fuel (sweep b g) g halt) (q1, w, same, traded, halt)
            | inr less ↦
                let (q2, w2, same2, traded2, halt) =
                  match_loop-Stopped fuel (sweep b g) q1 g w (omega arith) in
                (
                  q2,
                  w2,
                  SameOrder-trans same2 same,
                  Traded-trans t ok b q g (sweep b g) q1 (match_loop hits sweep fuel (sweep b g) g)
                      q2 same traded traded2,
                  halt,
                )
          ])
  ]

abbrev asks_left : OrderBook → ℕ
asks_left b = price_levels + 1 - b.best_ask

ask_round :
    (ok : ℕ → ℕ → Type 0) (b : OrderBook) (q : Queues) (g : ℕ)
    → IsSound b q (g ∷ [])
    → b.best_ask ≤ price_levels
    → ok (order b g).price (b.best_ask - 1)
    → RoundOf buy ok asks_left b q g (sweep_ask b g)
ask_round ok b q g v h good =
    let (q', w) = sweep_ask-Swept b q g v h in
    let at = idx_lem b.best_ask v.ask_top.positive (omega arith) in
    (
      q',
      w.sound,
      w.aggressor,
      Crosses-TradesAt _ sell (ok (order b g).price) (idx b.best_ask) (rw at good)
          (λ j less. asks_below b q (g ∷ []) j v (omega (arith, rw at at less))) w.trades,
      elim w.progress [ inl f ↦ inl f | inr l ↦ inr (omega (arith, w.sound.ask_top.range)) ],
    )

bid_round :
    (ok : ℕ → ℕ → Type 0) (b : OrderBook) (q : Queues) (g : ℕ)
    → IsSound b q (g ∷ [])
    → 0 < b.best_bid
    → ok (order b g).price (b.best_bid - 1)
    → RoundOf sell ok (λ c. c.best_bid) b q g (sweep_bid b g)
bid_round ok b q g v h good =
    let (q', w) = sweep_bid-Swept b q g v h in
    let at = idx_lem b.best_bid h (omega (arith, v.bid_top.range)) in
    (
      q',
      w.sound,
      w.aggressor,
      Crosses-TradesAt _ buy (ok (order b g).price) (idx b.best_bid) (rw at good)
          (λ j less. bids_above b q (g ∷ []) j v (omega (arith, rw at at less))) w.trades,
      w.progress,
    )

-- Where a limit order's loop stops.
abbrev pub limit_hits : Side → OrderBook → ℕ → Bool
limit_hits buy = limit_hits_ask
limit_hits sell = limit_hits_bid

abbrev pub market_hits : Side → OrderBook → ℕ → Bool
market_hits buy = market_hits_ask
market_hits sell = market_hits_bid

-- In a sound book that holds an order of side `s`, `match_limit` has fuel enough to run until its
-- condition fails: the order is filled, its price does not reach the best price, or the other side
-- is empty. The book is then sound, what happened is trades by price-time priority at prices that
-- the order accepts, and the order's side, price, quantity and identity are as before.
pub match_limit-Stopped :
    (b : OrderBook) (q : Queues) (g : ℕ) (s : Side)
    → (order b g).side ≡ s
    → IsSound b q (g ∷ [])
    → StoppedAt s (Accepts s) (limit_hits s) b q g (match_limit b g)
unfolding match_limit limit_hits_ask limit_hits_bid
match_limit-Stopped b q g buy e v =
    rw (e, match_limit)
      (match_loop-Stopped buy (Accepts buy) limit_hits_ask sweep_ask asks_left (λ b g f. rw f)
        (λ b q g w h.
          ask_round (Accepts buy) b q g w (ground arith)
            (let pos = w.ask_top.positive in ground arith))
        match_fuel b q g v (omega (arith, v.ask_top.positive)))
match_limit-Stopped b q g sell e v =
    rw (e, match_limit)
      (match_loop-Stopped sell (Accepts sell) limit_hits_bid sweep_bid (λ c. c.best_bid)
        (λ b g f. rw f)
        (λ b q g w h. bid_round (Accepts sell) b q g w (ground arith) (ground arith)) match_fuel b q
        g v (omega (arith, v.bid_top.range)))

-- In a sound book that holds an order of side `s`, `match_market` has fuel enough to run until its
-- condition fails: the order is filled or the other side is empty. The book is then sound, what
-- happened is trades by price-time priority, and the order's side, price, quantity and identity are
-- as before.
pub match_market-Stopped :
    (b : OrderBook) (q : Queues) (g : ℕ) (s : Side)
    → (order b g).side ≡ s
    → IsSound b q (g ∷ [])
    → StoppedAt s AnyPrice (market_hits s) b q g (match_market b g)
unfolding match_market market_hits_ask market_hits_bid
match_market-Stopped b q g buy e v =
    rw (e, match_market)
      (match_loop-Stopped buy AnyPrice market_hits_ask sweep_ask asks_left (λ b g f. rw f)
        (λ b q g w h. ask_round AnyPrice b q g w (ground arith) tt) match_fuel b q g v
        (omega (arith, v.ask_top.positive)))
match_market-Stopped b q g sell e v =
    rw (e, match_market)
      (match_loop-Stopped sell AnyPrice market_hits_bid sweep_bid (λ c. c.best_bid) (λ b g f. rw f)
        (λ b q g w h. bid_round AnyPrice b q g w (ground arith) tt) match_fuel b q g v
        (omega (arith, v.bid_top.range)))
