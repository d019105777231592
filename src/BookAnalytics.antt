-- ===== src/BookAnalytics.antt =====
-- src/analytics/book_analytics.h, as far as it is on integers: the spread and the depths.
pub mod Double
pub mod Vpin
pub mod Window
use trade_feed.Prelude.{
  ℕ, zero, suc, ◌+◌, ◌<◌, ◌≤◌, ◌≡◌, ◌≢◌, refl, true, false, inl, inr, ◌⊎◌, ◌||◌, arith, ltb, leb,
  ◌==◌, if◌then◌else◌,
}
use trade_feed.Types.{add32, sub32, invalid_price, min_price, max_price}
use trade_feed.OrderBook.State.{OrderBook, bid_qty_at, ask_qty_at}
use trade_feed.OrderBook.Add.{SoundBook}

unfoldable pub spread : OrderBook → ℕ
spread b =
    if b.best_bid == invalid_price || ltb max_price b.best_ask
    then 0
    else sub32 b.best_ask b.best_bid

-- The loops over levels, with the rounds left, the price and the total.
unfoldable pub bid_depth_loop : OrderBook → ℕ → ℕ → ℕ → ℕ
unfolding bid_qty_at
bid_depth_loop b zero p total = total
bid_depth_loop b (suc n) p total =
    let total' = add32 total (bid_qty_at b p) in
    let rest = bid_depth_loop b n (sub32 p 1) total' in
    if leb min_price p then (if p == min_price then total' else rest) else total

unfoldable pub bid_depth : OrderBook → ℕ → ℕ
unfolding bid_depth_loop
bid_depth b levels = bid_depth_loop b levels b.best_bid 0

unfoldable pub ask_depth_loop : OrderBook → ℕ → ℕ → ℕ → ℕ
unfolding ask_qty_at
ask_depth_loop b zero p total = total
ask_depth_loop b (suc n) p total =
    let rest = ask_depth_loop b n (add32 p 1) (add32 total (ask_qty_at b p)) in
    if leb p max_price then rest else total

unfoldable pub ask_depth : OrderBook → ℕ → ℕ
unfolding ask_depth_loop
ask_depth b levels = ask_depth_loop b levels b.best_ask 0

-- In a sound book the spread is 0 where a side is empty; where neither is, it is positive and the
-- distance from the best bid to the best ask, with no wrap.
pub spread-SoundBook :
    (b : OrderBook)
    → SoundBook b
    → ((b.best_bid ≡ invalid_price) ⊎ (max_price < b.best_ask) → spread b ≡ 0)
      × (b.best_bid ≢ invalid_price
          → b.best_ask ≤ max_price
          → (0 < spread b) × (b.best_bid + spread b ≡ b.best_ask))
unfolding spread
spread-SoundBook b (q, v) = (
  λ empty. elim empty [
    | inl e ↦ let hit : (b.best_bid == invalid_price) ≡ true = ground (arith, e) in rw hit refl
    | inr e ↦ ground (arith, e)
  ],
  λ some_bid some_ask.
      let bid : (b.best_bid == invalid_price) ≡ false = ground (arith, some_bid) in
      let ask : ltb max_price b.best_ask ≡ false = ground (arith, some_ask) in
      rw (bid, ask)
        (omega (arith, v.uncrossed, v.ask_top.range), omega (arith, v.uncrossed, v.ask_top.range)),
)
