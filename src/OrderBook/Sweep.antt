-- ===== src/OrderBook/Sweep.antt =====
-- Facts that the rounds over asks and over bids share.
use trade_feed.Prelude.{ℕ, ◌+◌, ◌-◌, ◌<◌, ◌≤◌, ◌≡◌, arith}
use trade_feed.Types.{Side, buy, sell, price_levels}
use trade_feed.OrderBook.State.{OrderBook}
use trade_feed.OrderBook.Trade.{SameFrame}
use trade_feed.OrderBook.State.{idx}
use trade_feed.OrderBook.Invariant.{bits}

pub idx_lem : (p : ℕ) → 0 < p → p ≤ price_levels + 1 → idx p ≡ p - 1
unfolding idx
idx_lem p h l = omega arith

pub bits_frame : {b b' : OrderBook} → SameFrame b b' → (u : Side) → bits b' u ≡ bits b u
bits_frame f buy = f.bid_bits
bits_frame f sell = f.ask_bits
