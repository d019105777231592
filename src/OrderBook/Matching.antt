-- ===== src/OrderBook/Matching.antt =====
-- `drain_level`, `match_limit` and `match_market` of src/core/order_book.cpp.
use trade_feed.Prelude.{
  ℕ, zero, suc, ◌+◌, min, Bool, true, false, not, ◌&&◌, none, some, [], ◌∷◌, ◌++◌, leb, ◌==◌,
  if◌then◌else◌,
}
use trade_feed.Prelude.Array.{write}
use trade_feed.Types.{
  Side, buy, sell, OrderType, limit, market, unnamed_type, Order, remaining, is_filled, fill, add64,
  invalid_price, max_price, price_levels,
}
use trade_feed.PriceBitset
use trade_feed.PriceBitset.{PriceBitset, empty_bitset, none_index}
use trade_feed.PriceLevel.{is_empty, adjust_down}
use trade_feed.OrderBook.State.{
  OrderBook, Fill, order, with_arena, idx, unreg, level, set_level, scan_best_bid, scan_best_ask,
  release, detach,
}

unfoldable pub make_fill : Side → Order → Order → ℕ → Fill
make_fill buy aggressor resting q = record {
  bid_id = aggressor.id;
  ask_id = resting.id;
  bid_client = aggressor.client_id;
  ask_client = resting.client_id;
  price = resting.price;
  quantity = q;
}
make_fill sell aggressor resting q = record {
  bid_id = resting.id;
  ask_id = aggressor.id;
  bid_client = resting.client_id;
  ask_client = aggressor.client_id;
  price = resting.price;
  quantity = q;
}

-- The first half of a round of `drain_level`: both orders and the level are filled, and the fill is
-- recorded.
unfoldable pub trade : OrderBook → Side → ℕ → ℕ → Side → ℕ → OrderBook
unfolding make_fill set_level
trade b s i aggressor aggressor_side resting =
    let fill_q = min (remaining (order b aggressor)) (remaining (order b resting)) in
    let a1 = write b.pool.arena aggressor (fill (order b aggressor) fill_q) in
    let a2 = write a1 resting (fill (a1 resting) fill_q) in
    let b' = set_level (with_arena b a2) s i (adjust_down (level b s i) fill_q) in
    record b' {
      fills = b.fills ++ make_fill aggressor_side (a2 aggressor) (a2 resting) fill_q ∷ [];
      match_count = add64 b.match_count 1;
    }

-- The second half: a resting order that is filled leaves the book.
unfoldable pub retire : OrderBook → Side → ℕ → ℕ → OrderBook
unfolding detach unreg
retire b s i resting =
    if is_filled (order b resting)
    then release (unreg (detach b s i resting) resting) resting
    else b

-- `drain_level` with fuel, over the level at index `i` of side `s`. A level that is not empty has a
-- front order, so the last case is not met.
unfoldable pub drain_loop : ℕ → OrderBook → Side → ℕ → ℕ → Side → OrderBook
drain_loop zero b s i aggressor aggressor_side = b
drain_loop (suc fuel) b s i aggressor aggressor_side =
    elim (not (is_empty (level b s i)) && not (is_filled (order b aggressor))) [
      | false ↦ b
      | true ↦ elim (level b s i).head [
        | some resting ↦
            drain_loop fuel (retire (trade b s i aggressor aggressor_side resting) s i resting) s i
              aggressor aggressor_side
        | none ↦ b
      ]
    ]

-- Each round but the last takes an order out of the level.
unfoldable pub drain_level : OrderBook → Side → ℕ → ℕ → Side → OrderBook
drain_level b s i aggressor aggressor_side =
    drain_loop (suc (level b s i).count) b s i aggressor aggressor_side

-- The body of the two loops over asks, and of the two over bids.
unfoldable pub sweep_ask : OrderBook → ℕ → OrderBook
sweep_ask b aggressor =
    let i = idx b.best_ask in
    let b' = drain_level b sell i aggressor buy in
    if is_empty (level b' sell (idx b'.best_ask))
    then scan_best_ask (record b' { ask_bits = PriceBitset.clear b'.ask_bits (idx b'.best_ask) })
    else b'

unfoldable pub sweep_bid : OrderBook → ℕ → OrderBook
sweep_bid b aggressor =
    let i = idx b.best_bid in
    let b' = drain_level b buy i aggressor sell in
    if is_empty (level b' buy (idx b'.best_bid))
    then scan_best_bid (record b' { bid_bits = PriceBitset.clear b'.bid_bits (idx b'.best_bid) })
    else b'

-- The loops' conditions.
unfoldable pub limit_hits_ask : OrderBook → ℕ → Bool
limit_hits_ask b o =
    not (is_filled (order b o)) && leb b.best_ask (order b o).price && leb b.best_ask max_price

unfoldable pub limit_hits_bid : OrderBook → ℕ → Bool
limit_hits_bid b o =
    not (is_filled (order b o))
    && leb (order b o).price b.best_bid
    && not (b.best_bid == invalid_price)

unfoldable pub market_hits_ask : OrderBook → ℕ → Bool
market_hits_ask b o = not (is_filled (order b o)) && leb b.best_ask max_price

unfoldable pub market_hits_bid : OrderBook → ℕ → Bool
market_hits_bid b o = not (is_filled (order b o)) && not (b.best_bid == invalid_price)

-- A matching loop with fuel, by its condition and its body.
unfoldable pub match_loop :
    (OrderBook → ℕ → Bool) → (OrderBook → ℕ → OrderBook) → ℕ → OrderBook → ℕ → OrderBook
match_loop hits sweep zero b o = b
match_loop hits sweep (suc fuel) b o = elim (hits b o) [
  | true ↦ match_loop hits sweep fuel (sweep b o) o
  | false ↦ b
]

-- Each round but the last moves the best price to another level.
abbrev pub match_fuel : ℕ
match_fuel = price_levels + 1

unfoldable pub match_limit : OrderBook → ℕ → OrderBook
match_limit b o = elim (order b o).side [
  | buy ↦ match_loop limit_hits_ask sweep_ask match_fuel b o
  | sell ↦ match_loop limit_hits_bid sweep_bid match_fuel b o
]

unfoldable pub match_market : OrderBook → ℕ → OrderBook
match_market b o = elim (order b o).side [
  | buy ↦ match_loop market_hits_ask sweep_ask match_fuel b o
  | sell ↦ match_loop market_hits_bid sweep_bid match_fuel b o
]

unfoldable pub match_order : OrderBook → OrderType → ℕ → OrderBook
match_order b market o = match_market b o
match_order b (unnamed_type _) o = match_limit b o
match_order b limit o = match_limit b o
