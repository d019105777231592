-- ===== src/OrderBook/Orders.antt =====
-- `add_order`, `cancel_order` and `modify_order` of src/core/order_book.cpp.
use trade_feed.Prelude.{ℕ, Bool, true, false, not, ◌&&◌, ◌||◌, none, some, ltb, ◌==◌, if◌then◌else◌}
use trade_feed.Prelude.Array.{write}
use trade_feed.Types.{
  Side, buy, sell, OrderType, limit, market, unnamed_type, Order, is_filled, min_price, max_price,
}
use trade_feed.PriceBitset
use trade_feed.PriceBitset.{PriceBitset, empty_bitset, none_index}
use trade_feed.PriceLevel.{is_empty}
use trade_feed.OrderPool
use trade_feed.OrderPool.{OrderPool}
use trade_feed.OrderBook.State.{
  OrderBook, order, idx, lookup, reg, unreg, scan_best_bid, scan_best_ask, release, detach, attach,
}
use trade_feed.OrderBook.Matching.{match_order}

unfoldable pub is_limit : OrderType → Bool
is_limit limit = true
is_limit market = false
is_limit (unnamed_type _) = false

unfoldable pub rest_bid : OrderBook → ℕ → ℕ → OrderBook
rest_bid b price o =
    let i = idx price in
    let bits = if is_empty (b.bids i) then PriceBitset.set b.bid_bits i else b.bid_bits in
    let b' = attach (record b { bid_bits = bits }) buy i o in
    record b' { best_bid = if ltb b.best_bid price then price else b.best_bid }

unfoldable pub rest_ask : OrderBook → ℕ → ℕ → OrderBook
rest_ask b price o =
    let i = idx price in
    let bits = if is_empty (b.asks i) then PriceBitset.set b.ask_bits i else b.ask_bits in
    let b' = attach (record b { ask_bits = bits }) sell i o in
    record b' { best_ask = if ltb price b.best_ask then price else b.best_ask }

-- The arguments of `add_order`.
pub record NewOrder : Type 0 where
  pub id : ℕ
  pub client : ℕ
  pub side : Side
  pub type : OrderType
  pub price : ℕ
  pub qty : ℕ
  pub ts : ℕ

abbrev pub fresh_order : NewOrder → Order
fresh_order n = record {
  price = n.price;
  quantity = n.qty;
  filled_qty = 0;
  side = n.side;
  type = n.type;
  prev = none;
  next = none;
  id = n.id;
  client_id = n.client;
  timestamp = n.ts;
}

unfoldable pub rest_order : OrderBook → Side → ℕ → ℕ → OrderBook
rest_order b buy price o = rest_bid b price o
rest_order b sell price o = rest_ask b price o

-- What `add_order` does with the order after matching: it rests, or its slot is freed.
unfoldable pub settle : OrderBook → NewOrder → ℕ → OrderBook
unfolding rest_order unreg
settle b n o =
    if not (is_filled (order b o)) && is_limit n.type
    then rest_order b n.side n.price o
    else release (unreg b o) o

-- `add_order` after its guards, at the slot that the pool handed out.
unfoldable pub place : OrderBook → OrderPool → NewOrder → ℕ → OrderBook
unfolding reg match_order settle
place b pool n o =
    let b1 = record b { pool = record pool { arena = write pool.arena o (fresh_order n) } } in
    settle (match_order (reg b1 o) n.type o) n o

unfoldable pub add_order : OrderBook → NewOrder → OrderBook × Bool
add_order b n =
    if OrderPool.available b.pool == 0
    then (b, false)
    else if is_limit n.type && (ltb n.price min_price || ltb max_price n.price)
    then (b, false)
    else elim (OrderPool.allocate b.pool) [
      | none ↦ (b, false)
      | some (o, pool) ↦ (place b pool n o, true)
    ]

-- `cancel_order` of the order `o`, on the side where it rests.
unfoldable pub cancel_bid : OrderBook → ℕ → OrderBook
unfolding detach
cancel_bid b o =
    let p = (order b o).price in
    let b1 = detach b buy (idx p) o in
    let b2 = record b1 { bid_bits = PriceBitset.clear b1.bid_bits (idx p) } in
    if is_empty (b1.bids (idx p)) then (if p == b2.best_bid then scan_best_bid b2 else b2) else b1

unfoldable pub cancel_ask : OrderBook → ℕ → OrderBook
unfolding detach
cancel_ask b o =
    let p = (order b o).price in
    let b1 = detach b sell (idx p) o in
    let b2 = record b1 { ask_bits = PriceBitset.clear b1.ask_bits (idx p) } in
    if is_empty (b1.asks (idx p)) then (if p == b2.best_ask then scan_best_ask b2 else b2) else b1

unfoldable pub cancel_at : OrderBook → Side → ℕ → OrderBook
cancel_at b buy o = cancel_bid b o
cancel_at b sell o = cancel_ask b o

unfoldable pub cancel_order : OrderBook → ℕ → OrderBook × Bool
unfolding cancel_at unreg
cancel_order b id = elim (lookup b id) [
  | none ↦ (b, false)
  | some o ↦ (release (unreg (cancel_at b (order b o).side o) o) o, true)
]

unfoldable pub modify_order : OrderBook → ℕ → ℕ → ℕ → ℕ → OrderBook × Bool
modify_order b id new_price new_qty ts = elim (lookup b id) [
  | none ↦ (b, false)
  | some o ↦ add_order (cancel_order b id).0 (record {
    id = id;
    client = (order b o).client_id;
    side = (order b o).side;
    type = limit;
    price = new_price;
    qty = new_qty;
    ts = ts;
  })
]
