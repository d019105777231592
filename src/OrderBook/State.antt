-- ===== src/OrderBook/State.antt =====
-- The fields of src/core/order_book.h, its accessors, and the small steps that the operations of
-- src/core/order_book.cpp are made of. A pointer to an order is an index of the pool's arena, and
-- a reference to a level is its side of the book and its index.
use trade_feed.Prelude.{ℕ, ◌+◌, ◌%◌, none, some, List, [], ◌==◌, if◌then◌else◌}
use trade_feed.Prelude.Array.{write}
use trade_feed.Types.{
  Side, buy, sell, Order, Pointer, sub32, add64, sub64, u32_mod, invalid_price, min_price,
  max_price, max_orders,
}
use trade_feed.PriceBitset
use trade_feed.PriceBitset.{PriceBitset, empty_bitset, none_index}
use trade_feed.PriceLevel
use trade_feed.PriceLevel.{PriceLevel, Arena, empty_level, is_empty, adjust_down}
use trade_feed.OrderPool
use trade_feed.OrderPool.{OrderPool}

pub record Fill : Type 0 where
  pub bid_id : ℕ
  pub ask_id : ℕ
  pub bid_client : ℕ
  pub ask_client : ℕ
  pub price : ℕ
  pub quantity : ℕ

pub record OrderBook : Type 0 where
  pub bids : ℕ → PriceLevel
  pub asks : ℕ → PriceLevel
  pub order_table : ℕ → Pointer
  pub pool : OrderPool
  pub bid_bits : PriceBitset
  pub ask_bits : PriceBitset
  pub best_bid : ℕ
  pub best_ask : ℕ
  pub match_count : ℕ
  pub fills : List Fill
  pub scan_calls : ℕ

unfoldable pub make : ℕ → OrderBook
make pool_capacity = record {
  bids = λ _. empty_level;
  asks = λ _. empty_level;
  order_table = λ _. none;
  pool = OrderPool.make pool_capacity;
  bid_bits = empty_bitset;
  ask_bits = empty_bitset;
  best_bid = invalid_price;
  best_ask = max_price + 1;
  match_count = 0;
  fills = [];
  scan_calls = 0;
}

-- The order that a pointer leads to, and the book after it was written.
abbrev pub order : OrderBook → ℕ → Order
order b o = b.pool.arena o

abbrev pub with_arena : OrderBook → Arena → OrderBook
with_arena b a = record b { pool = record (b.pool) { arena = a } }

-- `p - MIN_PRICE` is taken on `uint32_t`.
unfoldable pub idx : ℕ → ℕ
idx p = sub32 p min_price

unfoldable pub lookup : OrderBook → ℕ → Pointer
lookup b id = elim (b.order_table (id % max_orders)) [
  | none ↦ none
  | some o ↦ if (order b o).id == id then some o else none
]

unfoldable pub reg : OrderBook → ℕ → OrderBook
reg b o = record b { order_table = write b.order_table ((order b o).id % max_orders) (some o) }

unfoldable pub unreg : OrderBook → ℕ → OrderBook
unreg b o = record b { order_table = write b.order_table ((order b o).id % max_orders) none }

-- `bids_[i]` and `asks_[i]`, named by the side that rests there.
unfoldable pub level : OrderBook → Side → ℕ → PriceLevel
level b buy i = b.bids i
level b sell i = b.asks i

unfoldable pub set_level : OrderBook → Side → ℕ → PriceLevel → OrderBook
set_level b buy i l = record b { bids = write b.bids i l }
set_level b sell i l = record b { asks = write b.asks i l }

unfoldable pub scan_best_bid : OrderBook → OrderBook
scan_best_bid b =
    let i = PriceBitset.highest b.bid_bits in
    record b {
      scan_calls = add64 b.scan_calls 1;
      best_bid = if i == none_index then invalid_price else (i + min_price) % u32_mod;
    }

unfoldable pub scan_best_ask : OrderBook → OrderBook
scan_best_ask b =
    let i = PriceBitset.lowest b.ask_bits in
    record b {
      scan_calls = add64 b.scan_calls 1;
      best_ask = if i == none_index then max_price + 1 else (i + min_price) % u32_mod;
    }

-- `pool_.deallocate(o)`.
abbrev pub release : OrderBook → ℕ → OrderBook
release b o = record b { pool = OrderPool.deallocate b.pool o }

-- `level.remove(o)`, at index `i` of side `s`.
unfoldable pub detach : OrderBook → Side → ℕ → ℕ → OrderBook
unfolding set_level
detach b s i o =
    let (l, a) = PriceLevel.remove (level b s i) b.pool.arena o in set_level (with_arena b a) s i l

-- `lvl.push(o)` behind the bit of an empty level.
unfoldable pub attach : OrderBook → Side → ℕ → ℕ → OrderBook
unfolding set_level
attach b s i o =
    let (l, a) = PriceLevel.push (level b s i) b.pool.arena o in set_level (with_arena b a) s i l

unfoldable pub clear_fills : OrderBook → OrderBook
clear_fills b = record b { fills = [] }

unfoldable pub bid_qty_at : OrderBook → ℕ → ℕ
bid_qty_at b p = (b.bids (idx p)).total_qty

unfoldable pub ask_qty_at : OrderBook → ℕ → ℕ
ask_qty_at b p = (b.asks (idx p)).total_qty

unfoldable pub active_orders : OrderBook → ℕ
active_orders b = sub64 (OrderPool.capacity b.pool) (OrderPool.available b.pool)
