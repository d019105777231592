-- ===== src/Tests/Trading.antt =====
-- The theorems on matching at concrete inputs.
use trade_feed.Prelude.{◌≡◌, refl, true, arith, List}
use trade_feed.PriceBitset
use trade_feed.PriceLevel
use trade_feed.PriceLevel.{empty_level, link_next, end_or, is_empty}
use trade_feed.OrderPool
use trade_feed.Types.{is_filled, remaining}
use trade_feed.OrderBook.State
use trade_feed.OrderBook.State.{OrderBook, Fill, reg, attach, set_level, level, idx}
use trade_feed.OrderBook.Matching.{match_order, match_loop, limit_hits_ask, match_limit}
use trade_feed.OrderBook.Orders.{
  NewOrder, fresh_order, add_order, is_limit, place, settle, rest_order, rest_bid,
}
use trade_feed.OrderBook.Priority.{Market}
use trade_feed.OrderBook.Trace.{taker}
use trade_feed.OrderBook.Spent.{Bound}
use trade_feed.OrderBook.Fills.{Reports}
use trade_feed.OrderBook.Rested.{Served, Settled, opened}
use trade_feed.OrderBook.Add.{add_order-Served, add_order-Reports}
use trade_feed.Tests.{ask_of, one_bid, one_bid-SoundBook}

-- Three of the five that the bid wants.
abbrev seller : NewOrder
seller = ask_of 2 100 3

seller_taken : (add_order one_bid seller).1 ≡ true
unfolding add_order is_limit OrderPool.allocate OrderPool.available place reg match_order
    match_limit match_loop limit_hits_ask settle rest_order rest_bid attach level set_level idx
    PriceLevel.push link_next end_or is_empty State.make OrderPool.make OrderPool.push_free
    is_filled remaining PriceBitset.set empty_level
seller_taken = refl

add_order-Served_example : Served seller one_bid one_bid-SoundBook.0 (add_order one_bid seller).0
add_order-Served_example =
    add_order-Served one_bid seller one_bid-SoundBook.0 (omega arith) one_bid-SoundBook.1
      seller_taken

add_order-Reports_example :
    (m : Market) × (fs : List Fill) × Reports
      (taker seller.side (fresh_order seller))
      (Bound seller.type seller.side seller.price)
      (opened one_bid one_bid-SoundBook.0 seller)
      m
      fs
    × Settled seller m (add_order one_bid seller).0
add_order-Reports_example =
    add_order-Reports one_bid seller one_bid-SoundBook.0 (omega arith) one_bid-SoundBook.1
      seller_taken
