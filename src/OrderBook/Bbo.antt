-- ===== src/OrderBook/Bbo.antt =====
-- `validate_bbo` of src/core/order_book.cpp: the best prices by a linear scan of the levels.
use trade_feed.Prelude.{ℕ, zero, suc, ◌+◌, Bool, ◌&&◌, ◌==◌, if◌then◌else◌}
use trade_feed.Types.{invalid_price, min_price, max_price, price_levels}
use trade_feed.PriceLevel.{is_empty}
use trade_feed.OrderBook.State.{OrderBook, idx}

-- The two linear scans of `validate_bbo`, with the rounds left.
unfoldable pub top_bid : OrderBook → ℕ → ℕ
top_bid b zero = invalid_price
top_bid b (suc p) =
    let rest = top_bid b p in if is_empty (b.bids (idx (suc p))) then rest else suc p

unfoldable pub bottom_ask : OrderBook → ℕ → ℕ → ℕ
bottom_ask b zero p = max_price + 1
bottom_ask b (suc n) p =
    let rest = bottom_ask b n (p + 1) in if is_empty (b.asks (idx p)) then rest else p

unfoldable pub validate_bbo : OrderBook → Bool
validate_bbo b =
    top_bid b max_price == b.best_bid && bottom_ask b price_levels min_price == b.best_ask
