-- ===== src/OrderBook/Priority.antt =====
-- Price-time priority, on its own: a market of queues, and what a taker may do to it. This is what
-- `match_limit` and `match_market` of src/core/order_book.cpp are measured by.
use trade_feed.Prelude.{
  ℕ, ◌+◌, ◌-◌, ◌<◌, ◌≤◌, ◌≡◌, ◌⊎◌, List, [], ◌∷◌, ◌++◌, leb, if◌then◌else◌, min,
}
use trade_feed.Types.{Side, buy, sell}
use trade_feed.OrderBook.State.{Fill}
use trade_feed.OrderBook.Invariant.{put}

-- An order that rests: whose it is and what it lacks.
pub record Entry : Type 0 where
  pub id : ℕ
  pub client : ℕ
  pub open_ : ℕ

-- The queues, oldest first, what the taker still wants, and the fills so far.
pub record Market : Type 0 where
  pub levels : Side → ℕ → List Entry
  pub left : ℕ
  pub fills : List Fill

pub record Taker : Type 0 where
  pub side : Side
  pub id : ℕ
  pub client : ℕ

abbrev pub opposite : Side → Side
opposite buy = sell
opposite sell = buy

-- The fill names the buyer first, and is at the price of the order that rested.
abbrev pub fill_between : Side → Taker → Entry → ℕ → ℕ → Fill
fill_between buy t e price n = record {
  bid_id = t.id;
  ask_id = e.id;
  bid_client = t.client;
  ask_client = e.client;
  price = price;
  quantity = n;
}
fill_between sell t e price n = record {
  bid_id = e.id;
  ask_id = t.id;
  bid_client = e.client;
  ask_client = t.client;
  price = price;
  quantity = n;
}

-- A queue after its front was offered `n`.
abbrev pub rest_of : Entry → List Entry → ℕ → List Entry
rest_of e es n = if leb e.open_ n then es else record e { open_ = e.open_ - n } ∷ es

-- One trade with the front of the queue at index `i` of side `s`.
pub record Trades (t : Taker) (s : Side) (i : ℕ) (m m' : Market) : Type 0 where
  pub front : Entry
  pub behind : List Entry
  pub at_front : m.levels s i ≡ front ∷ behind
  pub wanted : 0 < m.left
  pub offered : 0 < front.open_
  pub levels :
      (u : Side) (j : ℕ) → m'.levels u j ≡ put m.levels s i (rest_of front behind m.left) u j
  pub left : m'.left ≡ m.left - min m.left front.open_
  pub fills :
      m'.fills ≡ m.fills ++ fill_between t.side t front (i + 1) (min m.left front.open_) ∷ []

-- Trades at one level.
pub data TradesAt (t : Taker) (s : Side) (i : ℕ) : Market → Market → Type 0 where
  done : {m : Market} → TradesAt t s i m m
  next : {m n o : Market} → Trades t s i m n → TradesAt t s i n o → TradesAt t s i m o

-- Whether index `j` of a side has priority over index `i`: a higher bid, or a lower ask.
abbrev pub Better : Side → ℕ → ℕ → Type 0
Better buy j i = i < j
Better sell j i = j < i

abbrev pub IsBest : Side → ℕ → Market → Type 0
IsBest s i m = (j : ℕ) → Better s j i → m.levels s j ≡ []

-- Trades by price-time priority: each with the front of the best queue, at an index that the taker
-- accepts.
pub data Crosses (t : Taker) (s : Side) (ok : ℕ → Type 0) : Market → Market → Type 0 where
  stop : {m : Market} → Crosses t s ok m m
  trade :
      {m n o : Market} (i : ℕ)
      → ok i
      → IsBest s i m
      → Trades t s i m n
      → Crosses t s ok n o
      → Crosses t s ok m o

-- The indices that a limit order trades at, by its side and its price.
abbrev pub Accepts : Side → ℕ → ℕ → Type 0
Accepts buy p i = i + 1 ≤ p
Accepts sell p i = p ≤ i + 1

-- A market order trades at every index.
abbrev pub AnyPrice : ℕ → ℕ → Type 0
AnyPrice _ _ = Unit

-- Nothing is left to trade: the taker has all it wants, or accepts no queue that has orders.
abbrev pub IsSpent : Side → (ℕ → Type 0) → Market → Type 0
IsSpent s ok m = (m.left ≡ 0) ⊎ ((i : ℕ) → ok i → m.levels s i ≡ [])
