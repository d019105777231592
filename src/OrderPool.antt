-- ===== src/OrderPool.antt =====
-- src/core/order_pool.h: a fixed arena of orders and the stack of the free ones.
pub mod Laws
use trade_feed.Prelude.{ℕ, zero, suc, Option, none, some, List, [], ◌∷◌, length}
use trade_feed.Prelude.Array.{write}
use trade_feed.Types.{Order, buy, limit}
use trade_feed.PriceLevel.{Arena}

-- `free_list_`: the head of the list is the back of the vector.
pub record OrderPool : Type 0 where
  pub arena : Arena
  pub size : ℕ
  pub free_list : List ℕ

-- An order of a new arena; its fields are zero.
abbrev pub blank : Order
blank = record {
  price = 0;
  quantity = 0;
  filled_qty = 0;
  side = buy;
  type = limit;
  prev = none;
  next = none;
  id = 0;
  client_id = 0;
  timestamp = 0;
}

-- `for (i = n; i > 0; --i) free_list_.push_back(&arena_[i - 1])`.
unfoldable pub push_free : ℕ → List ℕ → List ℕ
push_free zero l = l
push_free (suc i) l = push_free i (i ∷ l)

unfoldable pub make : ℕ → OrderPool
make n = record { arena = λ _. blank; size = n; free_list = push_free n [] }

-- `none` where the assertion fails.
unfoldable pub allocate : OrderPool → Option (ℕ × OrderPool)
allocate p = elim p.free_list [ [] ↦ none | o ∷ rest ↦ some (o, record p { free_list = rest }) ]

unfoldable pub deallocate : OrderPool → ℕ → OrderPool
deallocate p o = record p {
  arena = write p.arena o (record (p.arena o) { prev = none; next = none; filled_qty = 0 });
  free_list = o ∷ p.free_list;
}

unfoldable pub available : OrderPool → ℕ
available p = length p.free_list

unfoldable pub capacity : OrderPool → ℕ
capacity p = p.size
