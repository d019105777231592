-- ===== src/Types.antt =====
-- src/core/types.h: the widths of the aliases, the constants, the enums and the order record.
-- A value of an alias is a number; where the source lets it wrap, the wrap is written out.
use trade_feed.Prelude.{ℕ, ◌+◌, ◌-◌, ◌%◌, ◌^◌, Bool, Option, leb}

-- `uint32_t` (Price, Quantity, ClientId) and `uint64_t` (OrderId, Timestamp, size_t).
abbrev pub u32_mod : ℕ
u32_mod = 2 ^ 32

abbrev pub u64_mod : ℕ
u64_mod = 2 ^ 64

abbrev pub add32 : ℕ → ℕ → ℕ
add32 a b = (a + b) % u32_mod

abbrev pub sub32 : ℕ → ℕ → ℕ
sub32 a b = (a + u32_mod - b) % u32_mod

abbrev pub add64 : ℕ → ℕ → ℕ
add64 a b = (a + b) % u64_mod

abbrev pub sub64 : ℕ → ℕ → ℕ
sub64 a b = (a + u64_mod - b) % u64_mod

abbrev pub invalid_price : ℕ
invalid_price = 0

abbrev pub min_price : ℕ
min_price = 1

abbrev pub max_price : ℕ
max_price = 1_000_000

abbrev pub price_levels : ℕ
price_levels = max_price - min_price + 1

abbrev pub max_orders : ℕ
max_orders = 2 ^ 20

abbrev pub ring_size : ℕ
ring_size = 2 ^ 18

pub data Side : Type 0 where
  buy sell : Side

-- An enumerator, or a byte from the wire that is the value of none.
pub data OrderType : Type 0 where
  limit market : OrderType
  unnamed_type : ℕ → OrderType

-- A pointer into the arena of the order pool is an index there, and `nullptr` is `none`.
abbrev pub Pointer : Type 0
Pointer = Option ℕ

pub record Order : Type 0 where
  pub price : ℕ
  pub quantity : ℕ
  pub filled_qty : ℕ
  pub side : Side
  pub type : OrderType
  pub prev : Pointer
  pub next : Pointer
  pub id : ℕ
  pub client_id : ℕ
  pub timestamp : ℕ

unfoldable pub remaining : Order → ℕ
remaining o = sub32 o.quantity o.filled_qty

unfoldable pub is_filled : Order → Bool
is_filled o = leb o.quantity o.filled_qty

unfoldable pub fill : Order → ℕ → Order
fill o q = record o { filled_qty = add32 o.filled_qty q }
