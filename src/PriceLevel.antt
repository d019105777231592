-- ===== src/PriceLevel.antt =====
-- src/core/price_level.h: the intrusive doubly linked list of the orders at one price. The orders
-- stand in the arena of the pool, so an operation takes the arena and returns the new one.
pub mod Chain
pub mod Push
pub mod Remove
pub mod Fill
pub mod Pigeonhole
use trade_feed.Prelude.{ℕ, ◌+◌, ◌-◌, ◌*◌, ◌%◌, Bool, none, some, ◌==◌}
use trade_feed.Prelude.Array.{write}
use trade_feed.Types.{Order, Pointer, add32, sub32, u32_mod, remaining}

pub record PriceLevel : Type 0 where
  pub head : Pointer
  pub tail : Pointer
  pub total_qty : ℕ
  pub count : ℕ

abbrev pub Arena : Type 0
Arena = ℕ → Order

unfoldable pub empty_level : PriceLevel
empty_level = record { head = none; tail = none; total_qty = 0; count = 0 }

-- `if (p) p->next = x;` and `if (p) p->prev = x;`.
unfoldable pub link_next : Arena → Pointer → Pointer → Arena
link_next a none x = a
link_next a (some p) x = write a p (record (a p) { next = x })

unfoldable pub link_prev : Arena → Pointer → Pointer → Arena
link_prev a none x = a
link_prev a (some p) x = write a p (record (a p) { prev = x })

-- The `else` branch of the same tests: what takes the place of an end of the list.
unfoldable pub end_or : Pointer → Pointer → Pointer → Pointer
end_or none new old = new
end_or (some p) new old = old

unfoldable pub push : PriceLevel → Arena → ℕ → PriceLevel × Arena
unfolding link_next end_or
push l a o =
    let linked = write a o (record (a o) { prev = l.tail; next = none }) in
    let a' = link_next linked l.tail (some o) in
    (
      record {
        head = end_or l.tail (some o) l.head;
        tail = some o;
        total_qty = add32 l.total_qty (remaining (a' o));
        count = add32 l.count 1;
      },
      a',
    )

unfoldable pub remove : PriceLevel → Arena → ℕ → PriceLevel × Arena
unfolding link_next link_prev end_or
remove l a o =
    let a1 = link_next a (a o).prev (a o).next in
    let a2 = link_prev a1 (a1 o).next (a1 o).prev in
    (
      record {
        head = end_or (a o).prev (a o).next l.head;
        tail = end_or (a1 o).next (a1 o).prev l.tail;
        total_qty = sub32 l.total_qty (remaining (a2 o));
        count = sub32 l.count 1;
      },
      write a2 o (record (a2 o) { prev = none; next = none }),
    )

unfoldable pub is_empty : PriceLevel → Bool
is_empty l = l.count == 0

-- `total_qty_ += -static_cast<int32_t>(q)`: the casts and the sum are taken modulo `2 ^ 32`.
unfoldable pub adjust_down : PriceLevel → ℕ → PriceLevel
adjust_down l q = record l { total_qty = sub32 l.total_qty q }
