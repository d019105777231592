-- ===== src/OrderBook/Cancel.antt =====
-- `cancel_order` and `modify_order` keep the book sound.
use trade_feed.Prelude.{
  ℕ, ◌%◌, ◌<◌, ◌≡◌, refl, ◌⊎◌, inl, inr, Option, none, some, [], ◌∷◌, arith, ◌==◌, if◌then◌else◌,
  ◌∙◌, ap, false,
}
use trade_feed.Types.{Side, buy, sell, u32_mod, max_orders, max_price, min_price}
use trade_feed.PriceLevel.Chain.{In-split, In}
use trade_feed.OrderBook.State.{OrderBook, order}
use trade_feed.OrderBook.Invariant.{Queues}
use trade_feed.OrderBook.State.{idx}
use trade_feed.OrderBook.Invariant.{IsSound}
use trade_feed.OrderBook.Sweep.{idx_lem}
use trade_feed.OrderBook.Add.{
  SoundBook, add_order-IsSound, verdict, exhausted, out_of_range, placed,
}
use trade_feed.OrderBook.Placed.{freed-IsSound}
use trade_feed.OrderBook.State.{lookup}
use trade_feed.OrderBook.Orders.{cancel_at, cancel_order, modify_order}
use trade_feed.OrderBook.Cancelled.{Cancelled, cancel_order-Cancelled}
use trade_feed.OrderBook.CancelBid.{cancel_bid-IsSound}
use trade_feed.OrderBook.CancelAsk.{cancel_ask-IsSound}

-- What the table finds has the identifier asked for.
pub lookup-some :
    (b : OrderBook) (id o : ℕ)
    → lookup b id ≡ some o
    → (b.order_table (id % max_orders) ≡ some o) × ((order b o).id ≡ id)
unfolding lookup
lookup-some b id o = by_slot (b.order_table (id % max_orders))
  where
    by_slot :
        (p : Option ℕ)
        → (elim p as (λ _. Option ℕ) [
          | none ↦ none
          | some o ↦ if (order b o).id == id then some o else none
        ])
          ≡ some o
        → (p ≡ some o) × ((order b o).id ≡ id)
    by_slot none e = absurd (ground (arith, e))
    by_slot (some x) e = ground (arith, e)

-- In a sound book, what `lookup` finds has the identifier asked for and rests in the level of its
-- own side and price; it is never a slot that is free.
pub lookup-Rests :
    (b : OrderBook) (q : Queues) (id o : ℕ)
    → IsSound b q []
    → lookup b id ≡ some o
    → ((order b o).id ≡ id) × In o (q (order b o).side (idx (order b o).price))
lookup-Rests b q id o v e =
    let (slot, same) = lookup-some b id o e in
    elim (v.book.table (id % max_orders) o slot).1 [
      | inl k ↦ absurd k
      | inr (s, i, k) ↦
          let r = v.book.rests s i o k in
          let at : idx (order b o).price ≡ i =
            idx_lem (order b o).price (omega (arith, r.price)) (omega (arith, r.price, r.in_range))
            ∙ omega (arith, r.price) in
          (same, rw (r.side, at) k)
    ]

cancel_at-IsSound :
    (b : OrderBook) (q : Queues) (o : ℕ) (s : Side)
    → IsSound b q []
    → In o (q s (idx (order b o).price))
    → (q' : Queues) × IsSound (cancel_at b s o) q' (o ∷ [])
unfolding cancel_at
cancel_at-IsSound b q o buy v k =
    let (us, vs, e) = In-split o _ k in (_, cancel_bid-IsSound b q o us vs v e)
cancel_at-IsSound b q o sell v k =
    let (us, vs, e) = In-split o _ k in (_, cancel_ask-IsSound b q o us vs v e)

-- `cancel_order` takes a sound book to a sound book, whether or not it finds the order.
pub cancel_order-IsSound : (b : OrderBook) (id : ℕ) → SoundBook b → SoundBook (cancel_order b id).0
unfolding cancel_order
cancel_order-IsSound b id (q, v) = by_lookup (lookup b id) refl
  where
    by_lookup : (p : Option ℕ) → lookup b id ≡ p → SoundBook (cancel_order b id).0
    by_lookup none e = rw (e, cancel_order) (q, v)
    by_lookup (some o) e =
        let (_, k) = lookup-Rests b q id o v e in
        let (q', w) = cancel_at-IsSound b q o (order b o).side v k in
        rw (e, cancel_order) (q', freed-IsSound (cancel_at b (order b o).side o) q' o w)

-- If the new quantity fits in 32 bits, `modify_order` takes a sound book to a sound book.
pub modify_order-IsSound :
    (b : OrderBook) (id new_price new_qty ts : ℕ)
    → new_qty < u32_mod
    → SoundBook b
    → SoundBook (modify_order b id new_price new_qty ts).0
unfolding modify_order
modify_order-IsSound b id new_price new_qty ts fits v = by_lookup (lookup b id) refl
  where
    by_lookup :
        (p : Option ℕ) → lookup b id ≡ p → SoundBook (modify_order b id new_price new_qty ts).0
    by_lookup none e = rw (e, modify_order) v
    by_lookup (some o) e =
        rw (e, modify_order)
          (add_order-IsSound (cancel_order b id).0 _ fits (cancel_order-IsSound b id v))

-- If `lookup` finds the order and the new price is out of range, `modify_order` answers false, and
-- the order is gone: `lookup` does not find its identifier, finds every other identifier as before,
-- and the slot of the order is free.
pub modify_order_out_of_range :
    (b : OrderBook) (id o new_price new_qty ts : ℕ)
    → lookup b id ≡ some o
    → (new_price < min_price) ⊎ (max_price < new_price)
    → ((modify_order b id new_price new_qty ts).1 ≡ false)
      × Cancelled b id o (modify_order b id new_price new_qty ts).0
unfolding modify_order
modify_order_out_of_range b id o new_price new_qty ts e bad =
    let (slot, own) = lookup-some b id o e in
    let gone = cancel_order-Cancelled b id o e slot own in
    rw (e, modify_order)
      (elim (verdict (cancel_order b id).0 _) [
        | exhausted _ f ↦ (ap (λ r. r.1) f, rw f gone)
        | out_of_range _ f ↦ (ap (λ r. r.1) f, rw f gone)
        | placed _ _ _ ok f ↦
            absurd
              (let ok' = ok refl in elim bad [ inl low ↦ omega arith | inr high ↦ omega arith ])
      ])
