-- ===== src/OrderBook/Cancelled.antt =====
-- What `cancel_order` does to the table and to the pool: one order is forgotten, and its slot is free.
use trade_feed.Prelude.{
  ℕ, ◌%◌, ◌≡◌, refl, inl, inr, ap, ◌∙◌, sym, Option, none, some, true, false, Bool-cases, arith,
  ◌==◌, if◌then◌else◌, ℕ_discrete,
}
use trade_feed.Prelude.Array.{write}
use trade_feed.Types.{Side, buy, sell, Pointer, max_orders}
use trade_feed.PriceLevel.{is_empty}
use trade_feed.PriceLevel.Chain.{In}
use trade_feed.PriceLevel.Remove.{remove-unlinked}
use trade_feed.OrderBook.State.{
  OrderBook, order, level, detach, idx, lookup, scan_best_bid, scan_best_ask, unreg,
}
use trade_feed.OrderBook.Detach.{detach-store}
use trade_feed.OrderPool.{deallocate}
use trade_feed.OrderBook.Release.{freed, freed-store}
use trade_feed.OrderBook.Orders.{cancel_bid, cancel_ask, cancel_at, cancel_order}

-- The table and the identifiers of the orders are the same.
record SameTable (b b' : OrderBook) : Type 0 where
  pub table : b'.order_table ≡ b.order_table
  pub ids : (y : ℕ) → (order b' y).id ≡ (order b y).id

detach-SameTable : (b : OrderBook) (s : Side) (i o : ℕ) → SameTable b (detach b s i o)
detach-SameTable b s i o =
    let (table, free, size, arena) = detach-store b s i o in
    record {
      table = table;
      ids = λ y.
          ap (λ a. (a y).id) arena
          ∙ ap (λ z. z.id) (remove-unlinked (level b s i) b.pool.arena o y);
    }

cancel_at-SameTable : (b : OrderBook) (s : Side) (o : ℕ) → SameTable b (cancel_at b s o)
unfolding cancel_at cancel_bid cancel_ask scan_best_bid scan_best_ask
cancel_at-SameTable b buy o =
    let i = idx (order b o).price in
    let b1 = detach b buy i o in
    let same = detach-SameTable b buy i o in
    elim (Bool-cases (is_empty (b1.bids i))) [
      | inr more ↦ rw more same
      | inl gone ↦ elim (Bool-cases ((order b o).price == b1.best_bid)) [
        | inl best ↦ rw (gone, best) (record { table = same.table; ids = same.ids })
        | inr other ↦ rw (gone, other) (record { table = same.table; ids = same.ids })
      ]
    ]
cancel_at-SameTable b sell o =
    let i = idx (order b o).price in
    let b1 = detach b sell i o in
    let same = detach-SameTable b sell i o in
    elim (Bool-cases (is_empty (b1.asks i))) [
      | inr more ↦ rw more same
      | inl gone ↦ elim (Bool-cases ((order b o).price == b1.best_ask)) [
        | inl best ↦ rw (gone, best) (record { table = same.table; ids = same.ids })
        | inr other ↦ rw (gone, other) (record { table = same.table; ids = same.ids })
      ]
    ]

freed_id : (b : OrderBook) (o y : ℕ) → (order (freed b o) y).id ≡ (order b y).id
unfolding unreg deallocate
freed_id b o y = elim (ℕ_discrete y o) [ yes e ↦ ground (arith, e) | no ne ↦ ground (arith, ne) ]

-- The answer of `lookup`, from what the table holds and the identifier that an order has.
answer : (ids : ℕ → ℕ) → ℕ → Pointer → Pointer
answer ids k none = none
answer ids k (some y) = if ids y == k then some y else none

lookup-answer :
    (b : OrderBook) (k : ℕ)
    → lookup b k ≡ answer (λ y. (order b y).id) k (b.order_table (k % max_orders))
unfolding lookup answer
lookup-answer b k = by_entry (b.order_table (k % max_orders))
  where
    by_entry :
        (p : Pointer)
        → (elim p as (λ _. Option ℕ) [
          | none ↦ none
          | some o ↦ if (order b o).id == k then some o else none
        ])
          ≡ answer (λ y. (order b y).id) k p
    by_entry none = refl
    by_entry (some y) = refl

-- The order `o` with identifier `id` is out of the table and free; every other order is found as
-- before.
pub record Cancelled (b : OrderBook) (id o : ℕ) (b' : OrderBook) : Type 0 where
  pub found : (k : ℕ) → lookup b' k ≡ (if k == id then none else lookup b k)
  pub free : In o b'.pool.free_list

freed-Cancelled :
    (b c : OrderBook) (id o : ℕ)
    → SameTable b c
    → b.order_table (id % max_orders) ≡ some o
    → (order b o).id ≡ id
    → Cancelled b id o (freed c o)
unfolding answer
freed-Cancelled b c id o same slot own = record {
  found = by_name;
  free = rw (freed-store c o).1 (inl refl);
}
  where
    own' : (order c o).id ≡ id
    own' = same.ids o ∙ own

    ids : (y : ℕ) → (order (freed c o) y).id ≡ (order b y).id
    ids y = freed_id c o y ∙ same.ids y

    table :
        (k : ℕ)
        → (freed c o).order_table (k % max_orders)
          ≡ write b.order_table (id % max_orders) none (k % max_orders)
    table k = ap (λ f. f (k % max_orders)) (freed-store c o).0 ∙ (rw (own', same.table) refl)

    same_answer :
        (k : ℕ) (p : Pointer)
        → answer (λ y. (order (freed c o) y).id) k p ≡ answer (λ y. (order b y).id) k p
    same_answer k none = refl
    same_answer k (some y) = rw (ids y) refl

    after :
        (k : ℕ)
        → lookup (freed c o) k
          ≡ answer
              (λ y. (order b y).id)
              k
              (write b.order_table (id % max_orders) none (k % max_orders))
    after k =
        lookup-answer (freed c o) k
        ∙ same_answer k ((freed c o).order_table (k % max_orders))
        ∙ ap (answer (λ y. (order b y).id) k) (table k)

    by_name : (k : ℕ) → lookup (freed c o) k ≡ (if k == id then none else lookup b k)
    by_name k = elim (ℕ_discrete (k % max_orders) (id % max_orders)) [
      | yes e ↦ elim (ℕ_discrete k id) [
        | yes here ↦
            let hit : (k == id) ≡ true = ground arith in rw hit (after k ∙ rw e (ground arith))
        | no other ↦
            let miss : (k == id) ≡ false = ground arith in
            let unlike : (id == k) ≡ false = ground arith in
            let gone : lookup (freed c o) k ≡ none = after k ∙ rw e (ground arith) in
            let never : lookup b k ≡ none =
              lookup-answer b k ∙ rw (e, slot) (rw (own, unlike) refl) in
            rw miss (gone ∙ sym never)
      ]
      | no ne ↦
          let miss : (k == id) ≡ false = ground arith in
          rw miss
            (after k ∙ ap (answer (λ y. (order b y).id) k) (ground arith) ∙ sym (lookup-answer b k))
    ]

-- The cancellation of an order that the table finds.
pub cancel_order-Cancelled :
    (b : OrderBook) (id o : ℕ)
    → lookup b id ≡ some o
    → b.order_table (id % max_orders) ≡ some o
    → (order b o).id ≡ id
    → Cancelled b id o (cancel_order b id).0
unfolding cancel_order
cancel_order-Cancelled b id o e slot own =
    rw (e, cancel_order)
      (freed-Cancelled b (cancel_at b (order b o).side o) id o
        (cancel_at-SameTable b (order b o).side o) slot own)
