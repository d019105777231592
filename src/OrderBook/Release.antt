-- ===== src/OrderBook/Release.antt =====
-- `unreg(o)` and `pool_.deallocate(o)`: a held order goes back to the pool, and the table forgets it.
use trade_feed.Prelude.{
  ℕ, ◌%◌, ◌<◌, ◌≡◌, ◌≢◌, refl, ◌⊎◌, inl, inr, none, some, List, ◌∷◌, arith, sym, ap, ◌∙◌, subst,
}
use trade_feed.Prelude.Array.{write}
use trade_feed.Types.{Side, buy, sell, max_orders, remaining}
use trade_feed.PriceLevel.Chain.{In, Fresh-not-In, Fresh_of_not_In, In-cons_elim}
use trade_feed.OrderPool.{deallocate}
use trade_feed.OrderBook.State.{OrderBook, order, level, unreg, release}
use trade_feed.OrderBook.Invariant.{Queues, IsBook, Holds-cong}
use trade_feed.OrderBook.Trade.{SameFrame}

-- The book without one order that the operation held.
abbrev pub freed : OrderBook → ℕ → OrderBook
freed b x = release (unreg b x) x

pub freed-store :
    (b : OrderBook) (x : ℕ)
    → (((freed b x).order_table ≡ write b.order_table ((order b x).id % max_orders) none))
      × ((freed b x).pool.free_list ≡ x ∷ b.pool.free_list)
      × ((freed b x).pool.size ≡ b.pool.size)
unfolding unreg deallocate
freed-store b x = (refl, refl, refl)

pub level-freed : (b : OrderBook) (x : ℕ) (u : Side) (j : ℕ) → level (freed b x) u j ≡ level b u j
unfolding unreg deallocate level
level-freed b x buy j = refl
level-freed b x sell j = refl

pub freed-SameFrame : (b : OrderBook) (x : ℕ) → SameFrame b (freed b x)
unfolding unreg deallocate
freed-SameFrame b x = record {
  bid_bits = refl;
  ask_bits = refl;
  best_bid = refl;
  best_ask = refl;
  scan_calls = refl;
}

pub order-freed : (b : OrderBook) (x y : ℕ) → y ≢ x → order (freed b x) y ≡ order b y
unfolding unreg deallocate
order-freed b x y ne = ground arith

module _ (b : OrderBook) (q : Queues) (x : ℕ) (held : List ℕ) (v : IsBook b q (x ∷ held)) where
  ne_rest : (u : Side) (j y : ℕ) → In y (q u j) → y ≢ x
  ne_rest u j y k e = v.held_apart u j x (inl refl) (subst (λ z. In z (q u j)) e k)

  ne_held : (y : ℕ) → In y held → y ≢ x
  ne_held y k e = Fresh-not-In x held v.held_once.0 (subst (λ z. In z held) e k)

  abbrev b' : OrderBook
  b' = freed b x

  table_kept :
      (k y : ℕ)
      → write b.order_table ((order b x).id % max_orders) none k ≡ some y
      → (b.order_table k ≡ some y) × (k ≢ (order b x).id % max_orders)
  table_kept k y e = ground arith

  table_freed :
      (k y : ℕ)
      → b'.order_table k ≡ some y
      → ((order b' y).id % max_orders ≡ k) × (In y held ⊎ ((u : Side) × (j : ℕ) × In y (q u j)))
  table_freed k y e =
      let (old, ne) = table_kept k y (sym (ap (λ f. f k) (freed-store b x).0) ∙ e) in
      let (slot, where_) = v.table k y old in
      let other : y ≢ x = λ same. ne (sym slot ∙ ap (λ z. (order b z).id % max_orders) same) in
      (rw (order-freed b x y other) slot, kept other where_)
    where
      kept :
          y ≢ x
          → In y (x ∷ held) ⊎ ((u : Side) × (j : ℕ) × In y (q u j))
          → In y held ⊎ ((u : Side) × (j : ℕ) × In y (q u j))
      kept ne (inl (inl same)) = absurd (ne same)
      kept ne (inl (inr k)) = inl k
      kept ne (inr m) = inr m

  -- The order becomes free, and nothing else changes.
  pub freed-IsBook : IsBook b' q held
  freed-IsBook =
      let (table, free, size) = freed-store b x in
      record {
        holds = λ u j. rw (level-freed b x u j) (
            Holds-cong (level b u j) b.pool.arena b'.pool.arena (q u j)
              (λ y k.
                let e = order-freed b x y (ne_rest u j y k) in
                ((ap (λ o. o.prev) e, ap (λ o. o.next) e), ap remaining e))
              (v.holds u j));
        rests = λ u j y k. rw (order-freed b x y (ne_rest u j y k)) (v.rests u j y k);
        used = λ u j y k.
            rw free λ m. elim m [ inl e ↦ ne_rest u j y k e | inr m' ↦ v.used u j y k m' ];
        held_used = λ y k.
            rw free λ m. elim m [ inl e ↦ ne_held y k e | inr m' ↦ v.held_used y (inr k) m' ];
        held_apart = λ u j y k. v.held_apart u j y (inr k);
        held_open = λ y k. rw (order-freed b x y (ne_held y k)) (v.held_open y (inr k));
        held_once = v.held_once.1;
        free_once =
            rw free (Fresh_of_not_In x b.pool.free_list (v.held_used x (inl refl)), v.free_once);
        in_arena = λ u j y k. rw size (v.in_arena u j y k);
        free_in_arena =
            rw (free, size)
              (In-cons_elim (λ z. z < b.pool.size) x b.pool.free_list (v.held_in_arena x (inl refl))
                v.free_in_arena);
        held_in_arena = λ y k. rw size (v.held_in_arena y (inr k));
        small = rw size v.small;
        table = table_freed;
      }
