-- ===== src/OrderBook/Detach.antt =====
-- `level.remove(o)` in the book: the order leaves its level, and is then held by the operation.
use trade_feed.Prelude.{ℕ, ◌%◌, ◌<◌, ◌≡◌, refl, ◌⊎◌, inl, inr, List, ◌∷◌, ◌++◌, arith, sym, ap, ◌∙◌}
use trade_feed.Types.{Side, buy, sell, Order, max_orders, remaining}
use trade_feed.PriceLevel
use trade_feed.PriceLevel.{PriceLevel, Arena, is_empty}
use trade_feed.PriceLevel.Chain.{
  In, Holds, Fresh-not-In, Fresh_of_not_In, unlinked, In-rest, In-more, In-append_right,
  Distinct-remove, In-cons_elim,
}
use trade_feed.PriceLevel.Remove.{remove-Holds, remove-unlinked, remove-frame}
use trade_feed.PriceLevel.Fill.{IsOpen}
use trade_feed.OrderBook.State.{OrderBook, order, level, detach}
use trade_feed.OrderBook.Invariant.{
  Queues, put, put_elim, Apart, level-set_level, IsBook, Holds-cong, SameOrder, Rests-SameOrder,
}
use trade_feed.OrderBook.Trade.{SameFrame}

pub SameOrder-unlinked : (o p : Order) → unlinked o ≡ unlinked p → SameOrder o p
SameOrder-unlinked o p e = record {
  side = ap (λ z. z.side) e;
  price = ap (λ z. z.price) e;
  quantity = ap (λ z. z.quantity) e;
  id = ap (λ z. z.id) e;
  client_id = ap (λ z. z.client_id) e;
}

pub IsOpen-unlinked : (o p : Order) → unlinked o ≡ unlinked p → IsOpen p → IsOpen o
IsOpen-unlinked o p e v =
    let q = ap (λ z. z.quantity) e in let f = ap (λ z. z.filled_qty) e in omega (arith, q, f)

pub level-detach :
    (b : OrderBook) (s : Side) (i x : ℕ) (u : Side) (j : ℕ)
    → level (detach b s i x) u j
      ≡ put (level b) s i (PriceLevel.remove (level b s i) b.pool.arena x).0 u j
unfolding detach level
level-detach b s i x u j = level-set_level _ s i _ u j

pub detach-store :
    (b : OrderBook) (s : Side) (i x : ℕ)
    → let b' = detach b s i x in
      (b'.order_table ≡ b.order_table)
      × (b'.pool.free_list ≡ b.pool.free_list)
      × (b'.pool.size ≡ b.pool.size)
      × (b'.pool.arena ≡ (PriceLevel.remove (level b s i) b.pool.arena x).1)
unfolding detach
detach-store b buy i x = (refl, refl, refl, refl)
detach-store b sell i x = (refl, refl, refl, refl)

pub detach-SameFrame : (b : OrderBook) (s : Side) (i x : ℕ) → SameFrame b (detach b s i x)
unfolding detach
detach-SameFrame b buy i x = record {
  bid_bits = refl;
  ask_bits = refl;
  best_bid = refl;
  best_ask = refl;
  scan_calls = refl;
}
detach-SameFrame b sell i x = record {
  bid_bits = refl;
  ask_bits = refl;
  best_bid = refl;
  best_ask = refl;
  scan_calls = refl;
}

module _ (b : OrderBook) (q : Queues) (held : List ℕ) (s : Side) (i : ℕ) (us : List ℕ) (x : ℕ)
    (vs : List ℕ) (v : IsBook b q held) (place : q s i ≡ us ++ x ∷ vs) where
  abbrev b' : OrderBook
  b' = detach b s i x

  abbrev q' : Queues
  q' = put q s i (us ++ vs)

  split : Holds (level b s i) b.pool.arena (us ++ x ∷ vs)
  split = rw (← place) (v.holds s i)

  In-place : In x (q s i)
  In-place = rw place (In-append_right x us (x ∷ vs) (inl refl))

  pub fewer : (u : Side) (j y : ℕ) → In y (q' u j) → In y (q u j)
  fewer u j =
      put_elim (λ u j _ ys. (y : ℕ) → In y ys → In y (q u j)) q q s i (us ++ vs) (us ++ vs)
        (λ y k. rw place (In-more y x us vs k)) (λ u j apart y k. k) u j

  or_gone : (u : Side) (j y : ℕ) → In y (q u j) → (y ≡ x) ⊎ In y (q' u j)
  or_gone u j y =
      put_elim (λ u j _ ys. In y (q u j) → (y ≡ x) ⊎ In y ys) q q s i (us ++ vs) (us ++ vs)
        (λ k. In-rest y x us vs (rw place at k)) (λ u j apart k. inr k) u j

  gone : (u : Side) (j : ℕ) → In x (q' u j) → ⊥
  gone u j =
      put_elim (λ u j _ ys. In x ys → ⊥) q q s i (us ++ vs) (us ++ vs)
        (Fresh-not-In x (us ++ vs) (Distinct-remove x us vs split.distinct).1)
        (λ u j apart k.
          let r = v.rests u j x k in
          let r' = v.rests s i x In-place in
          apart (sym r.side ∙ r'.side) (omega (arith, r.price, r'.price)))
        u j

  pub detach-unlinked : (y : ℕ) → unlinked (order b' y) ≡ unlinked (order b y)
  detach-unlinked y = rw (detach-store b s i x).3 (remove-unlinked (level b s i) b.pool.arena x y)

  other_levels : (u : Side) (j : ℕ) → Apart u j s i → Holds (level b u j) b'.pool.arena (q u j)
  other_levels u j apart =
      Holds-cong (level b u j) b.pool.arena b'.pool.arena (q u j)
        (λ y k.
          let e : order b' y ≡ order b y = rw (detach-store b s i x).3 (
            remove-frame (level b s i) b.pool.arena us x vs split y λ here.
              let r = v.rests u j y k in
              let r' = v.rests s i y (rw place here) in
              apart (sym r.side ∙ r'.side) (omega (arith, r.price, r'.price))) in
          ((ap (λ o. o.prev) e, ap (λ o. o.next) e), ap remaining e))
        (v.holds u j)

  found :
      (y : ℕ)
      → In y held ⊎ ((u : Side) × (j : ℕ) × In y (q u j))
      → In y (x ∷ held) ⊎ ((u : Side) × (j : ℕ) × In y (q' u j))
  found y (inl k) = inl (inr k)
  found y (inr (u, j, k)) = elim (or_gone u j y k) [ inl e ↦ inl (inl e) | inr m ↦ inr (u, j, m) ]

  -- The order moves from its level to the held ones; no other order moves.
  pub detach-IsBook : IsBook b' q' (x ∷ held)
  detach-IsBook =
      let (table, free, size, arena) = detach-store b s i x in
      record {
        holds = λ u j. rw (level-detach b s i x u j) (
            put_elim (λ u j l ys. Holds l b'.pool.arena ys) (level b) q s i _ (us ++ vs)
              (rw arena (remove-Holds (level b s i) b.pool.arena us x vs split)) other_levels u j);
        rests = λ u j y k.
            let r = v.rests u j y (fewer u j y k) in
            Rests-SameOrder _ _ (SameOrder-unlinked _ _ (detach-unlinked y))
              (IsOpen-unlinked _ _ (detach-unlinked y) r.open_) r;
        used = λ u j y k. rw free (v.used u j y (fewer u j y k));
        held_used = λ y k. rw free (
            In-cons_elim (λ z. In z b.pool.free_list → ⊥) x held (v.used s i x In-place) v.held_used
              y k);
        held_apart = λ u j.
            In-cons_elim (λ z. In z (q' u j) → ⊥) x held (gone u j)
              (λ y k m. v.held_apart u j y k (fewer u j y m));
        held_open = λ y k. IsOpen-unlinked _ _ (detach-unlinked y) (
            In-cons_elim (λ z. IsOpen (order b z)) x held (v.rests s i x In-place).open_ v.held_open
              y k);
        held_once = (Fresh_of_not_In x held (λ k. v.held_apart s i x k In-place), v.held_once);
        free_once = rw free v.free_once;
        in_arena = λ u j y k. rw size (v.in_arena u j y (fewer u j y k));
        free_in_arena = λ y. rw (free, size) (v.free_in_arena y);
        held_in_arena = rw size (
            In-cons_elim (λ z. z < b.pool.size) x held (v.in_arena s i x In-place) v.held_in_arena);
        small = rw size v.small;
        table = λ k y. rw table λ e.
            let (slot, where_) = v.table k y e in
            (ap (λ z. z.id % max_orders) (detach-unlinked y) ∙ slot, found y where_);
      }
