-- ===== src/OrderBook/Trade.antt =====
-- One round of `drain_level`: the trade, and the departure of a filled order.
use trade_feed.Prelude.{
  ℕ, ◌%◌, ◌≤◌, ◌≡◌, ◌≢◌, refl, inl, List, [], ◌∷◌, arith, ◌==◌, if◌then◌else◌, sym, ap, ◌∙◌,
  ℕ_discrete, subst, min,
}
use trade_feed.Prelude.Array.{write}
use trade_feed.Types.{Side, buy, sell, Order, max_orders, remaining, fill}
use trade_feed.PriceLevel.{adjust_down}
use trade_feed.PriceLevel.Chain.{In, Holds}
use trade_feed.PriceLevel.Fill.{IsOpen, fill-IsOpen, fill-Holds, write_other}
use trade_feed.OrderBook.State.{OrderBook, order, level}
use trade_feed.OrderBook.Matching.{trade}
use trade_feed.OrderBook.Invariant.{
  Queues, put, put_elim, Apart, IsBook, Holds-cong, SameOrder, SameOrder-eq, Rests-SameOrder,
}

-- The quantity of a trade between two orders.
abbrev pub fill_qty : OrderBook → ℕ → ℕ → ℕ
fill_qty b g x = min (remaining (order b g)) (remaining (order b x))

-- A trade fills both orders by that quantity, and no other order.
pub order-trade :
    (b : OrderBook) (s : Side) (i g : ℕ) (t : Side) (x y : ℕ)
    → order (trade b s i g t x) y ≡ (
        if y == x
        then fill ((write b.pool.arena g (fill (order b g) (fill_qty b g x))) x) (fill_qty b g x)
        else if y == g
        then fill (order b g) (fill_qty b g x)
        else order b y)
unfolding trade
order-trade b buy i g t x y = ground arith
order-trade b sell i g t x y = ground arith

pub level-trade :
    (b : OrderBook) (s : Side) (i g : ℕ) (t : Side) (x : ℕ) (u : Side) (j : ℕ)
    → level (trade b s i g t x) u j
      ≡ put (level b) s i (adjust_down (level b s i) (fill_qty b g x)) u j
unfolding trade level
level-trade b buy i g t x buy j = refl
level-trade b buy i g t x sell j = refl
level-trade b sell i g t x buy j = refl
level-trade b sell i g t x sell j = refl

-- What no part of matching but the arena, the levels and the fills is touched by.
pub record SameFrame (b b' : OrderBook) : Type 0 where
  pub bid_bits : b'.bid_bits ≡ b.bid_bits
  pub ask_bits : b'.ask_bits ≡ b.ask_bits
  pub best_bid : b'.best_bid ≡ b.best_bid
  pub best_ask : b'.best_ask ≡ b.best_ask
  pub scan_calls : b'.scan_calls ≡ b.scan_calls

pub trade-SameFrame :
    (b : OrderBook) (s : Side) (i g : ℕ) (t : Side) (x : ℕ) → SameFrame b (trade b s i g t x)
unfolding trade
trade-SameFrame b buy i g t x = record {
  bid_bits = refl;
  ask_bits = refl;
  best_bid = refl;
  best_ask = refl;
  scan_calls = refl;
}
trade-SameFrame b sell i g t x = record {
  bid_bits = refl;
  ask_bits = refl;
  best_bid = refl;
  best_ask = refl;
  scan_calls = refl;
}

trade-store :
    (b : OrderBook) (s : Side) (i g : ℕ) (t : Side) (x : ℕ)
    → let b' = trade b s i g t x in
      (b'.order_table ≡ b.order_table)
      × (b'.pool.free_list ≡ b.pool.free_list)
      × (b'.pool.size ≡ b.pool.size)
unfolding trade
trade-store b buy i g t x = (refl, refl, refl)
trade-store b sell i g t x = (refl, refl, refl)

arena-trade :
    (b : OrderBook) (s : Side) (i g : ℕ) (t : Side) (x : ℕ)
    → let a1 = write b.pool.arena g (fill (order b g) (fill_qty b g x)) in
      (trade b s i g t x).pool.arena ≡ write a1 x (fill (a1 x) (fill_qty b g x))
unfolding trade
arena-trade b buy i g t x = refl
arena-trade b sell i g t x = refl

pub SameOrder-fill : (o : Order) (q : ℕ) → SameOrder (fill o q) o
unfolding fill
SameOrder-fill o q = record {
  side = refl;
  price = refl;
  quantity = refl;
  id = refl;
  client_id = refl;
}

module _ (b : OrderBook) (q : Queues) (s : Side) (i g : ℕ) (t : Side) (x : ℕ) (xs : List ℕ)
    (v : IsBook b q (g ∷ [])) (front : q s i ≡ x ∷ xs) where
  abbrev n : ℕ
  n = fill_qty b g x

  abbrev b' : OrderBook
  b' = trade b s i g t x

  In-front : In x (q s i)
  In-front = rw front (inl refl)

  distinct_orders : x ≢ g
  distinct_orders e = v.held_apart s i g (inl refl) (subst (λ z. In z (q s i)) e In-front)

  pub trade_aggressor : order b' g ≡ fill (order b g) n
  trade_aggressor = order-trade b s i g t x g ∙ ground (arith, distinct_orders)

  pub trade_resting : order b' x ≡ fill (order b x) n
  trade_resting = order-trade b s i g t x x ∙ ground (arith, distinct_orders)

  pub trade_other : (y : ℕ) → y ≢ x → y ≢ g → order b' y ≡ order b y
  trade_other y nx ng = order-trade b s i g t x y ∙ ground arith

  others : (u : Side) (j y : ℕ) → Apart u j s i → In y (q u j) → (y ≢ x) × (y ≢ g)
  others u j y apart k = (
    λ e.
        let r = v.rests u j y k in
        let r' = v.rests s i x In-front in
        let same = ap (order b) e in
        apart (sym r.side ∙ ap (λ o. o.side) same ∙ r'.side)
          (omega (arith, r.price, r'.price, ap (λ o. o.price) same)),
    λ e. v.held_apart u j g (inl refl) (subst (λ z. In z (q u j)) e k),
  )

  n_le : (n ≤ remaining (order b x)) × (n ≤ remaining (order b g))
  n_le = omega arith

  IsOpen-front : IsOpen (order b x)
  IsOpen-front = (v.rests s i x In-front).open_

  -- The level of the trade, after the aggressor was filled.
  level_filled : Holds (adjust_down (level b s i) n) b'.pool.arena (q s i)
  level_filled =
      let a1 = write b.pool.arena g (fill (order b g) n) in
      let keep : (y : ℕ) → In y (q s i) → a1 y ≡ order b y = λ y k.
        write_other b.pool.arena g (fill (order b g) n) y
          λ e. v.held_apart s i g (inl refl) (subst (λ z. In z (q s i)) e k) in
      let h =
        Holds-cong (level b s i) b.pool.arena a1 (q s i)
          (λ y k.
            ((ap (λ o. o.prev) (keep y k), ap (λ o. o.next) (keep y k)), ap remaining (keep y k)))
          (v.holds s i) in
      rw (arena-trade b s i g t x, front)
        (fill-Holds (level b s i) a1 x xs n (rw (← front) h) (rw (keep x In-front) IsOpen-front)
          (rw (keep x In-front) n_le.0))

  pub order_kept : (y : ℕ) → SameOrder (order b' y) (order b y)
  order_kept y = elim (ℕ_discrete y x) [
    | yes e ↦ rw e (rw trade_resting (SameOrder-fill (order b x) n))
    | no nx ↦ elim (ℕ_discrete y g) [
      | yes e ↦ rw e (rw trade_aggressor (SameOrder-fill (order b g) n))
      | no ng ↦ SameOrder-eq _ _ (trade_other y nx ng)
    ]
  ]

  IsOpen-kept : (y : ℕ) → IsOpen (order b y) → IsOpen (order b' y)
  IsOpen-kept y o = elim (ℕ_discrete y x) [
    | yes e ↦ rw e (rw trade_resting (fill-IsOpen (order b x) n IsOpen-front n_le.0))
    | no nx ↦ elim (ℕ_discrete y g) [
      | yes e ↦
          rw e (rw trade_aggressor (fill-IsOpen (order b g) n (v.held_open g (inl refl)) n_le.1))
      | no ng ↦ rw (trade_other y nx ng) o
    ]
  ]

  other_levels : (u : Side) (j : ℕ) → Apart u j s i → Holds (level b u j) b'.pool.arena (q u j)
  other_levels u j apart =
      Holds-cong (level b u j) b.pool.arena b'.pool.arena (q u j)
        (λ y k.
          let (nx, ng) = others u j y apart k in
          let e = trade_other y nx ng in ((ap (λ o. o.prev) e, ap (λ o. o.next) e), ap remaining e))
        (v.holds u j)

  -- A trade at the front of a level keeps the invariant.
  pub trade-IsBook : IsBook b' q (g ∷ [])
  trade-IsBook =
      let (table, free, size) = trade-store b s i g t x in
      record {
        holds = λ u j. rw (level-trade b s i g t x u j) (
            put_elim (λ u j l _. Holds l b'.pool.arena (q u j)) (level b) q s i
              (adjust_down (level b s i) n) (q s i) level_filled other_levels u j);
        rests = λ u j y k.
            let r = v.rests u j y k in Rests-SameOrder _ _ (order_kept y) (IsOpen-kept y r.open_) r;
        used = λ u j y k. rw free (v.used u j y k);
        held_used = λ y k. rw free (v.held_used y k);
        held_apart = v.held_apart;
        held_open = λ y k. IsOpen-kept y (v.held_open y k);
        held_once = v.held_once;
        free_once = rw free v.free_once;
        in_arena = λ u j y k. rw size (v.in_arena u j y k);
        free_in_arena = λ y. rw (free, size) (v.free_in_arena y);
        held_in_arena = λ y k. rw size (v.held_in_arena y k);
        small = rw size v.small;
        table = λ k y. rw table λ e.
            let (slot, where_) = v.table k y e in
            (ap (λ z. z % max_orders) (order_kept y).id ∙ slot, where_);
      }
