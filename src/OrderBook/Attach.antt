-- ===== src/OrderBook/Attach.antt =====
-- `level.push(o)` in the book: a held order comes to rest at the end of its level.
use trade_feed.Prelude.{
  ℕ, ◌+◌, ◌%◌, ◌<◌, ◌≡◌, ◌≢◌, refl, ◌⊎◌, inl, inr, List, [], ◌∷◌, ◌++◌, arith, sym, ap, ◌∙◌, subst,
  length,
}
use trade_feed.Types.{Side, buy, sell, u32_mod, max_orders, remaining}
use trade_feed.PriceLevel
use trade_feed.PriceLevel.{PriceLevel, Arena, is_empty}
use trade_feed.PriceLevel.Chain.{
  In, Holds, Fresh, Fresh-not-In, Fresh_of_not_In, unlinked, In-append, In-append_left,
  In-append_right, In-cons_elim,
}
use trade_feed.PriceLevel.Push.{push-Holds, push-unlinked, push-frame}
use trade_feed.OrderBook.State.{OrderBook, order, level, attach}
use trade_feed.OrderBook.Invariant.{
  Queues, put, put_elim, put_self, Apart, level-set_level, Rests, IsBook, Holds-cong,
  Rests-SameOrder,
}
use trade_feed.PriceLevel.Pigeonhole.{length-Distinct-le}
use trade_feed.OrderBook.Trade.{SameFrame}
use trade_feed.OrderBook.Detach.{SameOrder-unlinked, IsOpen-unlinked}

pub level-attach :
    (b : OrderBook) (s : Side) (i x : ℕ) (u : Side) (j : ℕ)
    → level (attach b s i x) u j
      ≡ put (level b) s i (PriceLevel.push (level b s i) b.pool.arena x).0 u j
unfolding attach level
level-attach b s i x u j = level-set_level _ s i _ u j

attach-store :
    (b : OrderBook) (s : Side) (i x : ℕ)
    → let b' = attach b s i x in
      (b'.order_table ≡ b.order_table)
      × (b'.pool.free_list ≡ b.pool.free_list)
      × (b'.pool.size ≡ b.pool.size)
      × (b'.pool.arena ≡ (PriceLevel.push (level b s i) b.pool.arena x).1)
unfolding attach
attach-store b buy i x = (refl, refl, refl, refl)
attach-store b sell i x = (refl, refl, refl, refl)

pub attach-SameFrame : (b : OrderBook) (s : Side) (i x : ℕ) → SameFrame b (attach b s i x)
unfolding attach
attach-SameFrame b buy i x = record {
  bid_bits = refl;
  ask_bits = refl;
  best_bid = refl;
  best_ask = refl;
  scan_calls = refl;
}
attach-SameFrame b sell i x = record {
  bid_bits = refl;
  ask_bits = refl;
  best_bid = refl;
  best_ask = refl;
  scan_calls = refl;
}

module _ (b : OrderBook) (q : Queues) (held : List ℕ) (s : Side) (i x : ℕ)
    (v : IsBook b q (x ∷ held)) (r : Rests (order b x) s i) where
  abbrev b' : OrderBook
  b' = attach b s i x

  abbrev q' : Queues
  q' = put q s i (q s i ++ x ∷ [])

  fresh : (u : Side) (j : ℕ) → In x (q u j) → ⊥
  fresh u j = v.held_apart u j x (inl refl)

  pub attach-unlinked : (y : ℕ) → unlinked (order b' y) ≡ unlinked (order b y)
  attach-unlinked y = rw (attach-store b s i x).3 (push-unlinked (level b s i) b.pool.arena x y)

  Fresh_queue : Fresh x (q s i)
  Fresh_queue = Fresh_of_not_In x (q s i) (fresh s i)

  -- A level never holds as many orders as the arena, for the new one is not among them.
  room : length (q s i) + 1 < u32_mod
  room =
      let h =
        length-Distinct-le b.pool.size (x ∷ q s i) (Fresh_queue, (v.holds s i).distinct)
          (In-cons_elim (λ z. z < b.pool.size) x (q s i) (v.held_in_arena x (inl refl))
            (v.in_arena s i)) in
      omega (arith, h, v.small)

  other_levels : (u : Side) (j : ℕ) → Apart u j s i → Holds (level b u j) b'.pool.arena (q u j)
  other_levels u j apart =
      Holds-cong (level b u j) b.pool.arena b'.pool.arena (q u j)
        (λ y k.
          let e : order b' y ≡ order b y = rw (attach-store b s i x).3 (
            push-frame (level b s i) b.pool.arena x (q s i) Fresh_queue (v.holds s i) y
              (λ here.
                let r1 = v.rests u j y k in
                let r2 = v.rests s i y here in
                apart (sym r1.side ∙ r2.side) (omega (arith, r1.price, r2.price)))
              λ e. fresh u j (subst (λ z. In z (q u j)) e k)) in
          ((ap (λ o. o.prev) e, ap (λ o. o.next) e), ap remaining e))
        (v.holds u j)

  -- An order of the new queues is the new one, at its place, or an old one.
  pub new_or_old :
      (u : Side) (j y : ℕ) → In y (q' u j) → ((y ≡ x) × (u ≡ s) × (j ≡ i)) ⊎ In y (q u j)
  new_or_old u j y =
      put_elim (λ u j _ ys. In y ys → ((y ≡ x) × (u ≡ s) × (j ≡ i)) ⊎ In y (q u j)) q q s i
        (q s i ++ x ∷ []) (q s i ++ x ∷ [])
        (λ k. elim (In-append y (q s i) (x ∷ []) k) [
          | inl m ↦ inr m
          | inr (inl e) ↦ inl (e, refl, refl)
          | inr (inr n) ↦ absurd n
        ])
        (λ u j apart k. inr k) u j

  more : (u : Side) (j y : ℕ) → In y (q u j) → In y (q' u j)
  more u j y =
      put_elim (λ u j _ ys. In y (q u j) → In y ys) q q s i (q s i ++ x ∷ []) (q s i ++ x ∷ [])
        (λ k. In-append_left y (q s i) (x ∷ []) k) (λ u j apart k. k) u j

  newest : In x (q' s i)
  newest = rw (put_self q s i (q s i ++ x ∷ [])) (In-append_right x (q s i) (x ∷ []) (inl refl))

  by_place :
      (P : Side → ℕ → ℕ → Type 0)
      → P s i x
      → ((u : Side) (j y : ℕ) → In y (q u j) → P u j y)
      → (u : Side) (j y : ℕ) → In y (q' u j)
      → P u j y
  by_place P here old u j y k = elim (new_or_old u j y k) [
    | inl (e, f, g) ↦
        subst (λ z. P u j z) (sym e)
          (subst (λ z. P z j x) (sym f) (subst (λ z. P s z x) (sym g) here))
    | inr m ↦ old u j y m
  ]

  found :
      (y : ℕ)
      → In y (x ∷ held) ⊎ ((u : Side) × (j : ℕ) × In y (q u j))
      → In y held ⊎ ((u : Side) × (j : ℕ) × In y (q' u j))
  found y (inl (inl e)) = inr (s, i, subst (λ z. In z (q' s i)) (sym e) newest)
  found y (inl (inr k)) = inl k
  found y (inr (u, j, k)) = inr (u, j, more u j y k)

  abbrev Kept : Side → ℕ → ℕ → Type 0
  Kept u j y = Rests (order b' y) u j

  same_order : (u : Side) (j y : ℕ) → Rests (order b y) u j → Kept u j y
  same_order u j y k =
      Rests-SameOrder _ _ (SameOrder-unlinked _ _ (attach-unlinked y))
        (IsOpen-unlinked _ _ (attach-unlinked y) k.open_) k

  -- The held order is now the last one of its level; no other order moves.
  pub attach-IsBook : IsBook b' q' held
  attach-IsBook =
      let (table, free, size, arena) = attach-store b s i x in
      record {
        holds = λ u j. rw (level-attach b s i x u j) (
            put_elim (λ u j l ys. Holds l b'.pool.arena ys) (level b) q s i _ (q s i ++ x ∷ [])
              (rw arena
                (push-Holds (level b s i) b.pool.arena x (q s i) Fresh_queue (v.holds s i) room))
              other_levels u j);
        rests = by_place Kept (same_order s i x r) (λ u j y k. same_order u j y (v.rests u j y k));
        used =
            rw free
              (by_place (λ u j y. In y b.pool.free_list → ⊥) (v.held_used x (inl refl)) v.used);
        held_used = λ y k. rw free (v.held_used y (inr k));
        held_apart = λ u j y k.
            let ne : y ≢ x = λ e. Fresh-not-In x held v.held_once.0 (subst (λ z. In z held) e k) in
            λ m. elim (new_or_old u j y m) [
              | inl (e, _, _) ↦ ne e
              | inr old ↦ v.held_apart u j y (inr k) old
            ];
        held_open = λ y k. IsOpen-unlinked _ _ (attach-unlinked y) (v.held_open y (inr k));
        held_once = v.held_once.1;
        free_once = rw free v.free_once;
        in_arena =
            rw size (by_place (λ u j y. y < b.pool.size) (v.held_in_arena x (inl refl)) v.in_arena);
        free_in_arena = λ y. rw (free, size) (v.free_in_arena y);
        held_in_arena = λ y k. rw size (v.held_in_arena y (inr k));
        small = rw size v.small;
        table = λ k y. rw table λ e.
            let (slot, where_) = v.table k y e in
            (ap (λ z. z.id % max_orders) (attach-unlinked y) ∙ slot, found y where_);
      }
