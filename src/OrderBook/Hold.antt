-- ===== src/OrderBook/Hold.antt =====
-- The start of `add_order`: a slot is taken from the pool, filled in, and registered.
use trade_feed.Prelude.{
  ℕ, ◌%◌, ◌<◌, ◌≡◌, ◌≢◌, refl, ◌⊎◌, inl, inr, some, List, [], ◌∷◌, arith, ◌==◌, if◌then◌else◌, sym,
  ap, ◌∙◌, ℕ_discrete, subst,
}
use trade_feed.Prelude.Array.{write}
use trade_feed.Types.{Side, buy, sell, u32_mod, max_orders, remaining}
use trade_feed.PriceLevel.Chain.{In, Distinct, Fresh, Fresh-not-In}
use trade_feed.OrderBook.State.{OrderBook, order, level, reg}
use trade_feed.OrderBook.Invariant.{Queues, IsBook, Holds-cong}
use trade_feed.OrderBook.Invariant.{IsSound, bits}
use trade_feed.OrderBook.Orders.{NewOrder, fresh_order}
use trade_feed.OrderBook.Shows.{shows_same}

-- The book that matching starts from, at the slot `o`.
abbrev pub entered : OrderBook → List ℕ → NewOrder → ℕ → OrderBook
entered b rest n o =
    reg
      (record b {
        pool = record (b.pool) { arena = write b.pool.arena o (fresh_order n); free_list = rest };
      })
      o

order-entered :
    (b : OrderBook) (rest : List ℕ) (n : NewOrder) (o y : ℕ)
    → order (entered b rest n o) y ≡ (if y == o then fresh_order n else order b y)
unfolding reg
order-entered b rest n o y = refl

level-entered :
    (b : OrderBook) (rest : List ℕ) (n : NewOrder) (o : ℕ) (u : Side) (j : ℕ)
    → level (entered b rest n o) u j ≡ level b u j
unfolding reg level
level-entered b rest n o buy j = refl
level-entered b rest n o sell j = refl

bits-entered :
    (b : OrderBook) (rest : List ℕ) (n : NewOrder) (o : ℕ) (u : Side)
    → bits (entered b rest n o) u ≡ bits b u
unfolding reg
bits-entered b rest n o buy = refl
bits-entered b rest n o sell = refl

module _ (b : OrderBook) (q : Queues) (rest : List ℕ) (n : NewOrder) (o : ℕ) (v : IsSound b q [])
    (front : b.pool.free_list ≡ o ∷ rest) (fits : n.qty < u32_mod) where
  abbrev b' : OrderBook
  b' = entered b rest n o

  free_slot : In o b.pool.free_list
  free_slot = rw front (inl refl)

  was_free : (y : ℕ) → In y rest → In y b.pool.free_list
  was_free y k = rw front (inr k)

  unused : (u : Side) (j y : ℕ) → In y (q u j) → y ≢ o
  unused u j y k e = v.book.used u j o (subst (λ z. In z (q u j)) e k) free_slot

  pub entered_self : order b' o ≡ fresh_order n
  entered_self = order-entered b rest n o o ∙ ground arith

  pub entered_other : (y : ℕ) → y ≢ o → order b' y ≡ order b y
  entered_other y ne = order-entered b rest n o y ∙ ground arith

  table-entered :
      (k x : ℕ)
      → b'.order_table k ≡ some x
      → ((order b' x).id % max_orders ≡ k) × (In x (o ∷ []) ⊎ ((s : Side) × (i : ℕ) × In x (q s i)))
  unfolding reg
  table-entered k x e = elim (ℕ_discrete k (n.id % max_orders)) [
    | yes here ↦
        let same : x ≡ o = ground arith in (rw (same, entered_self) (sym here), inl (inl same))
    | no ne ↦
        let (slot, where_) = v.book.table k x (ground arith) in
        elim where_ [
          | inl held ↦ absurd held
          | inr (s, i, m) ↦ (rw (entered_other x (unused s i x m)) slot, inr (s, i, m))
        ]
  ]

  distinct_free : Fresh o rest × Distinct rest
  distinct_free = rw front at v.book.free_once

  entered-IsBook : IsBook b' q (o ∷ [])
  unfolding reg
  entered-IsBook = record {
    holds = λ u j. rw (level-entered b rest n o u j) (
        Holds-cong (level b u j) b.pool.arena b'.pool.arena (q u j)
          (λ y k.
            let e = entered_other y (unused u j y k) in
            ((ap (λ z. z.prev) e, ap (λ z. z.next) e), ap remaining e))
          (v.book.holds u j));
    rests = λ u j y k. rw (entered_other y (unused u j y k)) (v.book.rests u j y k);
    used = λ u j y k m. v.book.used u j y k (was_free y m);
    held_used = λ y k m. elim k [
      | inl e ↦ Fresh-not-In o rest distinct_free.0 (subst (λ z. In z rest) e m)
      | inr w ↦ w
    ];
    held_apart = λ u j y k m. elim k [ inl e ↦ unused u j y m e | inr w ↦ w ];
    held_open =
        λ y k. elim k [ inl e ↦ rw (e, entered_self) (omega (arith, fits)) | inr w ↦ absurd w ];
    held_once = (tt, tt);
    free_once = distinct_free.1;
    in_arena = v.book.in_arena;
    free_in_arena = λ y k. v.book.free_in_arena y (was_free y k);
    held_in_arena =
        λ y k. elim k [ inl e ↦ rw e (v.book.free_in_arena o free_slot) | inr w ↦ absurd w ];
    small = v.book.small;
    table = table-entered;
  }

  -- Matching starts from a sound book that holds the new order.
  pub entered-IsSound : IsSound b' q (o ∷ [])
  unfolding reg
  entered-IsSound = record {
    book = entered-IsBook;
    live = λ u j y k. rw (entered_other y (unused u j y k)) (v.live u j y k);
    shows = shows_same b b' v.shows (bits-entered b rest n o) (level-entered b rest n o);
    bid_top = v.bid_top;
    ask_top = v.ask_top;
    uncrossed = v.uncrossed;
  }
