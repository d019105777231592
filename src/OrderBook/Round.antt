-- ===== src/OrderBook/Round.antt =====
-- What a round of `drain_level` leaves: a resting order that stays, or one that leaves the book.
use trade_feed.Prelude.{
  ℕ, ◌≡◌, ◌≢◌, refl, inl, List, [], ◌∷◌, arith, sym, ap, ◌∙◌, ℕ_discrete, subst, false, true, min,
}
use trade_feed.Types.{Side, Order, is_filled, remaining}
use trade_feed.PriceLevel.Chain.{In, unlinked}
use trade_feed.PriceLevel.Fill.{IsOpen}
use trade_feed.OrderBook.State.{OrderBook, order, level, detach}
use trade_feed.OrderBook.Invariant.{Queues, put, put-Apart, Apart, IsBook, SameOrder, SameOrder-eq}
use trade_feed.OrderBook.Detach.{SameOrder-unlinked}
use trade_feed.Types.{fill}
use trade_feed.OrderBook.Trade.{
  SameFrame, trade-SameFrame, trade-IsBook, trade_aggressor, trade_resting, trade_other,
  level-trade, order_kept,
}
use trade_feed.OrderBook.Matching.{trade}
use trade_feed.OrderBook.Detach.{
  detach-IsBook, detach-SameFrame, detach-unlinked, level-detach, fewer,
}
use trade_feed.OrderBook.Release.{freed, freed-IsBook, freed-SameFrame, order-freed, level-freed}
use trade_feed.OrderBook.Invariant.{IsLive}

pub SameFrame-trans : {a b c : OrderBook} → SameFrame a b → SameFrame b c → SameFrame a c
SameFrame-trans h k = record {
  bid_bits = k.bid_bits ∙ h.bid_bits;
  ask_bits = k.ask_bits ∙ h.ask_bits;
  best_bid = k.best_bid ∙ h.best_bid;
  best_ask = k.best_ask ∙ h.best_ask;
  scan_calls = k.scan_calls ∙ h.scan_calls;
}

pub SameFrame-refl : (b : OrderBook) → SameFrame b b
SameFrame-refl b = record {
  bid_bits = refl;
  ask_bits = refl;
  best_bid = refl;
  best_ask = refl;
  scan_calls = refl;
}

pub SameOrder-trans : {o p r : Order} → SameOrder o p → SameOrder p r → SameOrder o r
SameOrder-trans h k = record {
  side = h.side ∙ k.side;
  price = h.price ∙ k.price;
  quantity = h.quantity ∙ k.quantity;
  id = h.id ∙ k.id;
  client_id = h.client_id ∙ k.client_id;
}

-- What matching at one level, on behalf of the order `g`, leaves behind.
pub record Worked (b : OrderBook) (s : Side) (i g : ℕ) (b' : OrderBook) (q' : Queues) : Type 0 where
  pub book : IsBook b' q' (g ∷ [])
  pub live : IsLive b' q'
  pub frame : SameFrame b b'
  pub elsewhere : (u : Side) (j : ℕ) → Apart u j s i → level b' u j ≡ level b u j
  pub aggressor : SameOrder (order b' g) (order b g)

pub is_filled-unlinked : (o p : Order) → unlinked o ≡ unlinked p → is_filled o ≡ is_filled p
unfolding is_filled
is_filled-unlinked o p e = ground arith

-- Of two orders that trade, one is filled.
one_is_filled :
    (o p : Order)
    → IsOpen o
    → IsOpen p
    → is_filled (fill p (min (remaining o) (remaining p))) ≡ false
    → is_filled (fill o (min (remaining o) (remaining p))) ≡ true
unfolding is_filled fill remaining
one_is_filled o p v w h = ground arith

module _ (b : OrderBook) (q : Queues) (s : Side) (i g : ℕ) (t : Side) (x : ℕ) (xs : List ℕ)
    (v : IsBook b q (g ∷ [])) (live : IsLive b q) (front : q s i ≡ x ∷ xs) where
  abbrev pub traded : OrderBook
  traded = trade b s i g t x

  book1 : IsBook traded q (g ∷ [])
  book1 = trade-IsBook b q s i g t x xs v front

  pub not_aggressor : (u : Side) (j y : ℕ) → In y (q u j) → y ≢ g
  not_aggressor u j y k e = v.held_apart u j g (inl refl) (subst (λ z. In z (q u j)) e k)

  elsewhere1 : (u : Side) (j : ℕ) → Apart u j s i → level traded u j ≡ level b u j
  elsewhere1 u j apart = level-trade b s i g t x u j ∙ put-Apart (level b) s i _ u j apart

  -- The resting order keeps a part: the aggressor is filled, and nobody leaves.
  pub stays-Worked :
      is_filled (order traded x) ≡ false
      → Worked b s i g traded q × (is_filled (order traded g) ≡ true)
  stays-Worked open_ = (
    record {
      book = book1;
      live = λ u j y k. elim (ℕ_discrete y x) [
        | yes e ↦ rw e open_
        | no ne ↦
            rw (trade_other b q s i g t x xs v front y ne (not_aggressor u j y k)) (live u j y k)
      ];
      frame = trade-SameFrame b s i g t x;
      elsewhere = elsewhere1;
      aggressor = order_kept b q s i g t x xs v front g;
    },
    filled,
  )
    where
      filled : is_filled (order traded g) ≡ true
      filled = rw (trade_aggressor b q s i g t x xs v front) (
          one_is_filled (order b g) (order b x) (v.held_open g (inl refl))
            (v.rests s i x (rw front (inl refl))).open_
            (rw (trade_resting b q s i g t x xs v front) at open_))

  abbrev pub retired : OrderBook
  retired = freed (detach traded s i x) x

  abbrev pub unlinked_book : OrderBook
  unlinked_book = detach traded s i x

  pub IsBook-mid : IsBook unlinked_book (put q s i xs) (x ∷ g ∷ [])
  IsBook-mid = detach-IsBook traded q (g ∷ []) s i [] x xs book1 front

  pub unlinked2 : (y : ℕ) → y ≢ x → unlinked (order retired y) ≡ unlinked (order traded y)
  unlinked2 y ne =
      ap unlinked (order-freed unlinked_book x y ne)
      ∙ detach-unlinked traded q (g ∷ []) s i [] x xs book1 front y

  -- The resting order is filled: it leaves, and the next one is at the front.
  pub leaves-Worked : Worked b s i g retired (put q s i xs)
  leaves-Worked = record {
    book = freed-IsBook unlinked_book (put q s i xs) x (g ∷ []) IsBook-mid;
    live = λ u j y k.
        let nx : y ≢ x =
          λ e. IsBook-mid.held_apart u j x (inl refl) (subst (λ z. In z (put q s i xs u j)) e k) in
        let old = fewer traded q (g ∷ []) s i [] x xs book1 front u j y k in
        is_filled-unlinked _ _ (
          unlinked2 y nx
          ∙ ap unlinked (trade_other b q s i g t x xs v front y nx (not_aggressor u j y old)))
        ∙ live u j y old;
    frame =
        SameFrame-trans (trade-SameFrame b s i g t x)
          (SameFrame-trans (detach-SameFrame traded s i x) (freed-SameFrame unlinked_book x));
    elsewhere = λ u j apart.
        level-freed unlinked_book x u j
        ∙ level-detach traded s i x u j
        ∙ put-Apart (level traded) s i _ u j apart
        ∙ elsewhere1 u j apart;
    aggressor =
        SameOrder-trans
          (SameOrder-unlinked _ _
            (unlinked2 g (λ e. not_aggressor s i x (rw front (inl refl)) (sym e))))
          (order_kept b q s i g t x xs v front g);
  }

pub Worked-refl :
    (b : OrderBook) (q : Queues) (s : Side) (i g : ℕ)
    → IsBook b q (g ∷ [])
    → IsLive b q
    → Worked b s i g b q
Worked-refl b q s i g v live = record {
  book = v;
  live = live;
  frame = SameFrame-refl b;
  elsewhere = λ u j apart. refl;
  aggressor = SameOrder-eq _ _ refl;
}

pub Worked-trans :
    {b c d : OrderBook} {p q : Queues} (s : Side) (i g : ℕ)
    → Worked b s i g c p
    → Worked c s i g d q
    → Worked b s i g d q
Worked-trans s i g w w' = record {
  book = w'.book;
  live = w'.live;
  frame = SameFrame-trans w.frame w'.frame;
  elsewhere = λ u j apart. w'.elsewhere u j apart ∙ w.elsewhere u j apart;
  aggressor = SameOrder-trans w'.aggressor w.aggressor;
}
