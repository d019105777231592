-- ===== src/OrderBook/CancelAsk.antt =====
-- `cancel_order` on the ask side: an order leaves its level.
use trade_feed.Prelude.{
  ℕ, ◌-◌, ◌<◌, ◌≤◌, ◌≡◌, ◌≢◌, refl, inl, inr, List, [], ◌∷◌, ◌++◌, arith, ◌==◌, sym, ap, ◌∙◌, not,
  subst, false, true, Bool-cases, length, ◌↔◌,
}
use trade_feed.Types.{Side, buy, sell}
use trade_feed.PriceLevel.{is_empty}
use trade_feed.PriceLevel.Chain.{length-positive, In, unlinked, In-append_right}
use trade_feed.OrderBook.State.{OrderBook, order, level, detach}
use trade_feed.OrderBook.Invariant.{Queues, put, put-Apart, Apart, Rests, IsBook}
use trade_feed.OrderBook.Trade.{SameFrame}
use trade_feed.OrderBook.Detach.{
  detach-IsBook, detach-SameFrame, detach-unlinked, level-detach, fewer,
}
use trade_feed.OrderBook.Invariant.{IsLive}
use trade_feed.PriceBitset.{clear}
use trade_feed.PriceBitset.Writes.{clear-IsValid}
use trade_feed.OrderBook.State.{idx, scan_best_ask}
use trade_feed.OrderBook.Round.{is_filled-unlinked}
use trade_feed.OrderBook.Invariant.{ShowsLevels, IsAskTop, IsSound, bits}
use trade_feed.OrderBook.Scan.{scan_best_ask-IsAskTop, level-requote, IsBook-requote}
use trade_feed.OrderBook.Shows.{shows_same, shows_kept, shows_cleared}
use trade_feed.OrderBook.Tops.{IsAskTop-clear_inner, ask_top-clear-le}
use trade_feed.OrderBook.Sweep.{bits_frame}
use trade_feed.OrderBook.Orders.{cancel_ask}

module _ (b : OrderBook) (q : Queues) (o : ℕ) (us vs : List ℕ) (v : IsSound b q [])
    (here : q sell (idx (order b o).price) ≡ us ++ o ∷ vs) where
  abbrev i : ℕ
  i = idx (order b o).price

  found : In o (q sell i)
  found = rw here (In-append_right o us (o ∷ vs) (inl refl))

  resting : Rests (order b o) sell i
  resting = v.book.rests sell i o found

  abbrev q' : Queues
  q' = put q sell i (us ++ vs)

  abbrev b1 : OrderBook
  b1 = detach b sell i o

  at_best : (i ≡ b.best_ask - 1) ↔ ((order b o).price ≡ b.best_ask)
  at_best = let p = resting.price in ((λ e. omega (arith, v.ask_top.positive)), (λ e. omega arith))

  was_full : is_empty (level b sell i) ≡ false
  unfolding is_empty
  was_full =
      let n = (v.book.holds sell i).count in
      let some_left : 0 < length (us ++ o ∷ vs) = length-positive us o vs in
      let n' : length (q sell i) ≡ length (us ++ o ∷ vs) = ap length here in ground arith

  IsLive-left : (c : OrderBook) → ((y : ℕ) → order c y ≡ order b1 y) → IsLive c q'
  IsLive-left c e u j y k =
      is_filled-unlinked (order c y) (order b y)
        (ap unlinked (e y) ∙ detach-unlinked b q [] sell i us o vs v.book here y)
      ∙ (v.live u j y (fewer b q [] sell i us o vs v.book here u j y k))

  IsBook-left : IsBook b1 q' (o ∷ [])
  IsBook-left = detach-IsBook b q [] sell i us o vs v.book here

  frame : SameFrame b b1
  frame = detach-SameFrame b sell i o

  elsewhere : (u : Side) (j : ℕ) → Apart u j sell i → level b1 u j ≡ level b u j
  elsewhere u j apart = level-detach b sell i o u j ∙ put-Apart (level b) sell i _ u j apart

  kept-IsSound : is_empty (level b1 sell i) ≡ false → IsSound b1 q' (o ∷ [])
  kept-IsSound more = record {
    book = IsBook-left;
    live = IsLive-left b1 (λ y. refl);
    shows =
        shows_kept b b1 sell i v.shows elsewhere (bits_frame frame)
          (v.shows.shows sell i ∙ ap not was_full) more;
    bid_top = rw (frame.bid_bits, frame.best_bid) v.bid_top;
    ask_top = rw (frame.ask_bits, frame.best_ask) v.ask_top;
    uncrossed = rw (frame.best_bid, frame.best_ask) v.uncrossed;
  }

  abbrev b2 : OrderBook
  b2 = record b1 { ask_bits = clear b1.ask_bits i }

  bits2 : b2.ask_bits ≡ clear b.ask_bits i
  bits2 = ap (λ t. clear t i) frame.ask_bits

  shows2 : is_empty (level b1 sell i) ≡ true → ShowsLevels b2
  shows2 gone =
      shows_cleared b b2 sell i v.shows
        (λ u j apart. level-requote b1 _ _ _ _ _ _ _ u j ∙ elsewhere u j apart) other_bits bits2
        (ap is_empty (level-requote b1 _ _ _ _ _ _ _ sell i) ∙ gone)
    where
      other_bits : (u : Side) → u ≢ sell → bits b2 u ≡ bits b u
      other_bits sell ne = absurd (ne refl)
      other_bits buy ne = frame.bid_bits

  cleared-IsSound :
      is_empty (level b1 sell i) ≡ true → (order b o).price ≢ b.best_ask → IsSound b2 q' (o ∷ [])
  cleared-IsSound gone ne = record {
    book = IsBook-requote b1 _ _ _ _ _ _ _ q' (o ∷ []) IsBook-left;
    live = IsLive-left b2 (λ y. refl);
    shows = shows2 gone;
    ask_top =
        rw (bits2, frame.best_ask)
          (IsAskTop-clear_inner b.ask_bits (v.shows.valid sell) i b.best_ask (λ e. ne (at_best.0 e))
            v.ask_top);
    bid_top = rw (frame.bid_bits, frame.best_bid) v.bid_top;
    uncrossed = rw (frame.best_bid, frame.best_ask) v.uncrossed;
  }

  new_top : IsAskTop (clear b.ask_bits i) (scan_best_ask b2).best_ask
  new_top =
      subst (λ t. IsAskTop t (scan_best_ask b2).best_ask) bits2
        (scan_best_ask-IsAskTop b2 (rw bits2 (clear-IsValid b.ask_bits i (v.shows.valid sell))))

  no_better : b.best_ask ≤ (scan_best_ask b2).best_ask
  no_better =
      ask_top-clear-le b.ask_bits (v.shows.valid sell) i b.best_ask (scan_best_ask b2).best_ask
        v.ask_top new_top

  scanned-IsSound : is_empty (level b1 sell i) ≡ true → IsSound (scan_best_ask b2) q' (o ∷ [])
  unfolding scan_best_ask
  scanned-IsSound gone = record {
    book = IsBook-requote b1 _ _ _ _ _ _ _ q' (o ∷ []) IsBook-left;
    live = IsLive-left (scan_best_ask b2) (λ y. refl);
    shows =
        shows_same b2 (scan_best_ask b2) (shows2 gone) same_bits (level-requote b2 _ _ _ _ _ _ _);
    ask_top = subst (λ t. IsAskTop t (scan_best_ask b2).best_ask) (sym bits2) new_top;
    bid_top = rw (frame.bid_bits, frame.best_bid) v.bid_top;
    uncrossed = let e = frame.best_bid in omega (arith, e, v.uncrossed, no_better);
  }
    where
      same_bits : (u : Side) → bits (scan_best_ask b2) u ≡ bits b2 u
      same_bits buy = refl
      same_bits sell = refl

  -- The order leaves its level, and the best price and the bitset follow.
  pub cancel_ask-IsSound : IsSound (cancel_ask b o) q' (o ∷ [])
  unfolding cancel_ask detach level
  cancel_ask-IsSound = elim (Bool-cases (is_empty (level b1 sell i))) [
    | inr more ↦ rw more (kept-IsSound more)
    | inl gone ↦ elim (Bool-cases ((order b o).price == b2.best_ask)) [
      | inl same ↦ rw (gone, same) (scanned-IsSound gone)
      | inr other ↦ rw (gone, other) (cleared-IsSound gone (λ e. ground (arith, frame.best_ask)))
    ]
  ]
