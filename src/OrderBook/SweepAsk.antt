-- ===== src/OrderBook/SweepAsk.antt =====
-- One round of the matching loops over asks: the best level is drained, and if it is then empty the
-- best price moves on.
use trade_feed.Prelude.{
  ℕ, ◌-◌, ◌<◌, ◌≤◌, ◌≡◌, ◌≢◌, refl, ◌⊎◌, inl, inr, [], ◌∷◌, arith, sym, ap, ◌∙◌, subst, false, true,
  Bool-cases,
}
use trade_feed.Types.{Side, buy, sell, price_levels, is_filled}
use trade_feed.PriceLevel.{is_empty}
use trade_feed.OrderBook.State.{OrderBook, order, level}
use trade_feed.OrderBook.Invariant.{Queues, SameOrder}
use trade_feed.OrderBook.Trade.{SameFrame}
use trade_feed.OrderBook.Matching.{drain_level}
use trade_feed.PriceBitset.{PriceBitset, test, clear}
use trade_feed.PriceBitset.Writes.{clear-IsValid}
use trade_feed.OrderBook.State.{idx, scan_best_ask}
use trade_feed.OrderBook.Matching.{sweep_ask}
use trade_feed.OrderBook.Round.{Worked}
use trade_feed.OrderBook.Drain.{drain_level-Worked}
use trade_feed.OrderBook.Invariant.{IsAskTop, IsSound, bits}
use trade_feed.OrderBook.Scan.{scan_best_ask-IsAskTop, level-requote, IsBook-requote}
use trade_feed.OrderBook.Shows.{shows_kept, shows_cleared}
use trade_feed.OrderBook.Tops.{ask_top-clear-lt}
use trade_feed.OrderBook.Priority.{TradesAt}
use trade_feed.OrderBook.Trace.{market, taker}
use trade_feed.OrderBook.Sweep.{idx_lem, bits_frame}

-- What a round at the best ask does, on behalf of the order `g`.
pub record Swept (b : OrderBook) (q : Queues) (b' : OrderBook) (q' : Queues) (g : ℕ) : Type 0 where
  pub sound : IsSound b' q' (g ∷ [])
  pub aggressor : SameOrder (order b' g) (order b g)
  pub other_side : b'.best_bid ≡ b.best_bid
  pub trades :
      TradesAt (taker buy (order b g)) sell (idx b.best_ask) (market b q g) (market b' q' g)
  pub progress : (is_filled (order b' g) ≡ true) ⊎ (b.best_ask < b'.best_ask)

module _ (b : OrderBook) (q : Queues) (g : ℕ) (v : IsSound b q (g ∷ []))
    (hit : b.best_ask ≤ price_levels) where
  abbrev i : ℕ
  i = idx b.best_ask

  at_best : i ≡ b.best_ask - 1
  at_best = idx_lem b.best_ask v.ask_top.positive v.ask_top.range

  was_shown : test b.ask_bits i ≡ true
  was_shown = rw at_best (v.ask_top.at hit)

  module _ (b1 : OrderBook) (q1 : Queues)
      (r : TradesAt (taker buy (order b g)) sell i (market b q g) (market b1 q1 g))
      (w : Worked b sell i g b1 q1) where
    same_index : idx b1.best_ask ≡ i
    same_index = ap idx w.frame.best_ask

    -- The level was drained without emptying it.
    kept-Swept :
        is_filled (order b1 g) ≡ true → is_empty (level b1 sell i) ≡ false → Swept b q b1 q1 g
    kept-Swept filled more = record {
      sound = record {
        book = w.book;
        live = w.live;
        shows = shows_kept b b1 sell i v.shows w.elsewhere (bits_frame w.frame) was_shown more;
        bid_top = rw (w.frame.bid_bits, w.frame.best_bid) v.bid_top;
        ask_top = rw (w.frame.ask_bits, w.frame.best_ask) v.ask_top;
        uncrossed = rw (w.frame.best_bid, w.frame.best_ask) v.uncrossed;
      };
      aggressor = w.aggressor;
      other_side = w.frame.best_bid;
      trades = r;
      progress = inl filled;
    }

    abbrev bits1 : PriceBitset
    bits1 = clear b1.ask_bits (idx b1.best_ask)

    abbrev cleared : OrderBook
    cleared = record b1 { ask_bits = bits1 }

    bits1_lem : bits1 ≡ clear b.ask_bits i
    bits1_lem = rw (same_index, w.frame.ask_bits)

    new_top : IsAskTop (clear b.ask_bits i) (scan_best_ask cleared).best_ask
    new_top =
        subst (λ t. IsAskTop t (scan_best_ask cleared).best_ask) bits1_lem
          (scan_best_ask-IsAskTop cleared
            (rw bits1_lem (clear-IsValid b.ask_bits i (v.shows.valid sell))))

    moved_on : b.best_ask < (scan_best_ask cleared).best_ask
    moved_on =
        ask_top-clear-lt b.ask_bits (v.shows.valid sell) i b.best_ask
          (scan_best_ask cleared).best_ask hit at_best v.ask_top new_top

    -- The level is empty: its bit is cleared and the next level is found.
    moved-Swept : is_empty (level b1 sell i) ≡ true → Swept b q (scan_best_ask cleared) q1 g
    unfolding scan_best_ask
    moved-Swept gone = record {
      sound = record {
        book = IsBook-requote b1 _ _ _ _ _ _ _ q1 (g ∷ []) w.book;
        live = w.live;
        shows =
            shows_cleared b (scan_best_ask cleared) sell i v.shows
              (λ u j apart. level-requote b1 _ _ _ _ _ _ _ u j ∙ w.elsewhere u j apart)
              (other_bits w.frame) bits1_lem
              (ap is_empty (level-requote b1 _ _ _ _ _ _ _ sell i) ∙ gone);
        ask_top = subst (λ t. IsAskTop t (scan_best_ask cleared).best_ask) (sym bits1_lem) new_top;
        bid_top = rw (w.frame.bid_bits, w.frame.best_bid) v.bid_top;
        uncrossed = let e = w.frame.best_bid in omega (arith, e, v.uncrossed, moved_on);
      };
      aggressor = w.aggressor;
      other_side = w.frame.best_bid;
      trades = r;
      progress = inr moved_on;
    }
      where
        other_bits :
            SameFrame b b1 → (u : Side) → u ≢ sell → bits (scan_best_ask cleared) u ≡ bits b u
        other_bits f sell ne = absurd (ne refl)
        other_bits f buy ne = f.bid_bits

  -- A round keeps the book sound, and fills the aggressor or moves the best ask on.
  pub sweep_ask-Swept : (q' : Queues) × Swept b q (sweep_ask b g) q' g
  unfolding sweep_ask
  sweep_ask-Swept =
      let (q1, w, d, r) = drain_level-Worked b q sell i g buy v.book v.live in
      let b1 = drain_level b sell i g buy in
      let e : is_empty (level b1 sell (idx b1.best_ask)) ≡ is_empty (level b1 sell i) =
        ap (λ k. is_empty (level b1 sell k)) (same_index b1 q1 r w) in
      elim (Bool-cases (is_empty (level b1 sell i))) [
        | inl gone ↦ (q1, rw (e ∙ gone) (moved-Swept b1 q1 r w gone))
        | inr more ↦ (
          q1,
          rw (e ∙ more) (kept-Swept b1 q1 r w (elim d [ inl f ↦ f | inr c ↦ ground arith ]) more),
        )
      ]
