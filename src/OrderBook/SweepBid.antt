-- ===== src/OrderBook/SweepBid.antt =====
-- One round of the matching loops over bids: the best level is drained, and if it is then empty the
-- best price moves on.
use trade_feed.Prelude.{
  ℕ, ◌-◌, ◌<◌, ◌≡◌, ◌≢◌, refl, ◌⊎◌, inl, inr, [], ◌∷◌, arith, sym, ap, ◌∙◌, subst, false, true,
  Bool-cases,
}
use trade_feed.Types.{Side, buy, sell, is_filled}
use trade_feed.PriceLevel.{is_empty}
use trade_feed.OrderBook.State.{OrderBook, order, level}
use trade_feed.OrderBook.Invariant.{Queues, SameOrder}
use trade_feed.OrderBook.Trade.{SameFrame}
use trade_feed.OrderBook.Matching.{drain_level}
use trade_feed.PriceBitset.{PriceBitset, test, clear}
use trade_feed.PriceBitset.Writes.{clear-IsValid}
use trade_feed.OrderBook.State.{idx, scan_best_bid}
use trade_feed.OrderBook.Matching.{sweep_bid}
use trade_feed.OrderBook.Round.{Worked}
use trade_feed.OrderBook.Drain.{drain_level-Worked}
use trade_feed.OrderBook.Invariant.{IsBidTop, IsSound, bits}
use trade_feed.OrderBook.Scan.{scan_best_bid-IsBidTop, level-requote, IsBook-requote}
use trade_feed.OrderBook.Shows.{shows_kept, shows_cleared}
use trade_feed.OrderBook.Tops.{bid_top-clear-lt}
use trade_feed.OrderBook.Priority.{TradesAt}
use trade_feed.OrderBook.Trace.{market, taker}
use trade_feed.OrderBook.Sweep.{idx_lem, bits_frame}

-- What a round at the best bid does, on behalf of the order `g`.
pub record Swept (b : OrderBook) (q : Queues) (b' : OrderBook) (q' : Queues) (g : ℕ) : Type 0 where
  pub sound : IsSound b' q' (g ∷ [])
  pub aggressor : SameOrder (order b' g) (order b g)
  pub other_side : b'.best_ask ≡ b.best_ask
  pub trades :
      TradesAt (taker sell (order b g)) buy (idx b.best_bid) (market b q g) (market b' q' g)
  pub progress : (is_filled (order b' g) ≡ true) ⊎ (b'.best_bid < b.best_bid)

module _ (b : OrderBook) (q : Queues) (g : ℕ) (v : IsSound b q (g ∷ []))
    (hit : 0 < b.best_bid) where
  abbrev i : ℕ
  i = idx b.best_bid

  at_best : i ≡ b.best_bid - 1
  at_best = idx_lem b.best_bid hit (omega (arith, v.bid_top.range))

  was_shown : test b.bid_bits i ≡ true
  was_shown = rw at_best (v.bid_top.at hit)

  module _ (b1 : OrderBook) (q1 : Queues)
      (r : TradesAt (taker sell (order b g)) buy i (market b q g) (market b1 q1 g))
      (w : Worked b buy i g b1 q1) where
    same_index : idx b1.best_bid ≡ i
    same_index = ap idx w.frame.best_bid

    -- The level was drained without emptying it.
    kept-Swept :
        is_filled (order b1 g) ≡ true → is_empty (level b1 buy i) ≡ false → Swept b q b1 q1 g
    kept-Swept filled more = record {
      sound = record {
        book = w.book;
        live = w.live;
        shows = shows_kept b b1 buy i v.shows w.elsewhere (bits_frame w.frame) was_shown more;
        bid_top = rw (w.frame.bid_bits, w.frame.best_bid) v.bid_top;
        ask_top = rw (w.frame.ask_bits, w.frame.best_ask) v.ask_top;
        uncrossed = rw (w.frame.best_bid, w.frame.best_ask) v.uncrossed;
      };
      aggressor = w.aggressor;
      other_side = w.frame.best_ask;
      trades = r;
      progress = inl filled;
    }

    abbrev bits1 : PriceBitset
    bits1 = clear b1.bid_bits (idx b1.best_bid)

    abbrev cleared : OrderBook
    cleared = record b1 { bid_bits = bits1 }

    bits1_lem : bits1 ≡ clear b.bid_bits i
    bits1_lem = rw (same_index, w.frame.bid_bits)

    new_top : IsBidTop (clear b.bid_bits i) (scan_best_bid cleared).best_bid
    new_top =
        subst (λ t. IsBidTop t (scan_best_bid cleared).best_bid) bits1_lem
          (scan_best_bid-IsBidTop cleared
            (rw bits1_lem (clear-IsValid b.bid_bits i (v.shows.valid buy))))

    moved_on : (scan_best_bid cleared).best_bid < b.best_bid
    moved_on =
        bid_top-clear-lt b.bid_bits (v.shows.valid buy) i b.best_bid
          (scan_best_bid cleared).best_bid hit at_best v.bid_top new_top

    -- The level is empty: its bit is cleared and the next level is found.
    moved-Swept : is_empty (level b1 buy i) ≡ true → Swept b q (scan_best_bid cleared) q1 g
    unfolding scan_best_bid
    moved-Swept gone = record {
      sound = record {
        book = IsBook-requote b1 _ _ _ _ _ _ _ q1 (g ∷ []) w.book;
        live = w.live;
        shows =
            shows_cleared b (scan_best_bid cleared) buy i v.shows
              (λ u j apart. level-requote b1 _ _ _ _ _ _ _ u j ∙ w.elsewhere u j apart)
              (other_bits w.frame) bits1_lem
              (ap is_empty (level-requote b1 _ _ _ _ _ _ _ buy i) ∙ gone);
        bid_top = subst (λ t. IsBidTop t (scan_best_bid cleared).best_bid) (sym bits1_lem) new_top;
        ask_top = rw (w.frame.ask_bits, w.frame.best_ask) v.ask_top;
        uncrossed = let e = w.frame.best_ask in omega (arith, e, v.uncrossed, moved_on);
      };
      aggressor = w.aggressor;
      other_side = w.frame.best_ask;
      trades = r;
      progress = inr moved_on;
    }
      where
        other_bits :
            SameFrame b b1 → (u : Side) → u ≢ buy → bits (scan_best_bid cleared) u ≡ bits b u
        other_bits f buy ne = absurd (ne refl)
        other_bits f sell ne = f.ask_bits

  -- A round keeps the book sound, and fills the aggressor or moves the best bid on.
  pub sweep_bid-Swept : (q' : Queues) × Swept b q (sweep_bid b g) q' g
  unfolding sweep_bid
  sweep_bid-Swept =
      let (q1, w, d, r) = drain_level-Worked b q buy i g sell v.book v.live in
      let b1 = drain_level b buy i g sell in
      let e : is_empty (level b1 buy (idx b1.best_bid)) ≡ is_empty (level b1 buy i) =
        ap (λ k. is_empty (level b1 buy k)) (same_index b1 q1 r w) in
      elim (Bool-cases (is_empty (level b1 buy i))) [
        | inl gone ↦ (q1, rw (e ∙ gone) (moved-Swept b1 q1 r w gone))
        | inr more ↦ (
          q1,
          rw (e ∙ more) (kept-Swept b1 q1 r w (elim d [ inl f ↦ f | inr c ↦ ground arith ]) more),
        )
      ]
