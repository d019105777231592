-- ===== src/OrderBook/RestAsk.antt =====
-- A limit order that is not filled comes to rest on the ask side.
use trade_feed.Prelude.{
  ℕ, ◌+◌, ◌-◌, ◌<◌, ◌≡◌, ◌≢◌, refl, inl, inr, [], ◌∷◌, ◌++◌, arith, ◌==◌, if◌then◌else◌, ap, ◌∙◌,
  ℕ_discrete, subst, false, true, ltb, Bool-cases, length, length-append,
}
use trade_feed.Types.{Side, buy, sell, price_levels, is_filled}
use trade_feed.PriceLevel.{is_empty}
use trade_feed.OrderBook.State.{OrderBook, order, level, attach}
use trade_feed.OrderBook.Invariant.{Queues, put, put_self, put-Apart, Apart, Rests, IsBook}
use trade_feed.OrderBook.Trade.{SameFrame}
use trade_feed.OrderBook.Invariant.{IsLive}
use trade_feed.PriceBitset.{PriceBitset, test, set}
use trade_feed.PriceBitset.Writes.{IsValid, test-set, set-IsValid}
use trade_feed.OrderBook.State.{idx}
use trade_feed.OrderBook.Round.{is_filled-unlinked}
use trade_feed.OrderBook.Invariant.{ShowsLevels, IsAskTop, IsSound, bits}
use trade_feed.OrderBook.Scan.{level-requote, IsBook-requote}
use trade_feed.OrderBook.Orders.{rest_ask}
use trade_feed.OrderBook.Shows.{shows_update, requote_bits, shows_same}
use trade_feed.OrderBook.Tops.{IsAskTop-set}
use trade_feed.OrderBook.Sweep.{idx_lem}
use trade_feed.OrderBook.State.{set_level}
use trade_feed.OrderBook.Trace.{entry, entry-unlinked}
use trade_feed.OrderBook.Attach.{
  attach-IsBook, attach-SameFrame, attach-unlinked, level-attach, new_or_old,
}

module _ (b : OrderBook) (q : Queues) (o price : ℕ) (v : IsSound b q (o ∷ []))
    (r : Rests (order b o) sell (price - 1)) (positive : 0 < price) (better : b.best_bid < price)
    (left : is_filled (order b o) ≡ false) where
  abbrev i : ℕ
  i = idx price

  at_price : i ≡ price - 1
  at_price = idx_lem price positive (omega (arith, r.in_range))

  rests : Rests (order b o) sell i
  rests = rw at_price r

  small : i < price_levels
  small = rests.in_range

  abbrev bits1 : PriceBitset
  bits1 = if is_empty (b.asks i) then set b.ask_bits i else b.ask_bits

  abbrev b1 : OrderBook
  b1 = record b { ask_bits = bits1 }

  book1 : IsBook b1 q (o ∷ [])
  book1 = IsBook-requote b _ _ _ _ _ _ _ q (o ∷ []) v.book

  abbrev b2 : OrderBook
  b2 = attach b1 sell i o

  abbrev q' : Queues
  q' = put q sell i (q sell i ++ o ∷ [])

  book2 : IsBook b2 q' []
  book2 = attach-IsBook b1 q [] sell i o book1 rests

  frame : SameFrame b1 b2
  frame = attach-SameFrame b1 sell i o

  -- The bit is set, if it was not already.
  shown : (j : ℕ) → test b2.ask_bits j ≡ (if j == i then true else test b.ask_bits j)
  shown j = rw frame.ask_bits (elim (Bool-cases (is_empty (b.asks i))) [
    | inl gone ↦ rw gone (test-set b.ask_bits i j)
    | inr more ↦ rw more (elim (ℕ_discrete j i) [
      | yes e ↦ rw e (was_shown more ∙ ground arith)
      | no ne ↦ ground arith
    ])
  ])
    where
      was_shown : is_empty (b.asks i) ≡ false → test b.ask_bits i ≡ true
      was_shown more = v.shows.shows sell i ∙ (unfold level in rw more)

  others : (u : Side) (j : ℕ) → Apart u j sell i → level b2 u j ≡ level b u j
  others u j apart =
      level-attach b1 sell i o u j
      ∙ put-Apart (level b1) sell i _ u j apart
      ∙ level-requote b _ _ _ _ _ _ _ u j

  occupied : is_empty (level b2 sell i) ≡ false
  unfolding is_empty
  occupied =
      let e : q' sell i ≡ q sell i ++ o ∷ [] = put_self q sell i _ in
      let c = (book2.holds sell i).count in
      let n = ap length e in ground (arith, length-append (q sell i) (o ∷ []), c, n)

  valid2 : (u : Side) → IsValid (bits b2 u)
  valid2 sell = rw frame.ask_bits (elim (Bool-cases (is_empty (b.asks i))) [
    | inl gone ↦ rw gone (set-IsValid b.ask_bits i small (v.shows.valid sell))
    | inr more ↦ rw more (v.shows.valid sell)
  ])
  valid2 buy = rw frame.bid_bits (v.shows.valid buy)

  bits2 : (u : Side) (j : ℕ) → Apart u j sell i → test (bits b2 u) j ≡ test (bits b u) j
  bits2 sell j apart = let ne : j ≢ i = apart refl in shown j ∙ ground arith
  bits2 buy j apart = rw frame.bid_bits

  shows2 : ShowsLevels b2
  shows2 =
      shows_update b b2 sell i v.shows others valid2 bits2 (rw occupied (shown i ∙ ground arith))

  same : (y : ℕ) → is_filled (order b2 y) ≡ is_filled (order b y)
  same y = is_filled-unlinked _ _ (attach-unlinked b1 q [] sell i o book1 rests y)

  live2 : IsLive b2 q'
  live2 u j y k = elim (new_or_old b1 q [] sell i o book1 rests u j y k) [
    | inl (e, _, _) ↦ same y ∙ ap (λ z. is_filled (order b z)) e ∙ left
    | inr m ↦ same y ∙ v.live u j y m
  ]

  price_lem : i + 1 ≡ price
  price_lem = omega (arith, at_price)

  -- The book stays sound, uncrossed included.
  pub rest_ask-IsSound : IsSound (rest_ask b price o) q' []
  unfolding rest_ask
  rest_ask-IsSound = record {
    book = IsBook-requote b2 _ _ _ _ _ _ _ q' [] book2;
    live = live2;
    shows =
        shows_same b2 _ shows2
          (requote_bits b2 (rest_ask b price o).best_bid (rest_ask b price o).best_ask)
          (level-requote b2 _ _ _ _ _ _ _);
    ask_top =
        subst (λ p. IsAskTop b2.ask_bits (if ltb p b.best_ask then p else b.best_ask)) price_lem
          (IsAskTop-set b.ask_bits b2.ask_bits i b.best_ask small shown v.ask_top);
    bid_top = rw (frame.bid_bits, frame.best_bid) v.bid_top;
    uncrossed = let e = frame.best_bid in ground (arith, v.uncrossed, e);
  }

  -- No order changes, but for its links, and nothing is reported.
  pub entry-rest_ask : (y : ℕ) → entry (order (rest_ask b price o) y) ≡ entry (order b y)
  unfolding rest_ask
  entry-rest_ask y = entry-unlinked _ _ (attach-unlinked b1 q [] sell i o book1 rests y)

pub rest_ask_fills : (b : OrderBook) (price o : ℕ) → (rest_ask b price o).fills ≡ b.fills
unfolding rest_ask attach set_level
rest_ask_fills b price o = refl
