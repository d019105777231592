-- ===== src/OrderBook/Placed.antt =====
-- `add_order` after its guards: the new order is matched by priority, and then rests or is dropped.
use trade_feed.Prelude.{
  ℕ, ◌-◌, ◌<◌, ◌≤◌, ◌≡◌, ◌≢◌, refl, inl, inr, List, [], ◌∷◌, ◌++◌, arith, ap, ◌∙◌, subst, false,
  true, ltb, Bool-cases, ◌&&◌,
}
use trade_feed.Types.{Side, buy, sell, u32_mod, price_levels, is_filled}
use trade_feed.PriceLevel.Chain.{In}
use trade_feed.OrderBook.State.{OrderBook, order}
use trade_feed.OrderBook.Invariant.{Queues, Rests, SameOrder, SameOrder-eq, put}
use trade_feed.OrderBook.Release.{freed, freed-IsBook, freed-SameFrame, order-freed, level-freed}
use trade_feed.OrderBook.Round.{SameOrder-trans}
use trade_feed.OrderBook.Invariant.{IsAskTop, IsSound}
use trade_feed.OrderBook.Matching.{match_order, limit_hits_ask, limit_hits_bid}
use trade_feed.Types.{OrderType, limit, market, unnamed_type}
use trade_feed.OrderBook.Orders.{
  rest_bid, rest_ask, NewOrder, fresh_order, rest_order, settle, place, is_limit,
}
use trade_feed.OrderBook.Shows.{shows_same}
use trade_feed.OrderBook.Sweep.{bits_frame}
use trade_feed.OrderBook.Hold.{entered, entered-IsSound, entered_self}
use trade_feed.OrderBook.RestBid.{rest_bid-IsSound, entry-rest_bid, rest_bid_fills}
use trade_feed.OrderBook.RestAsk.{rest_ask-IsSound, entry-rest_ask, rest_ask_fills}
use trade_feed.OrderBook.Priority.{IsSpent, opposite, Crosses}
use trade_feed.OrderBook.Trace
use trade_feed.OrderBook.Trace.{
  view, entry, taker, taker-SameOrder, remaining-filled, remaining-positive,
}
use trade_feed.OrderBook.Match.{limit_hits}
use trade_feed.OrderBook.Spent.{match_order-halts, Bound, match_order-MatchedBy}
use trade_feed.OrderBook.Sweep.{idx_lem}
use trade_feed.OrderBook.State.{idx}
use trade_feed.OrderBook.Rested.{
  Settled, Served, opened, view-append, view-freed, freed_fills, market-entered,
}

-- A held order that is freed leaves the book sound.
pub freed-IsSound :
    (b : OrderBook) (q : Queues) (o : ℕ) → IsSound b q (o ∷ []) → IsSound (freed b o) q []
freed-IsSound b q o v =
    let f = freed-SameFrame b o in
    record {
      book = freed-IsBook b q o [] v.book;
      live = λ u j y k.
          let ne : y ≢ o =
            λ e. v.book.held_apart u j o (inl refl) (subst (λ z. In z (q u j)) e k) in
          rw (order-freed b o y ne) (v.live u j y k);
      shows = shows_same b (freed b o) v.shows (bits_frame f) (level-freed b o);
      bid_top = rw (f.bid_bits, f.best_bid) v.bid_top;
      ask_top = rw (f.ask_bits, f.best_ask) v.ask_top;
      uncrossed = rw (f.best_bid, f.best_ask) v.uncrossed;
    }

-- A stopped limit order does not cross the other side.
not_crossing :
    (b : OrderBook) (o : ℕ) (s : Side)
    → limit_hits s b o ≡ false
    → is_filled (order b o) ≡ false
    → (order b o).price ≤ price_levels
    → 0 < (order b o).price
    → IsAskTop b.ask_bits b.best_ask
    → (s ≡ buy → (order b o).price < b.best_ask) × (s ≡ sell → b.best_bid < (order b o).price)
unfolding limit_hits_ask limit_hits_bid
not_crossing b o buy stop left low pos a = ((λ _. ground arith), (λ e. cc))
not_crossing b o sell stop left low pos a = ((λ e. cc), (λ _. ground arith))

limit_of : (t : OrderType) → is_limit t ≡ true → t ≡ limit
unfolding is_limit
limit_of limit e = refl
limit_of market e = absurd (ground (arith, e))
limit_of (unnamed_type k) e = absurd (ground (arith, e))

module _ (n : NewOrder) (fits : n.qty < u32_mod) where
  Rests-at :
      (b : OrderBook) (q : Queues) (o : ℕ)
      → IsSound b q (o ∷ [])
      → SameOrder (order b o) (fresh_order n)
      → 0 < n.price
      → n.price ≤ price_levels
      → Rests (order b o) n.side (n.price - 1)
  Rests-at b q o v same pos low = record {
    side = same.side;
    price = omega (arith, same.price);
    in_range = omega arith;
    open_ = v.book.held_open o (inl refl);
  }

  entry-same :
      (b : OrderBook) (q : Queues) (o : ℕ)
      → SameOrder (order b o) (fresh_order n)
      → entry (order b o)
        ≡ record { id = n.id; client = n.client; open_ = (Trace.market b q o).left }
  entry-same b q o same = rw (same.id, same.client_id) refl

  -- What is left of a limit order rests at its price.
  rest_order-Settled :
      (s : Side) (b : OrderBook) (q : Queues) (o : ℕ)
      → n.side ≡ s
      → IsSound b q (o ∷ [])
      → SameOrder (order b o) (fresh_order n)
      → limit_hits s b o ≡ false
      → is_filled (order b o) ≡ false
      → 0 < n.price
      → n.price ≤ price_levels
      → (q' : Queues) × IsSound (rest_order b s n.price o) q' []
        × ((u : Side) (j : ℕ)
            → view (rest_order b s n.price o) q' u j
              ≡ put
                  (view b q)
                  s
                  (n.price - 1)
                  (view b q s (n.price - 1) ++ entry (order b o) ∷ [])
                  u
                  j)
        × ((rest_order b s n.price o).fills ≡ b.fills)
  unfolding rest_order
  rest_order-Settled buy b q o e v same stop left pos low =
      let r = rw e at (Rests-at b q o v same pos low) in
      let p = same.price in
      let clear_of =
        rw p at ((not_crossing b o buy stop left (rw p low) (rw p pos) v.ask_top).0 refl) in
      let at = idx_lem n.price pos (omega arith) in
      (
        _,
        rest_bid-IsSound b q o n.price v r pos clear_of left,
        λ u j.
            view-append b (rest_bid b n.price o) q buy (idx n.price) o
              (entry-rest_bid b q o n.price v r pos clear_of left) u j
            ∙ ap (λ k. put (view b q) buy k (view b q buy k ++ entry (order b o) ∷ []) u j) at,
        rest_bid_fills b n.price o,
      )
  rest_order-Settled sell b q o e v same stop left pos low =
      let r = rw e at (Rests-at b q o v same pos low) in
      let p = same.price in
      let clear_of =
        rw p at ((not_crossing b o sell stop left (rw p low) (rw p pos) v.ask_top).1 refl) in
      let at = idx_lem n.price pos (omega arith) in
      (
        _,
        rest_ask-IsSound b q o n.price v r pos clear_of left,
        λ u j.
            view-append b (rest_ask b n.price o) q sell (idx n.price) o
              (entry-rest_ask b q o n.price v r pos clear_of left) u j
            ∙ ap (λ k. put (view b q) sell k (view b q sell k ++ entry (order b o) ∷ []) u j) at,
        rest_ask_fills b n.price o,
      )

  -- Or it is dropped.
  freed-Settled :
      (b : OrderBook) (q : Queues) (o : ℕ)
      → IsSound b q (o ∷ [])
      → (ltb 0 (Trace.market b q o).left && is_limit n.type) ≡ false
      → Settled n (Trace.market b q o) (freed b o)
  freed-Settled b q o v nothing =
      (q, freed-IsSound b q o v, λ u j. view-freed b q o v u j ∙ rw nothing refl, freed_fills b o)

  settle-Settled :
      (b : OrderBook) (q : Queues) (o : ℕ)
      → IsSound b q (o ∷ [])
      → SameOrder (order b o) (fresh_order n)
      → (n.type ≡ limit → limit_hits n.side b o ≡ false)
      → (n.type ≡ limit → (0 < n.price) × (n.price ≤ price_levels))
      → Settled n (Trace.market b q o) (settle b n o)
  unfolding settle
  settle-Settled b q o v same halts ok = elim (Bool-cases (is_filled (order b o))) [
    | inl filled ↦
        let none_left = remaining-filled (order b o) (v.book.held_open o (inl refl)) filled in
        rw filled (freed-Settled b q o v (ground (arith, none_left)))
    | inr open_ ↦
        let some_left = remaining-positive (order b o) (v.book.held_open o (inl refl)) open_ in
        elim (Bool-cases (is_limit n.type)) [
          | inr dropped ↦
              rw (open_, dropped) (rw dropped at (freed-Settled b q o v (ground (arith, dropped))))
          | inl rests ↦
              let t = limit_of n.type rests in
              let (q', w, levels, fills) =
                rest_order-Settled n.side b q o refl v same (halts t) open_ (ok t).0 (ok t).1 in
              let waits : ltb 0 (Trace.market b q o).left ≡ true = ground (arith, some_left) in
              rw (open_, rests)
                (
                  q',
                  w,
                  λ u j.
                      levels u j
                      ∙ ap
                          (λ z.
                            put (view b q) n.side (n.price - 1)
                              (view b q n.side (n.price - 1) ++ z ∷ []) u j)
                          (entry-same b q o same)
                      ∙ rw waits refl,
                  fills,
                )
        ]
  ]

  -- The operation after its guards.
  pub place-Served :
      (b : OrderBook) (q : Queues) (rest : List ℕ) (o : ℕ)
      → IsSound b q []
      → b.pool.free_list ≡ o ∷ rest
      → (n.type ≡ limit → (0 < n.price) × (n.price ≤ price_levels))
      → Served n b q (place b (record (b.pool) { free_list = rest }) n o)
  unfolding place
  place-Served b q rest o v front ok =
      let b0 = entered b rest n o in
      let b1 = match_order b0 n.type o in
      let new = entered_self b q rest n o v front fits in
      let w0 = entered-IsSound b q rest n o v front fits in
      let is_side = ap (λ z. z.side) new in
      let halts = match_order-halts b0 q o n.type n.side is_side w0 in
      let (q', w, same, traded, spent) = match_order-MatchedBy b0 q o n.type n.side is_side w0 in
      (
        Trace.market b1 q' o,
        subst
            (λ z.
              Crosses (taker n.side z) (opposite n.side) (Bound n.type n.side z.price)
                (opened b q n) (Trace.market b1 q' o))
            new
            (subst
              (λ m.
                Crosses (taker n.side (order b0 o)) (opposite n.side)
                  (Bound n.type n.side (order b0 o).price) m (Trace.market b1 q' o))
              (market-entered b q rest n o v front fits) traded),
        subst (λ z. IsSpent (opposite n.side) (Bound n.type n.side z.price) (Trace.market b1 q' o))
            new spent,
        settle-Settled b1 q' o w (SameOrder-trans same (SameOrder-eq _ _ new)) halts ok,
      )
