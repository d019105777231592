-- ===== src/OrderBook/BboProof.antt =====
-- `validate_bbo` answers true on a sound book.
use trade_feed.Prelude.{
  ℕ, ◌+◌, ◌-◌, ◌<◌, ◌≤◌, ◌≡◌, ◌≢◌, inl, inr, arith, if◌then◌else◌, ◌∙◌, not, true, Bool-cases, suc,
  zero, leb,
}
use trade_feed.Types.{buy, sell, price_levels, max_price, min_price}
use trade_feed.PriceLevel.{is_empty}
use trade_feed.OrderBook.State.{OrderBook, level}
use trade_feed.PriceBitset.{test}
use trade_feed.OrderBook.State.{idx}
use trade_feed.OrderBook.Invariant.{IsBidTop, IsAskTop}
use trade_feed.OrderBook.Sweep.{idx_lem}
use trade_feed.OrderBook.Add.{SoundBook}
use trade_feed.OrderBook.Bbo.{top_bid, bottom_ask, validate_bbo}

-- The two linear scans of `validate_bbo` find the outermost level that is not empty.
top_bid-IsBidTop :
    (b : OrderBook) (n : ℕ)
    → b.best_bid ≤ price_levels
    → n ≤ price_levels
    → ((i : ℕ) → test b.bid_bits i ≡ not (is_empty (b.bids i)))
    → IsBidTop b.bid_bits b.best_bid
    → top_bid b n ≡ (if leb b.best_bid n then b.best_bid else top_bid b n)
unfolding top_bid
top_bid-IsBidTop b zero small le shown v = ground arith
top_bid-IsBidTop b (suc p) small le shown v =
    let at : idx (suc p) ≡ p = idx_lem (suc p) (omega arith) (omega arith) ∙ omega arith in
    elim (Bool-cases (is_empty (b.bids p))) [
      | inl gone ↦
          let unlit = shown p in
          let ne : b.best_bid ≢ suc p = λ e.
            let hit = v.at (omega arith) in
            let f : b.best_bid - 1 ≡ p = omega arith in let hit' = rw f at hit in ground arith in
          let rest = top_bid-IsBidTop b p small (omega arith) shown v in
          rw (at, gone, top_bid) ground (arith, rest)
      | inr more ↦
          let lit = shown p in
          let above : p < b.best_bid = v.top p (ground arith) in rw (at, more, top_bid) ground arith
    ]

bottom_ask-IsAskTop :
    (b : OrderBook) (n p : ℕ)
    → n + p ≡ price_levels + 1
    → 0 < p
    → p ≤ b.best_ask
    → ((i : ℕ) → test b.ask_bits i ≡ not (is_empty (b.asks i)))
    → IsAskTop b.ask_bits b.best_ask
    → bottom_ask b n p ≡ b.best_ask
unfolding bottom_ask
bottom_ask-IsAskTop b zero p sum pos le shown v = omega (arith, v.range)
bottom_ask-IsAskTop b (suc n) p sum pos le shown v =
    let at : idx p ≡ p - 1 = idx_lem p pos (omega arith) in
    elim (Bool-cases (is_empty (b.asks (p - 1)))) [
      | inl gone ↦
          let unlit = shown (p - 1) in
          let ne : b.best_ask ≢ p =
            λ e. let hit = v.at (omega arith) in let hit' = rw e at hit in ground arith in
          let rest =
            bottom_ask-IsAskTop b n (p + 1) (omega arith) (omega arith) (omega arith) shown v in
          rw (at, gone, bottom_ask) rest
      | inr more ↦
          let lit = shown (p - 1) in
          let below : b.best_ask ≤ p - 1 + 1 = v.top (p - 1) (ground arith) in
          rw (at, more, bottom_ask) (omega arith)
    ]

-- In a sound book `validate_bbo` answers true: the best prices, which the operations keep up to
-- date through the bitsets, are those that a scan of every level finds.
pub validate_bbo-SoundBook : (b : OrderBook) → SoundBook b → validate_bbo b ≡ true
unfolding validate_bbo level
validate_bbo-SoundBook b (q, v) =
    let bid =
      top_bid-IsBidTop b max_price v.bid_top.range (omega arith) (v.shows.shows buy) v.bid_top in
    let ask =
      bottom_ask-IsAskTop b price_levels min_price (omega arith) (omega arith) v.ask_top.positive
        (v.shows.shows sell) v.ask_top in
    let in_range = v.bid_top.range in ground (arith, bid, ask)
