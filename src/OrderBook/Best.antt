-- ===== src/OrderBook/Best.antt =====
-- The best price of a sound book is the front of the market, and trades at it are trades by priority.
use trade_feed.Prelude.{
  ℕ, ◌+◌, ◌<◌, ◌≤◌, ◌≡◌, refl, inl, inr, List, [], ◌∷◌, arith, ap, ◌∙◌, true, false, Bool-cases,
  map, subst,
}
use trade_feed.Types.{Side, buy, sell, remaining}
use trade_feed.PriceBitset.{test}
use trade_feed.PriceLevel.{PriceLevel, Arena, is_empty}
use trade_feed.PriceLevel.Chain.{Holds}
use trade_feed.OrderBook.State.{OrderBook, order, level}
use trade_feed.OrderBook.Invariant.{Queues, put-Apart, Apart, IsSound, bits, SameOrder}
use trade_feed.OrderBook.Priority.{
  Market, Taker, Trades, TradesAt, done, next, Better, IsBest, Crosses, stop, trade, opposite,
}
use trade_feed.OrderBook.Trace.{market, view, taker, taker-SameOrder}

empty-Holds :
    (l : PriceLevel) (a : Arena) (xs : List ℕ) → Holds l a xs → is_empty l ≡ true → xs ≡ []
unfolding is_empty
empty-Holds l a [] h e = refl
empty-Holds l a (x ∷ xs) h e = absurd (let c = h.count in ground arith)

-- A level that the bitset does not show has an empty queue.
pub view-unshown :
    (b : OrderBook) (q : Queues) (held : List ℕ) (s : Side) (j : ℕ)
    → IsSound b q held
    → test (bits b s) j ≡ false
    → view b q s j ≡ []
view-unshown b q held s j v dark =
    let shown = v.shows.shows s j in
    let gone : is_empty (level b s j) ≡ true = elim (Bool-cases (is_empty (level b s j))) [
      | inl e ↦ e
      | inr e ↦ absurd (ground (arith, shown, dark, e))
    ] in
    ap
      (map λ x. record {
        id = (order b x).id;
        client = (order b x).client_id;
        open_ = remaining (order b x);
      })
      (empty-Holds (level b s j) b.pool.arena (q s j) (v.book.holds s j) gone)

-- No bid is above the best one, and no ask below.
pub bids_above :
    (b : OrderBook) (q : Queues) (held : List ℕ) (j : ℕ)
    → IsSound b q held
    → b.best_bid ≤ j
    → view b q buy j ≡ []
bids_above b q held j v above = elim (Bool-cases (test b.bid_bits j)) [
  | inl lit ↦ absurd (let h = v.bid_top.top j lit in omega arith)
  | inr dark ↦ view-unshown b q held buy j v dark
]

pub asks_below :
    (b : OrderBook) (q : Queues) (held : List ℕ) (j : ℕ)
    → IsSound b q held
    → j + 1 < b.best_ask
    → view b q sell j ≡ []
asks_below b q held j v below = elim (Bool-cases (test b.ask_bits j)) [
  | inl lit ↦ absurd (let h = v.ask_top.top j lit in omega arith)
  | inr dark ↦ view-unshown b q held sell j v dark
]

Better-Apart : (s : Side) (j i : ℕ) → Better s j i → Apart s j s i
Better-Apart buy j i h _ e = omega arith
Better-Apart sell j i h _ e = omega arith

-- Trades at a level leave the better ones as they are.
IsBest-Trades :
    (t : Taker) (s : Side) (i : ℕ) (m n : Market) → Trades t s i m n → IsBest s i m → IsBest s i n
IsBest-Trades t s i m n tr best j h =
    tr.levels s j ∙ put-Apart m.levels s i _ s j (Better-Apart s j i h) ∙ best j h

pub Crosses-TradesAt :
    (t : Taker) (s : Side) (ok : ℕ → Type 0) (i : ℕ) {m n : Market}
    → ok i
    → IsBest s i m
    → TradesAt t s i m n
    → Crosses t s ok m n
Crosses-TradesAt t s ok i good best done = stop
Crosses-TradesAt t s ok i {m = m} good best (next {n = k} tr rest) =
    trade i good best tr (Crosses-TradesAt t s ok i good (IsBest-Trades t s i m k tr best) rest)

pub Crosses-trans :
    (t : Taker) (s : Side) (ok : ℕ → Type 0) {m n o : Market}
    → Crosses t s ok m n
    → Crosses t s ok n o
    → Crosses t s ok m o
Crosses-trans t s ok stop d = d
Crosses-trans t s ok (trade i good best tr rest) d =
    trade i good best tr (Crosses-trans t s ok rest d)

-- The order `g` of side `t` traded by priority, at indices that its price accepts.
abbrev pub Traded : Side → (ℕ → ℕ → Type 0) → OrderBook → Queues → ℕ → OrderBook → Queues → Type 0
Traded t ok b q g b' q' =
    Crosses (taker t (order b g)) (opposite t) (ok (order b g).price) (market b q g)
      (market b' q' g)

pub Traded-trans :
    (t : Side) (ok : ℕ → ℕ → Type 0) (b : OrderBook) (q : Queues) (g : ℕ) (b' : OrderBook)
    (q' : Queues) (c : OrderBook) (p : Queues)
    → SameOrder (order b' g) (order b g)
    → Traded t ok b q g b' q'
    → Traded t ok b' q' g c p
    → Traded t ok b q g c p
Traded-trans t ok b q g b' q' c p same first_part second_part = Crosses-trans _ _ _ first_part (
    subst (λ z. Crosses (taker t (order b g)) (opposite t) (ok z) (market b' q' g) (market c p g))
      same.price
      (subst (λ k. Crosses k (opposite t) (ok (order b' g).price) (market b' q' g) (market c p g))
        (taker-SameOrder t _ _ same) second_part))
