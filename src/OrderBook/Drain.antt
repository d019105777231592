-- ===== src/OrderBook/Drain.antt =====
-- `drain_level`: the loop ends, with the level empty or the aggressor filled, and keeps the invariant.
use trade_feed.Prelude.{
  ℕ, ◌<◌, ◌≡◌, refl, ◌⊎◌, inl, inr, none, some, List, [], ◌∷◌, arith, ap, ◌∙◌, false, true,
  Bool-cases, length, suc, zero,
}
use trade_feed.Types.{Side, is_filled}
use trade_feed.PriceLevel.{PriceLevel, Arena, is_empty}
use trade_feed.PriceLevel.Chain.{Holds, first}
use trade_feed.OrderBook.State.{OrderBook, order, level, detach}
use trade_feed.OrderBook.Invariant.{Queues, put, put_self, IsBook}
use trade_feed.OrderBook.Matching.{trade, retire, drain_loop, drain_level}
use trade_feed.OrderBook.Release.{freed}
use trade_feed.OrderBook.Invariant.{IsLive}
use trade_feed.OrderBook.Priority.{TradesAt, done, next}
use trade_feed.OrderBook.Trace.{market, taker, TradesAt-SameOrder, stays-Trades, leaves-Trades}
use trade_feed.OrderBook.Round.{Worked, Worked-refl, Worked-trans, stays-Worked, leaves-Worked}

-- A level that is not empty has a front order.
front_of :
    (l : PriceLevel) (a : Arena) (ys : List ℕ)
    → Holds l a ys
    → is_empty l ≡ false
    → (x : ℕ) × (xs : List ℕ) × (ys ≡ x ∷ xs)
unfolding is_empty
front_of l a [] h e = absurd (let c = h.count in ground arith)
front_of l a (x ∷ xs) h e = (x, xs, refl)

retire_filled :
    (b : OrderBook) (s : Side) (i x : ℕ)
    → is_filled (order b x) ≡ true
    → retire b s i x ≡ freed (detach b s i x) x
unfolding retire
retire_filled b s i x e = rw e

retire_open :
    (b : OrderBook) (s : Side) (i x : ℕ) → is_filled (order b x) ≡ false → retire b s i x ≡ b
unfolding retire
retire_open b s i x e = rw e

drain_loop_done :
    (fuel : ℕ) (b : OrderBook) (s : Side) (i g : ℕ) (t : Side)
    → is_filled (order b g) ≡ true
    → drain_loop fuel b s i g t ≡ b
unfolding drain_loop
drain_loop_done zero b s i g t e = refl
drain_loop_done (suc fuel) b s i g t e = elim (Bool-cases (is_empty (level b s i))) [
  | inl gone ↦ rw (gone, drain_loop)
  | inr more ↦ rw (more, e, drain_loop)
]

-- The condition under which `drain_level` stops.
abbrev pub Drained : OrderBook → Side → ℕ → ℕ → Type 0
Drained b s i g = (is_filled (order b g) ≡ true) ⊎ (is_empty (level b s i) ≡ true)

-- What the loop does to the book `b`: it trades at the level, by price-time priority, until it stops.
abbrev DrainsTo : OrderBook → Queues → Side → ℕ → ℕ → Side → OrderBook → Type 0
DrainsTo b q s i g t b' =
    (q' : Queues) × Worked b s i g b' q'
    × Drained b' s i g
    × TradesAt (taker t (order b g)) s i (market b q g) (market b' q' g)

drain_loop-Worked :
    (fuel : ℕ) (b : OrderBook) (q : Queues) (s : Side) (i g : ℕ) (t : Side)
    → IsBook b q (g ∷ [])
    → IsLive b q
    → (level b s i).count < fuel
    → DrainsTo b q s i g t (drain_loop fuel b s i g t)
unfolding drain_loop
drain_loop-Worked zero b q s i g t v live h = absurd (omega arith)
drain_loop-Worked (suc fuel) b q s i g t v live h = elim (Bool-cases (is_empty (level b s i))) [
  | inl gone ↦ rw (gone, drain_loop) (q, Worked-refl b q s i g v live, inr gone, done)
  | inr more ↦ elim (Bool-cases (is_filled (order b g))) [
    | inl full ↦ rw (more, full, drain_loop) (q, Worked-refl b q s i g v live, inl full, done)
    | inr left ↦
        let (x, xs, front) = front_of _ _ _ (v.holds s i) more in
        let at_head : (level b s i).head ≡ some x =
          (v.holds s i).head ∙ ap (λ l. first l none) front in
        rw (more, left, at_head, drain_loop)
          (elim (Bool-cases (is_filled (order (trade b s i g t x) x))) [
            | inl filled ↦
                let w = leaves-Worked b q s i g t x xs v live front in
                let q2 = put q s i xs in
                let fewer_left : (level (freed (detach (trade b s i g t x) s i x) x) s i).count
                    < fuel =
                  omega (
                    arith,
                    h,
                    (w.book.holds s i).count,
                    ap length (put_self q s i xs),
                    (v.holds s i).count,
                    ap length front,
                  ) in
                let (q', w', d, r) = drain_loop-Worked fuel _ q2 s i g t w.book w.live fewer_left in
                let step = leaves-Trades b q s i g t x xs v live front left filled in
                let r' = TradesAt-SameOrder t _ _ s i w.aggressor r in
                rw (retire_filled (trade b s i g t x) s i x filled)
                  (q', Worked-trans s i g w w', d, next step r')
            | inr open_ ↦
                let (w, full) = stays-Worked b q s i g t x xs v live front open_ in
                let step = stays-Trades b q s i g t x xs v live front left open_ in
                rw (retire_open (trade b s i g t x) s i x open_) (
                  rw (drain_loop_done fuel (trade b s i g t x) s i g t full)
                    (q, w, inl full, next step done))
          ])
  ]
]

-- `drain_level` has enough fuel: it returns with the level empty or the aggressor filled.
pub drain_level-Worked :
    (b : OrderBook) (q : Queues) (s : Side) (i g : ℕ) (t : Side)
    → IsBook b q (g ∷ [])
    → IsLive b q
    → DrainsTo b q s i g t (drain_level b s i g t)
unfolding drain_level
drain_level-Worked b q s i g t v live =
    drain_loop-Worked (suc (level b s i).count) b q s i g t v live (omega arith)
