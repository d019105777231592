-- ===== src/OrderBook/Rested.antt =====
-- What becomes of the market when the new order rests, or is dropped.
use trade_feed.Prelude.{
  ℕ, ◌-◌, ◌<◌, ◌≡◌, refl, inl, List, [], ◌∷◌, ◌++◌, arith, ap, ◌∙◌, ltb, ◌&&◌, if◌then◌else◌, map,
  subst, fun_ext,
}
use mathlib.Core.List.{map-append}
use trade_feed.Types.{Side, u32_mod, remaining}
use trade_feed.PriceLevel.Chain.{In}
use trade_feed.OrderPool.{deallocate}
use trade_feed.OrderBook.State.{OrderBook, order, reg, unreg}
use trade_feed.OrderBook.Invariant.{Queues, put, put_elim, IsSound}
use trade_feed.OrderBook.Release.{freed, order-freed}
use trade_feed.OrderBook.Hold.{entered, entered_self, entered_other}
use trade_feed.OrderBook.Orders.{NewOrder, fresh_order, is_limit}
use trade_feed.OrderBook.Priority.{Entry, Market, Crosses, IsSpent, opposite}
use trade_feed.OrderBook.Trace.{view, entry, market, taker, map-entry}
use trade_feed.OrderBook.Spent.{Bound}

-- The market when `add_order` is called.
abbrev pub opened : OrderBook → Queues → NewOrder → Market
opened b q n = record { levels = view b q; left = n.qty; fills = b.fills }

-- The queues after matching: what a limit order still wants goes to the end of the queue at its own
-- price.
abbrev pub settled : NewOrder → Market → Side → ℕ → List Entry
settled n m =
    if ltb 0 m.left && is_limit n.type
    then put m.levels n.side (n.price - 1) (
        m.levels n.side (n.price - 1)
        ++ record { id = n.id; client = n.client; open_ = m.left } ∷ [])
    else m.levels

-- A sound book that stands for a market after it was settled.
abbrev pub Settled : NewOrder → Market → OrderBook → Type 0
Settled n m b' =
    (q' : Queues) × IsSound b' q' []
    × ((u : Side) (j : ℕ) → view b' q' u j ≡ settled n m u j)
    × (b'.fills ≡ m.fills)

-- The order was matched by priority until nothing was left to trade, and the rest of it was settled.
abbrev pub Served : NewOrder → OrderBook → Queues → OrderBook → Type 0
Served n b q b' =
    (m : Market) × Crosses (taker n.side (fresh_order n)) (opposite n.side)
      (Bound n.type n.side n.price) (opened b q n) m
    × IsSpent (opposite n.side) (Bound n.type n.side n.price) m
    × Settled n m b'

pub view-append :
    (b b' : OrderBook) (q : Queues) (s : Side) (i o : ℕ)
    → ((y : ℕ) → entry (order b' y) ≡ entry (order b y))
    → (u : Side) (j : ℕ)
    → view b' (put q s i (q s i ++ o ∷ [])) u j
      ≡ put (view b q) s i (view b q s i ++ entry (order b o) ∷ []) u j
view-append b b' q s i o same =
    put_elim (λ u j l ys. map (λ y. entry (order b' y)) ys ≡ l) (view b q) q s i _ _
      (map-entry b b' (q s i ++ o ∷ []) (λ y _. same y)
        ∙ map-append (λ y. entry (order b y)) (q s i) (o ∷ []))
      (λ u j _. map-entry b b' (q u j) λ y _. same y)

pub view-freed :
    (b : OrderBook) (q : Queues) (o : ℕ)
    → IsSound b q (o ∷ [])
    → (u : Side) (j : ℕ) → view (freed b o) q u j ≡ view b q u j
view-freed b q o v u j = map-entry b (freed b o) (q u j) λ y k.
    ap entry
      (order-freed b o y λ e. v.book.held_apart u j o (inl refl) (subst (λ z. In z (q u j)) e k))

pub freed_fills : (b : OrderBook) (o : ℕ) → (freed b o).fills ≡ b.fills
unfolding unreg deallocate
freed_fills b o = refl

module _ (b : OrderBook) (q : Queues) (rest : List ℕ) (n : NewOrder) (o : ℕ) (v : IsSound b q [])
    (front : b.pool.free_list ≡ o ∷ rest) (fits : n.qty < u32_mod) where
  fills-entered : (entered b rest n o).fills ≡ b.fills
  unfolding reg
  fills-entered = refl

  left-entered : remaining (order (entered b rest n o) o) ≡ n.qty
  unfolding remaining
  left-entered = rw (entered_self b q rest n o v front fits) (omega (arith, fits))

  view-entered : view (entered b rest n o) q ≡ view b q
  view-entered = fun_ext λ u. fun_ext λ j. map-entry b (entered b rest n o) (q u j) λ y k.
      ap entry (
        entered_other b q rest n o v front fits y
          λ e. v.book.used u j o (subst (λ z. In z (q u j)) e k) (rw front (inl refl)))

  -- The book that matching starts from stands for the market at the call.
  pub market-entered : market (entered b rest n o) q o ≡ opened b q n
  market-entered = rw (view-entered, left-entered, fills-entered) refl
