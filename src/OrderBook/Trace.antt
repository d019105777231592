-- ===== src/OrderBook/Trace.antt =====
-- Each round of `drain_level` is one trade with the front of the queue.
use trade_feed.Prelude.{
  ℕ, ◌+◌, ◌-◌, ◌<◌, ◌≡◌, ◌≢◌, refl, inl, inr, List, [], ◌∷◌, ◌++◌, arith, sym, ap, ◌∙◌, true, false,
  subst, map, leb,
}
use trade_feed.Types.{Side, buy, sell, Order, remaining, is_filled}
use trade_feed.PriceLevel.Chain.{In, unlinked, Fresh-not-In}
use trade_feed.PriceLevel.Fill.{IsOpen, remaining-fill}
use trade_feed.OrderPool.{deallocate}
use trade_feed.OrderBook.State.{OrderBook, order, set_level, detach, unreg}
use trade_feed.OrderBook.Matching.{trade, make_fill}
use trade_feed.OrderBook.Release.{freed}
use trade_feed.OrderBook.Invariant.{Queues, put, put_elim, Apart, IsBook, IsLive, SameOrder}
use trade_feed.OrderBook.Trade.{
  trade_aggressor, trade_resting, trade_other, fill_qty, order_kept, trade-IsBook,
}
use trade_feed.OrderBook.Round.{unlinked2}
use trade_feed.OrderBook.Priority.{TradesAt, Entry, Market, Taker, Trades, fill_between}

-- The market that a book stands for, while it matches the order `g`.
abbrev pub entry : Order → Entry
entry o = record { id = o.id; client = o.client_id; open_ = remaining o }

abbrev pub view : OrderBook → Queues → Side → ℕ → List Entry
view b q s i = map (λ x. entry (order b x)) (q s i)

abbrev pub market : OrderBook → Queues → ℕ → Market
market b q g = record { levels = view b q; left = remaining (order b g); fills = b.fills }

abbrev pub taker : Side → Order → Taker
taker t o = record { side = t; id = o.id; client = o.client_id }

pub taker-SameOrder : (t : Side) (o p : Order) → SameOrder o p → taker t o ≡ taker t p
taker-SameOrder t o p same = rw (same.id, same.client_id) refl

pub TradesAt-SameOrder :
    (t : Side) (o p : Order) (s : Side) (i : ℕ) {m n : Market}
    → SameOrder o p
    → TradesAt (taker t o) s i m n
    → TradesAt (taker t p) s i m n
TradesAt-SameOrder t o p s i {m = m} {n = n} same =
    subst (λ k. TradesAt k s i m n) (taker-SameOrder t o p same)

pub map-entry :
    (b b' : OrderBook) (xs : List ℕ)
    → ((y : ℕ) → In y xs → entry (order b' y) ≡ entry (order b y))
    → map (λ x. entry (order b' x)) xs ≡ map (λ x. entry (order b x)) xs
map-entry b b' [] same = refl
map-entry b b' (x ∷ xs) same =
    rw (same x (inl refl), map-entry b b' xs (λ y k. same y (inr k))) refl

pub entry-unlinked : (o p : Order) → unlinked o ≡ unlinked p → entry o ≡ entry p
unfolding remaining
entry-unlinked o p e = ground arith

fills-trade :
    (b : OrderBook) (s : Side) (i g : ℕ) (t : Side) (x : ℕ)
    → let b' = trade b s i g t x in
      b'.fills ≡ b.fills ++ make_fill t (order b' g) (order b' x) (fill_qty b g x) ∷ []
unfolding trade
fills-trade b buy i g t x = refl
fills-trade b sell i g t x = refl

fills-freed : (b : OrderBook) (s : Side) (i x : ℕ) → (freed (detach b s i x) x).fills ≡ b.fills
unfolding detach set_level unreg deallocate
fills-freed b buy i x = refl
fills-freed b sell i x = refl

make_fill-entry :
    (t : Side) (g' x' g x : Order) (i n : ℕ)
    → SameOrder g' g
    → SameOrder x' x
    → x.price ≡ i + 1
    → make_fill t g' x' n ≡ fill_between t (taker t g) (entry x) (i + 1) n
unfolding make_fill
make_fill-entry buy g' x' g x i n sg sx at =
    rw (sg.id, sx.id, sg.client_id, sx.client_id, sx.price, at) refl
make_fill-entry sell g' x' g x i n sg sx at =
    rw (sg.id, sx.id, sg.client_id, sx.client_id, sx.price, at) refl

-- An order that is not filled lacks something, and one that is filled lacks nothing.
pub remaining-positive : (o : Order) → IsOpen o → is_filled o ≡ false → 0 < remaining o
unfolding remaining is_filled
remaining-positive o v e = ground arith

pub remaining-filled : (o : Order) → IsOpen o → is_filled o ≡ true → remaining o ≡ 0
unfolding remaining is_filled
remaining-filled o v e = ground arith

module _ (b : OrderBook) (q : Queues) (s : Side) (i g : ℕ) (t : Side) (x : ℕ) (xs : List ℕ)
    (v : IsBook b q (g ∷ [])) (live : IsLive b q) (front : q s i ≡ x ∷ xs) where
  abbrev b1 : OrderBook
  b1 = trade b s i g t x

  In-front : In x (q s i)
  In-front = rw front (inl refl)

  IsOpen-resting : IsOpen (order b x)
  IsOpen-resting = (v.rests s i x In-front).open_

  left_resting : remaining (order b1 x) + fill_qty b g x ≡ remaining (order b x)
  left_resting =
      rw (trade_resting b q s i g t x xs v front)
        (remaining-fill (order b x) (fill_qty b g x) IsOpen-resting (omega arith))

  left_aggressor : remaining (order b1 g) + fill_qty b g x ≡ remaining (order b g)
  left_aggressor =
      rw (trade_aggressor b q s i g t x xs v front)
        (remaining-fill (order b g) (fill_qty b g x) (v.held_open g (inl refl)) (omega arith))

  IsOpen-traded :
      (is_filled (order b1 x) ≡ false → 0 < remaining (order b1 x))
      × (is_filled (order b1 x) ≡ true → remaining (order b1 x) ≡ 0)
  IsOpen-traded =
      let o = (book1.rests s i x In-front).open_ in
      (remaining-positive (order b1 x) o, remaining-filled (order b1 x) o)
    where
      book1 : IsBook b1 q (g ∷ [])
      book1 = trade-IsBook b q s i g t x xs v front

  not_x : (u : Side) (j y : ℕ) → Apart u j s i → In y (q u j) → y ≢ x
  not_x u j y apart k e =
      let r = v.rests u j y k in
      let r' = v.rests s i x In-front in
      let same = ap (order b) e in
      apart (sym r.side ∙ ap (λ o. o.side) same ∙ r'.side)
        (omega (arith, r.price, r'.price, ap (λ o. o.price) same))

  not_x_behind : (y : ℕ) → In y xs → y ≢ x
  not_x_behind y k e =
      let d = rw front at (v.holds s i).distinct in Fresh-not-In x xs d.0 (subst (λ z. In z xs) e k)

  not_g : (u : Side) (j y : ℕ) → In y (q u j) → y ≢ g
  not_g u j y k e = v.held_apart u j g (inl refl) (subst (λ z. In z (q u j)) e k)

  entry_kept : (y : ℕ) → y ≢ x → y ≢ g → entry (order b1 y) ≡ entry (order b y)
  entry_kept y nx ng = ap entry (trade_other b q s i g t x xs v front y nx ng)

  behind_kept : map (λ y. entry (order b1 y)) xs ≡ map (λ y. entry (order b y)) xs
  behind_kept =
      map-entry b b1 xs λ y k. entry_kept y (not_x_behind y k) (not_g s i y (rw front (inr k)))

  new_fill :
      b1.fills
      ≡ b.fills
        ++ fill_between t (taker t (order b g)) (entry (order b x)) (i + 1) (fill_qty b g x) ∷ []
  new_fill =
      fills-trade b s i g t x
      ∙ ap (λ f. b.fills ++ f ∷ [])
          (make_fill-entry t (order b1 g) (order b1 x) (order b g) (order b x) i (fill_qty b g x)
            (order_kept b q s i g t x xs v front g) (order_kept b q s i g t x xs v front x)
            (v.rests s i x In-front).price)

  entry_resting :
      entry (order b1 x)
      ≡ record (entry (order b x)) { open_ = remaining (order b x) - fill_qty b g x }
  entry_resting =
      let same = order_kept b q s i g t x xs v front x in
      let n : remaining (order b1 x) ≡ remaining (order b x) - fill_qty b g x =
        omega (arith, left_resting) in
      rw (same.id, same.client_id, n) refl

  -- The resting order stays at the front with what it lacks.
  pub stays-Trades :
      is_filled (order b g) ≡ false
      → is_filled (order b1 x) ≡ false
      → Trades (taker t (order b g)) s i (market b q g) (market b1 q g)
  stays-Trades hungry open_ =
      let some_left = IsOpen-traded.0 open_ in
      let all : fill_qty b g x ≡ remaining (order b g) = omega (arith, left_resting, some_left) in
      let less : leb (remaining (order b x)) (remaining (order b g)) ≡ false =
        ground (arith, left_resting, some_left, all) in
      record {
        front = entry (order b x);
        behind = map (λ y. entry (order b y)) xs;
        at_front = ap (map λ y. entry (order b y)) front;
        wanted = remaining-positive (order b g) (v.held_open g (inl refl)) hungry;
        offered = remaining-positive (order b x) IsOpen-resting (live s i x In-front);
        levels =
            put_elim (λ u j l _. view b1 q u j ≡ l) (view b q) q s i _ []
              (rw (front, less) (rw (entry_resting, behind_kept, all) refl))
              (λ u j apart.
                map-entry b b1 (q u j) λ y k. entry_kept y (not_x u j y apart k) (not_g u j y k));
        left = omega (arith, left_aggressor);
        fills = new_fill;
      }

  -- The resting order is filled, and the next one comes to the front.
  pub leaves-Trades :
      is_filled (order b g) ≡ false
      → is_filled (order b1 x) ≡ true
      → Trades
          (taker t (order b g))
          s
          i
          (market b q g)
          (market (freed (detach b1 s i x) x) (put q s i xs) g)
  leaves-Trades hungry filled =
      let nothing = IsOpen-traded.1 filled in
      let more : leb (remaining (order b x)) (remaining (order b g)) ≡ true =
        ground (arith, left_resting, nothing) in
      let kept : (y : ℕ) → y ≢ x → entry (order b2 y) ≡ entry (order b1 y) =
        λ y ne. entry-unlinked _ _ (unlinked2 b q s i g t x xs v live front y ne) in
      let g_kept = kept g (λ e. not_g s i x In-front (sym e)) in
      record {
        front = entry (order b x);
        behind = map (λ y. entry (order b y)) xs;
        at_front = ap (map λ y. entry (order b y)) front;
        wanted = remaining-positive (order b g) (v.held_open g (inl refl)) hungry;
        offered = remaining-positive (order b x) IsOpen-resting (live s i x In-front);
        levels =
            put_elim (λ u j l ys. map (λ y. entry (order b2 y)) ys ≡ l) (view b q) q s i _ xs
              (rw more (map-entry b1 b2 xs (λ y k. kept y (not_x_behind y k)) ∙ behind_kept))
              (λ u j apart. map-entry b b2 (q u j) λ y k.
                kept y (not_x u j y apart k) ∙ entry_kept y (not_x u j y apart k) (not_g u j y k));
        left = omega (arith, left_aggressor, ap (λ z. z.open_) g_kept);
        fills = fills-freed b1 s i x ∙ new_fill;
      }
    where
      b2 : OrderBook
      b2 = freed (detach b1 s i x) x
