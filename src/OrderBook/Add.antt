-- ===== src/OrderBook/Add.antt =====
-- `add_order` keeps the book sound, on each of its branches.
use trade_feed.Prelude.{
  ℕ, ◌<◌, ◌≤◌, ◌≡◌, refl, ◌⊎◌, inl, inr, Option, none, some, List, [], ◌∷◌, arith, ◌==◌,
  if◌then◌else◌, ap, ◌∙◌, Bool, false, true, ltb, Bool-cases, length, ◌&&◌, ◌||◌, ◌↔◌,
}
use trade_feed.Types.{u32_mod, price_levels, max_price, min_price}
use trade_feed.OrderPool.{deallocate}
use trade_feed.OrderBook.State.{OrderBook}
use trade_feed.OrderBook.Invariant.{Queues}
use trade_feed.OrderBook.Invariant.{IsSound}
use trade_feed.Types.{OrderType, limit, market, unnamed_type}
use trade_feed.OrderBook.Orders.{NewOrder, fresh_order, place, add_order, is_limit}
use trade_feed.OrderPool
use trade_feed.OrderBook.State.{Fill}
use trade_feed.OrderBook.Priority.{Market}
use trade_feed.OrderBook.Trace.{taker}
use trade_feed.OrderBook.Spent.{Bound}
use trade_feed.OrderBook.Fills.{Reports, Crosses-Reports}
use trade_feed.OrderBook.Rested.{Settled, Served, opened}
use trade_feed.OrderBook.Placed.{place-Served}

abbrev pub SoundBook : OrderBook → Type 0
SoundBook b = (q : Queues) × IsSound b q []

-- The guards of `add_order`, in their order.
abbrev pub IsOutOfRange : NewOrder → Type 0
IsOutOfRange n = (n.type ≡ limit) × ((n.price < min_price) ⊎ (max_price < n.price))

pub data Verdict (b : OrderBook) (n : NewOrder) : Type 0 where
  exhausted : b.pool.free_list ≡ [] → add_order b n ≡ (b, false) → Verdict b n
  out_of_range : IsOutOfRange n → add_order b n ≡ (b, false) → Verdict b n
  placed :
      (o : ℕ) (rest : List ℕ)
      → b.pool.free_list ≡ o ∷ rest
      → (n.type ≡ limit → (0 < n.price) × (n.price ≤ price_levels))
      → add_order b n ≡ (place b (record (b.pool) { free_list = rest }) n o, true)
      → Verdict b n

List-cases {ℓ} : {A : Type ℓ} (l : List A) → (l ≡ []) ⊎ ((x : A) × (r : List A) × (l ≡ x ∷ r))
List-cases [] = inl refl
List-cases (x ∷ r) = inr (x, r, refl)

abbrev off_grid : NewOrder → Bool
off_grid n = is_limit n.type && (ltb n.price min_price || ltb max_price n.price)

off_grid_out : (n : NewOrder) → off_grid n ≡ true → IsOutOfRange n
unfolding is_limit
off_grid_out n e = by_type n.type refl
  where
    by_type : (t : OrderType) → n.type ≡ t → IsOutOfRange n
    by_type limit k = (k, ground (arith, rw k at e))
    by_type (unnamed_type j) k = absurd (ground (arith, rw k at e))
    by_type market k = absurd (ground (arith, rw k at e))

off_grid_in :
    (n : NewOrder) → off_grid n ≡ false → n.type ≡ limit → (0 < n.price) × (n.price ≤ price_levels)
unfolding is_limit
off_grid_in n e k = let e' = rw k at e in (ground arith, ground arith)

abbrev take_slot : OrderBook → NewOrder → List ℕ → OrderBook × Bool
take_slot b n free = elim free [
  | [] ↦ (b, false)
  | o ∷ rest ↦
      if off_grid n then (b, false) else (place b (record (b.pool) { free_list = rest }) n o, true)
]

length-zero : (o : ℕ) (rest : List ℕ) → (length (o ∷ rest) == 0) ≡ false
length-zero o rest = ground arith

-- `add_order` over the list of the free slots.
abbrev add_from : OrderBook → NewOrder → List ℕ → OrderBook × Bool
add_from b n free =
    if length free == 0
    then (b, false)
    else if off_grid n
    then (b, false)
    else elim (elim free as (λ _. Option (ℕ × OrderPool.OrderPool)) [
      | [] ↦ none
      | o ∷ rest ↦ some (o, record (b.pool) { free_list = rest })
    ]) [ none ↦ (b, false) | some (o, pool) ↦ (place b pool n o, true) ]

add_from-take_slot : (b : OrderBook) (n : NewOrder) (l : List ℕ) → add_from b n l ≡ take_slot b n l
add_from-take_slot b n [] = refl
add_from-take_slot b n (o ∷ rest) = elim (Bool-cases (off_grid n)) [
  | inl bad ↦ rw (length-zero o rest, bad) refl
  | inr ok ↦ rw (length-zero o rest, ok) refl
]

add_order-take_slot :
    (b : OrderBook) (n : NewOrder) → add_order b n ≡ take_slot b n b.pool.free_list
unfolding add_order OrderPool.allocate OrderPool.available
add_order-take_slot b n = add_from-take_slot b n b.pool.free_list

pub verdict : (b : OrderBook) (n : NewOrder) → Verdict b n
verdict b n = by_list b.pool.free_list refl
  where
    by_list : (l : List ℕ) → b.pool.free_list ≡ l → Verdict b n
    by_list [] e = exhausted e (add_order-take_slot b n ∙ ap (take_slot b n) e)
    by_list (o ∷ rest) e =
        let taken = add_order-take_slot b n ∙ ap (take_slot b n) e in
        elim (Bool-cases (off_grid n)) [
          | inl bad ↦ out_of_range (off_grid_out n bad) (taken ∙ rw bad refl)
          | inr ok ↦ placed o rest e (off_grid_in n ok) (taken ∙ rw ok refl)
        ]

-- If the quantity fits in 32 bits, `add_order` takes a sound book to a sound book: every level is a
-- well-linked queue with the right count and the right total modulo 2^32, no slot is used twice,
-- the bitsets show exactly the levels with orders, the best prices are the outermost of those, and
-- the book is not crossed.
pub add_order-IsSound :
    (b : OrderBook) (n : NewOrder) → n.qty < u32_mod → SoundBook b → SoundBook (add_order b n).0
add_order-IsSound b n fits (q, v) = elim (verdict b n) [
  | exhausted _ e ↦ rw e (q, v)
  | out_of_range _ e ↦ rw e (q, v)
  | placed o rest front ok e ↦
      let (m, crossed, spent, (q', w, _, _)) = place-Served n fits b q rest o v front ok in
      rw e (q', w)
]

-- If `add_order` accepts an order whose quantity fits in 32 bits, in a sound book, what it does is
-- price-time priority: a sequence of trades, each with the oldest order of the best queue of the
-- other side, at a price that the order accepts, each reported as a fill at the price of the order
-- that rested; it ends when the order is filled or accepts no queue that has orders; what a limit
-- order still wants goes to the end of the queue at its price, every other queue and the fills stay
-- as the trades left them, and the book is sound.
pub add_order-Served :
    (b : OrderBook) (n : NewOrder) (q : Queues)
    → n.qty < u32_mod
    → IsSound b q []
    → (add_order b n).1 ≡ true
    → Served n b q (add_order b n).0
add_order-Served b n q fits v taken = elim (verdict b n) [
  | exhausted _ e ↦ absurd (let t = rw e at taken in ground (arith, t))
  | out_of_range _ e ↦ absurd (let t = rw e at taken in ground (arith, t))
  | placed o rest front ok e ↦ rw e (place-Served n fits b q rest o v front ok)
]

-- Under the same conditions, the fills that `add_order` adds are all of some quantity, at a price
-- that the order accepts, and name the order and its client on its side; their quantities and what
-- is left of the order add up to its quantity; and what is left is what a limit order has at the
-- end of the queue at its price.
pub add_order-Reports :
    (b : OrderBook) (n : NewOrder) (q : Queues)
    → n.qty < u32_mod
    → IsSound b q []
    → (add_order b n).1 ≡ true
    → (m : Market) × (fs : List Fill) × Reports
        (taker n.side (fresh_order n))
        (Bound n.type n.side n.price)
        (opened b q n)
        m
        fs
      × Settled n m (add_order b n).0
add_order-Reports b n q fits v taken =
    let (m, crossed, spent, end_) = add_order-Served b n q fits v taken in
    let (fs, r) = Crosses-Reports _ _ _ crossed in (m, fs, r, end_)

-- `add_order` answers false exactly when no slot is free or the order is a limit order with a price
-- out of range, and then the book is as it was.
pub add_order-refuses :
    (b : OrderBook) (n : NewOrder)
    → (((add_order b n).1 ≡ false) ↔ ((b.pool.free_list ≡ []) ⊎ IsOutOfRange n))
      × ((add_order b n).1 ≡ false → (add_order b n).0 ≡ b)
add_order-refuses b n = elim (verdict b n) [
  | exhausted free e ↦ rw e (((λ _. inl free), (λ _. refl)), (λ _. refl))
  | out_of_range bad e ↦ rw e (((λ _. inr bad), (λ _. refl)), (λ _. refl))
  | placed o rest front ok e ↦ rw e (
    (
      (λ h. absurd (ground (arith, h))),
      (λ w. absurd (elim w [
        | inl none_free ↦ ground (arith, front, none_free)
        | inr (t, bad) ↦
            let ok' = ok t in elim bad [ inl low ↦ omega arith | inr high ↦ omega arith ]
      ])),
    ),
    (λ h. absurd (ground (arith, h))),
  )
]
