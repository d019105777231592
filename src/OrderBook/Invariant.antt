-- ===== src/OrderBook/Invariant.antt =====
-- The invariant of the order book, over the queues that its levels stand for: `q s i` lists the
-- orders at index `i` of side `s`, oldest first.
use trade_feed.Prelude.{
  ℕ, ◌+◌, ◌%◌, ◌<◌, ◌≡◌, refl, ◌⊎◌, inl, inr, none, some, List, arith, ◌==◌, if◌then◌else◌, sym, ap,
  ◌∙◌, not, subst, ◌≤◌, false, true, Bool-cases, ==_iff, ◌-◌, ◌≢◌,
}
use trade_feed.Types.{
  Side, buy, sell, Order, u32_mod, max_orders, price_levels, is_filled, remaining,
}
use trade_feed.PriceLevel.{PriceLevel, Arena, is_empty}
use trade_feed.PriceLevel.Chain.{In, Distinct, Holds, Chain-cong, open_qty-cong, SameLinks}
use trade_feed.PriceLevel.Fill.{IsOpen}
use trade_feed.PriceBitset.{PriceBitset, test}
use trade_feed.PriceBitset.Writes.{IsValid}
use trade_feed.OrderBook.State.{OrderBook, order, level, set_level}

abbrev pub Queues : Type 0
Queues = Side → ℕ → List ℕ

-- A family over sides and indices, given anew at one place.
abbrev pub put {ℓ} : {A : Type ℓ} → (Side → ℕ → A) → Side → ℕ → A → Side → ℕ → A
put f buy i x buy j = if j == i then x else f buy j
put f buy i x sell j = f sell j
put f sell i x buy j = f buy j
put f sell i x sell j = if j == i then x else f sell j

-- Whether two places of the book are one.
abbrev pub Apart : Side → ℕ → Side → ℕ → Type 0
Apart s i t j = s ≡ t → i ≡ j → ⊥

-- A statement about two such families holds everywhere if it holds at the place and apart from it.
pub put_elim {ℓ κ ι} :
    {A : Type ℓ} {B : Type κ} (P : Side → ℕ → A → B → Type ι) (f : Side → ℕ → A) (g : Side → ℕ → B)
    (s : Side) (i : ℕ) (x : A) (y : B)
    → P s i x y
    → ((t : Side) (j : ℕ) → Apart t j s i → P t j (f t j) (g t j))
    → (t : Side) (j : ℕ) → P t j (put f s i x t j) (put g s i y t j)
put_elim P f g buy i x y here there buy j = elim (Bool-cases (j == i)) [
  | inl hit ↦ rw hit (subst (λ k. P buy k x y) (sym ((==_iff j i).0 hit)) here)
  | inr miss ↦ rw miss (there buy j (λ _ e. ground (arith, (==_iff j i).1 e)))
]
put_elim P f g buy i x y here there sell j = there sell j (λ e _. cc)
put_elim P f g sell i x y here there buy j = there buy j (λ e _. cc)
put_elim P f g sell i x y here there sell j = elim (Bool-cases (j == i)) [
  | inl hit ↦ rw hit (subst (λ k. P sell k x y) (sym ((==_iff j i).0 hit)) here)
  | inr miss ↦ rw miss (there sell j (λ _ e. ground (arith, (==_iff j i).1 e)))
]

pub put_self {ℓ} : {A : Type ℓ} (f : Side → ℕ → A) (s : Side) (i : ℕ) (x : A) → put f s i x s i ≡ x
put_self f buy i x = ground arith
put_self f sell i x = ground arith

pub put-Apart {ℓ} :
    {A : Type ℓ} (f : Side → ℕ → A) (s : Side) (i : ℕ) (x : A) (t : Side) (j : ℕ)
    → Apart t j s i
    → put f s i x t j ≡ f t j
put-Apart f buy i x buy j ne = let ne' : j ≢ i = ne refl in ground arith
put-Apart f buy i x sell j ne = refl
put-Apart f sell i x buy j ne = refl
put-Apart f sell i x sell j ne = let ne' : j ≢ i = ne refl in ground arith

pub level-set_level :
    (b : OrderBook) (s : Side) (i : ℕ) (l : PriceLevel) (t : Side) (j : ℕ)
    → level (set_level b s i l) t j ≡ put (level b) s i l t j
unfolding level set_level
level-set_level b buy i l buy j = refl
level-set_level b buy i l sell j = refl
level-set_level b sell i l buy j = refl
level-set_level b sell i l sell j = refl

-- What an order that rests at index `i` of side `s` is.
pub record Rests (o : Order) (s : Side) (i : ℕ) : Type 0 where
  pub side : o.side ≡ s
  pub price : o.price ≡ i + 1
  pub in_range : i < price_levels
  pub open_ : IsOpen o

-- The fields of an order that nothing changes while it is in use.
pub record SameOrder (o p : Order) : Type 0 where
  pub side : o.side ≡ p.side
  pub price : o.price ≡ p.price
  pub quantity : o.quantity ≡ p.quantity
  pub id : o.id ≡ p.id
  pub client_id : o.client_id ≡ p.client_id

pub SameOrder-eq : (o p : Order) → o ≡ p → SameOrder o p
SameOrder-eq o p e = record {
  side = ap (λ z. z.side) e;
  price = ap (λ z. z.price) e;
  quantity = ap (λ z. z.quantity) e;
  id = ap (λ z. z.id) e;
  client_id = ap (λ z. z.client_id) e;
}

pub Rests-SameOrder :
    (o p : Order) {s : Side} {i : ℕ} → SameOrder o p → IsOpen o → Rests p s i → Rests o s i
Rests-SameOrder o p same v r = record {
  side = same.side ∙ r.side;
  price = same.price ∙ r.price;
  in_range = r.in_range;
  open_ = v;
}

-- `held` lists the orders that are neither free nor in a level: the one that is being matched.
pub record IsBook (b : OrderBook) (q : Queues) (held : List ℕ) : Type 0 where
  pub holds : (s : Side) (i : ℕ) → Holds (level b s i) b.pool.arena (q s i)
  pub rests : (s : Side) (i x : ℕ) → In x (q s i) → Rests (order b x) s i
  pub used : (s : Side) (i x : ℕ) → In x (q s i) → In x b.pool.free_list → ⊥
  pub held_used : (x : ℕ) → In x held → In x b.pool.free_list → ⊥
  pub held_apart : (s : Side) (i x : ℕ) → In x held → In x (q s i) → ⊥
  pub held_open : (x : ℕ) → In x held → IsOpen (order b x)
  pub held_once : Distinct held
  pub free_once : Distinct b.pool.free_list
  pub in_arena : (s : Side) (i x : ℕ) → In x (q s i) → x < b.pool.size
  pub free_in_arena : (x : ℕ) → In x b.pool.free_list → x < b.pool.size
  pub held_in_arena : (x : ℕ) → In x held → x < b.pool.size
  pub small : b.pool.size < u32_mod
  pub table :
      (k x : ℕ)
      → b.order_table k ≡ some x
      → ((order b x).id % max_orders ≡ k) × (In x held ⊎ ((s : Side) × (i : ℕ) × In x (q s i)))

-- No resting order is filled.
abbrev pub IsLive : OrderBook → Queues → Type 0
IsLive b q = (s : Side) (i x : ℕ) → In x (q s i) → is_filled (order b x) ≡ false

abbrev pub bits : OrderBook → Side → PriceBitset
bits b buy = b.bid_bits
bits b sell = b.ask_bits

-- The bitsets are sound, and show exactly the levels that are not empty.
pub record ShowsLevels (b : OrderBook) : Type 0 where
  pub valid : (s : Side) → IsValid (bits b s)
  pub shows : (s : Side) (i : ℕ) → test (bits b s) i ≡ not (is_empty (level b s i))

-- A best price is that of the outermost level that a bitset shows, or the value for an empty side.
pub record IsBidTop (shown : PriceBitset) (best : ℕ) : Type 0 where
  pub top : (i : ℕ) → test shown i ≡ true → i < best
  pub at : 0 < best → test shown (best - 1) ≡ true
  pub range : best ≤ price_levels

pub record IsAskTop (shown : PriceBitset) (best : ℕ) : Type 0 where
  pub top : (i : ℕ) → test shown i ≡ true → best ≤ i + 1
  pub at : best ≤ price_levels → test shown (best - 1) ≡ true
  pub positive : 0 < best
  pub range : best ≤ price_levels + 1

-- Everything that holds of the book between two steps of an operation that holds the orders `held`.
pub record IsSound (b : OrderBook) (q : Queues) (held : List ℕ) : Type 0 where
  pub book : IsBook b q held
  pub live : IsLive b q
  pub shows : ShowsLevels b
  pub bid_top : IsBidTop b.bid_bits b.best_bid
  pub ask_top : IsAskTop b.ask_bits b.best_ask
  pub uncrossed : b.best_bid < b.best_ask

pub Holds-cong :
    (l : PriceLevel) (a a' : Arena) (xs : List ℕ)
    → ((y : ℕ) → In y xs → SameLinks (a' y) (a y) × (remaining (a' y) ≡ remaining (a y)))
    → Holds l a xs
    → Holds l a' xs
Holds-cong l a a' xs same h = record {
  head = h.head;
  tail = h.tail;
  chain = Chain-cong a a' none xs none (λ y i. (same y i).0) h.chain;
  distinct = h.distinct;
  count = h.count;
  fits = h.fits;
  total = omega (arith, h.total, open_qty-cong a a' xs (λ y i. (same y i).1));
}
