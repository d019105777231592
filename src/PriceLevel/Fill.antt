-- ===== src/PriceLevel/Fill.antt =====
-- `drain_level` fills the front order of a level in place, and takes the quantity from the level.
use trade_feed.Prelude.{ℕ, ◌+◌, ◌≤◌, ◌<◌, ◌≡◌, ◌≢◌, none, List, ◌∷◌, arith, ap, subst}
use trade_feed.Prelude.Array.{write}
use trade_feed.Types.{Order, u32_mod, remaining, fill}
use trade_feed.PriceLevel.{PriceLevel, Arena, adjust_down}
use trade_feed.PriceLevel.Chain.{
  Fresh, In, Holds, open_qty, SameLinks, Chain-cong, open_qty-cong, Fresh-not-In,
}

-- The fields of an order that a fill keeps within their width.
pub record IsOpen (o : Order) : Type 0 where
  pub quantity_fits : o.quantity < u32_mod
  pub within : o.filled_qty ≤ o.quantity

pub remaining-IsOpen : (o : Order) → IsOpen o → remaining o + o.filled_qty ≡ o.quantity
unfolding remaining
remaining-IsOpen o v = omega arith

pub fill-IsOpen : (o : Order) (q : ℕ) → IsOpen o → q ≤ remaining o → IsOpen (fill o q)
unfolding remaining fill
fill-IsOpen o q v h = omega arith

pub remaining-fill :
    (o : Order) (q : ℕ) → IsOpen o → q ≤ remaining o → remaining (fill o q) + q ≡ remaining o
unfolding remaining fill
remaining-fill o q v h = omega arith

pub write-fill-links : (a : Arena) (x q y : ℕ) → SameLinks (write a x (fill (a x) q) y) (a y)
unfolding fill
write-fill-links a x q y = ground arith

pub write_other : (a : Arena) (x : ℕ) (o : Order) (y : ℕ) → y ≢ x → write a x o y ≡ a y
write_other a x o y ne = ground arith

module _ (l : PriceLevel) (a : Arena) (x : ℕ) (xs : List ℕ) (q : ℕ) where
  abbrev a' : Arena
  a' = write a x (fill (a x) q)

  rest-open_qty : Fresh x xs → open_qty a' xs ≡ open_qty a xs
  rest-open_qty out = open_qty-cong a a' xs λ y i.
      ap remaining
        (write_other a x (fill (a x) q) y λ e. Fresh-not-In x xs out (subst (λ z. In z xs) e i))

  front : a' x ≡ fill (a x) q
  front = ground arith

  -- Filling the front order by at most what it lacks keeps the level in step with its orders.
  pub fill-Holds :
      Holds l a (x ∷ xs) → IsOpen (a x) → q ≤ remaining (a x) → Holds (adjust_down l q) a' (x ∷ xs)
  unfolding adjust_down
  fill-Holds h v small = record {
    head = h.head;
    tail = h.tail;
    chain = Chain-cong a a' none (x ∷ xs) none (λ y i. write-fill-links a x q y) h.chain;
    distinct = h.distinct;
    count = h.count;
    fits = h.fits;
    total =
        let e = ap remaining front in
        omega (
          arith,
          e,
          rest-open_qty h.distinct.0,
          remaining-fill (a x) q v small,
          h.total,
          small,
          remaining-IsOpen (a x) v,
          v.quantity_fits,
        );
  }
