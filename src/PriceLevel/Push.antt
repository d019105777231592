-- ===== src/PriceLevel/Push.antt =====
-- `push`: the order becomes the last of its level.
use trade_feed.Prelude.{
  ℕ, ◌+◌, ◌%◌, ◌≡◌, ◌≢◌, refl, inl, inr, none, some, List, [], ◌∷◌, ◌++◌, arith, ◌<◌, length,
  length-append, ◌∙◌, ap, sym, subst, ℕ_discrete,
}
use trade_feed.Prelude.Array.{write}
use trade_feed.Types.{Order, Pointer, u32_mod, remaining, add32}
use trade_feed.PriceLevel.{PriceLevel, Arena, link_next, end_or, push}
use trade_feed.PriceLevel.Chain.{
  first, last, Chain, Fresh, In, open_qty, Holds, unlinked, Chain_set_end, Chain-append,
  Distinct-snoc, last-In, Fresh-not-In, open_qty-append, open_qty-cong, last_of_cons, last-append,
  first-append,
}

-- What the two guarded writes do to any order.
pub link_next_prev : (a : Arena) (p x : Pointer) (y : ℕ) → (link_next a p x y).prev ≡ (a y).prev
unfolding link_next
link_next_prev a none x y = refl
link_next_prev a (some p) x y = ground arith

pub link_next_ne : (a : Arena) (p x : Pointer) (y : ℕ) → p ≢ some y → link_next a p x y ≡ a y
unfolding link_next
link_next_ne a none x y h = refl
link_next_ne a (some p) x y h = ground arith

pub link_next_self : (a : Arena) (p x : Pointer) (y : ℕ) → p ≡ some y → (link_next a p x y).next ≡ x
unfolding link_next
link_next_self a none x y e = cc
link_next_self a (some p) x y e = ground arith

pub unlinked-link_next :
    (a : Arena) (p x : Pointer) (y : ℕ) → unlinked (link_next a p x y) ≡ unlinked (a y)
unfolding link_next
unlinked-link_next a none x y = refl
unlinked-link_next a (some p) x y = ground arith

pub remaining-unlinked : (o p : Order) → unlinked o ≡ unlinked p → remaining o ≡ remaining p
unfolding remaining
remaining-unlinked o p e = ground arith

-- The order as the new last element, before the old one is linked to it.
new_last : PriceLevel → Arena → ℕ → Arena
new_last l a o = write a o (record (a o) { prev = l.tail; next = none })

-- No operation on a level touches anything but links.
pub push-unlinked :
    (l : PriceLevel) (a : Arena) (o y : ℕ) → unlinked ((push l a o).1 y) ≡ unlinked (a y)
unfolding push new_last
push-unlinked l a o y = unlinked-link_next (new_last l a o) l.tail (some o) y ∙ ground arith

-- What `if (tail_) ... else head_ = o` leaves at the head.
pub end_or-last :
    (xs : List ℕ) (new : Pointer) → end_or (last none xs) new (first xs none) ≡ first xs new
unfolding end_or
end_or-last [] new = refl
end_or-last (x ∷ xs) new = let (t, e) = last_of_cons x xs in rw (e, end_or)

module _ (l : PriceLevel) (a : Arena) (o : ℕ) (xs : List ℕ) (out : Fresh o xs)
    (h : Holds l a xs) where
  not_tail : l.tail ≢ some o
  not_tail e = elim (last-In none xs o (sym h.tail ∙ e)) [
    | inl n ↦ cc
    | inr i ↦ Fresh-not-In o xs out i
  ]

  abbrev linked : Arena
  linked = new_last l a o

  abbrev a' : Arena
  a' = (push l a o).1

  others : (y : ℕ) → In y xs → linked y ≡ a y
  unfolding new_last
  others y i = elim (ℕ_discrete y o) [
    | yes e ↦ absurd (Fresh-not-In o xs out (subst (λ z. In z xs) e i))
    | no ne ↦ ground arith
  ]

  push_prev : (y : ℕ) → (a' y).prev ≡ (linked y).prev
  unfolding push new_last
  push_prev y = link_next_prev _ l.tail (some o) y

  push_next : (y : ℕ) → In y xs → last none xs ≢ some y → (a' y).next ≡ (a y).next
  unfolding push new_last
  push_next y i ne =
      ap (λ z. z.next)
        (link_next_ne linked l.tail (some o) y (λ e. ne (sym h.tail ∙ e)) ∙ others y i)

  push_last : (y : ℕ) → last none xs ≡ some y → (a' y).next ≡ some o
  unfolding push new_last
  push_last y e = link_next_self linked l.tail (some o) y (h.tail ∙ e)

  new_links : ((a' o).prev ≡ last none xs) × ((a' o).next ≡ none)
  unfolding push new_last
  new_links = (
    push_prev o ∙ ground (arith, h.tail),
    ap (λ z. z.next) (link_next_ne linked l.tail (some o) o not_tail) ∙ ground arith,
  )

  push-chain : Chain a' none (xs ++ o ∷ []) none
  push-chain =
      Chain-append a' none xs (o ∷ []) none
        (Chain_set_end a a' none xs none (some o) h.distinct
          (λ y i. push_prev y ∙ ap (λ z. z.prev) (others y i)) push_next (λ y i e. push_last y e)
          h.chain)
        (new_links.0, new_links.1, tt)

  total_qty-push : (push l a o).0.total_qty ≡ add32 l.total_qty (remaining (a' o))
  unfolding push
  total_qty-push = refl

  push-total : (push l a o).0.total_qty ≡ open_qty a' (xs ++ o ∷ []) % u32_mod
  push-total = omega (
    arith,
    h.total,
    open_qty-append a' xs (o ∷ []),
    open_qty-cong a a' xs (λ y i. remaining-unlinked (a' y) (a y) (push-unlinked l a o y)),
    total_qty-push,
  )

  -- If a level holds the orders `xs`, the order `o` is not one of them and one more can be counted
  -- in 32 bits, then after `push` the level holds `xs` and then `o`.
  pub push-Holds : length xs + 1 < u32_mod → Holds (push l a o).0 a' (xs ++ o ∷ [])
  push-Holds room = record {
    head =
        unfold push in
        rw (h.tail, h.head, end_or-last xs (some o)) (sym (first-append xs (o ∷ []) none));
    tail = unfold push in sym (last-append none xs (o ∷ []));
    chain = push-chain;
    distinct = Distinct-snoc o xs out h.distinct;
    count = unfold push in omega (arith, h.count, length-append xs (o ∷ []));
    fits = omega (arith, length-append xs (o ∷ []));
    total = push-total;
  }

  -- Every other order keeps its links too.
  pub push-frame : (y : ℕ) → (In y xs → ⊥) → y ≢ o → a' y ≡ a y
  unfolding push new_last
  push-frame y fresh ne =
      link_next_ne linked l.tail (some o) y
        (λ e. elim (last-In none xs y (sym h.tail ∙ e)) [ inl n ↦ cc | inr i ↦ fresh i ])
      ∙ ground arith
