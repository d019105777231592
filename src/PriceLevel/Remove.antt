-- ===== src/PriceLevel/Remove.antt =====
-- `remove`: the order is unlinked, wherever in its level it stands.
use trade_feed.Prelude.{
  ℕ, ◌%◌, ◌≡◌, ◌≢◌, refl, inl, inr, none, some, List, [], ◌∷◌, ◌++◌, arith, length-append, ◌∙◌, ap,
  sym, subst,
}
use trade_feed.Types.{Pointer, u32_mod, remaining, sub32}
use trade_feed.PriceLevel.{PriceLevel, Arena, link_next, link_prev, end_or, remove}
use trade_feed.PriceLevel.Chain.{
  first, last, Chain, Fresh, In, Distinct, open_qty, Holds, unlinked, Chain_set_end,
  Chain_set_start, Chain-append, Chain-append_parts, last-In, first-In, Fresh-not-In,
  open_qty-append, open_qty-cong, last_of_cons, last-append, Distinct-remove, Distinct-append_parts,
  In-append_left, In-append_right,
}
use trade_feed.PriceLevel.Push.{
  link_next_prev, link_next_ne, link_next_self, unlinked-link_next, remaining-unlinked,
}

link_prev_next : (a : Arena) (p x : Pointer) (y : ℕ) → (link_prev a p x y).next ≡ (a y).next
unfolding link_prev
link_prev_next a none x y = refl
link_prev_next a (some p) x y = ground arith

link_prev_ne : (a : Arena) (p x : Pointer) (y : ℕ) → p ≢ some y → link_prev a p x y ≡ a y
unfolding link_prev
link_prev_ne a none x y h = refl
link_prev_ne a (some p) x y h = ground arith

link_prev_self : (a : Arena) (p x : Pointer) (y : ℕ) → p ≡ some y → (link_prev a p x y).prev ≡ x
unfolding link_prev
link_prev_self a none x y e = cc
link_prev_self a (some p) x y e = ground arith

unlinked-link_prev :
    (a : Arena) (p x : Pointer) (y : ℕ) → unlinked (link_prev a p x y) ≡ unlinked (a y)
unfolding link_prev
unlinked-link_prev a none x y = refl
unlinked-link_prev a (some p) x y = ground arith

-- The ends of a list that lost its middle.
end_or-last-first :
    (xs ys : List ℕ) (o : ℕ)
    → end_or (last none xs) (first ys none) (first (xs ++ o ∷ ys) none) ≡ first (xs ++ ys) none
unfolding end_or
end_or-last-first [] ys o = refl
end_or-last-first (x ∷ xs) ys o = let (t, e) = last_of_cons x xs in rw (e, end_or)

end_or-first-last :
    (xs ys : List ℕ) (o : ℕ)
    → end_or (first ys none) (last none xs) (last none (xs ++ o ∷ ys)) ≡ last none (xs ++ ys)
unfolding end_or
end_or-first-last xs [] o = sym (last-append none xs [])
end_or-first-last xs (y ∷ ys) o =
    last-append none xs (o ∷ y ∷ ys) ∙ sym (last-append none xs (y ∷ ys))

-- The two neighbours are linked to each other.
bypass : Arena → ℕ → Arena
bypass a o = let a1 = link_next a (a o).prev (a o).next in link_prev a1 (a1 o).next (a1 o).prev

-- `remove` keeps every order's other fields, and every order but the two neighbours.
pub remove-unlinked :
    (l : PriceLevel) (a : Arena) (o y : ℕ) → unlinked ((remove l a o).1 y) ≡ unlinked (a y)
unfolding remove
remove-unlinked l a o y =
    let a1 = link_next a (a o).prev (a o).next in
    let a2 = link_prev a1 (a1 o).next (a1 o).prev in
    ground (
      arith,
      unlinked-link_next a (a o).prev (a o).next y,
      unlinked-link_prev a1 (a1 o).next (a1 o).prev y,
    )

module _ (l : PriceLevel) (a : Arena) (xs : List ℕ) (o : ℕ) (ys : List ℕ)
    (h : Holds l a (xs ++ o ∷ ys)) where
  abbrev a' : Arena
  a' = (remove l a o).1

  parts : Chain a none xs (some o) × Chain a (last none xs) (o ∷ ys) none
  parts = Chain-append_parts a none xs (o ∷ ys) none h.chain

  rest : Distinct (xs ++ ys) × Fresh o (xs ++ ys)
  rest = Distinct-remove o xs ys h.distinct

  apart : Distinct xs × Distinct ys × ((y : ℕ) → In y xs → In y ys → ⊥)
  apart = Distinct-append_parts xs ys rest.0

  out_left : In o xs → ⊥
  out_left i = Fresh-not-In o (xs ++ ys) rest.1 (In-append_left o xs ys i)

  out_right : In o ys → ⊥
  out_right i = Fresh-not-In o (xs ++ ys) rest.1 (In-append_right o xs ys i)

  prev_lem : (a o).prev ≡ last none xs
  prev_lem = parts.1.0

  next_lem : (a o).next ≡ first ys none
  next_lem = parts.1.1

  prev-In : (y : ℕ) → (a o).prev ≡ some y → In y xs
  prev-In y e = elim (last-In none xs y (sym prev_lem ∙ e)) [ inl n ↦ cc | inr i ↦ i ]

  next-In : (y : ℕ) → (a o).next ≡ some y → In y ys
  next-In y e = first-In ys y (sym next_lem ∙ e)

  abbrev a1 : Arena
  a1 = link_next a (a o).prev (a o).next

  self : a1 o ≡ a o
  self = link_next_ne a (a o).prev (a o).next o λ e. out_left (prev-In o e)

  abbrev a2 : Arena
  a2 = link_prev a1 (a1 o).next (a1 o).prev

  remove_other : (y : ℕ) → y ≢ o → a' y ≡ a2 y
  unfolding remove
  remove_other y ne = ground arith

  ne_left : (y : ℕ) → In y xs → y ≢ o
  ne_left y i e = out_left (subst (λ z. In z xs) e i)

  ne_right : (y : ℕ) → In y ys → y ≢ o
  ne_right y i e = out_right (subst (λ z. In z ys) e i)

  -- To the left of the order only a `next` changes.
  left : (y : ℕ) → In y xs → a' y ≡ a1 y
  left y i =
      remove_other y (ne_left y i)
      ∙ link_prev_ne a1 (a1 o).next (a1 o).prev y
          λ e. apart.2 y i (next-In y (sym (ap (λ z. z.next) self) ∙ e))

  left_prev : (y : ℕ) → In y xs → (a' y).prev ≡ (a y).prev
  left_prev y i = ap (λ z. z.prev) (left y i) ∙ link_next_prev a (a o).prev (a o).next y

  left_next : (y : ℕ) → In y xs → last none xs ≢ some y → (a' y).next ≡ (a y).next
  left_next y i ne =
      ap (λ z. z.next)
        (left y i ∙ link_next_ne a (a o).prev (a o).next y λ e. ne (sym prev_lem ∙ e))

  left_end : (y : ℕ) → In y xs → last none xs ≡ some y → (a' y).next ≡ first ys none
  left_end y i e =
      ap (λ z. z.next) (left y i)
      ∙ link_next_self a (a o).prev (a o).next y (prev_lem ∙ e)
      ∙ next_lem

  -- To the right of it only a `prev` changes.
  right : (y : ℕ) → In y ys → a1 y ≡ a y
  right y i = link_next_ne a (a o).prev (a o).next y λ e. apart.2 y (prev-In y e) i

  right_next : (y : ℕ) → In y ys → (a' y).next ≡ (a y).next
  right_next y i =
      ap (λ z. z.next) (remove_other y (ne_right y i))
      ∙ link_prev_next a1 (a1 o).next (a1 o).prev y
      ∙ ap (λ z. z.next) (right y i)

  right_prev : (y : ℕ) → In y ys → first ys none ≢ some y → (a' y).prev ≡ (a y).prev
  right_prev y i ne =
      ap (λ z. z.prev)
        (remove_other y (ne_right y i)
          ∙ link_prev_ne a1 (a1 o).next (a1 o).prev y
              (λ e. ne (sym next_lem ∙ sym (ap (λ z. z.next) self) ∙ e))
          ∙ right y i)

  right_start : (y : ℕ) → In y ys → first ys none ≡ some y → (a' y).prev ≡ last none xs
  right_start y i e =
      ap (λ z. z.prev) (remove_other y (ne_right y i))
      ∙ link_prev_self a1 (a1 o).next (a1 o).prev y (ap (λ z. z.next) self ∙ next_lem ∙ e)
      ∙ ap (λ z. z.prev) self
      ∙ prev_lem

  remove-chain : Chain a' none (xs ++ ys) none
  remove-chain =
      Chain-append a' none xs ys none
        (Chain_set_end a a' none xs (some o) (first ys none) apart.0 left_prev left_next left_end
          parts.0)
        (Chain_set_start a a' (some o) (last none xs) ys apart.1 right_next right_prev right_start
          parts.1.2)

  total_qty-remove : (remove l a o).0.total_qty ≡ sub32 l.total_qty (remaining (a' o))
  unfolding remove remaining
  total_qty-remove = ground arith

  kept : (y : ℕ) → remaining (a' y) ≡ remaining (a y)
  kept y = remaining-unlinked (a' y) (a y) (remove-unlinked l a o y)

  remove-total : (remove l a o).0.total_qty ≡ open_qty a' (xs ++ ys) % u32_mod
  unfolding remaining
  remove-total = omega (
    arith,
    h.total,
    open_qty-append a xs (o ∷ ys),
    open_qty-append a' xs ys,
    open_qty-cong a a' xs (λ y i. kept y),
    open_qty-cong a a' ys (λ y i. kept y),
    kept o,
    total_qty-remove,
  )

  -- If a level holds `xs`, then `o`, then `ys`, then after `remove` of `o` it holds `xs` and then
  -- `ys`.
  pub remove-Holds : Holds (remove l a o).0 a' (xs ++ ys)
  remove-Holds = record {
    head = unfold remove in rw (prev_lem, next_lem, h.head) (end_or-last-first xs ys o);
    tail = unfold remove in rw (self, prev_lem, next_lem, h.tail) (end_or-first-last xs ys o);
    chain = remove-chain;
    distinct = rest.0;
    count =
        unfold remove in
        omega (arith, h.count, h.fits, length-append xs (o ∷ ys), length-append xs ys);
    fits = omega (arith, h.fits, length-append xs (o ∷ ys), length-append xs ys);
    total = remove-total;
  }

  -- Every other order keeps its links too.
  pub remove-frame : (y : ℕ) → (In y (xs ++ o ∷ ys) → ⊥) → a' y ≡ a y
  remove-frame y out =
      remove_other y (λ e. out (In-append_right y xs (o ∷ ys) (inl e)))
      ∙ link_prev_ne a1 (a1 o).next (a1 o).prev y (λ e.
        out (In-append_right y xs (o ∷ ys) (inr (next-In y (sym (ap (λ z. z.next) self) ∙ e)))))
      ∙ link_next_ne a (a o).prev (a o).next y λ e. out (In-append_left y xs (o ∷ ys) (prev-In y e))
