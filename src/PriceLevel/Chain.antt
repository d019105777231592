-- ===== src/PriceLevel/Chain.antt =====
-- A list of arena indices that is threaded through the `prev` and `next` fields.
use trade_feed.Prelude.{
  ℕ, ◌+◌, ◌%◌, ◌≡◌, ◌≢◌, refl, ◌⊎◌, inl, inr, none, some, List, [], ◌∷◌, ◌++◌, arith, ◌<◌, length,
  ◌∙◌, ap, sym, subst,
}
use trade_feed.Types.{Order, Pointer, u32_mod, remaining}
use trade_feed.PriceLevel.{PriceLevel, Arena}

-- Where a list begins and ends, when `q` stands behind it and `p` in front.
abbrev pub first : List ℕ → Pointer → Pointer
first [] q = q
first (x ∷ xs) q = some x

abbrev pub last : Pointer → List ℕ → Pointer
last p [] = p
last p (x ∷ xs) = last (some x) xs

-- Every element's links lead to its neighbours.
abbrev pub Chain : Arena → Pointer → List ℕ → Pointer → Type 0
Chain a p [] q = Unit {0}
Chain a p (x ∷ xs) q = ((a x).prev ≡ p) × ((a x).next ≡ first xs q) × Chain a (some x) xs q

-- `x` is none of the elements, or one of them.
abbrev pub Fresh : ℕ → List ℕ → Type 0
Fresh x [] = Unit {0}
Fresh x (y ∷ ys) = (x ≢ y) × Fresh x ys

abbrev pub In : ℕ → List ℕ → Type 0
In x [] = ⊥
In x (y ∷ ys) = (x ≡ y) ⊎ In x ys

abbrev pub Distinct : List ℕ → Type 0
Distinct [] = Unit {0}
Distinct (x ∷ xs) = Fresh x xs × Distinct xs

-- The unfilled quantities, added up without a wrap.
abbrev pub open_qty : Arena → List ℕ → ℕ
open_qty a [] = 0
open_qty a (x ∷ xs) = remaining (a x) + open_qty a xs

-- A level holds the orders `xs`, oldest first.
pub record Holds (l : PriceLevel) (a : Arena) (xs : List ℕ) : Type 0 where
  pub head : l.head ≡ first xs none
  pub tail : l.tail ≡ last none xs
  pub chain : Chain a none xs none
  pub distinct : Distinct xs
  pub count : l.count ≡ length xs
  pub fits : length xs < u32_mod
  pub total : l.total_qty ≡ open_qty a xs % u32_mod

-- An order without its links.
abbrev pub unlinked : Order → Order
unlinked o = record o { prev = none; next = none }

abbrev pub SameLinks : Order → Order → Type 0
SameLinks o p = (o.prev ≡ p.prev) × (o.next ≡ p.next)

pub Fresh-not-In : (x : ℕ) (xs : List ℕ) → Fresh x xs → In x xs → ⊥
Fresh-not-In x [] f i = i
Fresh-not-In x (y ∷ ys) f (inl e) = f.0 e
Fresh-not-In x (y ∷ ys) f (inr i) = Fresh-not-In x ys f.1 i

pub Fresh_of_not_In : (x : ℕ) (xs : List ℕ) → (In x xs → ⊥) → Fresh x xs
Fresh_of_not_In x [] n = tt
Fresh_of_not_In x (y ∷ ys) n = (λ e. n (inl e), Fresh_of_not_In x ys λ i. n (inr i))

pub In-append : (x : ℕ) (xs ys : List ℕ) → In x (xs ++ ys) → In x xs ⊎ In x ys
In-append x [] ys i = inr i
In-append x (z ∷ xs) ys (inl e) = inl (inl e)
In-append x (z ∷ xs) ys (inr i) = elim (In-append x xs ys i) [ inl j ↦ inl (inr j) | inr j ↦ inr j ]

pub In-append_left : (x : ℕ) (xs ys : List ℕ) → In x xs → In x (xs ++ ys)
In-append_left x (z ∷ xs) ys (inl e) = inl e
In-append_left x (z ∷ xs) ys (inr i) = inr (In-append_left x xs ys i)
In-append_left x [] ys i = absurd i

pub In-append_right : (x : ℕ) (xs ys : List ℕ) → In x ys → In x (xs ++ ys)
In-append_right x [] ys i = i
In-append_right x (z ∷ xs) ys i = inr (In-append_right x xs ys i)

-- An element splits its list.
pub In-split : (x : ℕ) (xs : List ℕ) → In x xs → (us : List ℕ) × (vs : List ℕ) × (xs ≡ us ++ x ∷ vs)
In-split x [] i = absurd i
In-split x (y ∷ ys) (inl e) = ([], ys, cc)
In-split x (y ∷ ys) (inr i) = let (us, vs, e) = In-split x ys i in (y ∷ us, vs, ap (λ l. y ∷ l) e)

pub length-positive : (xs : List ℕ) (x : ℕ) (ys : List ℕ) → 0 < length (xs ++ x ∷ ys)
length-positive [] x ys = omega arith
length-positive (z ∷ xs) x ys = omega arith

pub Fresh-append : (x : ℕ) (xs ys : List ℕ) → Fresh x xs → Fresh x ys → Fresh x (xs ++ ys)
Fresh-append x [] ys f g = g
Fresh-append x (z ∷ xs) ys f g = (f.0, Fresh-append x xs ys f.1 g)

pub Fresh-append_parts : (x : ℕ) (xs ys : List ℕ) → Fresh x (xs ++ ys) → Fresh x xs × Fresh x ys
Fresh-append_parts x [] ys f = (tt, f)
Fresh-append_parts x (z ∷ xs) ys f = let (g, h) = Fresh-append_parts x xs ys f.1 in ((f.0, g), h)

pub Distinct-snoc : (x : ℕ) (xs : List ℕ) → Fresh x xs → Distinct xs → Distinct (xs ++ x ∷ [])
Distinct-snoc x [] f d = (tt, tt)
Distinct-snoc x (y ∷ ys) f d =
    (Fresh-append y ys (x ∷ []) d.0 (λ e. f.0 (sym e), tt), Distinct-snoc x ys f.1 d.1)

-- Taking out one element leaves the list distinct and without it.
pub Distinct-remove :
    (x : ℕ) (xs ys : List ℕ) → Distinct (xs ++ x ∷ ys) → Distinct (xs ++ ys) × Fresh x (xs ++ ys)
Distinct-remove x [] ys d = (d.1, d.0)
Distinct-remove x (z ∷ xs) ys d =
    let (rest, out) = Distinct-remove x xs ys d.1 in
    let (f, g) = Fresh-append_parts z xs (x ∷ ys) d.0 in
    ((Fresh-append z xs ys f g.1, rest), (λ e. g.0 (sym e), out))

-- A chain depends on its own elements' links only.
pub Chain-cong :
    (a b : Arena) (p : Pointer) (xs : List ℕ) (q : Pointer)
    → ((y : ℕ) → In y xs → SameLinks (b y) (a y))
    → Chain a p xs q
    → Chain b p xs q
Chain-cong a b p [] q same c = tt
Chain-cong a b p (x ∷ xs) q same c =
    let (e, f) = same x (inl refl) in
    (e ∙ c.0, f ∙ c.1, Chain-cong a b (some x) xs q (λ y i. same y (inr i)) c.2)

pub Chain-append :
    (a : Arena) (p : Pointer) (xs ys : List ℕ) (q : Pointer)
    → Chain a p xs (first ys q)
    → Chain a (last p xs) ys q
    → Chain a p (xs ++ ys) q
Chain-append a p [] ys q c d = d
Chain-append a p (x ∷ []) ys q c d = (c.0, c.1, d)
Chain-append a p (x ∷ y ∷ xs) ys q c d = (c.0, c.1, Chain-append a (some x) (y ∷ xs) ys q c.2 d)

pub Chain-append_parts :
    (a : Arena) (p : Pointer) (xs ys : List ℕ) (q : Pointer)
    → Chain a p (xs ++ ys) q
    → Chain a p xs (first ys q) × Chain a (last p xs) ys q
Chain-append_parts a p [] ys q c = (tt, c)
Chain-append_parts a p (x ∷ []) ys q c = ((c.0, c.1, tt), c.2)
Chain-append_parts a p (x ∷ y ∷ xs) ys q c =
    let (d, e) = Chain-append_parts a (some x) (y ∷ xs) ys q c.2 in ((c.0, c.1, d), e)

pub first-append : (xs ys : List ℕ) (q : Pointer) → first (xs ++ ys) q ≡ first xs (first ys q)
first-append [] ys q = refl
first-append (x ∷ xs) ys q = refl

pub last-append : (p : Pointer) (xs ys : List ℕ) → last p (xs ++ ys) ≡ last (last p xs) ys
last-append p [] ys = refl
last-append p (x ∷ xs) ys = last-append (some x) xs ys

pub open_qty-append :
    (a : Arena) (xs ys : List ℕ) → open_qty a (xs ++ ys) ≡ open_qty a xs + open_qty a ys
open_qty-append a [] ys = omega arith
open_qty-append a (x ∷ xs) ys = omega (arith, open_qty-append a xs ys)

pub open_qty-cong :
    (a b : Arena) (xs : List ℕ)
    → ((y : ℕ) → In y xs → remaining (b y) ≡ remaining (a y))
    → open_qty b xs ≡ open_qty a xs
open_qty-cong a b [] same = refl
open_qty-cong a b (x ∷ xs) same =
    omega (arith, same x (inl refl), open_qty-cong a b xs (λ y i. same y (inr i)))

pub last-In : (p : Pointer) (xs : List ℕ) (t : ℕ) → last p xs ≡ some t → (p ≡ some t) ⊎ In t xs
last-In p [] t e = inl e
last-In p (x ∷ xs) t e = elim (last-In (some x) xs t e) [
  | inl h ↦ inr (inl (cc))
  | inr i ↦ inr (inr i)
]

pub last_of_cons : (x : ℕ) (xs : List ℕ) → (t : ℕ) × (last (some x) xs ≡ some t)
last_of_cons x [] = (x, refl)
last_of_cons x (y ∷ ys) = last_of_cons y ys

pub first-In : (xs : List ℕ) (t : ℕ) → first xs none ≡ some t → In t xs
first-In [] t e = cc
first-In (x ∷ xs) t e = inl (cc)

-- The chain after the last `next` field was written.
pub Chain_set_end :
    (a b : Arena) (p : Pointer) (xs : List ℕ) (q q' : Pointer)
    → Distinct xs
    → ((y : ℕ) → In y xs → (b y).prev ≡ (a y).prev)
    → ((y : ℕ) → In y xs → last p xs ≢ some y → (b y).next ≡ (a y).next)
    → ((y : ℕ) → In y xs → last p xs ≡ some y → (b y).next ≡ q')
    → Chain a p xs q
    → Chain b p xs q'
Chain_set_end a b p [] q q' d prevs nexts end c = tt
Chain_set_end a b p (x ∷ []) q q' d prevs nexts end c =
    (prevs x (inl refl) ∙ c.0, end x (inl refl) refl, tt)
Chain_set_end a b p (x ∷ y ∷ xs) q q' d prevs nexts end c = (
  prevs x (inl refl) ∙ c.0,
  nexts x (inl refl) inner ∙ c.1,
  Chain_set_end a b (some x) (y ∷ xs) q q' d.1 (λ z i. prevs z (inr i)) (λ z i. nexts z (inr i))
      (λ z i. end z (inr i)) c.2,
)
  where
    inner : last (some y) xs ≢ some x
    inner e = elim (last-In (some y) xs x e) [
      | inl h ↦ d.0.0 (cc)
      | inr i ↦ Fresh-not-In x xs d.0.1 i
    ]

-- The chain after the first `prev` field was written.
pub Chain_set_start :
    (a b : Arena) (p p' : Pointer) (xs : List ℕ)
    → Distinct xs
    → ((y : ℕ) → In y xs → (b y).next ≡ (a y).next)
    → ((y : ℕ) → In y xs → first xs none ≢ some y → (b y).prev ≡ (a y).prev)
    → ((y : ℕ) → In y xs → first xs none ≡ some y → (b y).prev ≡ p')
    → Chain a p xs none
    → Chain b p' xs none
Chain_set_start a b p p' [] d nexts prevs start c = tt
Chain_set_start a b p p' (x ∷ xs) d nexts prevs start c = (
  start x (inl refl) refl,
  nexts x (inl refl) ∙ c.1,
  Chain-cong a b (some x) xs none
      (λ y i. (prevs y (inr i) (λ e. Fresh-not-In x xs d.0 (same y e i)), nexts y (inr i))) c.2,
)
  where
    same : (y : ℕ) → some x ≡ some y → In y xs → In x xs
    same y e i = let e' : y ≡ x = cc in subst (λ z. In z xs) e' i

pub Distinct-append_parts :
    (xs ys : List ℕ)
    → Distinct (xs ++ ys)
    → Distinct xs × Distinct ys × ((y : ℕ) → In y xs → In y ys → ⊥)
Distinct-append_parts [] ys d = (tt, d, λ y i j. i)
Distinct-append_parts (x ∷ xs) ys d =
    let (dx, dy, apart) = Distinct-append_parts xs ys d.1 in
    let (f, g) = Fresh-append_parts x xs ys d.0 in ((f, dx), dy, separate g apart)
  where
    separate :
        Fresh x ys → ((y : ℕ) → In y xs → In y ys → ⊥) → (y : ℕ) → In y (x ∷ xs) → In y ys → ⊥
    separate g apart y (inl e) j = Fresh-not-In x ys g (subst (λ z. In z ys) e j)
    separate g apart y (inr i) j = apart y i j

-- An element of a list is the one taken out, or one of the rest.
pub In-rest : (y x : ℕ) (xs ys : List ℕ) → In y (xs ++ x ∷ ys) → (y ≡ x) ⊎ In y (xs ++ ys)
In-rest y x [] ys i = i
In-rest y x (z ∷ xs) ys (inl e) = inr (inl e)
In-rest y x (z ∷ xs) ys (inr i) = elim (In-rest y x xs ys i) [ inl e ↦ inl e | inr j ↦ inr (inr j) ]

pub In-more : (y x : ℕ) (xs ys : List ℕ) → In y (xs ++ ys) → In y (xs ++ x ∷ ys)
In-more y x [] ys i = inr i
In-more y x (z ∷ xs) ys (inl e) = inl e
In-more y x (z ∷ xs) ys (inr i) = inr (In-more y x xs ys i)

-- A statement about every element, from the first one and the rest.
pub In-cons_elim {ℓ} :
    (P : ℕ → Type ℓ) (x : ℕ) (xs : List ℕ)
    → P x
    → ((y : ℕ) → In y xs → P y)
    → (y : ℕ) → In y (x ∷ xs)
    → P y
In-cons_elim P x xs here there y (inl e) = subst P (sym e) here
In-cons_elim P x xs here there y (inr i) = there y i
