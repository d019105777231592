-- ===== src/SpscRing/Fifo.antt =====
-- The ring is a bounded queue, in any sequence of whole calls.
use trade_feed.Prelude.{
  ℕ, ◌+◌, ◌%◌, ◌<◌, ◌≤◌, ◌≡◌, ◌≢◌, refl, inl, inr, arith, Bool, not, true, false, Bool-cases,
  Option, none, some, List, [], ◌∷◌, ◌++◌, length, ltb, if◌then◌else◌, ap, ◌∙◌,
}
use trade_feed.Prelude.Array.{write}
use trade_feed.Types.{u64_mod, ring_size, add64}
use trade_feed.SpscRing.{
  Ring, push, pop, make, size, looks_full, looks_empty, load_tail, load_head, write_item,
  store_head, store_tail,
}

-- The items `xs` stand in the buffer from the index `t` on.
abbrev pub Slots {ℓ} : {A : Type ℓ} → (ℕ → A) → ℕ → List A → Type ℓ
Slots f t [] = Unit
Slots f t (x ∷ xs) = (f (t % ring_size) ≡ x) × Slots f (t + 1) xs

-- The ring holds the items `xs`, oldest first.
pub record IsRing {ℓ} {A : Type ℓ} (r : Ring A) (xs : List A) : Type ℓ where
  pub slots : Slots r.buffer r.tail xs
  pub head : r.head ≡ r.tail + length xs
  pub fits : length xs ≤ ring_size
  pub stale_tail : r.cached_tail ≤ r.tail
  pub near_tail : r.head ≤ r.cached_tail + ring_size
  pub stale_head : r.cached_head ≤ r.head
  pub wide : r.head < u64_mod

pub length-snoc {ℓ} : {A : Type ℓ} (xs : List A) (x : A) → length (xs ++ x ∷ []) ≡ length xs + 1
length-snoc [] x = refl
length-snoc (y ∷ xs) x = omega (arith, length-snoc xs x)

-- A slot past the items can be written, and extends them.
pub Slots-write {ℓ} :
    {A : Type ℓ} (f : ℕ → A) (t h : ℕ) (xs : List A) (x : A)
    → h ≡ t + length xs
    → length xs < ring_size
    → Slots f t xs
    → Slots (write f (h % ring_size) x) t (xs ++ x ∷ [])
Slots-write f t h [] x e small w = let e' : h ≡ t = omega arith in (rw e' ground arith, tt)
Slots-write f t h (y ∷ xs) x e small w =
    let apart : t % ring_size ≢ h % ring_size = omega (arith, e, small) in
    (ground (arith, w.0), Slots-write f (t + 1) h xs x (omega (arith, e)) (omega arith) w.1)

-- The queue that the ring stands for.
abbrev pub fifo_push {ℓ} : {A : Type ℓ} → List A → A → List A × Bool
fifo_push xs x = if ltb (length xs) ring_size then (xs ++ x ∷ [], true) else (xs, false)

abbrev pub fifo_pop {ℓ} : {A : Type ℓ} → List A → List A × Option A
fifo_pop [] = ([], none)
fifo_pop (x ∷ xs) = (xs, some x)

pub IsRing-load_tail {ℓ} :
    {A : Type ℓ} (r : Ring A) (xs : List A) → IsRing r xs → IsRing (load_tail r) xs
IsRing-load_tail r xs v = record {
  slots = v.slots;
  head = v.head;
  fits = v.fits;
  stale_tail = omega arith;
  near_tail = omega (arith, v.head, v.fits);
  stale_head = v.stale_head;
  wide = v.wide;
}

pub IsRing-load_head {ℓ} :
    {A : Type ℓ} (r : Ring A) (xs : List A) → IsRing r xs → IsRing (load_head r) xs
IsRing-load_head r xs v = record {
  slots = v.slots;
  head = v.head;
  fits = v.fits;
  stale_tail = v.stale_tail;
  near_tail = v.near_tail;
  stale_head = omega arith;
  wide = v.wide;
}

pub IsRing-append {ℓ} :
    {A : Type ℓ} (r : Ring A) (xs : List A) (x : A)
    → r.head + 1 < u64_mod
    → looks_full r ≡ false
    → IsRing r xs
    → IsRing (store_head (write_item r x)) (xs ++ x ∷ [])
IsRing-append r xs x room open_ v =
    let near : r.head < r.cached_tail + ring_size =
      ground (arith, v.wide, v.stale_tail, v.head, v.near_tail) in
    let size : length xs < ring_size = omega (arith, v.head, v.stale_tail) in
    record {
      slots = Slots-write r.buffer r.tail r.head xs x v.head size v.slots;
      head = omega (arith, v.head, length-snoc xs x);
      fits = omega (arith, length-snoc xs x);
      stale_tail = v.stale_tail;
      near_tail = omega arith;
      stale_head = omega (arith, v.stale_head);
      wide = omega arith;
    }

pub IsRing-take {ℓ} :
    {A : Type ℓ} (r : Ring A) (x : A) (xs : List A) → IsRing r (x ∷ xs) → IsRing (store_tail r) xs
IsRing-take r x xs v =
    let e : add64 r.tail 1 ≡ r.tail + 1 = omega (arith, v.head, v.wide) in
    record {
      slots = rw e v.slots.1;
      head = omega (arith, v.head, e);
      fits = omega (arith, v.fits);
      stale_tail = omega (arith, v.stale_tail, e);
      near_tail = v.near_tail;
      stale_head = v.stale_head;
      wide = v.wide;
    }

full_lem {ℓ} :
    {A : Type ℓ} (r : Ring A) (xs : List A)
    → IsRing r xs
    → looks_full (load_tail r) ≡ not (ltb (length xs) ring_size)
full_lem r xs v = ground (arith, v.head, v.fits, v.wide)

-- If the ring stands for the queue `xs` and its head is not at the last value of its type, `push`
-- is the push of a queue bounded by the capacity, with the same answer, whatever tail the producer
-- had cached.
pub push-IsRing {ℓ} :
    {A : Type ℓ} (r : Ring A) (xs : List A) (x : A)
    → r.head + 1 < u64_mod
    → IsRing r xs
    → IsRing (push r x).0 (fifo_push xs x).0 × ((push r x).1 ≡ (fifo_push xs x).1)
unfolding push
push-IsRing r xs x room v =
    let full = full_lem r xs v in
    elim (Bool-cases (looks_full r)) [
      | inr open_ ↦
          let small : ltb (length xs) ring_size ≡ true =
            ground (arith, v.head, v.fits, v.wide, v.stale_tail, v.near_tail) in
          rw (open_, small) (IsRing-append r xs x room open_ v, refl)
      | inl maybe ↦ elim (Bool-cases (ltb (length xs) ring_size)) [
        | inl small ↦
            let open_ : looks_full (load_tail r) ≡ false = full ∙ ap not small in
            rw (maybe, open_, small)
              (IsRing-append (load_tail r) xs x room open_ (IsRing-load_tail r xs v), refl)
        | inr big ↦
            let closed : looks_full (load_tail r) ≡ true = full ∙ ap not big in
            rw (maybe, closed, big) (IsRing-load_tail r xs v, refl)
      ]
    ]

-- If the ring stands for the queue `xs`, `pop` is the pop of that queue, with the same answer,
-- whatever head the consumer had cached.
pub pop-IsRing {ℓ} :
    {A : Type ℓ} (r : Ring A) (xs : List A)
    → IsRing r xs
    → IsRing (pop r).0 (fifo_pop xs).0 × ((pop r).1 ≡ (fifo_pop xs).1)
unfolding pop
pop-IsRing r [] v =
    let gone : looks_empty r ≡ true = ground (arith, v.head, v.stale_head) in
    let gone' : looks_empty (load_head r) ≡ true = ground (arith, v.head) in
    rw (gone, gone') (IsRing-load_head r [] v, refl)
pop-IsRing r (x ∷ xs) v =
    let more : looks_empty (load_head r) ≡ false = ground (arith, v.head) in
    elim (Bool-cases (looks_empty r)) [
      | inr hit ↦ rw hit (IsRing-take r x xs v, ap some v.slots.0)
      | inl miss ↦
          rw (miss, more)
            (IsRing-take (load_head r) x xs (IsRing-load_head r (x ∷ xs) v), ap some v.slots.0)
    ]

-- A new ring is the empty queue, and `size` counts the items.
pub make-IsRing {ℓ} : {A : Type ℓ} (x : A) → IsRing (make x) []
unfolding make
make-IsRing x = record {
  slots = tt;
  head = refl;
  fits = omega arith;
  stale_tail = omega arith;
  near_tail = omega arith;
  stale_head = omega arith;
  wide = omega arith;
}

-- If the ring stands for the queue `xs`, its `size` is the number of those items.
pub size-IsRing {ℓ} : {A : Type ℓ} (r : Ring A) (xs : List A) → IsRing r xs → size r ≡ length xs
unfolding size
size-IsRing r xs v = omega (arith, v.head, v.wide)
