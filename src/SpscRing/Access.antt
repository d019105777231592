-- ===== src/SpscRing/Access.antt =====
-- What one access of the producer or of the consumer of src/transport/spsc_ring.h leaves.
use trade_feed.Prelude.{
  append-nil, ℕ, ◌+◌, ◌%◌, ◌<◌, ◌≡◌, ◌≢◌, refl, inl, inr, sym, ap, ◌∙◌, false, Bool-cases, List, [],
  ◌∷◌, ◌++◌, length, arith,
}
use trade_feed.Types.{u64_mod, ring_size}
use trade_feed.SpscRing.{
  Ring, looks_full, looks_empty, load_tail, load_head, write_item, store_head, store_tail,
}
use trade_feed.SpscRing.Fifo.{
  Slots, IsRing, Slots-write, IsRing-load_tail, IsRing-load_head, IsRing-take, length-snoc,
}
use trade_feed.SpscRing.Interleave.{
  Producer, no_push, reload_tail, write_slot, publish, Consumer, no_pop, reload_head, read_slot,
  release, produce, consume, HasSlot, HasItem,
}

pub Slots-prefix :
    {A : Type 0} (f : ℕ → A) (t : ℕ) (xs ys : List A) → Slots f t (xs ++ ys) → Slots f t xs
Slots-prefix f t [] ys s = tt
Slots-prefix f t (x ∷ xs) ys s = (s.0, Slots-prefix f (t + 1) xs ys s.1)

pub Slots-snoc :
    {A : Type 0} (f : ℕ → A) (t h : ℕ) (xs : List A) (x : A)
    → h ≡ t + length xs
    → f (h % ring_size) ≡ x
    → Slots f t xs
    → Slots f t (xs ++ x ∷ [])
Slots-snoc f t h [] x e at s = let e' : h ≡ t = omega arith in (rw (← e') at, tt)
Slots-snoc f t h (y ∷ xs) x e at s = (s.0, Slots-snoc f (t + 1) h xs x (omega (arith, e)) at s.1)

-- While the producer writes, the consumer's item stands still.
pub HasItem-write_item :
    {A : Type 0} (r : Ring A) (xs : List A) (x : A) (c : Consumer A)
    → IsRing r xs
    → r.head < r.cached_tail + ring_size
    → HasItem r c
    → HasItem (write_item r x) c
HasItem-write_item r xs x no_pop v h k = tt
HasItem-write_item r xs x reload_head v h k = tt
HasItem-write_item r xs x read_slot v h k = k
HasItem-write_item r xs x (release y) v h (k, e) =
    let apart : r.tail % ring_size ≢ r.head % ring_size =
      omega (arith, k, h, v.stale_head, v.stale_tail) in
    (k, ground (arith, e))

pub HasItem-store_head :
    {A : Type 0} (r : Ring A) (c : Consumer A) → HasItem r c → HasItem (store_head r) c
HasItem-store_head r no_pop k = tt
HasItem-store_head r reload_head k = tt
HasItem-store_head r read_slot k = k
HasItem-store_head r (release y) k = k

pub HasItem-load_tail :
    {A : Type 0} (r : Ring A) (c : Consumer A) → HasItem r c → HasItem (load_tail r) c
HasItem-load_tail r no_pop k = tt
HasItem-load_tail r reload_head k = tt
HasItem-load_tail r read_slot k = k
HasItem-load_tail r (release y) k = k

pub not_full :
    {A : Type 0} (r : Ring A) (xs : List A)
    → IsRing r xs
    → looks_full r ≡ false
    → r.head < r.cached_tail + ring_size
not_full r xs v e = ground (arith, v.wide, v.stale_tail, v.head, v.near_tail)

pub IsRing-write_item :
    {A : Type 0} (r : Ring A) (xs : List A) (x : A)
    → IsRing r xs
    → r.head < r.cached_tail + ring_size
    → IsRing (write_item r x) xs
IsRing-write_item r xs x v h = record {
  slots = Slots-prefix (write_item r x).buffer r.tail xs (x ∷ []) (
      Slots-write r.buffer r.tail r.head xs x v.head (omega (arith, v.head, v.stale_tail)) v.slots);
  head = v.head;
  fits = v.fits;
  stale_tail = v.stale_tail;
  near_tail = v.near_tail;
  stale_head = v.stale_head;
  wide = v.wide;
}

pub IsRing-store_head :
    {A : Type 0} (r : Ring A) (xs : List A) (x : A)
    → IsRing r xs
    → r.head < r.cached_tail + ring_size
    → r.head + 1 < u64_mod
    → r.buffer (r.head % ring_size) ≡ x
    → IsRing (store_head r) (xs ++ x ∷ [])
IsRing-store_head r xs x v h wide at = record {
  slots = Slots-snoc r.buffer r.tail r.head xs x v.head at v.slots;
  head = omega (arith, v.head, length-snoc xs x);
  fits = omega (arith, v.head, v.stale_tail, length-snoc xs x);
  stale_tail = v.stale_tail;
  near_tail = omega arith;
  stale_head = omega (arith, v.stale_head);
  wide = omega arith;
}

-- One access of the producer.
pub producer_lem :
    {A : Type 0} (p : Producer A) (r : Ring A) (xs : List A) (c : Consumer A)
    → IsRing r xs
    → HasSlot r p
    → HasItem r c
    → r.head + 1 < u64_mod
    → let o = produce r p in
      IsRing o.0 (xs ++ o.2) × HasSlot o.0 o.1 × HasItem o.0 c × (o.0.head < r.head + 2)
unfolding produce
producer_lem no_push r xs c v s k wide = (rw (append-nil xs) v, tt, k, omega arith)
producer_lem (reload_tail x) r xs c v s k wide = elim (Bool-cases (looks_full (load_tail r))) [
  | inl full ↦
      rw (full, append-nil xs) (IsRing-load_tail r xs v, tt, HasItem-load_tail r c k, omega arith)
  | inr open_ ↦
      rw (open_, append-nil xs)
        (
          IsRing-load_tail r xs v,
          not_full (load_tail r) xs (IsRing-load_tail r xs v) open_,
          HasItem-load_tail r c k,
          omega arith,
        )
]
producer_lem (write_slot x) r xs c v s k wide = (
  rw (append-nil xs) (IsRing-write_item r xs x v s),
  (s, ground arith),
  HasItem-write_item r xs x c v s k,
  omega arith,
)
producer_lem (publish x) r xs c v (s, at) k wide =
    (IsRing-store_head r xs x v s wide at, tt, HasItem-store_head r c k, omega arith)

pub HasSlot-load_head :
    {A : Type 0} (r : Ring A) (p : Producer A) → HasSlot r p → HasSlot (load_head r) p
HasSlot-load_head r no_push s = tt
HasSlot-load_head r (reload_tail x) s = tt
HasSlot-load_head r (write_slot x) s = s
HasSlot-load_head r (publish x) s = s

pub HasSlot-store_tail :
    {A : Type 0} (r : Ring A) (p : Producer A) → HasSlot r p → HasSlot (store_tail r) p
HasSlot-store_tail r no_push s = tt
HasSlot-store_tail r (reload_tail x) s = tt
HasSlot-store_tail r (write_slot x) s = s
HasSlot-store_tail r (publish x) s = s

pub take_oldest :
    {A : Type 0} (r : Ring A) (xs : List A) (y : A)
    → IsRing r xs
    → r.tail < r.cached_head
    → r.buffer (r.tail % ring_size) ≡ y
    → (xs' : List A) × (xs ≡ y ∷ xs') × IsRing (store_tail r) xs'
take_oldest r [] y v k at = absurd (omega (arith, v.head, v.stale_head))
take_oldest r (x ∷ xs) y v k at = (xs, ap (λ z. z ∷ xs) (sym v.slots.0 ∙ at), IsRing-take r x xs v)

-- One access of the consumer.
pub consumer_lem :
    {A : Type 0} (c : Consumer A) (r : Ring A) (xs : List A) (p : Producer A)
    → IsRing r xs
    → HasSlot r p
    → HasItem r c
    → let o = consume r c in
      (xs' : List A) × (xs ≡ o.2 ++ xs')
      × IsRing o.0 xs'
      × HasSlot o.0 p
      × HasItem o.0 o.1
      × (o.0.head ≡ r.head)
unfolding consume
consumer_lem no_pop r xs p v s k = (xs, refl, v, s, tt, refl)
consumer_lem reload_head r xs p v s k = elim (Bool-cases (looks_empty (load_head r))) [
  | inl gone ↦ rw gone (xs, refl, IsRing-load_head r xs v, HasSlot-load_head r p s, tt, refl)
  | inr more ↦
      rw more (xs, refl, IsRing-load_head r xs v, HasSlot-load_head r p s, ground arith, refl)
]
consumer_lem read_slot r xs p v s k = (xs, refl, v, s, (k, refl), refl)
consumer_lem (release y) r xs p v s (k, at) =
    let (xs', e, w) = take_oldest r xs y v k at in (xs', e, w, HasSlot-store_tail r p s, tt, refl)
