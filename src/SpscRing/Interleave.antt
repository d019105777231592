-- ===== src/SpscRing/Interleave.antt =====
-- `push` and `pop` of src/transport/spsc_ring.h, one memory access at a time: between any two of
-- them the other side may run.
use trade_feed.Prelude.{◌+◌, ◌%◌, ◌<◌, ◌≡◌, List, [], ◌∷◌, ◌++◌, if◌then◌else◌}
use trade_feed.Types.{ring_size}
use trade_feed.SpscRing.{
  Ring, looks_full, looks_empty, load_tail, load_head, write_item, store_head, read_item,
  store_tail,
}

-- Where `push(x)` is: not called, about to load the tail, about to write the item, and about to
-- publish the head.
pub data Producer (A : Type 0) : Type 0 where
  no_push : Producer A
  reload_tail write_slot publish : A → Producer A

-- Where `pop` is: not called, about to load the head, about to read the item, and about to publish
-- the tail.
pub data Consumer (A : Type 0) : Type 0 where
  no_pop reload_head read_slot : Consumer A
  release : A → Consumer A

unfoldable pub start_push : {A : Type 0} → A → Ring A → Producer A → Producer A
start_push x r no_push = if looks_full r then reload_tail x else write_slot x
start_push x r (reload_tail y) = reload_tail y
start_push x r (write_slot y) = write_slot y
start_push x r (publish y) = publish y

-- The ring and the place after one access of the producer, and the item that it published.
unfoldable pub produce : {A : Type 0} → Ring A → Producer A → Ring A × Producer A × List A
produce r no_push = (r, no_push, [])
produce r (reload_tail x) =
    let r' = load_tail r in (r', if looks_full r' then no_push else write_slot x, [])
produce r (write_slot x) = (write_item r x, publish x, [])
produce r (publish x) = (store_head r, no_push, x ∷ [])

unfoldable pub start_pop : {A : Type 0} → Ring A → Consumer A → Consumer A
start_pop r no_pop = if looks_empty r then reload_head else read_slot
start_pop r reload_head = reload_head
start_pop r read_slot = read_slot
start_pop r (release y) = release y

unfoldable pub consume : {A : Type 0} → Ring A → Consumer A → Ring A × Consumer A × List A
consume r no_pop = (r, no_pop, [])
consume r reload_head =
    let r' = load_head r in (r', if looks_empty r' then no_pop else read_slot, [])
consume r read_slot = (r, release (read_item r), [])
consume r (release y) = (store_tail r, no_pop, y ∷ [])

pub record World (A : Type 0) : Type 0 where
  pub ring : Ring A
  pub producer : Producer A
  pub consumer : Consumer A
  pub sent : List A
  pub received : List A

-- What happens next: a call begins, or a side makes its next access.
pub data Event (A : Type 0) : Type 0 where
  call_push : A → Event A
  producer_runs call_pop consumer_runs : Event A

unfoldable pub happen : {A : Type 0} → World A → Event A → World A
unfolding start_push produce start_pop consume
happen w (call_push x) = record w { producer = start_push x w.ring w.producer }
happen w producer_runs =
    let (r, p, out) = produce w.ring w.producer in
    record w { ring = r; producer = p; sent = w.sent ++ out }
happen w call_pop = record w { consumer = start_pop w.ring w.consumer }
happen w consumer_runs =
    let (r, c, out) = consume w.ring w.consumer in
    record w { ring = r; consumer = c; received = w.received ++ out }

unfoldable pub run : {A : Type 0} → World A → List (Event A) → World A
unfolding happen
run w [] = w
run w (e ∷ es) = run (happen w e) es

-- A producer past its test has a slot, and one past its write has the item there.
abbrev pub HasSlot : {A : Type 0} → Ring A → Producer A → Type 0
HasSlot r no_push = Unit
HasSlot r (reload_tail x) = Unit
HasSlot r (write_slot x) = r.head < r.cached_tail + ring_size
HasSlot r (publish x) = (r.head < r.cached_tail + ring_size) × (r.buffer (r.head % ring_size) ≡ x)

-- A consumer past its test has an item, and one past its read has that item.
abbrev pub HasItem : {A : Type 0} → Ring A → Consumer A → Type 0
HasItem r no_pop = Unit
HasItem r reload_head = Unit
HasItem r read_slot = r.tail < r.cached_head
HasItem r (release y) = (r.tail < r.cached_head) × (r.buffer (r.tail % ring_size) ≡ y)
