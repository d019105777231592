-- ===== src/SpscRing/Steps.antt =====
-- Runs of the producer and the consumer of src/transport/spsc_ring.h in any interleaving.
use trade_feed.Prelude.{
  append_assoc, ◌+◌, ◌%◌, ◌<◌, ◌≡◌, ◌≢◌, refl, inl, inr, sym, ap, ◌∙◌, Bool-cases, List, [], ◌∷◌,
  ◌++◌, length, arith, subst,
}
use trade_feed.Types.{u64_mod, ring_size}
use trade_feed.SpscRing.{Ring, make, looks_full, looks_empty, write_item, read_item}
use trade_feed.SpscRing.Fifo.{IsRing, make-IsRing}
use trade_feed.SpscRing.Interleave.{
  Producer, no_push, reload_tail, write_slot, publish, Consumer, no_pop, reload_head, read_slot,
  release, start_push, produce, start_pop, consume, World, Event, call_push, producer_runs,
  call_pop, consumer_runs, happen, run, HasSlot, HasItem,
}
use trade_feed.SpscRing.Access.{not_full, producer_lem, take_oldest, consumer_lem}

-- The ring holds what was sent and not yet received, in order.
pub record IsWorld {A : Type 0} (w : World A) (xs : List A) : Type 0 where
  pub ring : IsRing w.ring xs
  pub slot : HasSlot w.ring w.producer
  pub item : HasItem w.ring w.consumer
  pub in_order : w.sent ≡ w.received ++ xs

HasSlot-start_push :
    {A : Type 0} (x : A) (r : Ring A) (xs : List A) (p : Producer A)
    → IsRing r xs
    → HasSlot r p
    → HasSlot r (start_push x r p)
unfolding start_push
HasSlot-start_push x r xs no_push v s = elim (Bool-cases (looks_full r)) [
  | inl full ↦ rw full tt
  | inr open_ ↦ rw open_ (not_full r xs v open_)
]
HasSlot-start_push x r xs (reload_tail y) v s = s
HasSlot-start_push x r xs (write_slot y) v s = s
HasSlot-start_push x r xs (publish y) v s = s

HasItem-start_pop :
    {A : Type 0} (r : Ring A) (c : Consumer A) → HasItem r c → HasItem r (start_pop r c)
unfolding start_pop
HasItem-start_pop r no_pop k = elim (Bool-cases (looks_empty r)) [
  | inl gone ↦ rw gone tt
  | inr more ↦ rw more (ground arith)
]
HasItem-start_pop r reload_head k = k
HasItem-start_pop r read_slot k = k
HasItem-start_pop r (release y) k = k

happen-IsWorld :
    {A : Type 0} (e : Event A) (w : World A) (xs : List A)
    → IsWorld w xs
    → w.ring.head + 1 < u64_mod
    → (xs' : List A) × IsWorld (happen w e) xs' × ((happen w e).ring.head < w.ring.head + 2)
unfolding happen
happen-IsWorld (call_push x) w xs v wide = (
  xs,
  record {
    ring = v.ring;
    slot = HasSlot-start_push x w.ring xs w.producer v.ring v.slot;
    item = v.item;
    in_order = v.in_order;
  },
  omega arith,
)
happen-IsWorld producer_runs w xs v wide =
    let (r, s, k, up) = producer_lem w.producer w.ring xs w.consumer v.ring v.slot v.item wide in
    let out = (produce w.ring w.producer).2 in
    (
      xs ++ out,
      record {
        ring = r;
        slot = s;
        item = k;
        in_order = ap (λ l. l ++ out) v.in_order ∙ append_assoc w.received xs out;
      },
      up,
    )
happen-IsWorld call_pop w xs v wide = (
  xs,
  record {
    ring = v.ring;
    slot = v.slot;
    item = HasItem-start_pop w.ring w.consumer v.item;
    in_order = v.in_order;
  },
  omega arith,
)
happen-IsWorld consumer_runs w xs v wide =
    let (xs', e, r, s, k, up) = consumer_lem w.consumer w.ring xs w.producer v.ring v.slot v.item in
    let out = (consume w.ring w.consumer).2 in
    (
      xs',
      record {
        ring = r;
        slot = s;
        item = k;
        in_order = v.in_order ∙ ap (λ l. w.received ++ l) e ∙ sym (append_assoc w.received out xs');
      },
      omega (arith, up),
    )

-- In any interleaving of the accesses of one producer and one consumer, as long as the head does
-- not come to the last value of its type, the ring holds exactly the items that were published and
-- not yet released, in order: what was received, and then what the ring holds, is what was sent.
pub run-IsWorld :
    {A : Type 0} (es : List (Event A)) (w : World A) (xs : List A)
    → IsWorld w xs
    → w.ring.head + length es < u64_mod
    → (xs' : List A) × IsWorld (run w es) xs'
unfolding run
run-IsWorld [] w xs v wide = (xs, v)
run-IsWorld (e ∷ es) w xs v wide =
    let (xs1, v1, up) = happen-IsWorld e w xs v (omega arith) in
    run-IsWorld es (happen w e) xs1 v1 (omega (arith, up))

-- A new ring, with both sides idle.
abbrev pub idle : {A : Type 0} → A → World A
idle blank = record {
  ring = make blank;
  producer = no_push;
  consumer = no_pop;
  sent = [];
  received = [];
}

pub idle-IsWorld : {A : Type 0} (blank : A) → IsWorld (idle blank) []
idle-IsWorld blank = record { ring = make-IsRing blank; slot = tt; item = tt; in_order = refl }

-- The consumer reads the oldest item that it has not received, before the producer's next access as
-- well as after it.
pub record ReadsOldest {A : Type 0} (w : World A) : Type 0 where
  pub item : A
  pub rest : List A
  pub oldest : w.sent ≡ w.received ++ item ∷ rest
  pub before : (consume w.ring w.consumer).1 ≡ release item
  pub after : (consume (produce w.ring w.producer).0 w.consumer).1 ≡ release item

world_reads :
    {A : Type 0} (w : World A) (xs : List A) (x : A)
    → IsWorld w xs
    → w.producer ≡ write_slot x
    → w.consumer ≡ read_slot
    → (w.ring.head % ring_size ≢ w.ring.tail % ring_size) × ReadsOldest w
unfolding produce consume
world_reads w xs x v writes reads =
    let s : w.ring.head < w.ring.cached_tail + ring_size = subst (HasSlot w.ring) writes v.slot in
    let k : w.ring.tail < w.ring.cached_head = subst (HasItem w.ring) reads v.item in
    let apart : w.ring.head % ring_size ≢ w.ring.tail % ring_size =
      omega (arith, s, k, v.ring.stale_head, v.ring.stale_tail) in
    let (xs', e, _) = take_oldest w.ring xs (read_item w.ring) v.ring k refl in
    let same : read_item (write_item w.ring x) ≡ read_item w.ring = ground (arith, apart) in
    (
      apart,
      record {
        item = read_item w.ring;
        rest = xs';
        oldest = v.in_order ∙ ap (λ l. w.received ++ l) e;
        before = rw reads refl;
        after = rw (writes, reads) (ap release same);
      },
    )

-- In a run of fewer than 2^64 events from a new ring, when the producer is about to write an item
-- and the consumer about to read one, the two use different slots of the buffer, and the consumer
-- reads the oldest item that was sent and not received, before the write as well as after it.
pub slots_apart :
    {A : Type 0} (blank : A) (es : List (Event A)) (x : A)
    → length es < u64_mod
    → (run (idle blank) es).producer ≡ write_slot x
    → (run (idle blank) es).consumer ≡ read_slot
    → ((run (idle blank) es).ring.head % ring_size ≢ (run (idle blank) es).ring.tail % ring_size)
      × ReadsOldest (run (idle blank) es)
unfolding make
slots_apart blank es x fits writes reads =
    let (xs, v) = run-IsWorld es (idle blank) [] (idle-IsWorld blank) (omega (arith, fits)) in
    world_reads (run (idle blank) es) xs x v writes reads
