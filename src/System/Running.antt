-- ===== src/System/Running.antt =====
-- Whatever the clients send and however the threads take turns, the book stays sound.
use trade_feed.Prelude.{
  ℕ, suc, ◌+◌, ◌%◌, ◌<◌, ◌≡◌, inl, inr, Bool-cases, Option-cases, some, List, [], ◌∷◌, arith, ◌==◌,
  length, leb, subst,
}
use trade_feed.Prelude.Array.{write}
use mathlib.Core.Option.{some-injective}
use trade_feed.Types.{u32_mod, ring_size}
use trade_feed.Codec.{InboundMessage, OutboundMessage}
use trade_feed.SpscRing
use trade_feed.SpscRing.{Ring, looks_full, looks_empty, load_tail, load_head}
use trade_feed.OrderBook.Empty.{no_queues, make-IsSound}
use trade_feed.OrderBook.Add.{SoundBook}
use trade_feed.Gateway.{
  Gateway, ClientState, Recv, bytes, closed, would_block, failed, accept_client, find_slot,
  disconnect, store, wire_of, inbound_of, wire_msg_size, take_bytes, read_loop, read_client,
  slot_for_fd,
}
use trade_feed.MatchingEngine
use trade_feed.MatchingEngine.{MatchingEngine, run_step, process}
use trade_feed.MatchingEngine.Soundness.{process-SoundBook}
use trade_feed.System.{
  System, Round, match_next, accept_fd, read_fd, drain, start, take_round, run_rounds,
}

-- A property of what stands in every place is kept by a write of something that has it.
write_all_places :
    {A : Type 0} (P : A → Type 0) (f : ℕ → A) (k : ℕ) (x : A)
    → ((i : ℕ) → P (f i))
    → P x
    → (i : ℕ) → P (write f k x i)
write_all_places P f k x all px i = elim (Bool-cases (i == k)) [
  | inl at ↦ rw at px
  | inr away ↦ rw away (all i)
]

module _ {A : Type 0} (P : A → Type 0) (r : Ring A) (all : (i : ℕ) → P (r.buffer i)) where
  push_slots : (x : A) → P x → (i : ℕ) → P ((SpscRing.push r x).0.buffer i)
  unfolding SpscRing.push
  push_slots x px i =
      let written = write_all_places P r.buffer (r.head % ring_size) x all px i in
      elim (Bool-cases (looks_full r)) [
        | inr roomy ↦ rw roomy written
        | inl full ↦ elim (Bool-cases (looks_full (load_tail r))) [
          | inl still ↦ rw (full, still) (all i)
          | inr roomy ↦ rw (full, roomy) written
        ]
      ]

  pop_slots : (i : ℕ) → P ((SpscRing.pop r).0.buffer i)
  unfolding SpscRing.pop
  pop_slots i = elim (Bool-cases (looks_empty r)) [
    | inr more ↦ rw more (all i)
    | inl none_left ↦ elim (Bool-cases (looks_empty (load_head r))) [
      | inl still ↦ rw (none_left, still) (all i)
      | inr more ↦ rw (none_left, more) (all i)
    ]
  ]

  popped : (x : A) → (SpscRing.pop r).1 ≡ some x → P x
  unfolding SpscRing.pop
  popped x = elim (Bool-cases (looks_empty r)) [
    | inr more ↦ rw more λ e. subst P (some-injective _ _ e) (all _)
    | inl none_left ↦ elim (Bool-cases (looks_empty (load_head r))) [
      | inl still ↦ rw (none_left, still) λ e. absurd (ground (arith, e))
      | inr more ↦ rw (none_left, more) λ e. subst P (some-injective _ _ e) (all _)
    ]
  ]

abbrev Fits : InboundMessage → Type 0
Fits m = m.quantity < u32_mod

abbrev HasBytes : ClientState → Type 0
HasBytes c = (i : ℕ) → c.read_buf i < 256

-- The buffers hold bytes, and every slot of the inbound ring a quantity of 32 bits.
record IsFed (g : Gateway) : Type 0 where
  client : (slot : ℕ) → HasBytes (g.clients slot)
  slots : (i : ℕ) → Fits (g.inbound.buffer i)

pub record IsRunning (s : System) : Type 0 where
  pub book : SoundBook s.engine.book
  pub bytes : (slot i : ℕ) → (s.gateway.clients slot).read_buf i < 256
  pub fits : (i : ℕ) → (s.gateway.inbound.buffer i).quantity < u32_mod

-- What `recv` writes are bytes.
abbrev pub AreBytes : List ℕ → Type 0
AreBytes [] = Unit
AreBytes (x ∷ xs) = (x < 256) × AreBytes xs

abbrev pub RecvBytes : List Recv → Type 0
RecvBytes [] = Unit
RecvBytes (bytes xs tsc ∷ rs) = AreBytes xs × RecvBytes rs
RecvBytes (closed ∷ rs) = RecvBytes rs
RecvBytes (would_block ∷ rs) = RecvBytes rs
RecvBytes (failed ∷ rs) = RecvBytes rs

abbrev pub RoundBytes : List Round → Type 0
RoundBytes [] = Unit
RoundBytes (read_fd fd rs ∷ es) = RecvBytes rs × RoundBytes es
RoundBytes (match_next tsc ∷ es) = RoundBytes es
RoundBytes (accept_fd fd ∷ es) = RoundBytes es
RoundBytes (drain ∷ es) = RoundBytes es

store_bytes :
    (xs : List ℕ) (f : ℕ → ℕ) (pos : ℕ)
    → ((i : ℕ) → f i < 256)
    → AreBytes xs
    → (i : ℕ) → store f pos xs i < 256
store_bytes [] f pos all _ = all
store_bytes (x ∷ xs) f pos all (hx, hxs) =
    store_bytes xs (write f pos x) (suc pos) (write_all_places (λ z. z < 256) f pos x all hx) hxs

quantity-Fits : (f : ℕ → ℕ) (tsc : ℕ) → ((i : ℕ) → f i < 256) → Fits (inbound_of (wire_of f) tsc)
unfolding inbound_of wire_of
quantity-Fits f tsc all = omega (arith, all 20, all 21, all 22, all 23)

take_bytes-IsFed :
    (g : Gateway) (slot : ℕ) (xs : List ℕ) (tsc : ℕ)
    → IsFed g
    → AreBytes xs
    → IsFed (take_bytes g slot xs tsc)
unfolding take_bytes
take_bytes-IsFed g slot xs tsc v hx =
    let c = g.clients slot in
    let stored = store_bytes xs c.read_buf c.read_pos (v.client slot) hx in
    elim (Bool-cases (leb wire_msg_size (c.read_pos + length xs))) [
      | inl whole ↦ rw whole (record {
        client = write_all_places HasBytes g.clients slot _ v.client stored;
        slots = push_slots Fits g.inbound v.slots _ (quantity-Fits _ tsc stored);
      })
      | inr part ↦ rw part (record {
        client = write_all_places HasBytes g.clients slot _ v.client stored;
        slots = v.slots;
      })
    ]

disconnect-IsFed : (g : Gateway) (slot : ℕ) → IsFed g → IsFed (disconnect g slot)
unfolding disconnect
disconnect-IsFed g slot v = record {
  client = write_all_places HasBytes g.clients slot _ v.client (v.client slot);
  slots = v.slots;
}

read_loop-IsFed :
    (rs : List Recv) (g : Gateway) (slot : ℕ) → IsFed g → RecvBytes rs → IsFed (read_loop g slot rs)
unfolding read_loop
read_loop-IsFed [] g slot v h = v
read_loop-IsFed (bytes xs tsc ∷ rs) g slot v (hx, h) =
    read_loop-IsFed rs (take_bytes g slot xs tsc) slot (take_bytes-IsFed g slot xs tsc v hx) h
read_loop-IsFed (closed ∷ rs) g slot v h = disconnect-IsFed g slot v
read_loop-IsFed (failed ∷ rs) g slot v h = disconnect-IsFed g slot v
read_loop-IsFed (would_block ∷ rs) g slot v h = v

read_client-IsFed :
    (g : Gateway) (fd : ℕ) (rs : List Recv) → IsFed g → RecvBytes rs → IsFed (read_client g fd rs)
unfolding read_client
read_client-IsFed g fd rs v h = elim (Option-cases (slot_for_fd g fd)) [
  | inl gone ↦ rw (gone, read_client) v
  | inr (slot, found) ↦ rw (found, read_client) (read_loop-IsFed rs g slot v h)
]

accept_client-IsFed : (g : Gateway) (fd : ℕ) → IsFed g → IsFed (accept_client g fd).0
unfolding accept_client
accept_client-IsFed g fd v = elim (Option-cases (find_slot g)) [
  | inl full ↦ rw (full, accept_client) v
  | inr (slot, found) ↦
      rw (found, accept_client)
        (record {
          client = write_all_places HasBytes g.clients slot _ v.client (v.client slot);
          slots = v.slots;
        })
]

fed : (s : System) → IsRunning s → IsFed s.gateway
fed s v = record { client = v.bytes; slots = v.fits }

running : (s : System) (g : Gateway) → IsRunning s → IsFed g → IsRunning (record s { gateway = g })
running s g v f = record { book = v.book; bytes = f.client; fits = f.slots }

run_step-SoundBook :
    (tsc : ℕ) (e : MatchingEngine) (r : Ring InboundMessage)
    → SoundBook e.book
    → ((i : ℕ) → Fits (r.buffer i))
    → SoundBook (run_step tsc e r).0.book × ((i : ℕ) → Fits ((run_step tsc e r).1.buffer i))
unfolding run_step
run_step-SoundBook tsc e r v all = elim (Option-cases (SpscRing.pop r).1) [
  | inl idle ↦ rw (idle, run_step) (v, pop_slots Fits r all)
  | inr (m, next) ↦
      rw (next, run_step)
        (process-SoundBook tsc e m (popped Fits r all m next) v, pop_slots Fits r all)
]

take_round-IsRunning :
    (s : System) (e : Round) → IsRunning s → RoundBytes (e ∷ []) → IsRunning (take_round s e)
unfolding take_round
take_round-IsRunning s (match_next tsc) v h =
    let (book, fits) =
      run_step-SoundBook tsc (record (s.engine) { outbound = s.gateway.outbound }) s.gateway.inbound
        v.book v.fits in
    record { book = book; bytes = v.bytes; fits = fits }
take_round-IsRunning s (accept_fd fd) v h =
    running s _ v (accept_client-IsFed s.gateway fd (fed s v))
take_round-IsRunning s (read_fd fd rs) v (h, _) =
    running s _ v (read_client-IsFed s.gateway fd rs (fed s v) h)
take_round-IsRunning s drain v h = record { book = v.book; bytes = v.bytes; fits = v.fits }

run_rounds-IsRunning_from :
    (es : List Round) (s : System) → IsRunning s → RoundBytes es → IsRunning (run_rounds s es)
unfolding run_rounds
run_rounds-IsRunning_from [] s v h = v
run_rounds-IsRunning_from (match_next tsc ∷ es) s v h =
    run_rounds-IsRunning_from es _ (take_round-IsRunning s (match_next tsc) v tt) h
run_rounds-IsRunning_from (accept_fd fd ∷ es) s v h =
    run_rounds-IsRunning_from es _ (take_round-IsRunning s (accept_fd fd) v tt) h
run_rounds-IsRunning_from (read_fd fd rs ∷ es) s v (h, hs) =
    run_rounds-IsRunning_from es _ (take_round-IsRunning s (read_fd fd rs) v (h, tt)) hs
run_rounds-IsRunning_from (drain ∷ es) s v h =
    run_rounds-IsRunning_from es _ (take_round-IsRunning s drain v tt) h

start-IsRunning :
    (capacity : ℕ) (in_ : InboundMessage) (out : OutboundMessage)
    → capacity < u32_mod
    → Fits in_
    → IsRunning (start capacity in_ out)
unfolding start SpscRing.make MatchingEngine.make
start-IsRunning capacity in_ out h fits = record {
  book = (no_queues, make-IsSound capacity h);
  bytes = λ slot i. omega arith;
  fits = λ i. fits;
}

-- From its start, with a pool whose capacity fits in 32 bits, the exchange keeps its book sound in
-- every sequence of rounds of its two threads, whatever bytes the clients send, in whatever pieces,
-- with whatever fields, even when the rings are full and messages are dropped.
pub run_rounds-IsRunning :
    (capacity : ℕ) (in_ : InboundMessage) (out : OutboundMessage) (es : List Round)
    → capacity < u32_mod
    → in_.quantity < u32_mod
    → RoundBytes es
    → IsRunning (run_rounds (start capacity in_ out) es)
run_rounds-IsRunning capacity in_ out es h fits =
    run_rounds-IsRunning_from es (start capacity in_ out) (start-IsRunning capacity in_ out h fits)
