-- ===== src/MatchingEngine.antt =====
-- src/core/matching_engine.h and src/core/matching_engine.cpp: the engine between the two rings.
-- The value of `rdtsc` is an argument.
pub mod Replies
pub mod Soundness
use trade_feed.Prelude.{ℕ, Bool, true, false, none, some, List, [], ◌∷◌, ◌++◌}
use trade_feed.Types.{add64}
use trade_feed.Codec.{
  InboundMessage, OutboundMessage, blank_message, MessageType, new_order, cancel_order,
  modify_order, order_accepted, order_canceled, order_executed, order_rejected, unnamed,
}
use trade_feed.SpscRing
use trade_feed.SpscRing.{Ring}
use trade_feed.OrderBook.State
use trade_feed.OrderBook.State.{OrderBook, Fill, clear_fills}
use trade_feed.OrderBook.Orders
use trade_feed.OrderBook.Orders.{add_order}

pub record MatchingEngine : Type 0 where
  pub book : OrderBook
  pub outbound : Ring OutboundMessage
  pub next_id : ℕ
  pub match_number : ℕ

-- An engine with a book of its own over the outbound ring.
unfoldable pub make : ℕ → Ring OutboundMessage → MatchingEngine
make pool_capacity outbound = record {
  book = State.make pool_capacity;
  outbound = outbound;
  next_id = 1;
  match_number = 1;
}

-- `outbound_.push(m)`, whose answer the engine drops.
unfoldable pub send : MatchingEngine → OutboundMessage → MatchingEngine
send e m = record e { outbound = (SpscRing.push e.outbound m).0 }

abbrev pub accept_message : ℕ → ℕ → ℕ → OutboundMessage
accept_message c id tsc = record blank_message {
  type = order_accepted;
  client_id = c;
  order_id = id;
  engine_tsc = tsc;
}

abbrev pub reject_message : ℕ → ℕ → ℕ → ℕ → OutboundMessage
reject_message c id reason tsc = record blank_message {
  type = order_rejected;
  client_id = c;
  order_id = id;
  reject_reason = reason;
  engine_tsc = tsc;
}

abbrev pub cancel_message : ℕ → ℕ → ℕ → OutboundMessage
cancel_message c id tsc = record blank_message {
  type = order_canceled;
  client_id = c;
  order_id = id;
  engine_tsc = tsc;
}

unfoldable pub emit_accept : MatchingEngine → ℕ → ℕ → ℕ → MatchingEngine
unfolding send
emit_accept e c id tsc = send e (accept_message c id tsc)

unfoldable pub emit_reject : MatchingEngine → ℕ → ℕ → ℕ → ℕ → MatchingEngine
unfolding send
emit_reject e c id reason tsc = send e (reject_message c id reason tsc)

unfoldable pub emit_cancel : MatchingEngine → ℕ → ℕ → ℕ → MatchingEngine
unfolding send
emit_cancel e c id tsc = send e (cancel_message c id tsc)

-- What the two messages of a fill share.
abbrev pub fill_message : ℕ → Fill → ℕ → OutboundMessage
fill_message number f tsc = record blank_message {
  type = order_executed;
  price = f.price;
  quantity = f.quantity;
  match_number = number;
  engine_tsc = tsc;
}

abbrev pub bid_message : ℕ → Fill → ℕ → OutboundMessage
bid_message number f tsc = record (fill_message number f tsc) {
  order_id = f.bid_id;
  client_id = f.bid_client;
}

abbrev pub ask_message : ℕ → Fill → ℕ → OutboundMessage
ask_message number f tsc = record (fill_message number f tsc) {
  order_id = f.ask_id;
  client_id = f.ask_client;
}

-- The loop over `book_.fills()`, by the fills that are left.
unfoldable pub emit_each : MatchingEngine → List Fill → ℕ → MatchingEngine
unfolding send
emit_each e [] tsc = e
emit_each e (f ∷ fs) tsc =
    let e1 = record e { match_number = add64 e.match_number 1 } in
    let e2 = send e1 (bid_message e.match_number f tsc) in
    emit_each (send e2 (ask_message e.match_number f tsc)) fs tsc

unfoldable pub emit_fills : MatchingEngine → ℕ → MatchingEngine
emit_fills e tsc = emit_each e e.book.fills tsc

-- Both branches that follow `add_order` and `modify_order`.
unfoldable pub report_order : MatchingEngine → Bool → ℕ → ℕ → ℕ → ℕ → MatchingEngine
unfolding emit_accept emit_reject emit_fills
report_order e true c id reason tsc = emit_fills (emit_accept e c id tsc) tsc
report_order e false c id reason tsc = emit_reject e c id reason tsc

unfoldable pub report_cancel : MatchingEngine → Bool → ℕ → ℕ → ℕ → MatchingEngine
unfolding emit_cancel emit_reject
report_cancel e true c id tsc = emit_cancel e c id tsc
report_cancel e false c id tsc = emit_reject e c id 2 tsc

-- The three cases of the switch in `process`.
unfoldable pub process_new : ℕ → MatchingEngine → InboundMessage → MatchingEngine
process_new tsc e msg =
    let id = e.next_id in
    let (book, ok) = add_order (clear_fills e.book) (record {
      id = id;
      client = msg.client_id;
      side = msg.side;
      type = msg.order_type;
      price = msg.price;
      qty = msg.quantity;
      ts = msg.recv_tsc;
    }) in
    let e' = record e { next_id = add64 e.next_id 1; book = book } in
    report_order e' ok msg.client_id id 1 tsc

unfoldable pub process_cancel : ℕ → MatchingEngine → InboundMessage → MatchingEngine
process_cancel tsc e msg =
    let (book, ok) = Orders.cancel_order e.book msg.order_id in
    let e' = record e { book = book } in report_cancel e' ok msg.client_id msg.order_id tsc

unfoldable pub process_modify : ℕ → MatchingEngine → InboundMessage → MatchingEngine
process_modify tsc e msg =
    let (book, ok) =
      Orders.modify_order (clear_fills e.book) msg.order_id msg.price msg.quantity msg.recv_tsc in
    let e' = record e { book = book } in report_order e' ok msg.client_id msg.order_id 3 tsc

unfoldable pub process : ℕ → MatchingEngine → InboundMessage → MatchingEngine
process tsc e msg = elim msg.type [
  | new_order ↦ process_new tsc e msg
  | cancel_order ↦ process_cancel tsc e msg
  | modify_order ↦ process_modify tsc e msg
  | _ ↦ e
]

-- One round of the loop in `run`.
unfoldable pub run_step :
    ℕ → MatchingEngine → Ring InboundMessage → MatchingEngine × Ring InboundMessage
run_step tsc e inbound =
    let (inbound', msg) = SpscRing.pop inbound in
    elim msg [ none ↦ (e, inbound') | some m ↦ (process tsc e m, inbound') ]
