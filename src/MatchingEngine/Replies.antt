-- ===== src/MatchingEngine/Replies.antt =====
-- The messages that the engine sends, as a list that its outbound ring receives.
use trade_feed.Prelude.{
  append-nil, ℕ, ◌+◌, ◌*◌, ◌<◌, ◌≤◌, ◌≡◌, refl, inl, inr, ap, ◌∙◌, Bool, true, false, List, [], ◌∷◌,
  ◌++◌, length, arith, ltb, Bool-cases, subst, if◌then◌else◌,
}
use trade_feed.Types.{buy, add64, u64_mod, ring_size}
use trade_feed.Codec.{
  MessageType, InboundMessage, OutboundMessage, new_order, cancel_order, modify_order,
  order_accepted, order_canceled, order_executed, order_rejected, unnamed,
}
use trade_feed.SpscRing.{Ring, looks_full, load_tail, push}
use trade_feed.SpscRing.Fifo.{IsRing, push-IsRing, length-snoc}
use trade_feed.OrderBook.State.{OrderBook, Fill, clear_fills}
use trade_feed.OrderBook.Orders
use trade_feed.OrderBook.Orders.{add_order, NewOrder}
use trade_feed.MatchingEngine.{
  MatchingEngine, send, emit_accept, emit_reject, emit_cancel, emit_each, emit_fills, report_order,
  report_cancel, process, process_new, process_cancel, process_modify,
}

-- Which message each event sends, field by field.
abbrev pub told_accepted : ℕ → ℕ → ℕ → OutboundMessage
told_accepted client order tsc = record {
  type = order_accepted;
  aggressor_side = buy;
  reject_reason = 0;
  client_id = client;
  order_id = order;
  price = 0;
  quantity = 0;
  match_number = 0;
  engine_tsc = tsc;
}

abbrev pub told_rejected : ℕ → ℕ → ℕ → ℕ → OutboundMessage
told_rejected client order reason tsc = record {
  type = order_rejected;
  aggressor_side = buy;
  reject_reason = reason;
  client_id = client;
  order_id = order;
  price = 0;
  quantity = 0;
  match_number = 0;
  engine_tsc = tsc;
}

abbrev pub told_canceled : ℕ → ℕ → ℕ → OutboundMessage
told_canceled client order tsc = record {
  type = order_canceled;
  aggressor_side = buy;
  reject_reason = 0;
  client_id = client;
  order_id = order;
  price = 0;
  quantity = 0;
  match_number = 0;
  engine_tsc = tsc;
}

-- One client hears that so much of its order was traded.
abbrev pub told_executed : ℕ → ℕ → ℕ → ℕ → ℕ → ℕ → OutboundMessage
told_executed client order price quantity number tsc = record {
  type = order_executed;
  aggressor_side = buy;
  reject_reason = 0;
  client_id = client;
  order_id = order;
  price = price;
  quantity = quantity;
  match_number = number;
  engine_tsc = tsc;
}

-- The bidder and then the asker hear of each fill, under one number that counts up.
abbrev pub fill_messages : ℕ → List Fill → ℕ → List OutboundMessage
fill_messages number [] tsc = []
fill_messages number (f ∷ fs) tsc =
    told_executed f.bid_client f.bid_id f.price f.quantity number tsc
    ∷ told_executed f.ask_client f.ask_id f.price f.quantity number tsc
    ∷ fill_messages (add64 number 1) fs tsc

tail-push {ℓ} : {A : Type ℓ} (r : Ring A) (x : A) → (push r x).0.tail ≡ r.tail
unfolding push
tail-push r x = elim (Bool-cases (looks_full r)) [
  | inr open_ ↦ rw open_ refl
  | inl maybe ↦ elim (Bool-cases (looks_full (load_tail r))) [
    | inl full ↦ rw (maybe, full) refl
    | inr open_ ↦ rw (maybe, open_) refl
  ]
]

-- The ring has room for `n` more messages.
abbrev pub HasRoom : Ring OutboundMessage → List OutboundMessage → ℕ → Type 0
HasRoom r xs n = IsRing r xs × (length xs + n ≤ ring_size) × (r.tail + length xs + n < u64_mod)

send-HasRoom :
    (e : MatchingEngine) (m : OutboundMessage) (xs : List OutboundMessage) (n : ℕ)
    → HasRoom e.outbound xs (n + 1)
    → HasRoom (send e m).outbound (xs ++ m ∷ []) n
unfolding send
send-HasRoom e m xs n (v, small, wide) =
    let open_ : ltb (length xs) ring_size ≡ true = ground (arith, small) in
    let pushed = push-IsRing e.outbound xs m (omega (arith, v.head, wide)) v in
    let e1 = tail-push e.outbound m in
    (
      rw open_ at pushed.0,
      omega (arith, small, length-snoc xs m),
      omega (arith, wide, length-snoc xs m, e1),
    )

snoc-append {ℓ} :
    {A : Type ℓ} (xs : List A) (x : A) (ys : List A) → (xs ++ x ∷ []) ++ ys ≡ xs ++ x ∷ ys
snoc-append [] x ys = refl
snoc-append (z ∷ xs) x ys = ap (λ l. z ∷ l) (snoc-append xs x ys)

-- The loop sends the messages of all fills, in order.
emit_each-IsRing :
    (fs : List Fill) (e : MatchingEngine) (tsc : ℕ) (xs : List OutboundMessage)
    → HasRoom e.outbound xs (2 * length fs)
    → IsRing (emit_each e fs tsc).outbound (xs ++ fill_messages e.match_number fs tsc)
unfolding emit_each send
emit_each-IsRing [] e tsc xs (v, _, _) = rw (append-nil xs) v
emit_each-IsRing (f ∷ fs) e tsc xs (v, small, wide) =
    let n = e.match_number in
    let bid = told_executed f.bid_client f.bid_id f.price f.quantity n tsc in
    let ask = told_executed f.ask_client f.ask_id f.price f.quantity n tsc in
    let e1 = record e { match_number = add64 n 1 } in
    let first =
      send-HasRoom e1 bid xs (2 * length fs + 1) (v, omega (arith, small), omega (arith, wide)) in
    let second = send-HasRoom (send e1 bid) ask (xs ++ bid ∷ []) (2 * length fs) first in
    let all =
      emit_each-IsRing fs (send (send e1 bid) ask) tsc ((xs ++ bid ∷ []) ++ ask ∷ []) second in
    let same =
      snoc-append (xs ++ bid ∷ []) ask (fill_messages (add64 n 1) fs tsc)
      ∙ snoc-append xs bid (ask ∷ fill_messages (add64 n 1) fs tsc) in
    subst (λ l. IsRing (emit_each (send (send e1 bid) ask) fs tsc).outbound l) same all

-- What a client hears of an order: that it was accepted and each of its fills, or that it was refused.
abbrev pub order_replies : MatchingEngine → Bool → ℕ → ℕ → ℕ → ℕ → List OutboundMessage
order_replies e true c id reason tsc =
    told_accepted c id tsc ∷ fill_messages e.match_number e.book.fills tsc
order_replies e false c id reason tsc = told_rejected c id reason tsc ∷ []

-- The ring receives exactly these replies.
pub report_order-IsRing :
    (e : MatchingEngine) (ok : Bool) (c id reason tsc : ℕ) (xs : List OutboundMessage)
    → HasRoom e.outbound xs (2 * length e.book.fills + 1)
    → IsRing (report_order e ok c id reason tsc).outbound (xs ++ order_replies e ok c id reason tsc)
unfolding report_order emit_accept emit_fills emit_reject send
report_order-IsRing e true c id reason tsc xs room =
    let m = told_accepted c id tsc in
    subst (λ l. IsRing (emit_each (send e m) e.book.fills tsc).outbound l)
      (snoc-append xs m (fill_messages e.match_number e.book.fills tsc))
      (emit_each-IsRing e.book.fills (send e m) tsc (xs ++ m ∷ [])
        (send-HasRoom e m xs (2 * length e.book.fills) room))
report_order-IsRing e false c id reason tsc xs (v, small, wide) =
    (send-HasRoom e (told_rejected c id reason tsc) xs 0
      (v, omega (arith, small), omega (arith, wide))).0

pub report_cancel-IsRing :
    (e : MatchingEngine) (ok : Bool) (c id tsc : ℕ) (xs : List OutboundMessage)
    → HasRoom e.outbound xs 1
    → IsRing
        (report_cancel e ok c id tsc).outbound
        (xs ++ (if ok then told_canceled c id tsc else told_rejected c id 2 tsc) ∷ [])
unfolding report_cancel emit_cancel emit_reject send
report_cancel-IsRing e true c id tsc xs room = (send-HasRoom e (told_canceled c id tsc) xs 0 room).0
report_cancel-IsRing e false c id tsc xs room =
    (send-HasRoom e (told_rejected c id 2 tsc) xs 0 room).0

abbrev order_of : MatchingEngine → InboundMessage → NewOrder
order_of e msg = record {
  id = e.next_id;
  client = msg.client_id;
  side = msg.side;
  type = msg.order_type;
  price = msg.price;
  qty = msg.quantity;
  ts = msg.recv_tsc;
}

-- What `process` answers, by the operation of the book that the message asks for.
abbrev pub replies : ℕ → MatchingEngine → InboundMessage → List OutboundMessage
replies tsc e msg = elim msg.type [
  | new_order ↦
      let r = add_order (clear_fills e.book) (order_of e msg) in
      order_replies (record e { book = r.0 }) r.1 msg.client_id e.next_id 1 tsc
  | cancel_order ↦
      (if (Orders.cancel_order e.book msg.order_id).1
        then told_canceled msg.client_id msg.order_id tsc
        else told_rejected msg.client_id msg.order_id 2 tsc)
      ∷ []
  | modify_order ↦
      let r =
        Orders.modify_order (clear_fills e.book) msg.order_id msg.price msg.quantity msg.recv_tsc in
      order_replies (record e { book = r.0 }) r.1 msg.client_id msg.order_id 3 tsc
  | _ ↦ []
]

-- The book that a message leads to.
abbrev pub book_after : MatchingEngine → InboundMessage → OrderBook
book_after e msg = elim msg.type [
  | new_order ↦ (add_order (clear_fills e.book) (order_of e msg)).0
  | cancel_order ↦ (Orders.cancel_order e.book msg.order_id).0
  | modify_order ↦
      (Orders.modify_order (clear_fills e.book) msg.order_id msg.price msg.quantity msg.recv_tsc).0
  | _ ↦ e.book
]

-- If the outbound ring holds `xs` and has room for one message and two for each fill of the book
-- that results, `process` leaves `xs` in it and after them exactly the replies: an acceptance and,
-- under one match number that counts up, the price and the quantity of each fill to the bidder with
-- the bid's identifier and then to the asker with the ask's; or a cancellation; or a rejection,
-- with reason 1 for a new order, 2 for a cancellation and 3 for a modification.
pub process-IsRing :
    (tsc : ℕ) (e : MatchingEngine) (msg : InboundMessage) (xs : List OutboundMessage)
    → HasRoom e.outbound xs (2 * length (book_after e msg).fills + 1)
    → IsRing (process tsc e msg).outbound (xs ++ replies tsc e msg)
unfolding process process_new process_cancel process_modify
process-IsRing tsc e msg xs = by_type msg.type refl
  where
    by_type :
        (t : MessageType)
        → msg.type ≡ t
        → HasRoom e.outbound xs (2 * length (book_after e msg).fills + 1)
        → IsRing (process tsc e msg).outbound (xs ++ replies tsc e msg)
    by_type new_order k =
        rw (k, process) λ room. report_order-IsRing _ _ msg.client_id e.next_id 1 tsc xs room
    by_type cancel_order k =
        rw (k, process)
          λ (v, small, wide).
            report_cancel-IsRing _ _ msg.client_id msg.order_id tsc xs
              (v, omega (arith, small), omega (arith, wide))
    by_type modify_order k =
        rw (k, process) λ room. report_order-IsRing _ _ msg.client_id msg.order_id 3 tsc xs room
    by_type order_accepted k = rw (k, process) λ room. rw (append-nil xs) room.0
    by_type order_canceled k = rw (k, process) λ room. rw (append-nil xs) room.0
    by_type order_executed k = rw (k, process) λ room. rw (append-nil xs) room.0
    by_type order_rejected k = rw (k, process) λ room. rw (append-nil xs) room.0
    by_type (unnamed n) k = rw (k, process) λ room. rw (append-nil xs) room.0
