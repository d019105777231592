-- ===== src/MatchingEngine/Soundness.antt =====
-- The engine keeps its book sound, whatever message it is given.
use trade_feed.Prelude.{ℕ, ◌<◌, ◌≡◌, refl, Bool, true, false, List, [], ◌∷◌}
use trade_feed.Types.{u32_mod, Side, buy, sell}
use trade_feed.Codec.{
  MessageType, InboundMessage, new_order, cancel_order, modify_order, order_accepted,
  order_canceled, order_executed, order_rejected, unnamed,
}
use trade_feed.OrderBook.State.{OrderBook, Fill, clear_fills}
use trade_feed.OrderBook.Invariant.{bits}
use trade_feed.OrderBook.Scan.{IsBook-requote, level-requote}
use trade_feed.OrderBook.Shows.{shows_same}
use trade_feed.OrderBook.Add.{SoundBook, add_order-IsSound}
use trade_feed.OrderBook.Cancel.{cancel_order-IsSound, modify_order-IsSound}
use trade_feed.MatchingEngine.{
  MatchingEngine, send, emit_accept, emit_reject, emit_cancel, emit_each, emit_fills, process,
  process_new, process_cancel, process_modify, report_order, report_cancel,
}

clear_fills-SoundBook : (b : OrderBook) → SoundBook b → SoundBook (clear_fills b)
unfolding clear_fills
clear_fills-SoundBook b (q, v) = (
  q,
  record {
    book = IsBook-requote b _ _ _ _ _ _ _ q [] v.book;
    live = v.live;
    shows = shows_same b (clear_fills b) v.shows same_bits (level-requote b _ _ _ _ _ _ _);
    bid_top = v.bid_top;
    ask_top = v.ask_top;
    uncrossed = v.uncrossed;
  },
)
  where
    same_bits : (u : Side) → bits (clear_fills b) u ≡ bits b u
    same_bits buy = refl
    same_bits sell = refl

emit_each-book :
    (fs : List Fill) (e : MatchingEngine) (tsc : ℕ) → (emit_each e fs tsc).book ≡ e.book
unfolding emit_each send
emit_each-book [] e tsc = refl
emit_each-book (f ∷ fs) e tsc = emit_each-book fs _ tsc

-- The messages that the engine sends do not touch its book.
report_order-book :
    (e : MatchingEngine) (ok : Bool) (c id reason tsc : ℕ)
    → (report_order e ok c id reason tsc).book ≡ e.book
unfolding report_order emit_accept emit_fills emit_reject send
report_order-book e true c id reason tsc = emit_each-book e.book.fills _ tsc
report_order-book e false c id reason tsc = refl

report_cancel-book :
    (e : MatchingEngine) (ok : Bool) (c id tsc : ℕ) → (report_cancel e ok c id tsc).book ≡ e.book
unfolding report_cancel emit_cancel emit_reject send
report_cancel-book e true c id tsc = refl
report_cancel-book e false c id tsc = refl

-- If the quantity of the message fits in 32 bits, `process` takes an engine with a sound book to
-- one with a sound book, for every type of message.
pub process-SoundBook :
    (tsc : ℕ) (e : MatchingEngine) (msg : InboundMessage)
    → msg.quantity < u32_mod
    → SoundBook e.book
    → SoundBook (process tsc e msg).book
unfolding process process_new process_cancel process_modify
process-SoundBook tsc e msg fits v = by_type msg.type refl
  where
    cleared : SoundBook (clear_fills e.book)
    cleared = clear_fills-SoundBook e.book v

    by_type : (t : MessageType) → msg.type ≡ t → SoundBook (process tsc e msg).book
    by_type new_order k =
        rw (k, process, report_order-book) (add_order-IsSound (clear_fills e.book) _ fits cleared)
    by_type cancel_order k =
        rw (k, process, report_cancel-book) (cancel_order-IsSound e.book msg.order_id v)
    by_type modify_order k =
        rw (k, process, report_order-book)
          (modify_order-IsSound (clear_fills e.book) msg.order_id msg.price msg.quantity
            msg.recv_tsc fits cleared)
    by_type order_accepted k = rw (k, process) v
    by_type order_canceled k = rw (k, process) v
    by_type order_executed k = rw (k, process) v
    by_type order_rejected k = rw (k, process) v
    by_type (unnamed n) k = rw (k, process) v
