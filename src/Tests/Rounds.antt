-- ===== src/Tests/Rounds.antt =====
-- The theorem on the whole exchange at a concrete sequence of rounds.
use trade_feed.Prelude.{
  ℕ, zero, suc, ◌≡◌, ◌↔◌, true, none, some, List, [], ◌∷◌, arith, replicate, ◌==◌, if◌then◌else◌,
}
use trade_feed.Codec.{InboundMessage, OutboundMessage, blank_message, new_order}
use trade_feed.Types.{buy, limit}
use trade_feed.Gateway.{bytes, closed, would_block, ClientState, max_clients, drain_outbound}
use trade_feed.Gateway.Drain.{IsListening, broadcast, drain_outbound-broadcast}
use trade_feed.PriceLevel.Chain.{In}
use trade_feed.SpscRing
use trade_feed.SpscRing.{Ring}
use trade_feed.SpscRing.Fifo.{IsRing, push-IsRing, make-IsRing}
use trade_feed.System.{Round, match_next, accept_fd, read_fd, drain, start, run_rounds}
use trade_feed.System.Running.{IsRunning, AreBytes, run_rounds-IsRunning}

abbrev idle_message : InboundMessage
idle_message = record {
  type = new_order;
  side = buy;
  order_type = limit;
  client_id = 0;
  order_id = 0;
  price = 0;
  quantity = 0;
  recv_tsc = 0;
}

ones-AreBytes : (n : ℕ) → AreBytes (replicate n 1)
ones-AreBytes zero = tt
ones-AreBytes (suc n) = (omega arith, ones-AreBytes n)

-- A client comes, sends a frame in two pieces, which is an order that is matched, and goes.
abbrev rounds : List Round
rounds =
    accept_fd 5
    ∷ read_fd 5 (bytes (replicate 20 1) 1 ∷ bytes (replicate 12 1) 1 ∷ would_block ∷ [])
    ∷ match_next 2
    ∷ drain
    ∷ read_fd 5 (closed ∷ [])
    ∷ []

run_rounds-IsRunning_example : IsRunning (run_rounds (start 4 idle_message blank_message) rounds)
run_rounds-IsRunning_example =
    run_rounds-IsRunning 4 idle_message blank_message rounds (omega arith) (omega arith)
      ((ones-AreBytes 20, (ones-AreBytes 12, tt)), (tt, tt))

-- One client, in the fourth slot, and one message for it.
abbrev one_client : ℕ → ClientState
one_client slot = record {
  fd = if slot == 3 then some 9 else none;
  active = true;
  read_buf = λ _. 0;
  read_pos = 0;
}

abbrev one_message : Ring OutboundMessage
one_message = (SpscRing.push (SpscRing.make blank_message) blank_message).0

one_message-IsRing : IsRing one_message (blank_message ∷ [])
unfolding SpscRing.make
one_message-IsRing =
    (push-IsRing (SpscRing.make blank_message) [] blank_message (omega arith)
      (make-IsRing blank_message)).0

drain_outbound-broadcast_example :
    (fds : List ℕ) × ((drain_outbound 2 one_client one_message).0
      ≡ broadcast one_client fds (blank_message ∷ []))
    × IsRing (drain_outbound 2 one_client one_message).1 []
    × ((fd : ℕ) → In fd fds ↔ IsListening one_client 0 max_clients fd)
drain_outbound-broadcast_example =
    drain_outbound-broadcast one_client (blank_message ∷ []) 2 one_message one_message-IsRing
      (omega arith)
