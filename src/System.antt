-- ===== src/System.antt =====
-- The exchange that `main` of src/main.cpp sets up: the engine and the gateway over their two rings,
-- whose threads take turns in whole rounds.
pub mod Running
use trade_feed.Prelude.{ℕ, suc, false, none, List, [], ◌∷◌}
use trade_feed.Types.{ring_size}
use trade_feed.Codec.{InboundMessage, OutboundMessage}
use trade_feed.SpscRing
use trade_feed.Gateway.{Gateway, ClientState, Recv, accept_client, read_client, drain_outbound}
use trade_feed.MatchingEngine
use trade_feed.MatchingEngine.{MatchingEngine, run_step}

-- The rings are the gateway's; the engine is handed the outbound one for a round.
pub record System : Type 0 where
  pub gateway : Gateway
  pub engine : MatchingEngine

abbrev pub no_client : ClientState
no_client = record { fd = none; active = false; read_buf = λ _. 0; read_pos = 0 }

-- The start, with a pool of `capacity` orders; static rings hold some message everywhere.
unfoldable pub start : ℕ → InboundMessage → OutboundMessage → System
start capacity in_ out = record {
  gateway = record {
    clients = λ _. no_client;
    inbound = SpscRing.make in_;
    outbound = SpscRing.make out;
  };
  engine = MatchingEngine.make capacity (SpscRing.make out);
}

-- What a thread does next: a round of the engine, at a value of `rdtsc`, or the gateway's work for a
-- descriptor that the kernel reports, or its sends.
pub data Round : Type 0 where
  match_next : ℕ → Round
  accept_fd : ℕ → Round
  read_fd : ℕ → List Recv → Round
  drain : Round

unfoldable pub take_round : System → Round → System
take_round s (match_next tsc) =
    let e = record (s.engine) { outbound = s.gateway.outbound } in
    let (e', inbound) = run_step tsc e s.gateway.inbound in
    record {
      gateway = record (s.gateway) { inbound = inbound; outbound = e'.outbound };
      engine = e';
    }
take_round s (accept_fd fd) = record s { gateway = (accept_client s.gateway fd).0 }
take_round s (read_fd fd rs) = record s { gateway = read_client s.gateway fd rs }
take_round s drain = record s {
  gateway = record (s.gateway) {
    outbound = (drain_outbound (suc ring_size) s.gateway.clients s.gateway.outbound).1;
  };
}

unfoldable pub run_rounds : System → List Round → System
unfolding take_round
run_rounds s [] = s
run_rounds s (e ∷ es) = run_rounds (take_round s e) es
