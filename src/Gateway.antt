-- ===== src/Gateway.antt =====
-- src/transport/socket_transport.h: the clients of the gateway and the frames they send. What the
-- sockets give back is an argument: the results of `recv`, in order.
pub mod Framing
pub mod Clients
pub mod Drain
use trade_feed.Prelude.{
  ℕ, zero, suc, ◌+◌, ◌*◌, ◌-◌, ◌^◌, Bool, true, false, ◌&&◌, Option, none, some, List, [], ◌∷◌,
  ◌++◌, length, leb, ◌==◌, if◌then◌else◌, map,
}
use trade_feed.Prelude.Array.{write}
use trade_feed.Types.{Side, buy, sell, OrderType, limit, market, unnamed_type, ring_size}
use trade_feed.Codec.{
  MessageType, InboundMessage, OutboundMessage, new_order, cancel_order, modify_order,
  order_accepted, order_canceled, order_executed, order_rejected, unnamed, WireMessage,
}
use trade_feed.SpscRing
use trade_feed.SpscRing.{Ring}

abbrev pub max_clients : ℕ
max_clients = 64

abbrev pub wire_msg_size : ℕ
wire_msg_size = 32

-- A descriptor; `-1` is `none`.
pub record ClientState : Type 0 where
  pub fd : Option ℕ
  pub active : Bool
  pub read_buf : ℕ → ℕ
  pub read_pos : ℕ

pub record Gateway : Type 0 where
  pub clients : ℕ → ClientState
  pub inbound : Ring InboundMessage
  pub outbound : Ring OutboundMessage

-- The first of the `n` slots from `i` on that passes a test.
abbrev pub first_slot : (ClientState → Bool) → (ℕ → ClientState) → ℕ → ℕ → Option ℕ
first_slot p clients i zero = none
first_slot p clients i (suc n) =
    let rest = first_slot p clients (suc i) n in if p (clients i) then some i else rest

abbrev pub is_free : ClientState → Bool
is_free c = if c.active then false else true

abbrev pub has_fd : ℕ → ClientState → Bool
has_fd fd c = elim c.fd [ none ↦ false | some k ↦ c.active && (k == fd) ]

unfoldable pub find_slot : Gateway → Option ℕ
find_slot g = first_slot is_free g.clients 0 max_clients

unfoldable pub slot_for_fd : Gateway → ℕ → Option ℕ
slot_for_fd g fd = first_slot (has_fd fd) g.clients 0 max_clients

-- `accept` gave the descriptor; the answer is whether a slot took it, or it was closed.
unfoldable pub accept_client : Gateway → ℕ → Gateway × Bool
unfolding find_slot
accept_client g fd = elim (find_slot g) [
  | none ↦ (g, false)
  | some slot ↦ (
    record g {
      clients =
          write g.clients slot
            (record (g.clients slot) { fd = some fd; active = true; read_pos = 0 });
    },
    true,
  )
]

unfoldable pub disconnect : Gateway → ℕ → Gateway
disconnect g slot = record g {
  clients = write g.clients slot (record (g.clients slot) { fd = none; active = false });
}

-- `recv` wrote the bytes at `read_buf + read_pos`.
abbrev pub store : (ℕ → ℕ) → ℕ → List ℕ → ℕ → ℕ
store f pos [] = f
store f pos (x ∷ xs) = store (write f pos x) (suc pos) xs

-- The enumerator of a byte.
unfoldable pub message_type_of : ℕ → MessageType
message_type_of n =
    if n == 1
    then new_order
    else if n == 2
    then cancel_order
    else if n == 3
    then modify_order
    else if n == 10
    then order_accepted
    else if n == 11
    then order_canceled
    else if n == 12
    then order_executed
    else if n == 13
    then order_rejected
    else unnamed n

unfoldable pub byte_of_type : MessageType → ℕ
byte_of_type new_order = 1
byte_of_type cancel_order = 2
byte_of_type modify_order = 3
byte_of_type order_accepted = 10
byte_of_type order_canceled = 11
byte_of_type order_executed = 12
byte_of_type order_rejected = 13
byte_of_type (unnamed n) = n

-- The engine compares a side with `Buy` only, so a byte that names no side is a sell to it.
unfoldable pub side_of : ℕ → Side
side_of n = if n == 0 then buy else sell

unfoldable pub order_type_of : ℕ → OrderType
order_type_of n = if n == 0 then limit else if n == 1 then market else unnamed_type n

-- A field of `n` bytes at `i`, the lowest byte first, as the hosts of the program keep it.
abbrev pub field_at : (ℕ → ℕ) → ℕ → ℕ → ℕ
field_at f i zero = 0
field_at f i (suc n) = f i + 256 * field_at f (suc i) n

-- `memcpy(&wire, c.read_buf, WIRE_MSG_SIZE)` into the packed struct.
unfoldable pub wire_of : (ℕ → ℕ) → WireMessage
wire_of f = record {
  type = f 0;
  side = f 1;
  order_type = f 2;
  pad = f 3;
  client_id = field_at f 4 4;
  order_id = field_at f 8 8;
  price = field_at f 16 4;
  quantity = field_at f 20 4;
  timestamp = field_at f 24 8;
}

unfoldable pub inbound_of : WireMessage → ℕ → InboundMessage
unfolding message_type_of side_of order_type_of
inbound_of wire tsc = record {
  type = message_type_of wire.type;
  side = side_of wire.side;
  order_type = order_type_of wire.order_type;
  client_id = wire.client_id;
  order_id = wire.order_id;
  price = wire.price;
  quantity = wire.quantity;
  recv_tsc = tsc;
}

-- A result of `recv`: bytes, with the counter that `rdtsc` would then give, the end of the stream,
-- no bytes for now (`EAGAIN`, `EWOULDBLOCK`), or another error.
pub data Recv : Type 0 where
  bytes : List ℕ → ℕ → Recv
  closed would_block failed : Recv

-- What the loop does with bytes.
unfoldable pub take_bytes : Gateway → ℕ → List ℕ → ℕ → Gateway
unfolding wire_of inbound_of
take_bytes g slot xs tsc =
    let c = g.clients slot in
    let buf = store c.read_buf c.read_pos xs in
    let pos = c.read_pos + length xs in
    if leb wire_msg_size pos
    then record g {
      clients = write g.clients slot (record c { read_buf = buf; read_pos = 0 });
      inbound = (SpscRing.push g.inbound (inbound_of (wire_of buf) tsc)).0;
    }
    else record g { clients = write g.clients slot (record c { read_buf = buf; read_pos = pos }) }

-- The loop of `read_client`, over the results of `recv`. The list ends where the loop does.
unfoldable pub read_loop : Gateway → ℕ → List Recv → Gateway
unfolding take_bytes disconnect
read_loop g slot [] = g
read_loop g slot (bytes xs tsc ∷ rs) = read_loop (take_bytes g slot xs tsc) slot rs
read_loop g slot (closed ∷ rs) = disconnect g slot
read_loop g slot (failed ∷ rs) = disconnect g slot
read_loop g slot (would_block ∷ rs) = g

unfoldable pub read_client : Gateway → ℕ → List Recv → Gateway
unfolding slot_for_fd
read_client g fd rs = elim (slot_for_fd g fd) [ none ↦ g | some slot ↦ read_loop g slot rs ]

-- What goes out for a message of the engine.
unfoldable pub outbound_wire : OutboundMessage → WireMessage
unfolding byte_of_type
outbound_wire out = record {
  type = byte_of_type out.type;
  side = 0;
  order_type = 0;
  pad = 0;
  client_id = out.client_id;
  order_id = out.order_id;
  price = out.price;
  quantity = out.quantity;
  timestamp = out.engine_tsc;
}

-- The descriptors that a message is sent to, among the `n` slots from `i` on.
unfoldable pub send_targets : (ℕ → ClientState) → ℕ → ℕ → List ℕ
send_targets clients i zero = []
send_targets clients i (suc n) =
    let rest = send_targets clients (suc i) n in
    elim (clients i).fd [ none ↦ rest | some fd ↦ if (clients i).active then fd ∷ rest else rest ]

-- `drain_outbound` with fuel: the sends that it makes, and the ring after it.
unfoldable pub drain_outbound :
    ℕ → (ℕ → ClientState) → Ring OutboundMessage → List (ℕ × WireMessage) × Ring OutboundMessage
unfolding send_targets outbound_wire
drain_outbound zero clients ring = ([], ring)
drain_outbound (suc fuel) clients ring =
    let (ring', out) = SpscRing.pop ring in
    let rest = drain_outbound fuel clients ring' in
    elim out [
      | none ↦ ([], ring')
      | some m ↦
          (map (λ fd. (fd, outbound_wire m)) (send_targets clients 0 max_clients) ++ rest.0, rest.1)
    ]
