-- ===== src/Tests.antt =====
-- The theorems at concrete inputs.
mod Trading
mod Wire
mod Stream
mod Rounds
mod Statistics
use trade_feed.Prelude.{
  ℕ, ◌+◌, ◌<◌, ◌≡◌, ◌≢◌, ◌*◌, ◌↔◌, refl, ◌⊎◌, inr, true, false, none, some, List, [], ◌∷◌, ◌++◌,
  length, map, arith,
}
use trade_feed.Types.{buy, sell, limit, is_filled, remaining}
use trade_feed.PriceBitset
use trade_feed.PriceBitset.{PriceBitset, empty_bitset, set, clear, test, highest, lowest}
use trade_feed.PriceBitset.Writes.{IsValid, empty_bitset-IsValid, set-IsValid, clear-IsValid}
use trade_feed.PriceBitset.Search.{IsHighest, IsLowest, highest-IsHighest, lowest-IsLowest}
use trade_feed.PriceLevel
use trade_feed.PriceLevel.{PriceLevel, Arena, empty_level, link_next, end_or, is_empty}
use trade_feed.PriceLevel.Chain.{In, Holds}
use trade_feed.PriceLevel.Push.{push-Holds}
use trade_feed.PriceLevel.Remove.{remove-Holds}
use trade_feed.OrderPool
use trade_feed.OrderPool.{blank}
use trade_feed.OrderBook.State
use trade_feed.OrderBook.State.{
  clear_fills, OrderBook, lookup, reg, attach, set_level, level, order, idx,
}
use trade_feed.OrderBook.Orders.{
  is_limit, place, settle, rest_order, rest_bid, NewOrder, add_order, cancel_order, modify_order,
}
use trade_feed.OrderBook.Invariant.{IsSound}
use trade_feed.OrderBook.Matching.{
  match_order, match_loop, limit_hits_ask, match_limit, match_market,
}
use trade_feed.OrderBook.Priority.{Accepts, AnyPrice}
use trade_feed.OrderBook.Match.{
  StoppedAt, limit_hits, market_hits, match_limit-Stopped, match_market-Stopped,
}
use trade_feed.OrderBook.Hold.{entered, entered-IsSound}
use trade_feed.OrderBook.Empty.{no_queues, make-IsSound}
use trade_feed.OrderBook.Add.{SoundBook, IsOutOfRange, add_order-IsSound, add_order-refuses}
use trade_feed.OrderBook.Cancel.{
  lookup-Rests, modify_order_out_of_range, cancel_order-IsSound, modify_order-IsSound,
}
use trade_feed.OrderBook.Cancelled.{Cancelled}
use trade_feed.OrderBook.Bbo.{validate_bbo}
use trade_feed.OrderBook.BboProof.{validate_bbo-SoundBook}
use trade_feed.SpscRing
use trade_feed.SpscRing.{Ring}
use trade_feed.Prelude.{◌%◌, ◌^◌}
use trade_feed.SpscRing.Interleave.{
  World, Event, no_push, write_slot, no_pop, read_slot, call_push, producer_runs, call_pop,
  consumer_runs, run, happen, start_push, produce, start_pop, consume,
}
use trade_feed.SpscRing.Steps.{IsWorld, run-IsWorld, slots_apart, idle, idle-IsWorld, ReadsOldest}
use trade_feed.SpscRing.Fifo.{
  IsRing, push-IsRing, pop-IsRing, size-IsRing, make-IsRing, fifo_push, fifo_pop,
}
use trade_feed.Codec.{InboundMessage, blank_message, new_order}
use trade_feed.MatchingEngine
use trade_feed.MatchingEngine.{MatchingEngine, process}
use trade_feed.MatchingEngine.Soundness.{process-SoundBook}
use trade_feed.MatchingEngine.Replies.{HasRoom, book_after, replies, process-IsRing}
use trade_feed.Gateway
use trade_feed.Gateway.{
  ClientState, Gateway, Recv, bytes, closed, would_block, failed, accept_client, disconnect,
  read_loop, slot_for_fd,
}
use trade_feed.Gateway.Framing.{Framed, read_loop-Framed}
use trade_feed.Gateway.Clients.{
  IsNewFd, OwnFds, KeepsClients, Seated, TurnedAway, accept_client-OwnFds, disconnect-OwnFds,
  slot_for_fd-accept_client,
}
use trade_feed.BookAnalytics.{spread, spread-SoundBook}
use trade_feed.Prelude.{if◌then◌else◌, ◌≤◌}
use trade_feed.Prelude.Int.{pos, ◌+ℤ◌}
use trade_feed.Feed.{CaptureRecord, field, field_str}
use trade_feed.Feed.Time.{days_from_civil, is_leap, days_from_civil-year}
use trade_feed.Feed.Normalize.{normalize, normalize_trade, IsPriced, normalize-IsPriced}
use trade_feed.Base64.{base64, decode, decode-base64}
use trade_feed.Feed.{Text, for_each_object}
use trade_feed.Feed.Objects.{
  IsPlain, Body, end_body, plain, quoted, nested, end_string, letter, escaped, frame_text,
  object_text, for_each_object-frame_text,
}

abbrev pub small_book : OrderBook
small_book = State.make 4

abbrev pub bid_of : ℕ → ℕ → ℕ → NewOrder
bid_of id price qty = record {
  id = id;
  client = 7;
  side = buy;
  type = limit;
  price = price;
  qty = qty;
  ts = 0;
}

abbrev pub ask_of : ℕ → ℕ → ℕ → NewOrder
ask_of id price qty = record (bid_of id price qty) { side = sell }

abbrev pub one_bid : OrderBook
one_bid = (add_order small_book (bid_of 1 100 5)).0

make-IsSound_example : IsSound (State.make 4) no_queues []
make-IsSound_example = make-IsSound 4 (omega arith)

small_book-SoundBook : SoundBook small_book
small_book-SoundBook = (no_queues, make-IsSound 4 (omega arith))

add_order-IsSound_example : SoundBook (add_order small_book (bid_of 1 100 5)).0
add_order-IsSound_example =
    add_order-IsSound small_book (bid_of 1 100 5) (omega arith) small_book-SoundBook

pub one_bid-SoundBook : SoundBook one_bid
one_bid-SoundBook = add_order-IsSound small_book (bid_of 1 100 5) (omega arith) small_book-SoundBook

cancel_order-IsSound_example : SoundBook (cancel_order one_bid 1).0
cancel_order-IsSound_example = cancel_order-IsSound one_bid 1 one_bid-SoundBook

modify_order-IsSound_example : SoundBook (modify_order one_bid 1 101 6 9).0
modify_order-IsSound_example =
    modify_order-IsSound one_bid 1 101 6 9 (omega arith) one_bid-SoundBook

add_order-refuses_example :
    (((add_order small_book (ask_of 2 0 5)).1 ≡ false)
      ↔ ((small_book.pool.free_list ≡ []) ⊎ IsOutOfRange (ask_of 2 0 5)))
    × ((add_order small_book (ask_of 2 0 5)).1 ≡ false
        → (add_order small_book (ask_of 2 0 5)).0 ≡ small_book)
add_order-refuses_example = add_order-refuses small_book (ask_of 2 0 5)

validate_bbo-SoundBook_example : validate_bbo one_bid ≡ true
validate_bbo-SoundBook_example = validate_bbo-SoundBook one_bid one_bid-SoundBook

abbrev matching : OrderBook
matching = entered small_book (1 ∷ 2 ∷ 3 ∷ []) (bid_of 1 100 5) 0

free_of_small : small_book.pool.free_list ≡ 0 ∷ 1 ∷ 2 ∷ 3 ∷ []
unfolding State.make OrderPool.make OrderPool.push_free
free_of_small = refl

matching-IsSound :
    IsSound (entered small_book (1 ∷ 2 ∷ 3 ∷ []) (bid_of 1 100 5) 0) no_queues (0 ∷ [])
matching-IsSound =
    entered-IsSound small_book no_queues (1 ∷ 2 ∷ 3 ∷ []) (bid_of 1 100 5) 0
      (make-IsSound 4 (omega arith)) free_of_small (omega arith)

side_of_new : (order matching 0).side ≡ buy
unfolding reg
side_of_new = refl

lookup_one : lookup one_bid 1 ≡ some 0
unfolding lookup add_order is_limit OrderPool.allocate OrderPool.available place reg match_order
    match_limit match_loop limit_hits_ask settle rest_order rest_bid attach level set_level idx
    PriceLevel.push link_next end_or is_empty State.make OrderPool.make OrderPool.push_free
    is_filled remaining PriceBitset.set empty_level
lookup_one = refl

modify_order_out_of_range_example :
    ((modify_order one_bid 1 2_000_000 6 9).1 ≡ false)
    × Cancelled one_bid 1 0 (modify_order one_bid 1 2_000_000 6 9).0
modify_order_out_of_range_example =
    modify_order_out_of_range one_bid 1 0 2_000_000 6 9 lookup_one (inr (omega arith))

match_limit-Stopped_example :
    StoppedAt buy (Accepts buy) (limit_hits buy) matching no_queues 0 (match_limit matching 0)
match_limit-Stopped_example =
    match_limit-Stopped matching no_queues 0 buy side_of_new matching-IsSound

match_market-Stopped_example :
    StoppedAt buy AnyPrice (market_hits buy) matching no_queues 0 (match_market matching 0)
match_market-Stopped_example =
    match_market-Stopped matching no_queues 0 buy side_of_new matching-IsSound

five-IsValid : IsValid (set empty_bitset 5)
five-IsValid = set-IsValid empty_bitset 5 (omega arith) empty_bitset-IsValid

highest-IsHighest_example : IsHighest (set empty_bitset 5) (highest (set empty_bitset 5))
highest-IsHighest_example = highest-IsHighest (set empty_bitset 5) five-IsValid

lowest-IsLowest_example : IsLowest (set empty_bitset 5) (lowest (set empty_bitset 5))
lowest-IsLowest_example = lowest-IsLowest (set empty_bitset 5) five-IsValid

clear-IsValid_example : IsValid (clear (set empty_bitset 5) 5)
clear-IsValid_example = clear-IsValid (set empty_bitset 5) 5 five-IsValid

set-IsValid_example : IsValid (set empty_bitset 999_999)
set-IsValid_example = set-IsValid empty_bitset 999_999 (omega arith) empty_bitset-IsValid

abbrev no_orders : Arena
no_orders x = record blank { quantity = 5 }

empty_level-Holds : Holds empty_level no_orders []
unfolding empty_level
empty_level-Holds = record {
  head = refl;
  tail = refl;
  chain = tt;
  distinct = tt;
  count = refl;
  fits = omega arith;
  total = omega arith;
}

abbrev pushed : PriceLevel × Arena
pushed = PriceLevel.push empty_level no_orders 3

push-Holds_example :
    Holds
      (PriceLevel.push empty_level no_orders 3).0
      (PriceLevel.push empty_level no_orders 3).1
      ([] ++ 3 ∷ [])
push-Holds_example = push-Holds empty_level no_orders 3 [] tt empty_level-Holds (omega arith)

one-Holds : Holds pushed.0 pushed.1 ([] ++ 3 ∷ [])
one-Holds = push-Holds empty_level no_orders 3 [] tt empty_level-Holds (omega arith)

remove-Holds_example :
    Holds
      (PriceLevel.remove pushed.0 pushed.1 3).0
      (PriceLevel.remove pushed.0 pushed.1 3).1
      ([] ++ [])
remove-Holds_example = remove-Holds pushed.0 pushed.1 [] 3 [] one-Holds

abbrev one_item : Ring ℕ
one_item = (SpscRing.push (SpscRing.make 0) 8).0

one_item-IsRing : IsRing one_item (8 ∷ [])
unfolding SpscRing.make
one_item-IsRing = (push-IsRing (SpscRing.make 0) [] 8 (omega arith) (make-IsRing 0)).0

push-IsRing_example :
    IsRing {A = ℕ} (SpscRing.push (SpscRing.make 0) 8).0 (fifo_push [] 8).0
    × ((SpscRing.push {A = ℕ} (SpscRing.make 0) 8).1 ≡ (fifo_push {A = ℕ} [] 8).1)
unfolding SpscRing.make
push-IsRing_example = push-IsRing (SpscRing.make 0) [] 8 (omega arith) (make-IsRing 0)

pop-IsRing_example :
    IsRing (SpscRing.pop one_item).0 (fifo_pop (8 ∷ [])).0
    × ((SpscRing.pop one_item).1 ≡ (fifo_pop {A = ℕ} (8 ∷ [])).1)
pop-IsRing_example = pop-IsRing one_item (8 ∷ []) one_item-IsRing

abbrev engine : MatchingEngine
engine = MatchingEngine.make 4 (SpscRing.make blank_message)

abbrev buy_message : InboundMessage
buy_message = record {
  type = new_order;
  side = buy;
  order_type = limit;
  client_id = 7;
  order_id = 0;
  price = 100;
  quantity = 5;
  recv_tsc = 0;
}

process-SoundBook_example : SoundBook (process 9 engine buy_message).book
unfolding MatchingEngine.make
process-SoundBook_example =
    process-SoundBook 9 engine buy_message (omega arith) small_book-SoundBook

spread-SoundBook_example :
    ((one_bid.best_bid ≡ 0) ⊎ (1_000_000 < one_bid.best_ask) → spread one_bid ≡ 0)
    × (one_bid.best_bid ≢ 0
        → one_bid.best_ask ≤ 1_000_000
        → (0 < spread one_bid) × (one_bid.best_bid + spread one_bid ≡ one_bid.best_ask))
spread-SoundBook_example = spread-SoundBook one_bid one_bid-SoundBook

lookup-Rests_example :
    ((order one_bid 0).id ≡ 1)
    × In 0 (one_bid-SoundBook.0 (order one_bid 0).side (idx (order one_bid 0).price))
lookup-Rests_example = lookup-Rests one_bid one_bid-SoundBook.0 1 0 one_bid-SoundBook.1 lookup_one

no_fills : length (book_after engine buy_message).fills ≡ 0
unfolding lookup add_order is_limit OrderPool.allocate OrderPool.available place reg match_order
    match_limit match_loop limit_hits_ask settle rest_order rest_bid attach level set_level idx
    PriceLevel.push link_next end_or is_empty State.make OrderPool.make OrderPool.push_free
    is_filled remaining PriceBitset.set empty_level clear_fills MatchingEngine.make
no_fills = refl

room : HasRoom engine.outbound [] (2 * length (book_after engine buy_message).fills + 1)
unfolding MatchingEngine.make SpscRing.make
room = (make-IsRing blank_message, omega (arith, no_fills), omega (arith, no_fills))

process-IsRing_example :
    IsRing (process 9 engine buy_message).outbound ([] ++ replies 9 engine buy_message)
process-IsRing_example = process-IsRing 9 engine buy_message [] room

abbrev gateway : Gateway
gateway = record {
  clients = λ _. record { fd = none; active = false; read_buf = λ _. 0; read_pos = 0 };
  inbound = SpscRing.make buy_message;
  outbound = SpscRing.make blank_message;
}

gateway-OwnFds : OwnFds gateway
gateway-OwnFds i j fd li lj hi hj = absurd (ground (arith, hi))

gateway-IsNewFd : IsNewFd gateway 5
gateway-IsNewFd i h = refl

accept_client-OwnFds_example :
    let (g, ok) = accept_client gateway 5 in
    OwnFds g
    × KeepsClients gateway g
    × (((ok ≡ true) × Seated gateway 5 g) ⊎ ((ok ≡ false) × TurnedAway gateway g))
accept_client-OwnFds_example = accept_client-OwnFds gateway 5 gateway-IsNewFd gateway-OwnFds

takes_five : (accept_client gateway 5).1 ≡ true
unfolding accept_client Gateway.find_slot
takes_five = refl

slot_for_fd-accept_client_example :
    (s : ℕ) × (slot_for_fd (accept_client gateway 5).0 5 ≡ some s)
    × ((gateway.clients s).active ≡ false)
    × (((accept_client gateway 5).0.clients s).read_pos ≡ 0)
slot_for_fd-accept_client_example =
    slot_for_fd-accept_client gateway 5 gateway-IsNewFd gateway-OwnFds takes_five

abbrev ten_bytes : List ℕ
ten_bytes = 1 ∷ 0 ∷ 0 ∷ 0 ∷ 7 ∷ 0 ∷ 0 ∷ 0 ∷ 0 ∷ 0 ∷ []

is_plain : (c : ℕ) → (c ≢ 34) × (c ≢ 92) × (c ≢ 123) × (c ≢ 125) → IsPlain c
is_plain c ok = ok

-- A frame and two bytes more, in four parts.
abbrev parts : List Recv
parts =
    bytes (9 ∷ 9 ∷ ten_bytes ++ ten_bytes) 3
    ∷ bytes ten_bytes 4
    ∷ bytes (8 ∷ 8 ∷ []) 5
    ∷ would_block
    ∷ []

read_loop-Framed_example : Framed gateway 0 parts (read_loop gateway 0 parts)
read_loop-Framed_example =
    read_loop-Framed parts gateway 0 (omega arith)
      (omega arith, omega arith, (omega arith, omega arith, (omega arith, omega arith, tt)))

abbrev body : Body
body = plain 65 (quoted (letter 125 (escaped 34 end_string)) (nested (plain 66 end_body) end_body))

for_each_object-frame_text_example :
    for_each_object (frame_text ((91 ∷ [], body) ∷ (44 ∷ [], end_body) ∷ []) (93 ∷ []))
    ≡ map (λ (i : Text × Body). object_text i.1) ((91 ∷ [], body) ∷ (44 ∷ [], end_body) ∷ [])
for_each_object-frame_text_example =
    for_each_object-frame_text ((91 ∷ [], body) ∷ (44 ∷ [], end_body) ∷ []) (93 ∷ [])
      (
        (
          is_plain 91
              ((λ e. omega arith), (λ e. omega arith), (λ e. omega arith), (λ e. omega arith)),
          tt,
        ),
        (
          is_plain 65
              ((λ e. omega arith), (λ e. omega arith), (λ e. omega arith), (λ e. omega arith)),
          (
            ((λ e. omega arith), (λ e. omega arith), tt),
            (
              (
                is_plain 66 (
                  (λ e. omega arith),
                  (λ e. omega arith),
                  (λ e. omega arith),
                  (λ e. omega arith),
                ),
                tt,
              ),
              tt,
            ),
          ),
        ),
        omega arith,
        (
          (
            is_plain 44
                ((λ e. omega arith), (λ e. omega arith), (λ e. omega arith), (λ e. omega arith)),
            tt,
          ),
          tt,
          omega arith,
          tt,
        ),
      )
      (
        is_plain 93
            ((λ e. omega arith), (λ e. omega arith), (λ e. omega arith), (λ e. omega arith)),
        tt,
      )

days_from_civil-year_example :
    days_from_civil (pos (2_023 + 1)) 3 1
    ≡ days_from_civil (pos 2_023) 3 1 +ℤ pos (if is_leap (2_023 + 1) then 366 else 365)
days_from_civil-year_example = days_from_civil-year 2_023 (omega arith)

-- {"T":"t","S":"A","p":1}
abbrev trade_text : Text
trade_text =
    123 ∷ 34 ∷ 84 ∷ 34 ∷ 58 ∷ 34 ∷ 116 ∷ 34 ∷ 44 ∷ 34 ∷ 83 ∷ 34 ∷ 58 ∷ 34 ∷ 65 ∷ 34 ∷ 44 ∷ 34 ∷ 112
    ∷ 34 ∷ 58 ∷ 49 ∷ 125 ∷ []

abbrev trade_record : CaptureRecord
trade_record = record {
  is_quote = false;
  symbol = 65 ∷ 0 ∷ 0 ∷ 0 ∷ 0 ∷ 0 ∷ 0 ∷ [];
  p1 = 100;
  s1 = 0;
  p2 = 0;
  s2 = 0;
  venue_ns = 0;
}

trade_passes : normalize (λ _. 100) (λ _. 0) trade_text ≡ some trade_record
unfolding normalize normalize_trade field field_str
trade_passes = refl

normalize-IsPriced_example : IsPriced 1_000_000 trade_record
normalize-IsPriced_example =
    normalize-IsPriced (λ _. 100) (λ _. 0) 1_000_000 (λ _. omega arith) trade_text trade_record
      trade_passes

decode-base64_example : decode (base64 (77 ∷ 97 ∷ 110 ∷ 33 ∷ [])) ≡ 77 ∷ 97 ∷ 110 ∷ 33 ∷ []
decode-base64_example =
    decode-base64 (77 ∷ 97 ∷ 110 ∷ 33 ∷ [])
      (omega arith, (omega arith, (omega arith, (omega arith, tt))))

abbrev idle_world : World ℕ
idle_world = idle 0

-- A push, the begin of a second one, and a pop that is about to read.
abbrev busy : List (Event ℕ)
busy = call_push 8 ∷ producer_runs ∷ producer_runs ∷ call_push 9 ∷ call_pop ∷ consumer_runs ∷ []

busy_fits : idle_world.ring.head + length busy < 2 ^ 64
unfolding SpscRing.make
busy_fits = omega arith

run-IsWorld_example : (xs : List ℕ) × IsWorld (run idle_world busy) xs
run-IsWorld_example = run-IsWorld busy idle_world [] (idle-IsWorld 0) busy_fits

producer_writes : (run idle_world busy).producer ≡ write_slot 9
unfolding run happen start_push produce start_pop consume SpscRing.make
producer_writes = refl

consumer_reads : (run idle_world busy).consumer ≡ read_slot
unfolding run happen start_push produce start_pop consume SpscRing.make
consumer_reads = refl

slots_apart_example :
    ((run (idle 0) busy).ring.head % 262_144 ≢ (run (idle 0) busy).ring.tail % 262_144)
    × ReadsOldest (run (idle 0) busy)
slots_apart_example = slots_apart 0 busy 9 (omega arith) producer_writes consumer_reads
