-- ===== src/Lib.antt =====
-- TradeFeed: a matching engine behind a TCP gateway, and a market data feed that drives it.
--
-- Clients send frames of 32 bytes to the gateway (src/transport/socket_transport.h), which decodes
-- them and pushes them on an inbound ring (src/transport/spsc_ring.h). The engine
-- (src/core/matching_engine.cpp) pops them, applies them to the order book
-- (src/core/order_book.cpp) and pushes what it has to say on an outbound ring, which the gateway
-- drains to its clients. The feed handler (src/feed) turns market data into such frames.
--
-- Types.antt and Codec.antt have the types of src/core/types.h and src/codec/sbe_messages.h.
-- Bits.antt and PriceBitset.antt model src/core/price_bitset.h, PriceLevel.antt
-- src/core/price_level.h, and OrderPool.antt src/core/order_pool.h. An order is an index of the
-- arena, so that aliasing is explicit: the level, the table of identifiers and the free list all
-- name slots of one arena. The files under OrderBook model src/core/order_book.h and
-- src/core/order_book.cpp: State has the fields and accessors, Matching has drain_level, match_limit
-- and match_market, Orders has add_order, cancel_order and modify_order, and Bbo has validate_bbo.
-- OrderBook/Invariant says what a sound book is, relative to the queues that its levels stand for
-- and the orders that an operation holds; the other files show how each step keeps it.
-- OrderBook/Priority is the abstract specification: a market of queues with price-time priority.
-- OrderBook/Trace reads a book as such a market, Best, Match and Spent follow the matching loops in
-- it, Fills says what trades by priority report, Rested and Placed follow the rest of add_order, and
-- Cancelled says what a cancellation does to the table and the pool.
-- MatchingEngine.antt, SpscRing.antt, Gateway.antt (src/transport/socket_transport.h) and
-- BookAnalytics.antt model the files of their names, Feed.antt and its children
-- src/feed/feed_normalizer.h and, with Feed/Options, Feed/Handler and Feed/Replay, the options, the
-- loop over frames, the order sender and the replay of src/feed/feed_main.cpp. Alpaca.antt and
-- Alpaca/Session model the WebSocket client of src/feed/alpaca_ws.cpp over a record of what OpenSSL
-- answers, and Base64.antt its helper; Alpaca/Rfc is an independent reader of frames.
--
-- System.antt puts the gateway, the engine and their rings together as src/main.cpp does, in turns of
-- whole rounds of the two threads; inside a round the rings are covered by SpscRing/Steps.
--
-- Machine integers are natural numbers, with the wrap written out where the source lets them wrap.
-- The loops of drain_level, match_limit and match_market have fuel: one more round than the level
-- has orders, and one more than there are price levels, as each round but the last takes an order
-- out of the level, and moves the best price on. write_all has a round for each byte, as a write takes
-- one or more, and read_frame one for every byte that there is to read, as a frame has two or more
-- unless its length wraps: the outcome `again` is then a loop without end. The ring has the capacity
-- of both rings of the program. SpscRing/Fifo takes its calls as whole steps, and SpscRing/Interleave each access of the
-- shared indices and of the buffer as a step, in a sequentially consistent order.
--
-- The statistics of BookAnalytics/Vpin take the operations on `double` as an instance argument.
--
-- Not modelled: sockets, TLS, threads, the terminal and files, which are arguments or left out; and
-- the conversions of the feed on floating point.
pub mod Prelude
pub mod Types
pub mod Bits
pub mod PriceBitset
pub mod PriceLevel
pub mod OrderPool
pub mod OrderBook
pub mod SpscRing
pub mod System
pub mod Codec
pub mod MatchingEngine
pub mod Gateway
pub mod BookAnalytics
pub mod Feed
pub mod Alpaca
pub mod Base64
mod Tests
