-- ===== src/OrderBook.antt =====
-- src/core/order_book.h and src/core/order_book.cpp.
pub mod State
pub mod Matching
pub mod Orders
pub mod Bbo
pub mod Invariant
pub mod Priority
pub mod Trade
pub mod Detach
pub mod Release
pub mod Attach
pub mod Round
pub mod Trace
pub mod Drain
pub mod Scan
pub mod Shows
pub mod Tops
pub mod Sweep
pub mod SweepAsk
pub mod Best
pub mod SweepBid
pub mod Match
pub mod Spent
pub mod Fills
pub mod Rested
pub mod Placed
pub mod Hold
pub mod RestBid
pub mod RestAsk
pub mod Add
pub mod CancelBid
pub mod CancelAsk
pub mod Cancel
pub mod Cancelled
pub mod BboProof
pub mod Empty
