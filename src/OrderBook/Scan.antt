-- ===== src/OrderBook/Scan.antt =====
-- `scan_best_bid` and `scan_best_ask`: the best price is that of the outermost level shown.
use trade_feed.Prelude.{
  ℕ, ◌+◌, ◌-◌, ◌%◌, ◌≡◌, refl, inl, inr, List, arith, ◌==◌, if◌then◌else◌, false, dec_lt,
}
use trade_feed.Types.{Side, buy, sell, u32_mod, max_price, min_price, invalid_price}
use trade_feed.OrderBook.State.{OrderBook, level}
use trade_feed.OrderBook.Invariant.{Queues, IsBook}
use trade_feed.PriceBitset.{PriceBitset, none_index}
use trade_feed.PriceBitset.Writes.{IsValid}
use trade_feed.PriceBitset.Search.{IsHighest, IsLowest, highest-IsHighest, lowest-IsLowest}
use trade_feed.OrderBook.State.{Fill, scan_best_bid, scan_best_ask}
use trade_feed.OrderBook.Invariant.{IsBidTop, IsAskTop}

highest-IsBidTop :
    (shown : PriceBitset) (r : ℕ)
    → IsHighest shown r
    → IsBidTop shown (if r == none_index then invalid_price else (r + min_price) % u32_mod)
highest-IsBidTop shown r (inl (e, none_set)) = rw e (record {
  top = λ i t. absurd (ground (arith, none_set i));
  at = λ h. absurd (omega arith);
  range = omega arith;
})
highest-IsBidTop shown r (inr (hit, small, above)) =
    let wide : (r == none_index) ≡ false = ground arith in
    let plain : (r + 1) % u32_mod ≡ r + 1 = omega arith in
    rw (wide, plain)
      (record {
        top = λ i t. elim (dec_lt r i) [
          | yes h ↦ absurd (ground (arith, above i h))
          | no h ↦ omega arith
        ];
        at = λ h. let e : r + 1 - 1 ≡ r = omega arith in rw e hit;
        range = omega arith;
      })

lowest-IsAskTop :
    (shown : PriceBitset) (r : ℕ)
    → IsLowest shown r
    → IsAskTop shown (if r == none_index then max_price + 1 else (r + min_price) % u32_mod)
lowest-IsAskTop shown r (inl (e, none_set)) = rw e (record {
  top = λ i t. absurd (ground (arith, none_set i));
  at = λ h. absurd (omega arith);
  positive = omega arith;
  range = omega arith;
})
lowest-IsAskTop shown r (inr (hit, small, below)) =
    let wide : (r == none_index) ≡ false = ground arith in
    let plain : (r + 1) % u32_mod ≡ r + 1 = omega arith in
    rw (wide, plain)
      (record {
        top = λ i t. elim (dec_lt i r) [
          | yes h ↦ absurd (ground (arith, below i h))
          | no h ↦ omega arith
        ];
        at = λ h. let e : r + 1 - 1 ≡ r = omega arith in rw e hit;
        positive = omega arith;
        range = omega arith;
      })

pub scan_best_bid-IsBidTop :
    (b : OrderBook) → IsValid b.bid_bits → IsBidTop b.bid_bits (scan_best_bid b).best_bid
unfolding scan_best_bid
scan_best_bid-IsBidTop b v = highest-IsBidTop b.bid_bits _ (highest-IsHighest b.bid_bits v)

pub scan_best_ask-IsAskTop :
    (b : OrderBook) → IsValid b.ask_bits → IsAskTop b.ask_bits (scan_best_ask b).best_ask
unfolding scan_best_ask
scan_best_ask-IsAskTop b v = lowest-IsAskTop b.ask_bits _ (lowest-IsLowest b.ask_bits v)

-- The book with other quotes and counters over the same orders.
abbrev pub requote : OrderBook → PriceBitset → PriceBitset → ℕ → ℕ → ℕ → List Fill → ℕ → OrderBook
requote b bid_bits ask_bits best_bid best_ask matches fills scans = record b {
  bid_bits = bid_bits;
  ask_bits = ask_bits;
  best_bid = best_bid;
  best_ask = best_ask;
  match_count = matches;
  fills = fills;
  scan_calls = scans;
}

module _ (b : OrderBook) (bb ab : PriceBitset) (bid ask m : ℕ) (fs : List Fill) (c : ℕ) where
  pub level-requote : (u : Side) (j : ℕ) → level (requote b bb ab bid ask m fs c) u j ≡ level b u j
  unfolding level
  level-requote buy j = refl
  level-requote sell j = refl

  -- The invariant of the orders does not read the quotes and the counters.
  pub IsBook-requote :
      (q : Queues) (held : List ℕ)
      → IsBook b q held
      → IsBook (requote b bb ab bid ask m fs c) q held
  IsBook-requote q held v = record {
    holds = λ u j. rw (level-requote u j) (v.holds u j);
    rests = v.rests;
    used = v.used;
    held_used = v.held_used;
    held_apart = v.held_apart;
    held_open = v.held_open;
    held_once = v.held_once;
    free_once = v.free_once;
    in_arena = v.in_arena;
    free_in_arena = v.free_in_arena;
    held_in_arena = v.held_in_arena;
    small = v.small;
    table = v.table;
  }
