-- ===== src/OrderBook/Empty.antt =====
-- The book that the constructor makes.
use trade_feed.Prelude.{ℕ, ◌<◌, ◌≡◌, refl, [], arith}
use trade_feed.Types.{Side, buy, sell, u32_mod}
use trade_feed.PriceLevel.{empty_level, Arena, is_empty}
use trade_feed.PriceLevel.Chain.{Holds}
use trade_feed.OrderBook.State.{level}
use trade_feed.OrderBook.Invariant.{Queues}
use trade_feed.PriceBitset.{empty_bitset}
use trade_feed.PriceBitset.Writes.{test-empty_bitset, empty_bitset-IsValid}
use trade_feed.OrderBook.Invariant.{IsSound, bits}
use trade_feed.OrderBook.State.{make}
use trade_feed.OrderPool.Laws.{make_lem, make-In_arena, size-make}

empty_level-Holds : (a : Arena) → Holds empty_level a []
unfolding empty_level
empty_level-Holds a = record {
  head = refl;
  tail = refl;
  chain = tt;
  distinct = tt;
  count = refl;
  fits = omega arith;
  total = omega arith;
}

abbrev pub no_queues : Queues
no_queues s i = []

level-make : (n : ℕ) (s : Side) (i : ℕ) → level (make n) s i ≡ empty_level
unfolding make level
level-make n buy i = refl
level-make n sell i = refl

bits-make : (n : ℕ) (s : Side) → bits (make n) s ≡ empty_bitset
unfolding make
bits-make n buy = refl
bits-make n sell = refl

-- If the capacity of the pool fits in 32 bits, the constructor makes a sound book with no orders in
-- its levels.
pub make-IsSound : (n : ℕ) → n < u32_mod → IsSound (make n) no_queues []
unfolding make is_empty empty_level
make-IsSound n small = record {
  book = record {
    holds = λ s i. rw (level-make n s i) (empty_level-Holds (make n).pool.arena);
    rests = λ s i x k. absurd k;
    used = λ s i x k. absurd k;
    held_used = λ x k. absurd k;
    held_apart = λ s i x k. absurd k;
    held_open = λ x k. absurd k;
    held_once = tt;
    free_once = (make_lem n).0;
    in_arena = λ s i x k. absurd k;
    free_in_arena = make-In_arena n;
    held_in_arena = λ x k. absurd k;
    small = rw (size-make n) small;
    table = λ k x e. absurd (ground (arith, e));
  };
  live = λ s i x k. absurd k;
  shows = record {
    valid = λ s. rw (bits-make n s) empty_bitset-IsValid;
    shows = λ s i. rw (bits-make n s, level-make n s i) (test-empty_bitset i);
  };
  bid_top = record {
    top = λ i t. absurd (ground (arith, test-empty_bitset i, t));
    at = λ h. absurd (omega arith);
    range = omega arith;
  };
  ask_top = record {
    top = λ i t. absurd (ground (arith, test-empty_bitset i, t));
    at = λ h. absurd (omega arith);
    positive = omega arith;
    range = omega arith;
  };
  uncrossed = omega arith;
}
