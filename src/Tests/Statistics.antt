-- ===== src/Tests/Statistics.antt =====
-- The theorem on the statistics at a concrete input, over numbers in place of `double`.
use trade_feed.Prelude.{ℕ, ◌+◌, ◌-◌, ◌*◌, ◌/◌, [], ◌++◌, arith}
use trade_feed.Prelude.Int.{pos_part}
use trade_feed.Types.{buy}
use trade_feed.BookAnalytics.Double.{Double}
use trade_feed.BookAnalytics.Vpin.{make, on_fill}
use trade_feed.BookAnalytics.Window.{IsWindow, closed, make-IsWindow, on_fill-IsWindow}

instance abbrev whole_numbers : Double ℕ
whole_numbers = record {
  nought = 0;
  of_nat = λ n. n;
  of_int = pos_part;
  plus = λ a b. a + b;
  minus = λ a b. a - b;
  times = λ a b. a * b;
  over = λ a b. a / b;
  magnitude = λ a. a;
}

on_fill-IsWindow_example :
    IsWindow {D = ℕ} (on_fill make 15_025 12_000 buy) ([] ++ closed {D = ℕ} make 12_000 buy)
on_fill-IsWindow_example =
    on_fill-IsWindow {D = ℕ} make [] 15_025 12_000 buy make-IsWindow (omega arith) (omega arith)
