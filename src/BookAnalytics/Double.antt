-- ===== src/BookAnalytics/Double.antt =====
-- All that the analytics do with a `double`.
use trade_feed.Prelude.{ℕ}
use trade_feed.Prelude.Int.{ℤ}

pub record Double (D : Type 0) : Type 0 where
  pub nought : D
  pub of_nat : ℕ → D
  pub of_int : ℤ → D
  pub plus : D → D → D
  pub minus : D → D → D
  pub times : D → D → D
  pub over : D → D → D
  pub magnitude : D → D
