-- ===== src/BookAnalytics/Vpin.antt =====
-- The statistics over fills of src/analytics/book_analytics.h, and those of a book on `double`.
use trade_feed.Prelude.{ℕ, zero, suc, ◌%◌, ◌||◌, ltb, leb, ◌==◌, if◌then◌else◌}
use trade_feed.Prelude.Array.{write}
use trade_feed.Prelude.Int.{◌-ℤ◌, pos}
use trade_feed.Types.{Side, buy, sell, add32, add64, invalid_price, max_price}
use trade_feed.OrderBook.State.{OrderBook, bid_qty_at, ask_qty_at}
use trade_feed.BookAnalytics.Double.{Double}

abbrev pub vpin_buckets : ℕ
vpin_buckets = 50

abbrev pub bucket_volume : ℕ
bucket_volume = 10_000

pub record BookAnalytics (D : Type 0) : Type 0 where
  pub total_volume : ℕ
  pub vwap_numer : D
  pub current_buy_vol : ℕ
  pub current_sell_vol : ℕ
  pub current_bucket_vol : ℕ
  pub vpin_history : ℕ → D
  pub vpin_idx : ℕ
  pub vpin_count : ℕ

module _ {D : Type 0} ⦃d : Double D⦄ where
  unfoldable pub make : BookAnalytics D
  make = record {
    total_volume = 0;
    vwap_numer = d.nought;
    current_buy_vol = 0;
    current_sell_vol = 0;
    current_bucket_vol = 0;
    vpin_history = λ _. d.nought;
    vpin_idx = 0;
    vpin_count = 0;
  }

  -- The imbalance of a bucket that was bought and sold.
  unfoldable pub bucket_imbalance : ℕ → ℕ → D
  bucket_imbalance bought sold =
      let total = add32 bought sold in
      if ltb 0 total
      then d.over (d.magnitude (d.minus (d.of_nat bought) (d.of_nat sold))) (d.of_nat total)
      else d.nought

  -- A full bucket goes to the history, and a new one begins.
  unfoldable pub close_bucket : BookAnalytics D → BookAnalytics D
  unfolding bucket_imbalance
  close_bucket a = record a {
    vpin_history =
        write a.vpin_history (a.vpin_idx % vpin_buckets)
          (bucket_imbalance a.current_buy_vol a.current_sell_vol);
    vpin_idx = add64 a.vpin_idx 1;
    vpin_count = if ltb a.vpin_count vpin_buckets then add64 a.vpin_count 1 else a.vpin_count;
    current_buy_vol = 0;
    current_sell_vol = 0;
    current_bucket_vol = 0;
  }

  unfoldable pub count_fill : BookAnalytics D → ℕ → ℕ → Side → BookAnalytics D
  count_fill a price qty side = record a {
    total_volume = add64 a.total_volume qty;
    vwap_numer = d.plus a.vwap_numer (d.times (d.of_nat price) (d.of_nat qty));
    current_buy_vol = elim side [ buy ↦ add32 a.current_buy_vol qty | sell ↦ a.current_buy_vol ];
    current_sell_vol = elim side [ buy ↦ a.current_sell_vol | sell ↦ add32 a.current_sell_vol qty ];
    current_bucket_vol = add32 a.current_bucket_vol qty;
  }

  unfoldable pub on_fill : BookAnalytics D → ℕ → ℕ → Side → BookAnalytics D
  unfolding count_fill close_bucket
  on_fill a price qty side =
      let a1 = count_fill a price qty side in
      if leb bucket_volume a1.current_bucket_vol then close_bucket a1 else a1

  unfoldable pub vwap : BookAnalytics D → D
  vwap a = if ltb 0 a.total_volume then d.over a.vwap_numer (d.of_nat a.total_volume) else d.nought

  -- The loop of `vpin`, with the rounds left.
  unfoldable pub vpin_sum : (ℕ → D) → ℕ → ℕ → D → D
  vpin_sum history zero i sum = sum
  vpin_sum history (suc n) i sum = vpin_sum history n (suc i) (d.plus sum (history i))

  unfoldable pub vpin : BookAnalytics D → D
  unfolding vpin_sum
  vpin a =
      if a.vpin_count == 0
      then d.nought
      else d.over (vpin_sum a.vpin_history a.vpin_count 0 d.nought) (d.of_nat a.vpin_count)

  unfoldable pub mid : OrderBook → D
  mid b =
      if b.best_bid == invalid_price || ltb max_price b.best_ask
      then d.nought
      else d.over (d.of_nat (add32 b.best_bid b.best_ask)) (d.of_nat 2)

  unfoldable pub imbalance : OrderBook → D
  unfolding bid_qty_at ask_qty_at
  imbalance b =
      let bq = bid_qty_at b b.best_bid in
      let aq = ask_qty_at b b.best_ask in
      let total = add32 bq aq in
      if b.best_bid == invalid_price || ltb max_price b.best_ask
      then d.nought
      else if ltb 0 total
      then d.over (d.of_int (pos bq -ℤ pos aq)) (d.of_nat total)
      else d.nought
