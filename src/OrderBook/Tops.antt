-- ===== src/OrderBook/Tops.antt =====
-- How the best prices follow the bitsets when one bit changes.
use trade_feed.Prelude.{
  ℕ, ◌+◌, ◌-◌, ◌<◌, ◌≤◌, ◌≡◌, ◌≢◌, arith, ◌==◌, if◌then◌else◌, ◌∙◌, ℕ_discrete, false, true, ltb,
  dec_lt,
}
use trade_feed.Types.{price_levels}
use trade_feed.PriceBitset.{PriceBitset, test, clear}
use trade_feed.PriceBitset.Writes.{IsValid, test-clear}
use trade_feed.OrderBook.Invariant.{IsBidTop, IsAskTop}

module _ (shown : PriceBitset) (valid : IsValid shown) (i best : ℕ) where
  -- The best bid of what is left after a bit was cleared is not higher, and lower at the best level.
  pub bid_top-clear-le : (n : ℕ) → IsBidTop shown best → IsBidTop (clear shown i) n → n ≤ best
  bid_top-clear-le n v w = elim (dec_lt 0 n) [
    | no h ↦ omega arith
    | yes h ↦
        omega (arith, v.top (n - 1) (ground (arith, w.at h, test-clear shown i (n - 1) valid)))
  ]

  pub bid_top-clear-lt :
      (n : ℕ)
      → 0 < best
      → i ≡ best - 1
      → IsBidTop shown best
      → IsBidTop (clear shown i) n
      → n < best
  bid_top-clear-lt n pos e v w = elim (dec_lt 0 n) [
    | no h ↦ omega arith
    | yes h ↦
        let hit = w.at h in
        let gone = test-clear shown i (n - 1) valid in
        let ne : n - 1 ≢ i = λ same. ground arith in omega (arith, v.top (n - 1) (ground arith), ne)
  ]

  pub ask_top-clear-le : (n : ℕ) → IsAskTop shown best → IsAskTop (clear shown i) n → best ≤ n
  ask_top-clear-le n v w = elim (dec_lt price_levels n) [
    | yes h ↦ omega (arith, v.range, w.range)
    | no h ↦ omega (
      arith,
      w.positive,
      v.top (n - 1) (ground (arith, w.at (omega arith), test-clear shown i (n - 1) valid)),
    )
  ]

  pub ask_top-clear-lt :
      (n : ℕ)
      → best ≤ price_levels
      → i ≡ best - 1
      → IsAskTop shown best
      → IsAskTop (clear shown i) n
      → best < n
  ask_top-clear-lt n small e v w = elim (dec_lt price_levels n) [
    | yes h ↦ omega arith
    | no h ↦
        let hit = w.at (omega arith) in
        let gone = test-clear shown i (n - 1) valid in
        let ne : n - 1 ≢ i = λ same. ground arith in
        omega (arith, w.positive, v.positive, v.top (n - 1) (ground arith), ne)
  ]

  -- Clearing a bit that is not the outermost one leaves the best price.
  pub IsBidTop-clear_inner : i ≢ best - 1 → IsBidTop shown best → IsBidTop (clear shown i) best
  IsBidTop-clear_inner ne v = record {
    top = λ j t. v.top j (ground (arith, test-clear shown i j valid));
    at = λ h. ground (arith, v.at h, test-clear shown i (best - 1) valid);
    range = v.range;
  }

  pub IsAskTop-clear_inner : i ≢ best - 1 → IsAskTop shown best → IsAskTop (clear shown i) best
  IsAskTop-clear_inner ne v = record {
    top = λ j t. v.top j (ground (arith, test-clear shown i j valid));
    at = λ h. ground (arith, v.at h, test-clear shown i (best - 1) valid);
    positive = v.positive;
    range = v.range;
  }

-- An order that rests at `i + 1` makes that the best price, if it was not already as good.
pub IsBidTop-set :
    (shown shown' : PriceBitset) (i best : ℕ)
    → i < price_levels
    → ((j : ℕ) → test shown' j ≡ (if j == i then true else test shown j))
    → IsBidTop shown best
    → IsBidTop shown' (if ltb best (i + 1) then i + 1 else best)
IsBidTop-set shown shown' i best small h v = elim (dec_lt best (i + 1)) [
  | yes l ↦
      let e : ltb best (i + 1) ≡ true = ground arith in
      rw e (record {
        top = λ j t. elim (dec_lt i j) [
          | yes m ↦ omega (arith, v.top j (ground (arith, h j)))
          | no m ↦ omega arith
        ];
        at = λ _. let e' : i + 1 - 1 ≡ i = omega arith in rw e' (h i ∙ ground arith);
        range = omega arith;
      })
  | no l ↦
      let e : ltb best (i + 1) ≡ false = ground arith in
      rw e (record {
        top = λ j t. elim (ℕ_discrete j i) [
          | yes m ↦ omega arith
          | no m ↦ v.top j (ground (arith, h j))
        ];
        at = λ p. ground (arith, v.at p, h (best - 1));
        range = v.range;
      })
]

pub IsAskTop-set :
    (shown shown' : PriceBitset) (i best : ℕ)
    → i < price_levels
    → ((j : ℕ) → test shown' j ≡ (if j == i then true else test shown j))
    → IsAskTop shown best
    → IsAskTop shown' (if ltb (i + 1) best then i + 1 else best)
IsAskTop-set shown shown' i best small h v = elim (dec_lt (i + 1) best) [
  | yes l ↦
      let e : ltb (i + 1) best ≡ true = ground arith in
      rw e (record {
        top = λ j t. elim (dec_lt j i) [
          | yes m ↦ omega (arith, v.top j (ground (arith, h j)))
          | no m ↦ omega arith
        ];
        at = λ _. let e' : i + 1 - 1 ≡ i = omega arith in rw e' (h i ∙ ground arith);
        positive = omega arith;
        range = omega arith;
      })
  | no l ↦
      let e : ltb (i + 1) best ≡ false = ground arith in
      rw e (record {
        top = λ j t. elim (ℕ_discrete j i) [
          | yes m ↦ omega arith
          | no m ↦ v.top j (ground (arith, h j))
        ];
        at = λ p. ground (arith, v.at p, h (best - 1));
        positive = v.positive;
        range = v.range;
      })
]
