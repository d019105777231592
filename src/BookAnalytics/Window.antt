-- ===== src/BookAnalytics/Window.antt =====
-- The history of `vpin` holds the last fifty full buckets.
use trade_feed.Prelude.{
  ℕ, zero, suc, ◌+◌, ◌%◌, ◌<◌, ◌≤◌, ◌≡◌, ◌≢◌, refl, sym, ap, ◌∙◌, ◌⊎◌, inl, inr, true, false,
  Bool-cases, List, [], ◌∷◌, ◌++◌, some, length, length-append, append-nil, get_elem?, min, leb,
  ◌==◌, if◌then◌else◌, arith, subst,
}
use mathlib.Core.Option.{some-injective}
use trade_feed.Prelude.Array.{write}
use trade_feed.Types.{Side, buy, sell, u32_mod, u64_mod}
use trade_feed.BookAnalytics.Double.{Double}
use trade_feed.BookAnalytics.Vpin.{
  BookAnalytics, vpin_buckets, bucket_volume, bucket_imbalance, close_bucket, count_fill, on_fill,
  make,
}

-- What was bought and what was sold in the bucket with one more fill, by the side that took.
abbrev pub bought : {D : Type 0} → BookAnalytics D → ℕ → Side → ℕ
bought a qty buy = a.current_buy_vol + qty
bought a qty sell = a.current_buy_vol

abbrev pub sold : {D : Type 0} → BookAnalytics D → ℕ → Side → ℕ
sold a qty buy = a.current_sell_vol
sold a qty sell = a.current_sell_vol + qty

module _ {D : Type 0} ⦃d : Double D⦄ where
  -- The bucket that a fill closes, if it closes one.
  abbrev pub closed : BookAnalytics D → ℕ → Side → List D
  closed a qty side =
      if leb bucket_volume (a.current_bucket_vol + qty)
      then bucket_imbalance (bought a qty side) (sold a qty side) ∷ []
      else []

  -- The analytics after the buckets `bs`, the oldest first.
  pub record IsWindow (a : BookAnalytics D) (bs : List D) : Type 0 where
    pub split : a.current_buy_vol + a.current_sell_vol ≡ a.current_bucket_vol
    pub below : a.current_bucket_vol < bucket_volume
    pub idx : a.vpin_idx ≡ length bs
    pub count : a.vpin_count ≡ min (length bs) vpin_buckets
    pub kept :
        (k : ℕ) (x : D)
        → get_elem? bs k ≡ some x
        → length bs ≤ k + vpin_buckets
        → a.vpin_history (k % vpin_buckets) ≡ x

  pub make-IsWindow : IsWindow make []
  unfolding make
  make-IsWindow = record {
    split = refl;
    below = omega arith;
    idx = refl;
    count = refl;
    kept = λ k x e h. absurd (ground (arith, e));
  }

  get_elem?-append_last :
      (xs : List D) (y : D) (k : ℕ) (x : D)
      → get_elem? (xs ++ y ∷ []) k ≡ some x
      → ((k ≡ length xs) × (y ≡ x)) ⊎ ((k < length xs) × (get_elem? xs k ≡ some x))
  get_elem?-append_last [] y zero x e = inl (refl, some-injective y x e)
  get_elem?-append_last [] y (suc k) x e = absurd (ground (arith, e))
  get_elem?-append_last (z ∷ xs) y zero x e = inr (omega arith, e)
  get_elem?-append_last (z ∷ xs) y (suc k) x e = elim (get_elem?-append_last xs y k x e) [
    | inl (at, same) ↦ inl (ap suc at, same)
    | inr (under, old) ↦ inr (omega arith, old)
  ]

  -- Writing the newest bucket in its slot keeps the forty-nine before it.
  kept_write :
      (h : ℕ → D) (bs : List D) (y : D)
      → ((k : ℕ) (x : D)
          → get_elem? bs k ≡ some x
          → length bs ≤ k + vpin_buckets
          → h (k % vpin_buckets) ≡ x)
      → (k : ℕ) (x : D) → get_elem? (bs ++ y ∷ []) k ≡ some x
      → length (bs ++ y ∷ []) ≤ k + vpin_buckets
      → write h (length bs % vpin_buckets) y (k % vpin_buckets) ≡ x
  kept_write h bs y old k x e near =
      let size = length-append bs (y ∷ []) in
      elim (get_elem?-append_last bs y k x e) [
        | inl (at, same) ↦ rw at (ground (arith, same))
        | inr (under, was) ↦
            let apart : (k % vpin_buckets == length bs % vpin_buckets) ≡ false =
              let ne : k % vpin_buckets ≢ length bs % vpin_buckets =
                λ z. omega (arith, z, size, near) in
              ground (arith, ne) in
            rw apart (old k x was (omega (arith, size)))
      ]

  -- Closing a bucket adds its imbalance to the window.
  close_bucket-IsWindow :
      (a : BookAnalytics D) (bs : List D)
      → a.vpin_idx ≡ length bs
      → a.vpin_count ≡ min (length bs) vpin_buckets
      → ((k : ℕ) (x : D)
          → get_elem? bs k ≡ some x
          → length bs ≤ k + vpin_buckets
          → a.vpin_history (k % vpin_buckets) ≡ x)
      → length bs + 1 < u64_mod
      → IsWindow (close_bucket a) (bs ++ bucket_imbalance a.current_buy_vol a.current_sell_vol ∷ [])
  unfolding close_bucket
  close_bucket-IsWindow a bs idx count kept room =
      let y = bucket_imbalance a.current_buy_vol a.current_sell_vol in
      let size = length-append bs (y ∷ []) in
      record {
        split = refl;
        below = omega arith;
        idx = omega (arith, idx, size, room);
        count = ground (arith, count, size, room);
        kept = λ k x e near.
            subst (λ i. write a.vpin_history (i % vpin_buckets) y (k % vpin_buckets) ≡ x) (sym idx)
              (kept_write a.vpin_history bs y kept k x e near);
      }

  module _ (a : BookAnalytics D) (bs : List D) (price qty : ℕ) (side : Side) (v : IsWindow a bs)
      (small : qty + bucket_volume ≤ u32_mod) where
    abbrev counted : BookAnalytics D
    counted = count_fill a price qty side

    record Counted : Type 0 where
      buys : counted.current_buy_vol ≡ bought a qty side
      sells : counted.current_sell_vol ≡ sold a qty side
      total : counted.current_bucket_vol ≡ a.current_bucket_vol + qty
      sums : bought a qty side + sold a qty side ≡ a.current_bucket_vol + qty
      window :
          (counted.vpin_history ≡ a.vpin_history)
          × (counted.vpin_idx ≡ a.vpin_idx)
          × (counted.vpin_count ≡ a.vpin_count)

    count_fill-Counted : Counted
    unfolding count_fill
    count_fill-Counted = by_side side refl
      where
        by_side : (s : Side) → side ≡ s → Counted
        by_side buy e = record {
          buys = rw e (omega (arith, v.split, v.below, small));
          sells = rw e refl;
          total = omega (arith, v.below, small);
          sums = rw e (omega (arith, v.split));
          window = (refl, refl, refl);
        }
        by_side sell e = record {
          buys = rw e refl;
          sells = rw e (omega (arith, v.split, v.below, small));
          total = omega (arith, v.below, small);
          sums = rw e (omega (arith, v.split));
          window = (refl, refl, refl);
        }

    -- After a fill whose quantity does not wrap the bucket's, the bucket that is open holds less
    -- than a bucket's volume, as much as was bought and sold in it; and the history holds the
    -- imbalances of the last fifty full buckets, in the slots of their numbers modulo fifty, where
    -- the fill closed a bucket exactly if it made it full.
    pub on_fill-IsWindow :
        length bs + 1 < u64_mod → IsWindow (on_fill a price qty side) (bs ++ closed a qty side)
    unfolding on_fill
    on_fill-IsWindow room =
        let c = count_fill-Counted in
        let t = c.total in
        let (same_history, same_idx, same_count) = c.window in
        elim (Bool-cases (leb bucket_volume (a.current_bucket_vol + qty))) [
          | inl full ↦
              let e : leb bucket_volume counted.current_bucket_vol ≡ true =
                ground (arith, full, t) in
              rw (e, full)
                (subst (λ y. IsWindow (close_bucket counted) (bs ++ y ∷ []))
                  (ap (λ z. bucket_imbalance z counted.current_sell_vol) c.buys
                    ∙ ap (bucket_imbalance (bought a qty side)) c.sells)
                  (close_bucket-IsWindow counted bs (same_idx ∙ v.idx) (same_count ∙ v.count)
                    (λ k x e near. ap (λ h. h (k % vpin_buckets)) same_history ∙ v.kept k x e near)
                    room))
          | inr open_ ↦
              let e : leb bucket_volume counted.current_bucket_vol ≡ false =
                ground (arith, open_, t) in
              rw (e, open_)
                (subst (IsWindow counted) (sym (append-nil bs)) (record {
                  split = omega (arith, c.buys, c.sells, c.total, c.sums);
                  below = ground (arith, open_, t);
                  idx = same_idx ∙ v.idx;
                  count = same_count ∙ v.count;
                  kept =
                      λ k x e near. ap (λ h. h (k % vpin_buckets)) same_history ∙ v.kept k x e near;
                }))
        ]
