-- ===== src/PriceLevel/Pigeonhole.antt =====
-- Distinct indices below a bound are at most as many as the bound.
use trade_feed.Prelude.{
  ℕ, zero, suc, ◌<◌, ◌≤◌, ◌≢◌, ◌⊎◌, inl, inr, List, [], ◌∷◌, ◌++◌, arith, length, length-append,
  ℕ_discrete, subst, ap, refl,
}
use trade_feed.PriceLevel.Chain.{In, Distinct, Fresh-not-In, In-split, Distinct-remove, In-more}

dec_In : (x : ℕ) (xs : List ℕ) → In x xs ⊎ (In x xs → ⊥)
dec_In x [] = inr (λ i. i)
dec_In x (y ∷ ys) = elim (ℕ_discrete x y) [
  | yes e ↦ inl (inl e)
  | no ne ↦ elim (dec_In x ys) [
    | inl i ↦ inl (inr i)
    | inr out ↦ inr (λ i. elim i [ inl e ↦ ne e | inr j ↦ out j ])
  ]
]

pub length-Distinct-le :
    (n : ℕ) (xs : List ℕ) → Distinct xs → ((x : ℕ) → In x xs → x < n) → length xs ≤ n
length-Distinct-le zero [] d below = omega arith
length-Distinct-le zero (x ∷ xs) d below = absurd (omega (arith, below x (inl refl)))
length-Distinct-le (suc n) xs d below = elim (dec_In n xs) [
  | inr out ↦
      let h = length-Distinct-le n xs d λ x i.
        let ne : x ≢ n = λ e. out (subst (λ z. In z xs) e i) in omega (arith, below x i, ne) in
      omega (arith, h)
  | inl here ↦
      let (us, vs, e) = In-split n xs here in
      let (d', out) = Distinct-remove n us vs (rw (← e) d) in
      let h = length-Distinct-le n (us ++ vs) d' λ x i.
        let ne : x ≢ n =
          λ same. Fresh-not-In n (us ++ vs) out (subst (λ z. In z (us ++ vs)) same i) in
        let l : x < suc n = below x (rw e (In-more x n us vs i)) in omega (arith, ne) in
      omega (arith, ap length e, length-append us (n ∷ vs), length-append us vs, h)
]
