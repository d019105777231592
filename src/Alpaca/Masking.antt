-- ===== src/Alpaca/Masking.antt =====
-- Masking twice gives the payload back.
use Prim.Native.Nat.{bit_xor, differ}
use trade_feed.Prelude.{
  ℕ, zero, suc, ◌+◌, ◌/◌, ◌%◌, ◌^◌, ◌<◌, ◌≡◌, refl, sym, subst, [], ◌∷◌, ap, ◌∙◌, arith, length,
  get_or,
}
use native.Mathlib.Nat.{pow-suc}
use trade_feed.Bits.Step.{xor_digit}
use trade_feed.Feed.{Text}
use trade_feed.Alpaca.{mask_from}
use trade_feed.Alpaca.Rfc.{unmask}

differ_twice : (x y : ℕ) → x < 2 → y < 2 → (differ x y < 2) × (differ (differ x y) y ≡ x)
differ_twice zero zero _ _ = (omega arith, refl)
differ_twice zero (suc zero) _ _ = (omega arith, refl)
differ_twice (suc zero) zero _ _ = (omega arith, refl)
differ_twice (suc zero) (suc zero) _ _ = (omega arith, refl)
differ_twice (suc (suc x)) y h _ = absurd (omega arith)
differ_twice x (suc (suc y)) _ h = absurd (omega arith)

xor_halves :
    (x y : ℕ)
    → (bit_xor x y / 2 ≡ bit_xor (x / 2) (y / 2)) × (bit_xor x y % 2 ≡ differ (x % 2) (y % 2))
xor_halves x y =
    let (small, _) = differ_twice (x % 2) (y % 2) (omega arith) (omega arith) in
    omega (arith, xor_digit x y, small)

pub xor_twice : (k x y : ℕ) → x < 2 ^ k → y < 2 ^ k → bit_xor (bit_xor x y) y ≡ x
xor_twice zero x y h h' = rw (the_zero x h, the_zero y h') refl
  where
    the_zero : (n : ℕ) → n < 2 ^ 0 → n ≡ 0
    the_zero n h = omega arith
xor_twice (suc k) x y h h' =
    let ih =
      xor_twice k (x / 2) (y / 2) (omega (arith, pow-suc 2 k)) (omega (arith, pow-suc 2 k)) in
    let (half, low) = xor_halves x y in
    let (half', low') = xor_halves (bit_xor x y) y in
    let (_, back) = differ_twice (x % 2) (y % 2) (omega arith) (omega arith) in
    let high : bit_xor (bit_xor x y) y / 2 ≡ x / 2 =
      half' ∙ ap (λ z. bit_xor z (y / 2)) half ∙ ih in
    let bottom : bit_xor (bit_xor x y) y % 2 ≡ x % 2 =
      low' ∙ ap (λ z. differ z (y % 2)) low ∙ back in
    omega (arith, high, bottom)

abbrev pub AllBytes : Text → Type 0
AllBytes [] = Unit
AllBytes (b ∷ bs) = (b < 256) × AllBytes bs

pub get_or-AllBytes : (t : Text) (i : ℕ) → AllBytes t → get_or t i 0 < 256
get_or-AllBytes [] i h = omega arith
get_or-AllBytes (b ∷ bs) zero h = h.0
get_or-AllBytes (b ∷ bs) (suc i) h = get_or-AllBytes bs i h.1

pub unmask-mask_from :
    (mask : Text) (i : ℕ) (payload : Text)
    → AllBytes mask
    → AllBytes payload
    → unmask
        (get_or mask (i % 4) 0)
        (get_or mask ((i + 1) % 4) 0)
        (get_or mask ((i + 2) % 4) 0)
        (get_or mask ((i + 3) % 4) 0)
        (mask_from mask i payload)
      ≡ payload
unfolding mask_from
unmask-mask_from mask i [] hm hp = refl
unmask-mask_from mask i (b ∷ bs) hm hp =
    let turn : i % 4 ≡ (suc i + 3) % 4 = omega arith in
    let e1 : i + 1 ≡ suc i = omega arith in
    let e2 : i + 2 ≡ suc i + 1 = omega arith in
    let e3 : i + 3 ≡ suc i + 2 = omega arith in
    let ih = unmask-mask_from mask (suc i) bs hm hp.1 in
    let first = xor_twice 8 b (get_or mask (i % 4) 0) hp.0 (get_or-AllBytes mask (i % 4) hm) in
    rw first (
      ap (λ l. b ∷ l)
        (rw (e1, e2, e3)
          (subst
            (λ k.
              unmask (get_or mask (suc i % 4) 0) (get_or mask ((suc i + 1) % 4) 0)
                (get_or mask ((suc i + 2) % 4) 0) (get_or mask k 0) (mask_from mask (suc i) bs)
              ≡ bs)
            (sym turn) ih)))

pub length-mask_from : (mask : Text) (i : ℕ) (bs : Text) → length (mask_from mask i bs) ≡ length bs
unfolding mask_from
length-mask_from mask i [] = refl
length-mask_from mask i (b ∷ bs) = ap suc (length-mask_from mask (suc i) bs)
