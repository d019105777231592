-- ===== src/Bits/Step.antt =====
-- `|` and `&` by the lowest digit of both sides.
use Prim.Native.Nat.{
  min, max, digits, bitwise, bit_and, bit_or, bit_and-bitwise, bit_or-bitwise, differ, bit_xor,
  bit_xor-bitwise,
}
use trade_feed.Prelude.{ℕ, zero, suc, ◌+◌, ◌*◌, ◌/◌, ◌%◌, ◌≤◌, ◌≡◌, refl, arith}

module _ (tail : ℕ → ℕ) (digit : ℕ → ℕ → ℕ) where
  -- Any fuel that reaches the left number gives the same digits.
  enough : (f g : ℕ) (x y : ℕ) → x ≤ f → x ≤ g → digits tail digit f x y ≡ digits tail digit g x y
  enough zero zero x y h k = refl
  enough zero (suc g) zero y h k = refl
  enough zero (suc g) (suc x) y h k = absurd (omega arith)
  enough (suc f) zero zero y h k = refl
  enough (suc f) zero (suc x) y h k = absurd (omega arith)
  enough (suc f) (suc g) zero y h k = refl
  enough (suc f) (suc g) (suc x) y h k =
      rw (enough f g (suc x / 2) (y / 2) (omega arith) (omega arith))

  lowest_digit :
      (x y : ℕ)
      → bitwise tail digit (suc x) y
        ≡ bitwise tail digit (suc x / 2) (y / 2) * 2 + digit (suc x % 2) (y % 2)
  lowest_digit x y =
      omega (arith, enough x (suc x / 2) (suc x / 2) (y / 2) (omega arith) (omega arith))

pub or_digit : (x y : ℕ) → bit_or x y ≡ bit_or (x / 2) (y / 2) * 2 + max (x % 2) (y % 2)
or_digit zero y = simp bit_or-bitwise (omega arith)
or_digit (suc x) y = simp bit_or-bitwise (lowest_digit (λ t. t) max x y)

pub and_digit : (x y : ℕ) → bit_and x y ≡ bit_and (x / 2) (y / 2) * 2 + min (x % 2) (y % 2)
and_digit zero y = simp bit_and-bitwise (omega arith)
and_digit (suc x) y = simp bit_and-bitwise (lowest_digit (λ t. 0) min x y)

pub xor_digit : (x y : ℕ) → bit_xor x y ≡ bit_xor (x / 2) (y / 2) * 2 + differ (x % 2) (y % 2)
xor_digit zero y = simp bit_xor-bitwise (omega arith)
xor_digit (suc x) y = simp bit_xor-bitwise (lowest_digit (λ t. t) differ x y)
