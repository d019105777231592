-- ===== src/Base64.antt =====
-- `base64` of src/feed/alpaca_ws.cpp.
use trade_feed.Prelude.{
  ℕ, ◌+◌, ◌-◌, ◌*◌, ◌/◌, ◌%◌, ◌<◌, ◌≡◌, refl, ap, false, List, [], ◌∷◌, ltb, ◌==◌, if◌then◌else◌,
  arith,
}

-- The table's character for a value below 64.
unfoldable pub table_char : ℕ → ℕ
table_char n =
    if ltb n 26
    then n + 65
    else if ltb n 52
    then n + 71
    else if ltb n 62
    then n - 4
    else if n == 62
    then 43
    else 47

abbrev pub pad : ℕ
pad = 61

-- The four characters of a group of three bytes.
abbrev pub word_of : ℕ → ℕ → ℕ → ℕ
word_of a b c = a * 65_536 + b * 256 + c

-- The loop, three bytes at a time; the last group may be short.
unfoldable pub base64 : List ℕ → List ℕ
unfolding table_char
base64 [] = []
base64 (a ∷ []) =
    let v = word_of a 0 0 in
    table_char (v / 262_144 % 64) ∷ table_char (v / 4_096 % 64) ∷ pad ∷ pad ∷ []
base64 (a ∷ b ∷ []) =
    let v = word_of a b 0 in
    table_char (v / 262_144 % 64)
    ∷ table_char (v / 4_096 % 64)
    ∷ table_char (v / 64 % 64)
    ∷ pad
    ∷ []
base64 (a ∷ b ∷ c ∷ rest) =
    let v = word_of a b c in
    table_char (v / 262_144 % 64)
    ∷ table_char (v / 4_096 % 64)
    ∷ table_char (v / 64 % 64)
    ∷ table_char (v % 64)
    ∷ base64 rest

-- A decoder, by the alphabet of RFC 4648.
abbrev pub value_of : ℕ → ℕ
value_of c =
    if c == 43
    then 62
    else if c == 47
    then 63
    else if ltb c 58
    then c + 4
    else if ltb c 91
    then c - 65
    else c - 71

abbrev pub decode : List ℕ → List ℕ
decode (p ∷ q ∷ r ∷ s ∷ rest) =
    let tail = decode rest in
    let v = ((value_of p * 64 + value_of q) * 64 + value_of r) * 64 + value_of s in
    if r == pad
    then (value_of p * 64 + value_of q) / 16 ∷ []
    else if s == pad
    then (let w = (value_of p * 64 + value_of q) * 64 + value_of r in w / 1_024 ∷ w / 4 % 256 ∷ [])
    else v / 65_536 ∷ v / 256 % 256 ∷ v % 256 ∷ tail
decode _ = []

abbrev pub AreBytes : List ℕ → Type 0
AreBytes [] = Unit
AreBytes (x ∷ xs) = (x < 256) × AreBytes xs

value_of-table_char : (n : ℕ) → n < 64 → value_of (table_char n) ≡ n
unfolding table_char
value_of-table_char n small = ground arith

table_char-not_pad : (n : ℕ) → n < 64 → (table_char n == pad) ≡ false
unfolding table_char
table_char-not_pad n small = ground arith

two : {p q a b : ℕ} → p ≡ a → q ≡ b → p ∷ q ∷ [] ≡ a ∷ b ∷ []
two e f = rw (e, f) refl

three :
    {p q r a b c : ℕ} {xs ys : List ℕ}
    → xs ≡ ys
    → p ≡ a
    → q ≡ b
    → r ≡ c
    → p ∷ q ∷ r ∷ xs ≡ a ∷ b ∷ c ∷ ys
three t e f g = rw (t, e, f, g) refl

-- Decoding by the alphabet of RFC 4648 what `base64` makes of a list of bytes gives the bytes back.
pub decode-base64 : (xs : List ℕ) → AreBytes xs → decode (base64 xs) ≡ xs
unfolding base64
decode-base64 [] ok = refl
decode-base64 (a ∷ []) (ha, _) =
    let v = word_of a 0 0 in
    rw
      (
        value_of-table_char (v / 262_144 % 64) (omega arith),
        value_of-table_char (v / 4_096 % 64) (omega arith),
      )
      (ap (λ z. z ∷ []) (omega arith))
decode-base64 (a ∷ b ∷ []) (ha, (hb, _)) =
    let v = word_of a b 0 in
    rw
      (
        table_char-not_pad (v / 64 % 64) (omega arith),
        value_of-table_char (v / 262_144 % 64) (omega arith),
        value_of-table_char (v / 4_096 % 64) (omega arith),
        value_of-table_char (v / 64 % 64) (omega arith),
      )
      (two (omega arith) (omega arith))
decode-base64 (a ∷ b ∷ c ∷ rest) (ha, (hb, (hc, ok))) =
    let v = word_of a b c in
    rw
      (
        table_char-not_pad (v / 64 % 64) (omega arith),
        table_char-not_pad (v % 64) (omega arith),
        value_of-table_char (v / 262_144 % 64) (omega arith),
        value_of-table_char (v / 4_096 % 64) (omega arith),
        value_of-table_char (v / 64 % 64) (omega arith),
        value_of-table_char (v % 64) (omega arith),
      )
      (three (decode-base64 rest ok) (omega arith) (omega arith) (omega arith))
