-- ===== src/Alpaca/Rfc.antt =====
-- Frames as RFC 6455 has them, on their own: what a server reads, and what it sends.
use Prim.Native.Nat.{bit_xor}
use trade_feed.Prelude.{
  ℕ, ◌+◌, ◌*◌, ◌-◌, ◌||◌, Option, none, some, [], ◌∷◌, length, take, drop, ltb, ◌==◌, if◌then◌else◌,
}
use trade_feed.Feed.{Text}

-- A number, from its bytes, the highest first.
abbrev pub value_of : ℕ → Text → ℕ
value_of acc [] = acc
value_of acc (b ∷ bs) = value_of (acc * 256 + b) bs

-- A payload under four key bytes that take turns.
abbrev pub unmask : ℕ → ℕ → ℕ → ℕ → Text → Text
unmask k0 k1 k2 k3 [] = []
unmask k0 k1 k2 k3 (b ∷ bs) = bit_xor b k0 ∷ unmask k1 k2 k3 k0 bs

-- The length, by the seven bits `code` and the bytes after them, and the text behind it.
unfoldable pub parse_length : ℕ → Text → Option (ℕ × Text)
parse_length code s =
    let field = if code == 127 then 8 else if code == 126 then 2 else 0 in
    if ltb (length s) field
    then none
    else some (if ltb code 126 then code else value_of 0 (take field s), drop field s)

unfoldable pub parse_payload : ℕ → ℕ → Text → Option ((ℕ × Text) × Text)
parse_payload opcode len (k0 ∷ k1 ∷ k2 ∷ k3 ∷ s) =
    if ltb (length s) len
    then none
    else some ((opcode, unmask k0 k1 k2 k3 (take len s)), drop len s)
parse_payload opcode len _ = none

-- A server's reader of one whole frame: final, and masked as a client's frames must be. It answers
-- the opcode, the payload and what comes after the frame.
unfoldable pub parse_frame : Text → Option ((ℕ × Text) × Text)
parse_frame (b0 ∷ b1 ∷ s) =
    if ltb b0 128 || ltb b1 128 then none else elim (parse_length (b1 - 128) s) [
      | none ↦ none
      | some (len, t) ↦ parse_payload (b0 - 128) len t
    ]
parse_frame _ = none
