-- ===== src/Alpaca/Receiving.antt =====
-- A frame that a server sends is the one that a round of `read_frame` takes.
use trade_feed.Prelude.{
  ℕ, zero, suc, ◌+◌, ◌*◌, ◌/◌, ◌%◌, ◌^◌, ◌<◌, ◌≤◌, ◌≡◌, refl, sym, ap, ◌∙◌, false, some, Bool-cases,
  inl, inr, [], ◌∷◌, ◌++◌, length, length-append, length-drop, append_assoc, take, drop, get_or,
  leb, ltb, ◌==◌, if◌then◌else◌, arith, subst,
}
use trade_feed.Types.{u64_mod}
use trade_feed.Feed.{Text}
use trade_feed.Alpaca.{
  Client, Tls, read_exact, read_header, read_body, after_header, read_round, by_opcode,
  length_field, high_bytes, from_bytes, joined, pending,
}
use trade_feed.Alpaca.Reading.{
  AllFull, Fed, Fed-trans, read_exact-Fed, rx_at, rx_behind, take-append_le,
}
use trade_feed.Alpaca.Sending.{take-append, drop-append, parse_length-length_field}

-- A whole frame, as a server sends it: final and not masked.
abbrev pub server_frame : ℕ → Text → Text
server_frame opcode payload = (128 + opcode) ∷ length_field 0 (length payload) ++ payload

abbrev header_of : ℕ → ℕ
header_of n = if ltb n 126 then 2 else if leb n 65_535 then 4 else 10

two_read : (n : ℕ) → n ≤ 65_535 → n / 2 ^ 8 % 256 * 256 + n / 2 ^ 0 % 256 ≡ n
two_read n h = omega arith

eight_read : (n : ℕ) → n < u64_mod → from_bytes 0 (high_bytes 8 n) ≡ n
unfolding from_bytes
eight_read n h = omega arith

module _ (tls : Tls) (c : Client) (full : AllFull c.incoming) (opcode n : ℕ) (t : Text)
    (fits : n < u64_mod) (comes : pending c ≡ (128 + opcode) ∷ length_field 0 n ++ t) where
  -- The header is read, whichever of its three forms it has.
  read_header-Fed :
      (c' : Client) × (read_header tls c ≡ (c', some (header_of n, n))) × Fed c (header_of n) c'
  unfolding read_header length_field
  read_header-Fed = elim (Bool-cases (ltb n 126)) [
    | inl short ↦
        let is : pending c ≡ (128 + opcode) ∷ n ∷ t =
          let z : 0 + n ≡ n = omega arith in comes ∙ rw (short, z) refl in
        let (two, f) = read_exact-Fed tls 2 c full (omega (arith, ap length is)) in
        let c1 = (read_exact tls c 2).0 in
        let code : get_or c1.rx 1 0 ≡ n =
          rx_at c c1 2 1 f (omega arith) ∙ ap (λ l. get_or l 1 0) is in
        let not126 : (n % 128 == 126) ≡ false = ground (arith, short) in
        let not127 : (n % 128 == 127) ≡ false = ground (arith, short) in
        let same : n % 128 ≡ n = ground (arith, short) in
        (c1, rw (two, code, not126, not127, short, same) refl, rw short f)
    | inr long ↦ elim (Bool-cases (leb n 65_535)) [
      | inl middle ↦
          let is : pending c ≡ (128 + opcode) ∷ 126 ∷ n / 2 ^ 8 % 256 ∷ n / 2 ^ 0 % 256 ∷ t =
            comes ∙ rw (long, middle) refl in
          let (two, f) = read_exact-Fed tls 2 c full (omega (arith, ap length is)) in
          let c1 = (read_exact tls c 2).0 in
          let (four, g) =
            read_exact-Fed tls 4 c1 f.full (omega (arith, ap length is, ap length f.pending)) in
          let c2 = (read_exact tls c1 4).0 in
          let both = Fed-trans f g in
          let code : get_or c1.rx 1 0 ≡ 126 =
            rx_at c c1 2 1 f (omega arith) ∙ ap (λ l. get_or l 1 0) is in
          let high : get_or c2.rx 2 0 ≡ n / 2 ^ 8 % 256 =
            rx_at c c2 4 2 both (omega arith) ∙ ap (λ l. get_or l 2 0) is in
          let low : get_or c2.rx 3 0 ≡ n / 2 ^ 0 % 256 =
            rx_at c c2 4 3 both (omega arith) ∙ ap (λ l. get_or l 3 0) is in
          let value = two_read n (ground (arith, middle)) in
          (c2, rw (two, code, four, high, low, long, middle, value) refl, rw (long, middle) both)
      | inr huge ↦
          let is : pending c ≡ (128 + opcode) ∷ 127 ∷ high_bytes 8 n ++ t =
            comes ∙ rw (long, huge) refl in
          let (two, f) = read_exact-Fed tls 2 c full (omega (arith, ap length is)) in
          let c1 = (read_exact tls c 2).0 in
          let (ten, g) =
            read_exact-Fed tls 10 c1 f.full (omega (arith, ap length is, ap length f.pending)) in
          let c3 = (read_exact tls c1 10).0 in
          let both = Fed-trans f g in
          let code : get_or c1.rx 1 0 ≡ 127 =
            rx_at c c1 2 1 f (omega arith) ∙ ap (λ l. get_or l 1 0) is in
          let bytes : take 8 (drop 2 c3.rx) ≡ high_bytes 8 n =
            sym (
              take-append_le 8 (drop 2 c3.rx) (joined c3.incoming)
                (omega (arith, length-drop 2 c3.rx, both.room)))
            ∙ ap (take 8) (rx_behind c c3 10 2 both (omega arith) ∙ ap (drop 2) is) in
          let value = eight_read n fits in
          (c3, rw (two, code, ten, bytes, long, huge, value) refl, rw (long, huge) both)
    ]
  ]

header_length : (n : ℕ) → length (length_field 0 n) + 1 ≡ header_of n
unfolding length_field
header_length n = elim (Bool-cases (ltb n 126)) [
  | inl short ↦ rw short (omega arith)
  | inr long ↦ elim (Bool-cases (leb n 65_535)) [
    | inl middle ↦ rw (long, middle) (omega arith)
    | inr huge ↦ rw (long, huge) (omega arith)
  ]
]

header_two : (n : ℕ) → 2 ≤ header_of n
header_two n = ground arith

header_small : (n : ℕ) → header_of n ≤ 10
header_small n = ground arith

drop_nil : (n : ℕ) → drop {A = ℕ} n [] ≡ []
drop_nil zero = refl
drop_nil (suc n) = refl

drop-drop : (k n : ℕ) (t : Text) → drop (k + n) t ≡ drop n (drop k t)
drop-drop zero n t = rw (zero_plus n) refl
  where
    zero_plus : (m : ℕ) → 0 + m ≡ m
    zero_plus m = omega arith
drop-drop (suc k) n [] = drop_nil (suc k + n) ∙ sym (drop_nil n)
drop-drop (suc k) n (x ∷ t) = rw (suc_plus k n) (drop-drop k n t)
  where
    suc_plus : (a b : ℕ) → suc a + b ≡ suc (a + b)
    suc_plus a b = omega arith

-- The client after a frame was taken: `rest` is left to read, and nothing was sent.
pub record Took (c : Client) (rest : Text) (c' : Client) : Type 0 where
  pub left : pending c' ≡ rest
  pub error : c'.error ≡ c.error
  pub wire : c'.wire ≡ c.wire
  pub draws : c'.draws ≡ c.draws
  pub full : AllFull c'.incoming

module _ (tls : Tls) (c : Client) (full : AllFull c.incoming) (opcode : ℕ) (payload rest : Text)
    (four_bits : opcode < 16) (fits : length payload + 14 < u64_mod)
    (comes : pending c ≡ server_frame opcode payload ++ rest) where
  abbrev n : ℕ
  n = length payload

  abbrev hdr : ℕ
  hdr = header_of n

  comes_by : pending c ≡ (128 + opcode) ∷ length_field 0 n ++ (payload ++ rest)
  comes_by = comes ∙ ap (λ t. (128 + opcode) ∷ t) (append_assoc (length_field 0 n) payload rest)

  -- What follows the header.
  behind_header : drop hdr (pending c) ≡ payload ++ rest
  behind_header =
      let size : length ((128 + opcode) ∷ length_field 0 n) ≡ hdr =
        omega (arith, header_length n) in
      subst (λ k. drop k (pending c) ≡ payload ++ rest) size
        (ap (drop (length ((128 + opcode) ∷ length_field 0 n))) comes_by
          ∙ drop-append ((128 + opcode) ∷ length_field 0 n) (payload ++ rest))

  pending_size : length (pending c) ≡ hdr + (n + length rest)
  pending_size = omega (
    arith,
    ap length comes_by,
    length-append (length_field 0 n) (payload ++ rest),
    length-append payload rest,
    header_length n,
  )

  second_byte : get_or (pending c) 1 0 < 128
  second_byte =
      let (code, bytes, is, _, small, _) = parse_length-length_field n 0 (omega (arith, fits)) in
      rw (comes_by, is) (omega (arith, small))

  drop_both : drop (hdr + n) (pending c) ≡ rest
  drop_both = drop-drop hdr n (pending c) ∙ ap (drop n) behind_header ∙ drop-append payload rest

  module _ (c2 : Client) (f : Fed c (hdr + n) c2) where
    whole_payload : take n (drop hdr c2.rx) ≡ payload
    whole_payload =
        sym (
          take-append_le n (drop hdr c2.rx) (joined c2.incoming)
            (omega (arith, length-drop hdr c2.rx, f.room)))
        ∙ ap (take n) (rx_behind c c2 (hdr + n) hdr f (omega arith) ∙ behind_header)
        ∙ take-append payload rest

    opcode_read : get_or c2.rx 0 0 % 16 ≡ opcode
    opcode_read =
        let first =
          rx_at c c2 (hdr + n) 0 f (omega (arith, header_length n))
          ∙ ap (λ l. get_or l 0 0) comes_by in
        omega (arith, first, four_bits)

    left_over : drop (hdr + n) c2.rx ++ joined c2.incoming ≡ rest
    left_over = rx_behind c c2 (hdr + n) (hdr + n) f (omega arith) ∙ drop_both

  pub read_round-Took :
      (c' : Client) × (read_round tls c ≡ by_opcode tls c' opcode payload) × Took c rest c'
  unfolding read_round after_header read_body
  read_round-Took =
      let (c1, header, f) =
        read_header-Fed tls c full opcode n (payload ++ rest) (omega (arith, fits)) comes_by in
      let bare : leb 128 (get_or c1.rx 1 0) ≡ false =
        let e = rx_at c c1 hdr 1 f (omega (arith, header_two n)) in
        ground (arith, e, second_byte) in
      let total : (hdr + n) % u64_mod ≡ hdr + n = omega (arith, header_small n, fits) in
      let (ok, g) =
        read_exact-Fed tls (hdr + n) c1 f.full (omega (arith, pending_size, ap length f.pending)) in
      let c2 = (read_exact tls c1 (hdr + n)).0 in
      let both = Fed-trans f g in
      let long : ltb (length c2.rx) hdr ≡ false = let r = both.room in ground (arith, r) in
      (
        record c2 { rx = drop (hdr + n) c2.rx },
        ap (after_header tls) header
            ∙ rw (bare, total, ok, long, opcode_read c2 both, whole_payload c2 both) refl,
        record {
          left = left_over c2 both;
          error = both.error;
          wire = both.wire;
          draws = both.draws;
          full = both.full;
        },
      )
