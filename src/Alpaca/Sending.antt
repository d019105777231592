-- ===== src/Alpaca/Sending.antt =====
-- A frame that `send_frame` writes is one that a server reads back.
use trade_feed.Prelude.{
  ℕ, zero, suc, ◌+◌, ◌-◌, ◌%◌, ◌^◌, ◌<◌, ◌≤◌, ◌≡◌, refl, sym, subst, ap, ◌∙◌, true, false, some, [],
  ◌∷◌, ◌++◌, arith, length, take, drop, take-append-drop, length-drop, append_assoc, append-nil,
  Bool-cases, inl, inr, ltb, leb, ◌==◌, length-append, ◌||◌, get_or,
}
use trade_feed.Types.{u64_mod, u32_mod}
use trade_feed.Feed.{Text}
use trade_feed.Alpaca.{
  Client, Tls, offer, write_loop, write_all, high_bytes, length_field, mask_from, send_frame,
}
use trade_feed.Alpaca.Rfc.{value_of, unmask, parse_length, parse_payload, parse_frame}
use trade_feed.Alpaca.Masking.{AllBytes, unmask-mask_from, length-mask_from}

-- What the client relies on in OpenSSL while the connection stands: a write takes a byte or more, and
-- four random bytes are four bytes.
pub record IsTls (tls : Tls) : Type 0 where
  pub writes : (n len : ℕ) → 0 < len → 0 < tls.ssl_write n len
  pub draws :
      (i : ℕ) → (mask : Text) × (tls.rand_bytes i 4 ≡ some mask) × (length mask ≡ 4) × AllBytes mask

module _ (tls : Tls) (up : IsTls tls) where
  offer-positive : (c : Client) (len : ℕ) → 0 < len → len < 2 ^ 31 → 0 < offer tls c len
  unfolding offer
  offer-positive c len pos small = ground (arith, up.writes (length c.wire) (len % u32_mod))

  write_loop-sends :
      (fuel : ℕ) (c : Client) (p : Text)
      → length p ≤ fuel
      → length p < 2 ^ 31
      → write_loop tls fuel c p ≡ (record c { wire = c.wire ++ p }, true)
  unfolding write_loop
  write_loop-sends fuel c [] h small = rw (append-nil c.wire) refl
  write_loop-sends zero c (x ∷ p) h small = absurd (omega arith)
  write_loop-sends (suc fuel) c (x ∷ p) h small =
      let pos = offer-positive c (length (x ∷ p)) (omega arith) small in
      let n = offer tls c (length (x ∷ p)) in
      let some_taken : (n == 0) ≡ false = ground (arith, pos) in
      let fewer = length-drop n (x ∷ p) in
      let ih =
        write_loop-sends fuel (record c { wire = c.wire ++ take n (x ∷ p) }) (drop n (x ∷ p))
          (omega (arith, fewer, pos)) (omega (arith, fewer)) in
      let whole =
        append_assoc c.wire (take n (x ∷ p)) (drop n (x ∷ p))
        ∙ ap (λ t. c.wire ++ t) (take-append-drop n (x ∷ p)) in
      rw some_taken (ih ∙ ap (λ t. (record c { wire = t }, true)) whole)

  -- All bytes are written, whatever pieces `SSL_write` takes.
  pub write_all-sends :
      (c : Client) (p : Text)
      → length p < 2 ^ 31
      → write_all tls c p ≡ (record c { wire = c.wire ++ p }, true)
  unfolding write_all
  write_all-sends c p = write_loop-sends (length p) c p (omega arith)

two_bytes : (n : ℕ) → n ≤ 65_535 → value_of 0 (high_bytes 2 n) ≡ n
two_bytes n h = omega arith

eight_bytes : (n : ℕ) → n < u64_mod → value_of 0 (high_bytes 8 n) ≡ n
eight_bytes n h = omega arith

parse_two : (n : ℕ) (s : Text) → n ≤ 65_535 → parse_length 126 (high_bytes 2 n ++ s) ≡ some (n, s)
unfolding parse_length
parse_two n s h =
    let roomy : ltb (length (high_bytes 2 n ++ s)) 2 ≡ false = ground arith in
    rw (roomy, two_bytes n h) refl

parse_eight :
    (n : ℕ) (s : Text) → n < u64_mod → parse_length 127 (high_bytes 8 n ++ s) ≡ some (n, s)
unfolding parse_length
parse_eight n s h =
    let roomy : ltb (length (high_bytes 8 n ++ s)) 8 ≡ false = ground arith in
    rw (roomy, eight_bytes n h) refl

-- The length field says the length, and no more.
pub parse_length-length_field :
    (n : ℕ) (bit : ℕ)
    → n < u64_mod
    → (code : ℕ) × (bytes : Text) × (length_field bit n ≡ (bit + code) ∷ bytes)
      × ((s : Text) → parse_length code (bytes ++ s) ≡ some (n, s))
      × (code < 128)
      × (length bytes ≤ 8)
unfolding length_field parse_length
parse_length-length_field n bit fits = elim (Bool-cases (ltb n 126)) [
  | inl short ↦
      rw short (n, [], refl, (λ s. ground (arith, short)), ground (arith, short), omega arith)
  | inr long ↦ elim (Bool-cases (leb n 65_535)) [
    | inl middle ↦
        rw (long, middle)
          (
            126,
            high_bytes 2 n,
            refl,
            (λ s. parse_two n s (ground (arith, middle))),
            omega arith,
            omega arith,
          )
    | inr huge ↦
        rw (long, huge)
          (127, high_bytes 8 n, refl, (λ s. parse_eight n s fits), omega arith, omega arith)
  ]
]

-- A text of four bytes, by its parts.
four_keys :
    (mask : Text)
    → length mask ≡ 4
    → mask ≡ get_or mask 0 0 ∷ get_or mask 1 0 ∷ get_or mask 2 0 ∷ get_or mask 3 0 ∷ []
four_keys [] h = absurd (omega (arith, h))
four_keys (a ∷ []) h = absurd (omega (arith, h))
four_keys (a ∷ b ∷ []) h = absurd (omega (arith, h))
four_keys (a ∷ b ∷ c ∷ []) h = absurd (omega (arith, h))
four_keys (a ∷ b ∷ c ∷ d ∷ []) h = refl
four_keys (a ∷ b ∷ c ∷ d ∷ e ∷ more) h = absurd (omega (arith, h))

pub take-append : (t s : Text) → take (length t) (t ++ s) ≡ t
take-append [] s = refl
take-append (x ∷ t) s = ap (λ l. x ∷ l) (take-append t s)

pub drop-append : (t s : Text) → drop (length t) (t ++ s) ≡ s
drop-append [] s = refl
drop-append (x ∷ t) s = drop-append t s

parse_payload-mask_from :
    (opcode : ℕ) (mask payload s : Text)
    → length mask ≡ 4
    → AllBytes mask
    → AllBytes payload
    → parse_payload opcode (length payload) (mask ++ (mask_from mask 0 payload ++ s))
      ≡ some ((opcode, payload), s)
unfolding parse_payload
parse_payload-mask_from opcode mask payload s four hm hp =
    subst
      (λ m.
        parse_payload opcode (length payload) (m ++ (masked ++ s)) ≡ some ((opcode, payload), s))
      (sym (four_keys mask four)) (rw (roomy, taken, dropped, back) refl)
  where
    masked : Text
    masked = mask_from mask 0 payload

    roomy : ltb (length (masked ++ s)) (length payload) ≡ false
    roomy = ground (arith, length-append masked s, length-mask_from mask 0 payload)

    taken : take (length payload) (masked ++ s) ≡ masked
    taken =
        subst (λ n. take n (masked ++ s) ≡ masked) (length-mask_from mask 0 payload)
          (take-append masked s)

    dropped : drop (length payload) (masked ++ s) ≡ s
    dropped =
        subst (λ n. drop n (masked ++ s) ≡ s) (length-mask_from mask 0 payload)
          (drop-append masked s)

    back :
        unmask (get_or mask 0 0) (get_or mask 1 0) (get_or mask 2 0) (get_or mask 3 0) masked
        ≡ payload
    back = unmask-mask_from mask 0 payload hm hp

parse_frame-by_length :
    (opcode code len : ℕ) (t u : Text)
    → parse_length code t ≡ some (len, u)
    → parse_frame ((128 + opcode) ∷ (128 + code) ∷ t) ≡ parse_payload opcode len u
unfolding parse_frame
parse_frame-by_length opcode code len t u h =
    let big : (ltb (128 + opcode) 128 || ltb (128 + code) 128) ≡ false = ground arith in
    let op : 128 + opcode - 128 ≡ opcode = omega arith in
    let co : 128 + code - 128 ≡ code = omega arith in rw (big, co, h, op) refl

module _ (tls : Tls) (up : IsTls tls) where
  -- While the connection stands, `send_frame` of a payload that fits in a 32-bit `int` with its
  -- header writes one frame: a server that reads it by RFC 6455 gets the opcode and the payload,
  -- and what comes after the frame is not touched.
  pub send_frame-parse_frame :
      (c : Client) (opcode : ℕ) (payload : Text)
      → AllBytes payload
      → length payload + 14 < 2 ^ 31
      → (f : Text) × (send_frame tls c opcode payload
          ≡ (record c { wire = c.wire ++ f; draws = suc c.draws }, true))
        × ((s : Text) → parse_frame (f ++ s) ≡ some ((opcode, payload), s))
  unfolding send_frame
  send_frame-parse_frame c opcode payload hp small =
      let (mask, drawn, four, hm) = up.draws c.draws in
      let (code, bytes, is, parses, _, few) =
        parse_length-length_field (length payload) 128 (omega arith) in
      let masked = mask_from mask 0 payload in
      let f = (128 + opcode) ∷ length_field 128 (length payload) ++ mask ++ masked in
      let size : length f < 2 ^ 31 = rw is (
        omega (
          arith,
          few,
          four,
          length-mask_from mask 0 payload,
          length-append bytes (mask ++ masked),
          length-append mask masked,
          length-append (bytes ++ mask) masked,
          length-append bytes mask,
        )) in
      (
        f,
        rw (drawn, send_frame) (write_all-sends tls up (record c { draws = suc c.draws }) f size),
        λ s. rw is (
            ap (λ t. parse_frame ((128 + opcode) ∷ (128 + code) ∷ t))
              (append_assoc (bytes ++ mask) masked s ∙ append_assoc bytes mask (masked ++ s))
            ∙ parse_frame-by_length opcode code (length payload) _ _
                (parses (mask ++ (masked ++ s)))
            ∙ parse_payload-mask_from opcode mask payload s four hm hp),
      )
