-- ===== src/Alpaca.antt =====
-- The WebSocket client of src/feed/alpaca_ws.h and src/feed/alpaca_ws.cpp, over what OpenSSL answers.
pub mod Rfc
pub mod Masking
pub mod Sending
pub mod Reading
pub mod Receiving
pub mod Frames
pub mod Session
pub mod Waiting
use Prim.Native.Nat.{bit_xor}
use trade_feed.Prelude.{
  ℕ, zero, suc, ◌+◌, ◌*◌, ◌/◌, ◌%◌, ◌^◌, Bool, true, false, ◌||◌, Option, none, some, List, [], ◌∷◌,
  ◌++◌, length, take, drop, get_or, ltb, leb, ◌==◌, if◌then◌else◌,
}
use trade_feed.Prelude.Ascii.{ascii}
use trade_feed.Types.{u32_mod, u64_mod}
use trade_feed.Feed.{Text}

-- The client's buffer and error, the chunks that `SSL_read` has still to give (when none are left, or
-- for an empty one, it fails), what `SSL_write` has taken, and how often random bytes were drawn.
pub record Client : Type 0 where
  pub rx : Text
  pub error : Text
  pub incoming : List Text
  pub wire : Text
  pub draws : ℕ

-- OpenSSL. `ssl_write` answers how many bytes it takes, from how many it took before and how many are
-- offered; 0 stands for its failure.
pub record Tls : Type 0 where
  pub ssl_write : ℕ → ℕ → ℕ
  pub rand_bytes : ℕ → ℕ → Option Text
  pub err_get_error : Client → Option Text

unfoldable pub fail : Tls → Client → Text → Client
fail tls c what = record c {
  error = elim (tls.err_get_error c) [ none ↦ what | some reason ↦ what ++ ascii ": " ++ reason ];
}

-- The length that is offered is cast to `int`, and `SSL_write` refuses a negative one.
unfoldable pub offer : Tls → Client → ℕ → ℕ
offer tls c len =
    let n = len % u32_mod in if leb (2 ^ 31) n then 0 else tls.ssl_write (length c.wire) n

-- The loop of `write_all`, with fuel for the bytes that are left: each round but the last takes one.
unfoldable pub write_loop : Tls → ℕ → Client → Text → Client × Bool
unfolding fail offer
write_loop tls fuel c [] = (c, true)
write_loop tls zero c (x ∷ p) = (c, false)
write_loop tls (suc fuel) c (x ∷ p) =
    let n = offer tls c (length (x ∷ p)) in
    let rest =
      write_loop tls fuel (record c { wire = c.wire ++ take n (x ∷ p) }) (drop n (x ∷ p)) in
    if n == 0 then (fail tls c (ascii "SSL_write"), false) else rest

unfoldable pub write_all : Tls → Client → Text → Client × Bool
write_all tls c bytes = write_loop tls (length bytes) c bytes

-- The loop of `read_exact`, over the chunks to come.
unfoldable pub read_loop : Tls → ℕ → List Text → Client → Client × Bool
unfolding fail
read_loop tls n [] c =
    if leb n (length c.rx) then (c, true) else (fail tls c (ascii "SSL_read"), false)
read_loop tls n ([] ∷ more) c =
    if leb n (length c.rx)
    then (c, true)
    else (fail tls (record c { incoming = more }) (ascii "SSL_read"), false)
read_loop tls n ((b ∷ bs) ∷ more) c =
    let rest = read_loop tls n more (record c { rx = c.rx ++ b ∷ bs; incoming = more }) in
    if leb n (length c.rx) then (c, true) else rest

unfoldable pub read_exact : Tls → Client → ℕ → Client × Bool
read_exact tls c n = read_loop tls n c.incoming c

abbrev pub op_text : ℕ
op_text = 1

abbrev pub op_binary : ℕ
op_binary = 2

abbrev pub op_close : ℕ
op_close = 8

abbrev pub op_ping : ℕ
op_ping = 9

abbrev pub op_pong : ℕ
op_pong = 10

-- The last `n` bytes of a number, the highest first.
abbrev pub high_bytes : ℕ → ℕ → Text
high_bytes zero v = []
high_bytes (suc n) v = v / 2 ^ (n * 8) % 256 ∷ high_bytes n v

-- The length field of a frame, with the mask bit or without.
unfoldable pub length_field : ℕ → ℕ → Text
length_field bit len =
    if ltb len 126
    then (bit + len) ∷ []
    else if leb len 65_535
    then (bit + 126) ∷ high_bytes 2 len
    else (bit + 127) ∷ high_bytes 8 len

-- `src[i] ^ mask[i & 3]`, from the index `i` on.
unfoldable pub mask_from : Text → ℕ → Text → Text
mask_from mask i [] = []
mask_from mask i (b ∷ bs) = bit_xor b (get_or mask (i % 4) 0) ∷ mask_from mask (suc i) bs

unfoldable pub send_frame : Tls → Client → ℕ → Text → Client × Bool
unfolding fail
send_frame tls c opcode payload =
    let c1 = record c { draws = suc c.draws } in
    elim (tls.rand_bytes c.draws 4) [
      | none ↦ (fail tls c1 (ascii "RAND_bytes"), false)
      | some mask ↦
          write_all tls c1
            ((128 + opcode) ∷ length_field 128 (length payload) ++ mask ++ mask_from mask 0 payload)
    ]

unfoldable pub send_text : Tls → Client → Text → Client × Bool
send_text tls c payload = send_frame tls c op_text payload

-- `(acc << 8) | b` over bytes, in 64 bits.
unfoldable pub from_bytes : ℕ → Text → ℕ
from_bytes acc [] = acc
from_bytes acc (b ∷ bs) = from_bytes ((acc * 256 + b) % u64_mod) bs

-- The header of a frame: where it ends and the length that it gives.
unfoldable pub read_header : Tls → Client → Client × Option (ℕ × ℕ)
read_header tls c =
    let (c1, two) = read_exact tls c 2 in
    let (c2, four) = read_exact tls c1 4 in
    let (c3, ten) = read_exact tls c1 10 in
    let code = get_or c1.rx 1 0 % 128 in
    if two
    then (if code == 126
        then (if four
            then (c2, some (4, get_or c2.rx 2 0 * 256 + get_or c2.rx 3 0))
            else (c2, none))
        else if code == 127
        then (if ten then (c3, some (10, from_bytes 0 (take 8 (drop 2 c3.rx)))) else (c3, none))
        else (c1, some (2, code)))
    else (c1, none)

-- What a round of `read_frame`, or all of it, comes to: a frame for the caller, another round, false,
-- or the exception of a `substr` past the end.
pub data Outcome : Type 0 where
  frame : Client → Text → Outcome
  again : Client → Outcome
  stopped : Client → Outcome
  thrown : Outcome

unfoldable pub by_opcode : Tls → Client → ℕ → Text → Outcome
by_opcode tls c opcode payload =
    if opcode == op_text || opcode == op_binary
    then frame c payload
    else if opcode == op_ping
    then (let (c1, ok) = send_frame tls c op_pong payload in if ok then again c1 else stopped c1)
    else if opcode == op_close
    then stopped (record c { error = ascii "server closed connection" })
    else again c

-- The sum of the lengths wraps in 64 bits.
unfoldable pub read_body : Tls → Client → ℕ → ℕ → Outcome
read_body tls c hdr len =
    let total = (hdr + len) % u64_mod in
    let (c1, ok) = read_exact tls c total in
    if ok
    then (if ltb (length c1.rx) hdr
        then thrown
        else by_opcode tls (record c1 { rx = drop total c1.rx }) (get_or c1.rx 0 0 % 16)
            (take len (drop hdr c1.rx)))
    else stopped c1

-- The rest of a round, after the header.
unfoldable pub after_header : Tls → Client × Option (ℕ × ℕ) → Outcome
after_header tls (c, none) = stopped c
after_header tls (c, some (hdr, len)) =
    read_body tls c (if leb 128 (get_or c.rx 1 0) then hdr + 4 else hdr) len

unfoldable pub read_round : Tls → Client → Outcome
read_round tls c = after_header tls (read_header tls c)

-- The loop of `read_frame`.
unfoldable pub frame_loop : Tls → ℕ → Client → Outcome
frame_loop tls zero c = again c
frame_loop tls (suc fuel) c = elim (read_round tls c) [
  | frame c1 payload ↦ frame c1 payload
  | again c1 ↦ frame_loop tls fuel c1
  | stopped c1 ↦ stopped c1
  | thrown ↦ thrown
]

abbrev pub joined : List Text → Text
joined [] = []
joined (t ∷ ts) = t ++ joined ts

-- What there is to read.
abbrev pub pending : Client → Text
pending c = c.rx ++ joined c.incoming

-- Each round but the last takes two bytes or more of those.
unfoldable pub read_frame : Tls → Client → Outcome
read_frame tls c = frame_loop tls (suc (length (pending c))) c
