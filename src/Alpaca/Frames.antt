-- ===== src/Alpaca/Frames.antt =====
-- `read_frame` gives the caller the next text or binary frame, and answers the pings before it.
use trade_feed.Prelude.{
  ℕ, zero, suc, ◌+◌, ◌^◌, ◌<◌, ◌≤◌, ◌≡◌, refl, sym, ap, ◌∙◌, ◌⊎◌, inl, inr, true, List, [], ◌∷◌,
  ◌++◌, length, length-append, if◌then◌else◌, arith, subst, some,
}
use trade_feed.Types.{u64_mod}
use trade_feed.Feed.{Text}
use trade_feed.Alpaca.{
  Client, Tls, Outcome, frame, again, by_opcode, read_round, frame_loop, read_frame, pending,
  op_text, op_binary, op_ping, op_pong, send_frame, length_field,
}
use trade_feed.Alpaca.Rfc.{parse_frame}
use trade_feed.Alpaca.Masking.{AllBytes}
use trade_feed.Alpaca.Sending.{IsTls, send_frame-parse_frame}
use trade_feed.Alpaca.Reading.{AllFull}
use trade_feed.Alpaca.Receiving.{server_frame, read_round-Took}

-- A ping or a pong, with a payload short enough to be sent back.
pub record IsControl (opcode : ℕ) (payload : Text) : Type 0 where
  pub kind : (opcode ≡ op_ping) ⊎ (opcode ≡ op_pong)
  pub bytes : AllBytes payload
  pub short : length payload + 14 < 2 ^ 31

abbrev pub AllControls : List (ℕ × Text) → Type 0
AllControls [] = Unit
AllControls ((opcode, payload) ∷ cs) = IsControl opcode payload × AllControls cs

-- Frames on the wire, before the text `t`.
abbrev pub stream : List (ℕ × Text) → Text → Text
stream [] t = t
stream ((opcode, payload) ∷ cs) t = server_frame opcode payload ++ stream cs t

-- The pings among frames are answered one by one: each adds a frame to what is sent that the server
-- reads as a pong with the same payload.
pub data Answers : List (ℕ × Text) → Text → Text → Type 0 where
  no_more : {w : Text} → Answers [] w w
  unanswered :
      {payload : Text} {cs : List (ℕ × Text)} {w w' : Text}
      → Answers cs w w'
      → Answers ((op_pong, payload) ∷ cs) w w'
  answered :
      {payload : Text} {cs : List (ℕ × Text)} {w w' : Text} (f : Text)
      → ((s : Text) → parse_frame (f ++ s) ≡ some ((op_pong, payload), s))
      → Answers cs (w ++ f) w'
      → Answers ((op_ping, payload) ∷ cs) w w'

abbrev pub IsData : ℕ → Type 0
IsData opcode = (opcode ≡ op_text) ⊎ (opcode ≡ op_binary)

-- What the caller gets.
pub record Delivered (c : Client) (cs : List (ℕ × Text)) (payload rest : Text) (out : Outcome)
    : Type 0 where
  pub client : Client
  pub outcome : out ≡ frame client payload
  pub left : pending client ≡ rest
  pub error : client.error ≡ c.error
  pub answers : Answers cs c.wire client.wire
  pub full : AllFull client.incoming

by_opcode-data :
    (tls : Tls) (c : Client) (opcode : ℕ) (payload : Text)
    → IsData opcode
    → by_opcode tls c opcode payload ≡ frame c payload
unfolding by_opcode
by_opcode-data tls c opcode payload (inl e) = rw e refl
by_opcode-data tls c opcode payload (inr e) = rw e refl

by_opcode-ping :
    (tls : Tls) (c c' : Client) (payload : Text)
    → send_frame tls c op_pong payload ≡ (c', true)
    → by_opcode tls c op_ping payload ≡ again c'
unfolding by_opcode
by_opcode-ping tls c c' payload e = ap (λ r. if r.1 then again r.0 else Outcome.stopped r.0) e

by_opcode-pong :
    (tls : Tls) (c : Client) (payload : Text) → by_opcode tls c op_pong payload ≡ again c
unfolding by_opcode
by_opcode-pong tls c payload = refl

data_small : (opcode : ℕ) → IsData opcode → opcode < 16
data_small opcode (inl e) = omega (arith, e)
data_small opcode (inr e) = omega (arith, e)

frame_loop-frame :
    (tls : Tls) (fuel : ℕ) (c c' : Client) (payload : Text)
    → read_round tls c ≡ frame c' payload
    → frame_loop tls (suc fuel) c ≡ frame c' payload
unfolding frame_loop
frame_loop-frame tls fuel c c' payload e = rw (e, frame_loop)

frame_loop-again :
    (tls : Tls) (fuel : ℕ) (c c' : Client)
    → read_round tls c ≡ again c'
    → frame_loop tls (suc fuel) c ≡ frame_loop tls fuel c'
unfolding frame_loop
frame_loop-again tls fuel c c' e = rw (e, frame_loop) refl

control_small : {opcode : ℕ} → (opcode ≡ op_ping) ⊎ (opcode ≡ op_pong) → opcode < 16
control_small (inl e) = omega (arith, e)
control_small (inr e) = omega (arith, e)

-- Every frame takes room.
stream_longer : (cs : List (ℕ × Text)) (t : Text) → length cs ≤ length (stream cs t)
stream_longer [] t = omega arith
stream_longer ((opcode, payload) ∷ cs) t = omega (
  arith,
  stream_longer cs t,
  length-append (length_field 0 (length payload) ++ payload) (stream cs t),
)

module _ (tls : Tls) (up : IsTls tls) (opcode : ℕ) (payload rest : Text) (kind : IsData opcode)
    (fits : length payload + 14 < u64_mod) where
  abbrev behind : Text
  behind = server_frame opcode payload ++ rest

  frame_loop-Delivered :
      (cs : List (ℕ × Text)) (fuel : ℕ) (c : Client)
      → length cs < fuel
      → AllControls cs
      → AllFull c.incoming
      → pending c ≡ stream cs behind
      → Delivered c cs payload rest (frame_loop tls fuel c)
  frame_loop-Delivered cs zero c h ok full comes = absurd (omega arith)
  frame_loop-Delivered [] (suc fuel) c h ok full comes =
      let (c1, round, t) =
        read_round-Took tls c full opcode payload rest (data_small opcode kind) fits comes in
      record {
        client = c1;
        outcome =
            frame_loop-frame tls fuel c c1 payload
              (round ∙ by_opcode-data tls c1 opcode payload kind);
        left = t.left;
        error = t.error;
        answers = subst (λ w. Answers [] w c1.wire) t.wire no_more;
        full = t.full;
      }
  frame_loop-Delivered ((op, p) ∷ cs) (suc fuel) c h (ok, oks) full comes =
      let (c1, round, t) =
        read_round-Took tls c full op p (stream cs behind) (control_small ok.kind)
          (omega (arith, ok.short)) comes in
      elim ok.kind [
        | inr is_pong ↦
            let go = round ∙ ap (λ k. by_opcode tls c1 k p) is_pong ∙ by_opcode-pong tls c1 p in
            let d = frame_loop-Delivered cs fuel c1 (omega arith) oks t.full t.left in
            record {
              client = d.client;
              outcome = frame_loop-again tls fuel c c1 go ∙ d.outcome;
              left = d.left;
              error = d.error ∙ t.error;
              answers =
                  subst (λ k. Answers ((k, p) ∷ cs) c.wire d.client.wire) (sym is_pong)
                    (unanswered (subst (λ w. Answers cs w d.client.wire) t.wire d.answers));
              full = d.full;
            }
        | inl is_ping ↦
            let (f, sent, parses) = send_frame-parse_frame tls up c1 op_pong p ok.bytes ok.short in
            let c2 = record c1 { wire = c1.wire ++ f; draws = suc c1.draws } in
            let go =
              round ∙ ap (λ k. by_opcode tls c1 k p) is_ping ∙ by_opcode-ping tls c1 c2 p sent in
            let d = frame_loop-Delivered cs fuel c2 (omega arith) oks t.full t.left in
            record {
              client = d.client;
              outcome = frame_loop-again tls fuel c c2 go ∙ d.outcome;
              left = d.left;
              error = d.error ∙ t.error;
              answers =
                  subst (λ k. Answers ((k, p) ∷ cs) c.wire d.client.wire) (sym is_ping)
                    (answered f parses
                      (subst (λ w. Answers cs (w ++ f) d.client.wire) t.wire d.answers));
              full = d.full;
            }
      ]

  -- While the connection stands, what there is to read is pings and pongs and then a text or binary
  -- frame, in whatever chunks it comes: `read_frame` gives that frame's payload, leaves what
  -- follows the frame, and has answered each ping, in order, with a frame that the server reads as
  -- a pong with the same payload.
  pub read_frame-Delivered :
      (c : Client) (cs : List (ℕ × Text))
      → AllControls cs
      → AllFull c.incoming
      → pending c ≡ stream cs behind
      → Delivered c cs payload rest (read_frame tls c)
  unfolding read_frame
  read_frame-Delivered c cs ok full comes =
      frame_loop-Delivered cs (suc (length (pending c))) c
        (omega (arith, stream_longer cs behind, ap length comes)) ok full comes
