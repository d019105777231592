-- ===== src/Alpaca/Waiting.antt =====
-- `await` and `authenticate` against the messages that the server sends.
use trade_feed.Prelude.{
  ℕ, zero, suc, ◌+◌, ◌<◌, ◌≡◌, refl, sym, ap, ◌∙◌, inl, inr, Bool, true, false, Bool-cases, Option,
  none, some, List, [], ◌∷◌, ◌++◌, length, if◌then◌else◌,
}
use mathlib.Core.Option.{some-injective}
use trade_feed.Prelude.Ascii.{ascii}
use trade_feed.Types.{u64_mod}
use trade_feed.Feed.{Text}
use trade_feed.Alpaca.{Client, Tls, frame, pending, read_frame}
use trade_feed.Alpaca.Sending.{IsTls}
use trade_feed.Alpaca.Reading.{AllFull}
use trade_feed.Alpaca.Receiving.{server_frame}
use trade_feed.Alpaca.Frames.{AllControls, IsData, stream, read_frame-Delivered}
use trade_feed.Alpaca.Session.{contains, error_mark, await_loop, await}

-- A message, with the control frames before it.
pub record Message : Type 0 where
  pub controls : List (ℕ × Text)
  pub opcode : ℕ
  pub payload : Text

pub record IsMessage (m : Message) : Type 0 where
  pub controls : AllControls m.controls
  pub kind : IsData m.opcode
  pub fits : length m.payload + 14 < u64_mod

abbrev pub AllMessages : List Message → Type 0
AllMessages [] = Unit
AllMessages (m ∷ ms) = IsMessage m × AllMessages ms

-- Messages on the wire, before the text `t`.
abbrev pub messages : List Message → Text → Text
messages [] t = t
messages (m ∷ ms) t = stream m.controls (server_frame m.opcode m.payload ++ messages ms t)

-- What the first `n` messages say to one who waits for `marker`; nothing, if there are too few.
pub data Verdict : Type 0 where
  accepted : Verdict
  rejected : Text → Verdict
  unanswered : Verdict

abbrev pub judge : Text → ℕ → List Message → Option Verdict
judge marker zero ms = some unanswered
judge marker (suc n) [] = none
judge marker (suc n) (m ∷ ms) =
    let rest = judge marker n ms in
    if contains marker m.payload
    then some accepted
    else if contains error_mark m.payload
    then some (rejected m.payload)
    else rest

abbrev pub answer_of : Verdict → Bool
answer_of accepted = true
answer_of (rejected _) = false
answer_of unanswered = false

abbrev pub error_of : Text → Text → Verdict → Text
error_of what old accepted = old
error_of what old (rejected reply) = what ++ ascii " rejected: " ++ reply
error_of what old unanswered = what ++ ascii ": no response after 10 frames"

-- The answer is the verdict's, and the messages that were not read are still to come.
pub record Heard (what old rest : Text) (v : Verdict) (out : Option (Client × Bool)) : Type 0 where
  pub client : Client
  pub answer : out ≡ some (client, answer_of v)
  pub error : client.error ≡ error_of what old v
  pub unread : List Message
  pub left : pending client ≡ messages unread rest
  pub full : AllFull client.incoming

module _ (tls : Tls) (up : IsTls tls) (marker what rest : Text) where
  await_loop-frame :
      (n : ℕ) (c c1 : Client) (reply : Text)
      → read_frame tls c ≡ frame c1 reply
      → await_loop tls marker what (suc n) c ≡ (
          if contains marker reply
          then some (c1, true)
          else if contains error_mark reply
          then some (record c1 { error = what ++ ascii " rejected: " ++ reply }, false)
          else await_loop tls marker what n c1)
  unfolding await_loop
  await_loop-frame n c c1 reply e = rw (e, await_loop) refl

  await_loop-Heard :
      (n : ℕ) (ms : List Message) (c : Client) (v : Verdict)
      → AllMessages ms
      → AllFull c.incoming
      → pending c ≡ messages ms rest
      → judge marker n ms ≡ some v
      → Heard what c.error rest v (await_loop tls marker what n c)
  unfolding await_loop
  await_loop-Heard zero ms c v ok full comes e =
      let is : v ≡ unanswered = cc in
      rw is (record {
        client = record c { error = what ++ ascii ": no response after 10 frames" };
        answer = refl;
        error = refl;
        unread = ms;
        left = comes;
        full = full;
      })
  await_loop-Heard (suc n) [] c v ok full comes e = absurd (cc)
  await_loop-Heard (suc n) (m ∷ ms) c v (o, ok) full comes e =
      let d =
        read_frame-Delivered tls up m.opcode m.payload (messages ms rest) o.kind o.fits c m.controls
          o.controls full comes in
      let step = await_loop-frame n c d.client m.payload d.outcome in
      elim (Bool-cases (contains marker m.payload)) [
        | inl found ↦
            let is : v ≡ accepted = sym (some-injective _ _ (rw found at e)) in
            rw is (record {
              client = d.client;
              answer = step ∙ rw found refl;
              error = d.error;
              unread = ms;
              left = d.left;
              full = d.full;
            })
        | inr other ↦ elim (Bool-cases (contains error_mark m.payload)) [
          | inl refused ↦
              let is : v ≡ rejected m.payload =
                sym (some-injective _ _ (rw (other, refused) at e)) in
              rw is (record {
                client = record (d.client) { error = what ++ ascii " rejected: " ++ m.payload };
                answer = step ∙ rw (other, refused) refl;
                error = refl;
                unread = ms;
                left = d.left;
                full = d.full;
              })
          | inr neither ↦
              let h =
                await_loop-Heard n ms d.client v ok d.full d.left (rw (other, neither) at e) in
              record {
                client = h.client;
                answer = step ∙ rw (other, neither) h.answer;
                error = h.error ∙ ap (λ t. error_of what t v) d.error;
                unread = h.unread;
                left = h.left;
                full = h.full;
              }
        ]
      ]

  -- While the connection stands, what there is to read is messages, each with pings and pongs
  -- before it, and the first ten of them, or those up to the one that decides, give a verdict:
  -- `await` answers true if the marker comes first, and false, with the error text of the case, if
  -- an error comes first or neither comes in ten; and it reads no message after that.
  pub await-Heard :
      (ms : List Message) (c : Client) (v : Verdict)
      → AllMessages ms
      → AllFull c.incoming
      → pending c ≡ messages ms rest
      → judge marker 10 ms ≡ some v
      → Heard what c.error rest v (await tls c marker what)
  unfolding await
  await-Heard ms c v = await_loop-Heard 10 ms c v
