-- ===== src/Tests/Wire.antt =====
-- The theorems on the WebSocket client at concrete inputs.
use trade_feed.Prelude.{◌≡◌, refl, inl, true, some, none, [], ◌∷◌, ◌++◌, arith, replicate}
use trade_feed.Prelude.Ascii.{ascii}
use trade_feed.Feed.{Text}
use trade_feed.Alpaca.{Client, Tls, length_field, send_frame, read_frame, pending, op_text, op_ping}
use trade_feed.Alpaca.Rfc.{parse_frame}
use trade_feed.Alpaca.Sending.{IsTls, send_frame-parse_frame}
use trade_feed.Alpaca.Reading.{AllFull}
use trade_feed.Alpaca.Frames.{AllControls, IsData, Delivered, read_frame-Delivered}
use trade_feed.Alpaca.Session.{await}
use trade_feed.Alpaca.Waiting.{Message, Heard, accepted, await-Heard}

-- Five bytes are taken at a time.
abbrev tls : Tls
tls = record {
  ssl_write = λ n len. 5;
  rand_bytes = λ i n. some (replicate n 170);
  err_get_error = λ c. none;
}

tls-IsTls : IsTls tls
tls-IsTls = record {
  writes = λ n len h. omega arith;
  draws = λ i. (
    170 ∷ 170 ∷ 170 ∷ 170 ∷ [],
    refl,
    refl,
    (omega arith, (omega arith, (omega arith, (omega arith, tt)))),
  );
}

-- A ping, the text `hi` and the start of another frame, in four chunks.
abbrev client : Client
client = record {
  rx = 137 ∷ [];
  error = [];
  incoming = (1 ∷ 55 ∷ []) ∷ (129 ∷ 2 ∷ []) ∷ (104 ∷ 105 ∷ 129 ∷ []) ∷ [];
  wire = [];
  draws = 0;
}

abbrev hi : Text
hi = 104 ∷ 105 ∷ []

IsData-text : IsData op_text
IsData-text = inl refl

send_frame-parse_frame_example :
    (f : Text) × (send_frame tls client op_text hi
      ≡ (record client { wire = client.wire ++ f; draws = 1 }, true))
    × ((s : Text) → parse_frame (f ++ s) ≡ some ((op_text, hi), s))
send_frame-parse_frame_example =
    send_frame-parse_frame tls tls-IsTls client op_text hi (omega arith, (omega arith, tt))
      (omega arith)

full : AllFull client.incoming
full = (omega arith, (omega arith, (omega arith, tt)))

one_ping : AllControls ((op_ping, 55 ∷ []) ∷ [])
one_ping = (record { kind = inl refl; bytes = (omega arith, tt); short = omega arith }, tt)

comes :
    pending client ≡ 137 ∷ length_field 0 1 ++ 55 ∷ [] ++ 129 ∷ length_field 0 2 ++ hi ++ 129 ∷ []
unfolding length_field
comes = refl

read_frame-Delivered_example :
    Delivered client ((op_ping, 55 ∷ []) ∷ []) hi (129 ∷ []) (read_frame tls client)
unfolding length_field
read_frame-Delivered_example =
    read_frame-Delivered tls tls-IsTls op_text hi (129 ∷ []) IsData-text (omega arith) client
      ((op_ping, 55 ∷ []) ∷ []) one_ping full refl

abbrev greeting : Message
greeting = record { controls = (op_ping, 55 ∷ []) ∷ []; opcode = op_text; payload = hi }

abbrev reply : Message
reply = record { controls = []; opcode = op_text; payload = 33 ∷ 34 ∷ [] }

abbrev waiting : Client
waiting = record client {
  incoming = (1 ∷ 55 ∷ 129 ∷ []) ∷ (2 ∷ 104 ∷ 105 ∷ 129 ∷ []) ∷ (2 ∷ 33 ∷ 34 ∷ []) ∷ [];
}

await-Heard_example : Heard (97 ∷ []) [] [] accepted (await tls waiting (34 ∷ []) (97 ∷ []))
unfolding length_field ascii
await-Heard_example =
    await-Heard tls tls-IsTls (34 ∷ []) (97 ∷ []) [] (greeting ∷ reply ∷ []) waiting accepted
      (
        record { controls = one_ping; kind = IsData-text; fits = omega arith },
        (record { controls = tt; kind = IsData-text; fits = omega arith }, tt),
      )
      (omega arith, (omega arith, (omega arith, tt))) refl refl
