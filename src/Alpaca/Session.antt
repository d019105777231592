-- ===== src/Alpaca/Session.antt =====
-- The upgrade of the connection, the log-in and the subscription of src/feed/alpaca_ws.cpp.
use trade_feed.Prelude.{
  ℕ, zero, suc, Bool, true, false, ◌&&◌, Option, none, some, List, [], ◌∷◌, ◌++◌, take, ◌==◌,
  if◌then◌else◌,
}
use trade_feed.Prelude.Ascii.{ascii}
use trade_feed.Feed.{Text, after}
use trade_feed.Base64.{base64}
use trade_feed.Alpaca.{
  Client, Tls, frame, again, stopped, thrown, fail, write_all, send_text, read_frame,
}

-- `find` answers a position.
abbrev pub contains : Text → Text → Bool
contains needle t = elim (after needle t) [ none ↦ false | some _ ↦ true ]

unfoldable pub json_items : Bool → List Text → Text
json_items first [] = []
json_items first (v ∷ vs) =
    (if first then [] else ascii ",") ++ ascii "\"" ++ v ++ ascii "\"" ++ json_items false vs

unfoldable pub json_array : List Text → Text
json_array vs = ascii "[" ++ json_items true vs ++ ascii "]"

abbrev pub error_mark : Text
error_mark = ascii "\"T\":\"error\""

-- The loop of `await`, with the number of rounds left. There is no result where a frame makes
-- `read_frame` throw, or loop for ever.
unfoldable pub await_loop : Tls → Text → Text → ℕ → Client → Option (Client × Bool)
await_loop tls marker what zero c =
    some (record c { error = what ++ ascii ": no response after 10 frames" }, false)
await_loop tls marker what (suc n) c = elim (read_frame tls c) [
  | frame c1 reply ↦
      let rest = await_loop tls marker what n c1 in
      if contains marker reply
      then some (c1, true)
      else if contains error_mark reply
      then some (record c1 { error = what ++ ascii " rejected: " ++ reply }, false)
      else rest
  | stopped c1 ↦ some (c1, false)
  | again c1 ↦ none
  | thrown ↦ none
]

unfoldable pub await : Tls → Client → Text → Text → Option (Client × Bool)
await tls c marker what = await_loop tls marker what 10 c

-- Sends a request and waits for the answer to it.
abbrev pub ask : Tls → Client → Text → Text → Text → Option (Client × Bool)
ask tls c msg marker what =
    let (c1, ok) = send_text tls c msg in
    let answer = await tls c1 marker what in if ok then answer else some (c1, false)

abbrev pub auth_text : Text → Text → Text
auth_text key secret =
    ascii "{\"action\":\"auth\",\"key\":\""
    ++ key
    ++ ascii "\",\"secret\":\""
    ++ secret
    ++ ascii "\"}"

abbrev pub authenticated : Text
authenticated = ascii "\"msg\":\"authenticated\""

unfoldable pub authenticate : Tls → Client → Text → Text → Option (Client × Bool)
authenticate tls c key secret = ask tls c (auth_text key secret) authenticated (ascii "auth")

unfoldable pub subscribe : Tls → Client → List Text → Bool → Bool → Option (Client × Bool)
subscribe tls c symbols trades quotes =
    ask tls c
      (ascii "{\"action\":\"subscribe\""
        ++ (if trades then ascii ",\"trades\":" ++ json_array symbols else [])
        ++ (if quotes then ascii ",\"quotes\":" ++ json_array symbols else [])
        ++ ascii "}")
      (ascii "\"T\":\"subscription\"") (ascii "subscribe")

abbrev pub line_end : Text
line_end = 13 ∷ 10 ∷ []

abbrev pub header_end : Text
header_end = 13 ∷ 10 ∷ 13 ∷ 10 ∷ []

-- The loop that reads the header block, over the chunks to come.
unfoldable pub header_loop : Tls → List Text → Client → Client × Bool
header_loop tls [] c =
    if contains header_end c.rx then (c, true) else (fail tls c (ascii "handshake read"), false)
header_loop tls ([] ∷ more) c =
    if contains header_end c.rx
    then (c, true)
    else (fail tls (record c { incoming = more }) (ascii "handshake read"), false)
header_loop tls ((b ∷ bs) ∷ more) c =
    let rest = header_loop tls more (record c { rx = c.rx ++ b ∷ bs; incoming = more }) in
    if contains header_end c.rx then (c, true) else rest

-- The text before the first `needle`, or all of it.
abbrev pub before : Text → Text → Text
before needle [] = []
before needle (d ∷ s) = elim (trade_feed.Feed.strip needle (d ∷ s)) [
  | none ↦ d ∷ before needle s
  | some _ ↦ []
]

abbrev pub same_text : Text → Text → Bool
same_text [] [] = true
same_text (a ∷ s) (b ∷ t) = (a == b) && same_text s t
same_text _ _ = false

abbrev pub upgrade_request : Text → Text → Text → Text
upgrade_request host path key =
    ascii "GET "
    ++ path
    ++ ascii " HTTP/1.1"
    ++ line_end
    ++ ascii "Host: "
    ++ host
    ++ line_end
    ++ ascii "Upgrade: websocket"
    ++ line_end
    ++ ascii "Connection: Upgrade"
    ++ line_end
    ++ ascii "Sec-WebSocket-Key: "
    ++ key
    ++ line_end
    ++ ascii "Sec-WebSocket-Version: 13"
    ++ header_end

-- What the header block decides; frame bytes that came with it are kept.
unfoldable pub check_status : Tls → Client → Client × Bool
check_status tls c =
    if same_text (take 12 c.rx) (ascii "HTTP/1.1 101")
    then (record c { rx = elim (after header_end c.rx) [ none ↦ c.rx | some rest ↦ rest ] }, true)
    else (fail tls c (ascii "upgrade rejected: " ++ before line_end c.rx), false)

unfoldable pub http_upgrade : Tls → Client → Text → Text → Client × Bool
http_upgrade tls c host path =
    let c1 = record c { draws = suc c.draws } in
    elim (tls.rand_bytes c.draws 16) [
      | none ↦ (fail tls c1 (ascii "RAND_bytes"), false)
      | some nonce ↦
          let (c2, sent) = write_all tls c1 (upgrade_request host path (base64 nonce)) in
          let (c3, all) = header_loop tls c2.incoming c2 in
          let checked = check_status tls c3 in
          if sent then (if all then checked else (c3, false)) else (c2, false)
    ]
