-- ===== src/Feed.antt =====
-- src/feed/feed_normalizer.h and the order sender of src/feed/feed_main.cpp. Text is the list of its
-- bytes.
pub mod Objects
pub mod Time
pub mod Normalize
pub mod Options
pub mod Handler
pub mod Replay
use trade_feed.Prelude.{
  ℕ, zero, suc, ◌+◌, ◌*◌, ◌-◌, ◌%◌, ◌^◌, Bool, true, false, not, ◌&&◌, Option, none, some, List, [],
  ◌∷◌, ◌++◌, length, ltb, leb, ◌==◌, if◌then◌else◌,
}
use trade_feed.Types.{u32_mod, add32, sub32}
use trade_feed.Codec.{WireMessage}

abbrev pub Text : Type 0
Text = List ℕ

abbrev pub quote_mark : ℕ
quote_mark = 34

abbrev pub comma : ℕ
comma = 44

abbrev pub colon : ℕ
colon = 58

abbrev pub open_brace : ℕ
open_brace = 123

abbrev pub close_brace : ℕ
close_brace = 125

abbrev pub backslash : ℕ
backslash = 92

-- What follows `needle`, if the text starts with it.
abbrev pub strip : Text → Text → Option Text
strip [] s = some s
strip (c ∷ cs) [] = none
strip (c ∷ cs) (d ∷ s) = let rest = strip cs s in if c == d then rest else none

-- What follows the first `needle` of a text.
abbrev pub after : Text → Text → Option Text
after needle [] = strip needle []
after needle (d ∷ s) =
    let rest = after needle s in elim (strip needle (d ∷ s)) [ none ↦ rest | some r ↦ some r ]

-- `field`: the pattern buffer has 24 bytes.
unfoldable pub field : Text → Text → Option Text
field obj key =
    if leb 24 (length key + 3)
    then none
    else after ((quote_mark ∷ key) ++ quote_mark ∷ colon ∷ []) obj

-- The text up to the next quote mark.
abbrev pub until_quote : Text → Option Text
until_quote [] = none
until_quote (c ∷ s) =
    let rest = until_quote s in
    if c == quote_mark then some [] else elim rest [ none ↦ none | some r ↦ some (c ∷ r) ]

unfoldable pub field_str : Text → Text → Option Text
unfolding field
field_str obj key = elim (field obj key) [
  | none ↦ none
  | some [] ↦ none
  | some (c ∷ rest) ↦ if c == quote_mark then until_quote rest else none
]

-- The state of the loop of `for_each_object`. `depth` is an `int`, here a 32-bit word, which the
-- source defines up to 2^31 - 1 only;
-- `since_start` is the text from `start` to the position; the callback's arguments are listed.
pub record Scan : Type 0 where
  pub depth : ℕ
  pub in_str : Bool
  pub esc : Bool
  pub since_start : Text
  pub calls : List Text

unfoldable pub scan_char : Scan → ℕ → Scan
scan_char s c =
    let text = s.since_start ++ c ∷ [] in
    if s.esc
    then record s { esc = false; since_start = text }
    else if c == backslash
    then record s { esc = true; since_start = text }
    else if c == quote_mark
    then record s { in_str = not s.in_str; since_start = text }
    else if s.in_str
    then record s { since_start = text }
    else if c == open_brace
    then record s { depth = add32 s.depth 1; since_start = if s.depth == 0 then c ∷ [] else text }
    else if c == close_brace
    then record s {
      depth = sub32 s.depth 1;
      since_start = text;
      calls = if sub32 s.depth 1 == 0 then s.calls ++ text ∷ [] else s.calls;
    }
    else record s { since_start = text }

unfoldable pub scan_text : Scan → Text → Scan
unfolding scan_char
scan_text s [] = s
scan_text s (c ∷ cs) = scan_text (scan_char s c) cs

-- The texts that the callback is given, in order.
unfoldable pub for_each_object : Text → List Text
unfolding scan_text
for_each_object frame =
    (scan_text (record { depth = 0; in_str = false; esc = false; since_start = []; calls = [] })
      frame).calls

pub record CaptureRecord : Type 0 where
  pub is_quote : Bool
  pub symbol : Text
  pub p1 : ℕ
  pub s1 : ℕ
  pub p2 : ℕ
  pub s2 : ℕ
  pub venue_ns : ℕ

-- The message that `emit_orders` fills in: a new limit order.
abbrev pub limit_order : CaptureRecord → ℕ → ℕ → ℕ → ℕ → WireMessage
limit_order r client side price quantity = record {
  type = 1;
  side = side;
  order_type = 0;
  pad = 0;
  client_id = client;
  order_id = 0;
  price = price;
  quantity = quantity;
  timestamp = r.venue_ns;
}

-- `s ? s * 100 : 100` on 32 bits, and `s ? s : 1`.
abbrev pub lots : ℕ → ℕ
lots s = if s == 0 then 100 else s * 100 % u32_mod

abbrev pub shares : ℕ → ℕ
shares s = if s == 0 then 1 else s

-- `emit_orders`, where `sends` tells for each message whether `send_wire` sends it: the messages sent,
-- and the static `buy` after the call.
unfoldable pub emit_orders :
    (WireMessage → Bool) → Bool → CaptureRecord → ℕ → List WireMessage × Bool
emit_orders sends buy r client = elim r.is_quote [
  | true ↦
      let bid = limit_order r client 0 r.p1 (lots r.s1) in
      let ask = limit_order r client 1 r.p2 (lots r.s2) in
      if sends bid
      then (if sends ask then (bid ∷ ask ∷ [], buy) else (bid ∷ [], buy))
      else ([], buy)
  | false ↦
      let buy' = not buy in
      let w = limit_order r client (if buy' then 0 else 1) r.p1 (shares r.s1) in
      if sends w then (w ∷ [], buy') else ([], buy')
]
