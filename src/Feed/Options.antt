-- ===== src/Feed/Options.antt =====
-- The options of `main` of src/feed/feed_main.cpp. The conversions of the C library are arguments.
use trade_feed.Prelude.{ℕ, Bool, false, List, [], ◌∷◌, ◌++◌, ◌==◌, if◌then◌else◌}
use trade_feed.Prelude.Ascii.{ascii}
use trade_feed.Feed.{Text}
use trade_feed.Alpaca.Session.{same_text}

-- `speed` is what `atof` made of its argument.
pub record Options (S : Type 0) : Type 0 where
  pub capture : Text
  pub replay : Text
  pub connect_to : Text
  pub path : Text
  pub symbols : List Text
  pub trades : Bool
  pub quotes : Bool
  pub speed : S
  pub limit : ℕ

-- What an argument asks for: the value that follows, nothing more, or the end of the program.
pub data Choice (S : Type 0) : Type 0 where
  takes : (Text → Options S) → Choice S
  plain : Options S → Choice S
  quits : ℕ → Choice S

pub data Parsed (S : Type 0) : Type 0 where
  goes_on : Options S → Parsed S
  exits : ℕ → Parsed S

module _ {S : Type 0} (atof : Text → S) (strtoull : Text → ℕ) where
  unfoldable pub choice_of : Options S → Text → Choice S
  choice_of o a =
      if same_text a (ascii "--capture")
      then takes (λ v. record o { capture = v })
      else if same_text a (ascii "--replay")
      then takes (λ v. record o { replay = v })
      else if same_text a (ascii "--connect")
      then takes (λ v. record o { connect_to = v })
      else if same_text a (ascii "--feed")
      then takes (λ v. record o { path = v })
      else if same_text a (ascii "--speed")
      then takes (λ v. record o { speed = atof v })
      else if same_text a (ascii "--limit")
      then takes (λ v. record o { limit = strtoull v })
      else if same_text a (ascii "--trades-only")
      then plain (record o { quotes = false })
      else if same_text a (ascii "--quotes-only")
      then plain (record o { trades = false })
      else if same_text a (ascii "-h")
      then quits 0
      else if same_text a (ascii "--help")
      then quits 0
      else elim a [
        | [] ↦ plain (record o { symbols = o.symbols ++ [] ∷ [] })
        | c ∷ cs ↦
            if c == 45 then quits 1 else plain (record o { symbols = o.symbols ++ (c ∷ cs) ∷ [] })
      ]

  -- The arguments from some position on; a value that is missing is empty.
  unfoldable pub parse_options : Options S → List Text → Parsed S
  parse_options o [] = goes_on o
  parse_options o (a ∷ []) = elim (choice_of o a) [
    | quits code ↦ exits code
    | plain o' ↦ goes_on o'
    | takes f ↦ goes_on (f [])
  ]
  parse_options o (a ∷ v ∷ more) = elim (choice_of o a) [
    | quits code ↦ exits code
    | plain o' ↦ parse_options o' (v ∷ more)
    | takes f ↦ parse_options (f v) more
  ]
