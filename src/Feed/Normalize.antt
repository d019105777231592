-- ===== src/Feed/Normalize.antt =====
-- `normalize` of src/feed/feed_normalizer.h. What `strtod` and the conversions from floating point
-- make of a field's text are arguments: `cents` for a price, `whole` for a size.
use trade_feed.Prelude.{
  ℕ, zero, suc, ◌<◌, ◌≡◌, refl, true, false, ◌||◌, Option, none, some, [], ◌∷◌, ◌==◌, if◌then◌else◌,
  arith, Bool-cases, Option-cases, inl, inr, subst, ◌≤◌,
}
use trade_feed.Feed.{Text, CaptureRecord, field, field_str}
use trade_feed.Feed.Time.{parse_rfc3339_ns}

-- `memcpy` of at most seven bytes into a symbol of zeros.
abbrev pub symbol_of : ℕ → Text → Text
symbol_of zero s = []
symbol_of (suc n) [] = 0 ∷ symbol_of n []
symbol_of (suc n) (c ∷ s) = c ∷ symbol_of n s

-- The keys, as bytes.
abbrev pub key_type : Text
key_type = 84 ∷ []

abbrev pub key_symbol : Text
key_symbol = 83 ∷ []

abbrev pub key_time : Text
key_time = 116 ∷ []

abbrev pub key_bid_price : Text
key_bid_price = 98 ∷ 112 ∷ []

abbrev pub key_ask_price : Text
key_ask_price = 97 ∷ 112 ∷ []

abbrev pub key_bid_size : Text
key_bid_size = 98 ∷ 115 ∷ []

abbrev pub key_ask_size : Text
key_ask_size = 97 ∷ 115 ∷ []

abbrev pub key_price : Text
key_price = 112 ∷ []

abbrev pub key_size : Text
key_size = 115 ∷ []

-- `ts ? parse_rfc3339_ns(*ts) : 0` and `size ? static_cast<uint32_t>(*size) : 0`.
abbrev pub time_of : Option Text → ℕ
time_of none = 0
time_of (some s) = parse_rfc3339_ns s

abbrev pub size_of : (Text → ℕ) → Option Text → ℕ
size_of whole none = 0
size_of whole (some s) = whole s

-- Both branches, with the fields that they share given.
unfoldable pub normalize_quote : (Text → ℕ) → (Text → ℕ) → Text → Text → ℕ → Option CaptureRecord
normalize_quote cents whole obj symbol venue_ns = elim (field obj key_bid_price) [
  | none ↦ none
  | some bp ↦ elim (field obj key_ask_price) [
    | none ↦ none
    | some ap ↦
        if cents bp == 0 || cents ap == 0
        then none
        else some (record {
          is_quote = true;
          symbol = symbol;
          p1 = cents bp;
          s1 = size_of whole (field obj key_bid_size);
          p2 = cents ap;
          s2 = size_of whole (field obj key_ask_size);
          venue_ns = venue_ns;
        })
  ]
]

unfoldable pub normalize_trade : (Text → ℕ) → (Text → ℕ) → Text → Text → ℕ → Option CaptureRecord
normalize_trade cents whole obj symbol venue_ns = elim (field obj key_price) [
  | none ↦ none
  | some price ↦
      if cents price == 0
      then none
      else some (record {
        is_quote = false;
        symbol = symbol;
        p1 = cents price;
        s1 = size_of whole (field obj key_size);
        p2 = 0;
        s2 = 0;
        venue_ns = venue_ns;
      })
]

-- `none` is the answer false. An object whose type is no text, or empty, is no tick.
unfoldable pub normalize : (Text → ℕ) → (Text → ℕ) → Text → Option CaptureRecord
normalize cents whole obj = elim (field_str obj key_type) [
  | none ↦ none
  | some [] ↦ none
  | some (kind ∷ _) ↦
      if kind == 113 || kind == 116
      then elim (field_str obj key_symbol) [
        | none ↦ none
        | some sym ↦
            let venue_ns = time_of (field_str obj key_time) in
            if kind == 113
            then normalize_quote cents whole obj (symbol_of 7 sym) venue_ns
            else normalize_trade cents whole obj (symbol_of 7 sym) venue_ns
      ]
      else none
]

-- A price of a tick: not zero, which the conversion gives where it fails, and at most `top`.
abbrev pub IsPriced : ℕ → CaptureRecord → Type 0
IsPriced top r = (0 < r.p1) × (r.p1 ≤ top) × (r.is_quote ≡ true → (0 < r.p2) × (r.p2 ≤ top))

abbrev Passes : ℕ → Option CaptureRecord → Type 0
Passes top none = Unit
Passes top (some r) = IsPriced top r

module _ (cents whole : Text → ℕ) (top : ℕ) (bounded : (t : Text) → cents t ≤ top) where
  quote-Passes :
      (obj symbol : Text) (ns : ℕ) → Passes top (normalize_quote cents whole obj symbol ns)
  unfolding normalize_quote
  quote-Passes obj symbol ns = elim (Option-cases (field obj key_bid_price)) [
    | inl e ↦ rw (e, normalize_quote) tt
    | inr (bp, e) ↦ elim (Option-cases (field obj key_ask_price)) [
      | inl f ↦ rw (e, f, normalize_quote) tt
      | inr (ask, f) ↦ elim (Bool-cases (cents bp == 0 || cents ask == 0)) [
        | inl z ↦ rw (e, f, z, normalize_quote) tt
        | inr nz ↦
            rw (e, f, nz, normalize_quote)
              (ground arith, bounded bp, λ _. (ground arith, bounded ask))
      ]
    ]
  ]

  trade-Passes :
      (obj symbol : Text) (ns : ℕ) → Passes top (normalize_trade cents whole obj symbol ns)
  unfolding normalize_trade
  trade-Passes obj symbol ns = elim (Option-cases (field obj key_price)) [
    | inl e ↦ rw (e, normalize_trade) tt
    | inr (price, e) ↦ elim (Bool-cases (cents price == 0)) [
      | inl z ↦ rw (e, z, normalize_trade) tt
      | inr nz ↦
          rw (e, nz, normalize_trade) (ground arith, bounded price, λ q. absurd (ground (arith, q)))
    ]
  ]

  normalize-Passes : (obj : Text) → Passes top (normalize cents whole obj)
  unfolding normalize
  normalize-Passes obj = by_type (field_str obj key_type) refl
    where
      tick :
          (kind : ℕ) (o : Option Text)
          → Passes top (elim o as (λ _. Option CaptureRecord) [
            | none ↦ none
            | some sym ↦
                let venue_ns = time_of (field_str obj key_time) in
                if kind == 113
                then normalize_quote cents whole obj (symbol_of 7 sym) venue_ns
                else normalize_trade cents whole obj (symbol_of 7 sym) venue_ns
          ])
      tick kind none = tt
      tick kind (some sym) = elim (Bool-cases (kind == 113)) [
        | inl q ↦ rw q (quote-Passes obj (symbol_of 7 sym) (time_of (field_str obj key_time)))
        | inr t ↦ rw t (trade-Passes obj (symbol_of 7 sym) (time_of (field_str obj key_time)))
      ]

      by_type :
          (o : Option Text) → field_str obj key_type ≡ o → Passes top (normalize cents whole obj)
      by_type none e = rw (e, normalize) tt
      by_type (some []) e = rw (e, normalize) tt
      by_type (some (kind ∷ rest)) e = elim (Bool-cases (kind == 113 || kind == 116)) [
        | inl ok ↦ rw (e, ok, normalize) (tick kind (field_str obj key_symbol))
        | inr other ↦ rw (e, other, normalize) tt
      ]

  -- If the conversion of prices gives none above `top`, every tick that `normalize` passes on has a
  -- price from 1 to `top`, and a quote has two.
  pub normalize-IsPriced :
      (obj : Text) (r : CaptureRecord) → normalize cents whole obj ≡ some r → IsPriced top r
  normalize-IsPriced obj r e = subst (Passes top) e (normalize-Passes obj)
