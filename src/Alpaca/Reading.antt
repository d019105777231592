-- ===== src/Alpaca/Reading.antt =====
-- `read_exact` has the bytes asked for, in whatever chunks they come, and loses none.
use trade_feed.Prelude.{
  ℕ, zero, suc, ◌<◌, ◌≤◌, ◌≡◌, refl, sym, ap, ◌∙◌, true, Bool-cases, inl, inr, List, [], ◌∷◌, ◌++◌,
  length, length-append, append_assoc, take, drop, get_or, leb, arith,
}
use trade_feed.Feed.{Text}
use trade_feed.Alpaca.{Client, Tls, read_loop, read_exact, joined, pending}

-- `SSL_read` gives a byte or more until the connection ends.
abbrev pub AllFull : List Text → Type 0
AllFull [] = Unit
AllFull (t ∷ ts) = (0 < length t) × AllFull ts

-- Nothing but the split of what there is to read between the buffer and the chunks has changed, and
-- `n` bytes are in the buffer.
pub record Fed (c : Client) (n : ℕ) (c' : Client) : Type 0 where
  pub pending : pending c' ≡ pending c
  pub error : c'.error ≡ c.error
  pub wire : c'.wire ≡ c.wire
  pub draws : c'.draws ≡ c.draws
  pub room : n ≤ length c'.rx
  pub full : AllFull c'.incoming

pub Fed-trans : {c d e : Client} {n m : ℕ} → Fed c n d → Fed d m e → Fed c m e
Fed-trans h k = record {
  pending = k.pending ∙ h.pending;
  error = k.error ∙ h.error;
  wire = k.wire ∙ h.wire;
  draws = k.draws ∙ h.draws;
  room = k.room;
  full = k.full;
}

here : (c : Client) (n : ℕ) → AllFull c.incoming → n ≤ length c.rx → Fed c n c
here c n full h = record {
  pending = refl;
  error = refl;
  wire = refl;
  draws = refl;
  room = h;
  full = full;
}

module _ (tls : Tls) (n : ℕ) where
  read_loop-Fed :
      (more : List Text) (c : Client)
      → c.incoming ≡ more
      → AllFull more
      → n ≤ length (c.rx ++ joined more)
      → ((read_loop tls n more c).1 ≡ true) × Fed c n (read_loop tls n more c).0
  unfolding read_loop
  read_loop-Fed [] c is full h =
      let enough : n ≤ length c.rx = omega (arith, h, length-append c.rx []) in
      let yes_ : leb n (length c.rx) ≡ true = ground (arith, enough) in
      rw yes_ (refl, here c n (rw is tt) enough)
  read_loop-Fed ([] ∷ more) c is full h = absurd (omega (arith, full.0))
  read_loop-Fed ((b ∷ bs) ∷ more) c is full h = elim (Bool-cases (leb n (length c.rx))) [
    | inl enough ↦ rw enough (refl, here c n (rw is full) (ground (arith, enough)))
    | inr short ↦
        let c2 = record c { rx = c.rx ++ b ∷ bs; incoming = more } in
        let whole = append_assoc c.rx (b ∷ bs) (joined more) in
        let (ok, f) = read_loop-Fed more c2 refl full.1 (omega (arith, h, ap length whole)) in
        rw short (
          ok,
          record {
            pending = f.pending ∙ whole ∙ ap (λ l. c.rx ++ joined l) (sym is);
            error = f.error;
            wire = f.wire;
            draws = f.draws;
            room = f.room;
            full = f.full;
          },
        )
  ]

  -- If there are `n` bytes to come, `read_exact` has them.
  pub read_exact-Fed :
      (c : Client)
      → AllFull c.incoming
      → n ≤ length (pending c)
      → ((read_exact tls c n).1 ≡ true) × Fed c n (read_exact tls c n).0
  unfolding read_exact
  read_exact-Fed c full h = read_loop-Fed c.incoming c refl full h

-- The start of a text that goes on.
pub get_or-append : (xs ys : Text) (i : ℕ) → i < length xs → get_or (xs ++ ys) i 0 ≡ get_or xs i 0
get_or-append [] ys i h = absurd (omega arith)
get_or-append (x ∷ xs) ys zero h = refl
get_or-append (x ∷ xs) ys (suc i) h = get_or-append xs ys i (omega arith)

pub take-append_le : (n : ℕ) (xs ys : Text) → n ≤ length xs → take n (xs ++ ys) ≡ take n xs
take-append_le zero xs ys h = refl
take-append_le (suc n) [] ys h = absurd (omega arith)
take-append_le (suc n) (x ∷ xs) ys h = ap (λ l. x ∷ l) (take-append_le n xs ys (omega arith))

pub drop-append_le : (n : ℕ) (xs ys : Text) → n ≤ length xs → drop n (xs ++ ys) ≡ drop n xs ++ ys
drop-append_le zero xs ys h = refl
drop-append_le (suc n) [] ys h = absurd (omega arith)
drop-append_le (suc n) (x ∷ xs) ys h = drop-append_le n xs ys (omega arith)

-- What is in the buffer is the start of what there is to read.
pub rx_at :
    (c c' : Client) (n i : ℕ) → Fed c n c' → i < n → get_or c'.rx i 0 ≡ get_or (pending c) i 0
rx_at c c' n i f h =
    sym (get_or-append c'.rx (joined c'.incoming) i (omega (arith, f.room)))
    ∙ ap (λ t. get_or t i 0) f.pending

pub rx_behind :
    (c c' : Client) (n k : ℕ)
    → Fed c n c'
    → k ≤ n
    → drop k c'.rx ++ joined c'.incoming ≡ drop k (pending c)
rx_behind c c' n k f h =
    sym (drop-append_le k c'.rx (joined c'.incoming) (omega (arith, f.room)))
    ∙ ap (drop k) f.pending
