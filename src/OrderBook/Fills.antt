-- ===== src/OrderBook/Fills.antt =====
-- What follows from trading by priority, for any market: what is reported, and that it adds up.
use trade_feed.Prelude.{
  ℕ, ◌+◌, ◌<◌, ◌≡◌, refl, List, [], ◌∷◌, ◌++◌, arith, sym, ap, ◌∙◌, min, append_assoc, append-nil,
}
use trade_feed.Types.{Side, buy, sell}
use trade_feed.OrderBook.State.{Fill}
use trade_feed.OrderBook.Priority.{Entry, Market, Taker, Crosses, stop, trade, fill_between}

abbrev pub traded_qty : List Fill → ℕ
traded_qty [] = 0
traded_qty (f ∷ fs) = f.quantity + traded_qty fs

-- The order that came, and its client, on its own side of the fill.
abbrev pub NamesTaker : Side → Taker → Fill → Type 0
NamesTaker buy t f = (f.bid_id ≡ t.id) × (f.bid_client ≡ t.client)
NamesTaker sell t f = (f.ask_id ≡ t.id) × (f.ask_client ≡ t.client)

-- A fill that a taker may get: of some quantity, at a price that it accepts.
pub record Fair (t : Taker) (ok : ℕ → Type 0) (f : Fill) : Type 0 where
  pub index : ℕ
  pub price : f.price ≡ index + 1
  pub accepted : ok index
  pub some_qty : 0 < f.quantity
  pub taker : NamesTaker t.side t f

abbrev pub AllFair : Taker → (ℕ → Type 0) → List Fill → Type 0
AllFair t ok [] = Unit
AllFair t ok (f ∷ fs) = Fair t ok f × AllFair t ok fs

-- The fills between two states of a market.
pub record Reports (t : Taker) (ok : ℕ → Type 0) (m n : Market) (fs : List Fill) : Type 0 where
  pub appended : n.fills ≡ m.fills ++ fs
  pub fair : AllFair t ok fs
  pub adds_up : traded_qty fs + n.left ≡ m.left

fill_between_price :
    (s : Side) (t : Taker) (e : Entry) (p n : ℕ) → (fill_between s t e p n).price ≡ p
fill_between_price buy t e p n = refl
fill_between_price sell t e p n = refl

fill_between-NamesTaker :
    (s : Side) (t : Taker) (e : Entry) (p n : ℕ) → NamesTaker s t (fill_between s t e p n)
fill_between-NamesTaker buy t e p n = (refl, refl)
fill_between-NamesTaker sell t e p n = (refl, refl)

fill_between_qty :
    (s : Side) (t : Taker) (e : Entry) (p n : ℕ) → (fill_between s t e p n).quantity ≡ n
fill_between_qty buy t e p n = refl
fill_between_qty sell t e p n = refl

pub Crosses-Reports :
    (t : Taker) (s : Side) (ok : ℕ → Type 0) {m n : Market}
    → Crosses t s ok m n
    → (fs : List Fill) × Reports t ok m n fs
Crosses-Reports t s ok {m = m} stop =
    ([], record { appended = sym (append-nil m.fills); fair = tt; adds_up = omega arith })
Crosses-Reports t s ok {m = m} (trade i good best tr rest) =
    let (fs, r) = Crosses-Reports t s ok rest in
    let n = min m.left tr.front.open_ in
    let f = fill_between t.side t tr.front (i + 1) n in
    (
      f ∷ fs,
      record {
        appended = r.appended ∙ ap (λ z. z ++ fs) tr.fills ∙ append_assoc m.fills (f ∷ []) fs;
        fair = (
          record {
            index = i;
            price = fill_between_price t.side t tr.front (i + 1) n;
            accepted = good;
            some_qty =
                let e = fill_between_qty t.side t tr.front (i + 1) n in
                omega (arith, tr.wanted, tr.offered, e);
            taker = fill_between-NamesTaker t.side t tr.front (i + 1) n;
          },
          r.fair,
        );
        adds_up = omega (arith, r.adds_up, tr.left, fill_between_qty t.side t tr.front (i + 1) n);
      },
    )
