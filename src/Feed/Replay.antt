-- ===== src/Feed/Replay.antt =====
-- `run_replay` and `send_wire` of src/feed/feed_main.cpp. The file's records, what the pause between
-- two of them comes to on floating point, and the answers of `send` are arguments.
use trade_feed.Prelude.{
  ℕ, zero, suc, ◌+◌, ◌-◌, ◌/◌, ◌<◌, ◌≡◌, refl, sym, ap, ◌∙◌, inl, inr, Bool-cases, Option-cases,
  arith, Bool, true, false, not, ◌&&◌, Option, none, some, List, [], ◌∷◌, ◌++◌, length, take, drop,
  ltb, leb, ◌==◌, if◌then◌else◌,
}
use trade_feed.Types.{add64, u64_mod}
use trade_feed.Codec.{WireMessage}
use trade_feed.Feed.{CaptureRecord, emit_orders}

-- The loop of `send_wire` over the bytes that are left, with fuel for them; `send` answers how many it
-- takes of those offered, after those sent, and 0 stands for its failure. What was sent, and the answer.
unfoldable pub send_loop : (ℕ → ℕ → ℕ) → ℕ → List ℕ → List ℕ → List ℕ × Bool
send_loop send fuel sent [] = (sent, true)
send_loop send zero sent (b ∷ bs) = (sent, false)
send_loop send (suc fuel) sent (b ∷ bs) =
    let n = send (length sent) (length (b ∷ bs)) in
    let rest = send_loop send fuel (sent ++ take n (b ∷ bs)) (drop n (b ∷ bs)) in
    if n == 0 then (sent, false) else rest

-- What a replay did: its counters, the time of the last record, the messages, the pauses in
-- microseconds, and the static `buy` of `emit_orders`.
pub record Replayed : Type 0 where
  pub n : ℕ
  pub orders : ℕ
  pub prev_ns : ℕ
  pub sent : List WireMessage
  pub pauses : List ℕ
  pub buy : Bool

take_nil : (k : ℕ) → take {A = CaptureRecord} k [] ≡ []
take_nil zero = refl
take_nil (suc k) = refl

module _ (pacing : Option (ℕ → ℕ)) (exchange : Option (WireMessage → Bool)) where
  -- `pacing` is none where the speed is not positive, and else the gap in nanoseconds over the speed.
  unfoldable pub pause_before : Replayed → CaptureRecord → List ℕ
  pause_before t r = elim pacing [
    | none ↦ []
    | some gap ↦
        if not (t.prev_ns == 0) && ltb t.prev_ns r.venue_ns
        then (let g = gap (r.venue_ns - t.prev_ns) in if ltb 1_000 g then g / 1_000 ∷ [] else [])
        else []
  ]

  unfoldable pub replay_record : Replayed → CaptureRecord → Replayed
  unfolding pause_before
  replay_record t r =
      let t1 = record t {
        pauses = t.pauses ++ pause_before t r;
        prev_ns = r.venue_ns;
        n = add64 t.n 1;
      } in
      elim exchange [
        | none ↦ t1
        | some sends ↦
            let (ws, buy) = emit_orders sends t.buy r 1 in
            record t1 { orders = add64 t.orders (length ws); sent = t.sent ++ ws; buy = buy }
      ]

  -- The loop over the records of the file.
  unfoldable pub replay_loop : ℕ → Replayed → List CaptureRecord → Replayed
  unfolding replay_record
  replay_loop limit t [] = t
  replay_loop limit t (r ∷ rs) =
      let t1 = replay_record t r in
      let rest = replay_loop limit t1 rs in if not (limit == 0) && leb limit t1.n then t1 else rest

  -- Every record in turn.
  abbrev pub replay_all : Replayed → List CaptureRecord → Replayed
  replay_all t [] = t
  replay_all t (r ∷ rs) = replay_all (replay_record t r) rs

  replay_record_count : (t : Replayed) (r : CaptureRecord) → (replay_record t r).n ≡ add64 t.n 1
  unfolding replay_record
  replay_record_count t r = elim (Option-cases exchange) [
    | inl nowhere ↦ rw nowhere refl
    | inr (sends, there) ↦ rw there refl
  ]

  replay_loop-rest :
      (limit : ℕ) (rs : List CaptureRecord) (t : Replayed)
      → t.n < limit
      → limit < u64_mod
      → replay_loop limit t rs ≡ replay_all t (take (limit - t.n) rs)
  unfolding replay_loop
  replay_loop-rest limit [] t under fits = ap (replay_all t) (sym (take_nil (limit - t.n)))
  replay_loop-rest limit (r ∷ rs) t under fits =
      let t1 = replay_record t r in
      let count : t1.n ≡ t.n + 1 = omega (arith, replay_record_count t r, under, fits) in
      let left : limit - t.n ≡ suc (limit - t1.n) = omega (arith, count, under) in
      elim (Bool-cases (not (limit == 0) && leb limit t1.n)) [
        | inl reached ↦
            let none_left : limit - t1.n ≡ 0 = ground (arith, reached) in
            rw (reached, replay_loop, left, none_left) refl
        | inr more ↦
            rw (more, replay_loop, left)
              (replay_loop-rest limit rs t1 (ground (arith, more, under, fits)) fits)
      ]

  replay_loop-unlimited :
      (rs : List CaptureRecord) (t : Replayed) → replay_loop 0 t rs ≡ replay_all t rs
  unfolding replay_loop
  replay_loop-unlimited [] t = refl
  replay_loop-unlimited (r ∷ rs) t = replay_loop-unlimited rs (replay_record t r)

  -- A replay handles the records of the file in turn: all of them if the limit is 0, and else
  -- exactly as many of the first as the limit says, as long as it fits in 64 bits.
  pub replay_loop-take :
      (limit : ℕ) (rs : List CaptureRecord) (t : Replayed)
      → t.n ≡ 0
      → limit < u64_mod
      → replay_loop limit t rs ≡ replay_all t (if limit == 0 then rs else take limit rs)
  replay_loop-take limit rs t new fits = elim (Bool-cases (limit == 0)) [
    | inl all ↦ let e : limit ≡ 0 = ground (arith, all) in rw (all, e) (replay_loop-unlimited rs t)
    | inr some_ ↦
        let room : t.n < limit = ground (arith, some_, new) in
        let e : limit - t.n ≡ limit = omega (arith, new) in
        rw some_ (replay_loop-rest limit rs t room fits ∙ ap (λ k. replay_all t (take k rs)) e)
  ]
