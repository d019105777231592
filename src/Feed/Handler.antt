-- ===== src/Feed/Handler.antt =====
-- The loop of `main` of src/feed/feed_main.cpp that turns frames into orders. What `read_frame` gives,
-- and the conversions of the C library, are arguments.
use trade_feed.Prelude.{
  ℕ, zero, suc, ◌+◌, ◌<◌, ◌≤◌, ◌≡◌, refl, sym, ap, ◌∙◌, Bool, true, not, ◌&&◌, Bool-cases, inl, inr,
  Option, none, some, Option-cases, List, [], ◌∷◌, ◌++◌, length, length-append, append_assoc,
  append-nil, leb, subst, take, ◌⊎◌, ◌≢◌, ◌==◌, if◌then◌else◌, arith,
}
use trade_feed.Types.{add64, u64_mod}
use trade_feed.Codec.{WireMessage}
use trade_feed.Feed.{Text, CaptureRecord, emit_orders, for_each_object}
use trade_feed.Feed.Normalize.{normalize}

-- The counters, the records in the capture file, the messages sent, and the static `buy` of
-- `emit_orders`.
pub record Totals : Type 0 where
  pub ticks : ℕ
  pub orders : ℕ
  pub skipped : ℕ
  pub captured : List CaptureRecord
  pub sent : List WireMessage
  pub buy : Bool

module _ (cents whole : Text → ℕ) (capturing : Bool) (exchange : Option (WireMessage → Bool)) where
  -- What the callback does with a record.
  unfoldable pub take_record : Totals → CaptureRecord → Totals
  take_record t r =
      let t1 = record t {
        ticks = add64 t.ticks 1;
        captured = if capturing then t.captured ++ r ∷ [] else t.captured;
      } in
      elim exchange [
        | none ↦ t1
        | some sends ↦
            let (ws, buy) = emit_orders sends t.buy r 1 in
            record t1 { orders = add64 t.orders (length ws); sent = t.sent ++ ws; buy = buy }
      ]

  unfoldable pub on_object : Totals → Text → Totals
  unfolding take_record
  on_object t obj = elim (normalize cents whole obj) [
    | none ↦ record t { skipped = add64 t.skipped 1 }
    | some r ↦ take_record t r
  ]

  unfoldable pub on_objects : Totals → List Text → Totals
  unfolding on_object
  on_objects t [] = t
  on_objects t (obj ∷ objs) = on_objects (on_object t obj) objs

  unfoldable pub on_frame : Totals → Text → Totals
  unfolding on_objects
  on_frame t frame = on_objects t (for_each_object frame)

  -- The loop, over the frames to come.
  unfoldable pub stream_loop : ℕ → Totals → List Text → Totals
  unfolding on_frame
  stream_loop limit t [] = t
  stream_loop limit t (frame ∷ frames) =
      let t1 = on_frame t frame in
      let rest = stream_loop limit t1 frames in
      if not (limit == 0) && leb limit t1.ticks then t1 else rest

  -- The records of objects, in their order.
  abbrev pub records : List Text → List CaptureRecord
  records [] = []
  records (obj ∷ objs) =
      let rest = records objs in
      elim (normalize cents whole obj) [ none ↦ rest | some r ↦ r ∷ rest ]

  -- Every object was counted once, and the capture file has the records, in order.
  pub record Saw (t : Totals) (objs : List Text) (t' : Totals) : Type 0 where
    pub ticks : t'.ticks ≡ t.ticks + length (records objs)
    pub all : t'.ticks + t'.skipped ≡ t.ticks + t.skipped + length objs
    pub captured : capturing ≡ true → t'.captured ≡ t.captured ++ records objs

  take_record_totals :
      (t : Totals) (r : CaptureRecord)
      → t.ticks + 1 < u64_mod
      → ((take_record t r).ticks ≡ t.ticks + 1)
        × ((take_record t r).skipped ≡ t.skipped)
        × (capturing ≡ true → (take_record t r).captured ≡ t.captured ++ r ∷ [])
  unfolding take_record
  take_record_totals t r room = elim (Option-cases exchange) [
    | inl nowhere ↦ rw nowhere (omega (arith, room), refl, (λ e. rw e refl))
    | inr (sends, there) ↦ rw there (omega (arith, room), refl, (λ e. rw e refl))
  ]

  Saw-step :
      (t t1 : Totals) (obj : Text) (objs : List Text) (rs : List CaptureRecord)
      → on_object t obj ≡ t1
      → records (obj ∷ objs) ≡ rs ++ records objs
      → t1.ticks ≡ t.ticks + length rs
      → t1.ticks + t1.skipped ≡ t.ticks + t.skipped + 1
      → (capturing ≡ true → t1.captured ≡ t.captured ++ rs)
      → Saw t1 objs (on_objects t1 objs)
      → Saw t (obj ∷ objs) (on_objects t (obj ∷ objs))
  unfolding on_objects
  Saw-step t t1 obj objs rs goes is ticks all captured s =
      subst (λ z. Saw t (obj ∷ objs) (on_objects z objs)) (sym goes)
        (record {
          ticks = omega (arith, s.ticks, ticks, ap length is, length-append rs (records objs));
          all = omega (arith, s.all, all);
          captured = λ e.
              s.captured e
              ∙ ap (λ l. l ++ records objs) (captured e)
              ∙ append_assoc t.captured rs (records objs)
              ∙ ap (λ l. t.captured ++ l) (sym is);
        })

  on_objects-Saw :
      (objs : List Text) (t : Totals)
      → t.ticks + t.skipped + length objs < u64_mod
      → Saw t objs (on_objects t objs)
  unfolding on_object on_objects
  on_objects-Saw [] t room = record {
    ticks = omega arith;
    all = omega arith;
    captured = λ _. sym (append-nil t.captured);
  }
  on_objects-Saw (obj ∷ objs) t room = elim (Option-cases (normalize cents whole obj)) [
    | inl no_tick ↦
        let t1 = record t { skipped = add64 t.skipped 1 } in
        let one : t1.skipped ≡ t.skipped + 1 = omega (arith, room) in
        Saw-step t t1 obj objs [] (rw (no_tick, on_object) refl) (rw (no_tick, records) refl)
          (omega arith) (omega (arith, one)) (λ _. sym (append-nil t.captured))
          (on_objects-Saw objs t1 (omega (arith, one, room)))
    | inr (r, tick) ↦
        let t1 = take_record t r in
        let (ticks, skipped, captured) = take_record_totals t r (omega (arith, room)) in
        Saw-step t t1 obj objs (r ∷ []) (rw (tick, on_object) refl) (rw (tick, records) refl) ticks
          (omega (arith, ticks, skipped)) captured
          (on_objects-Saw objs t1 (omega (arith, ticks, skipped, room)))
  ]

  records-append : (xs ys : List Text) → records (xs ++ ys) ≡ records xs ++ records ys
  records-append [] ys = refl
  records-append (obj ∷ xs) ys = elim (Option-cases (normalize cents whole obj)) [
    | inl no_tick ↦ rw (no_tick, records) (records-append xs ys)
    | inr (r, tick) ↦ rw (tick, records) (ap (λ l. r ∷ l) (records-append xs ys))
  ]

  Saw-append : (t u w : Totals) (xs ys : List Text) → Saw t xs u → Saw u ys w → Saw t (xs ++ ys) w
  Saw-append t u w xs ys h k = record {
    ticks = omega (
      arith,
      h.ticks,
      k.ticks,
      ap length (records-append xs ys),
      length-append (records xs) (records ys),
    );
    all = omega (arith, h.all, k.all, length-append xs ys);
    captured = λ e.
        k.captured e
        ∙ ap (λ l. l ++ records ys) (h.captured e)
        ∙ append_assoc t.captured (records xs) (records ys)
        ∙ ap (λ l. t.captured ++ l) (sym (records-append xs ys));
  }

  abbrev pub objects_of : List Text → List Text
  objects_of [] = []
  objects_of (frame ∷ frames) = for_each_object frame ++ objects_of frames

  -- The ticks that are counted once so many frames are read.
  abbrev pub ticks_after : Totals → List Text → ℕ → ℕ
  ticks_after t frames k = t.ticks + length (records (objects_of (take k frames)))

  -- The limit is on, and so many ticks reach it.
  abbrev pub Reaches : ℕ → ℕ → Type 0
  Reaches limit n = (limit ≢ 0) × (limit ≤ n)

  -- A frame read counts for all that follow.
  ticks_after_frame :
      (t t1 : Totals) (frame : Text) (frames : List Text)
      → Saw t (for_each_object frame) t1
      → (k : ℕ) → ticks_after t (frame ∷ frames) (suc k) ≡ ticks_after t1 frames k
  ticks_after_frame t t1 frame frames s k =
      let here = for_each_object frame in
      let later = objects_of (take k frames) in
      omega (
        arith,
        s.ticks,
        ap length (records-append here later),
        length-append (records here) (records later),
      )

  -- No frame before the one at which a run stops, if its first does not, has reached the limit.
  early_after :
      (limit : ℕ) (t t1 : Totals) (frame : Text) (frames : List Text) (k : ℕ)
      → Saw t (for_each_object frame) t1
      → ¬ Reaches limit t1.ticks
      → ((j : ℕ) → 0 < j → j < k → ¬ Reaches limit (ticks_after t1 frames j))
      → (j : ℕ) → 0 < j
      → j < suc k
      → ¬ Reaches limit (ticks_after t (frame ∷ frames) j)
  early_after limit t t1 frame frames k s under early zero pos low r = absurd (omega arith)
  early_after limit t t1 frame frames k s under early (suc zero) pos low (on, full) =
      let e = ticks_after_frame t t1 frame frames s zero in under (on, omega (arith, e, full))
  early_after limit t t1 frame frames k s under early (suc (suc j)) pos low (on, full) =
      let e = ticks_after_frame t t1 frame frames s (suc j) in
      early (suc j) (omega arith) (omega arith) (on, omega (arith, e, full))

  -- The loop reads the first frames, all of them, or as many as it takes until the ticks reach a
  -- limit that is not 0: it stops at the first frame, of those it reads, after which the limit is
  -- reached. Each object of those frames is counted once, as a tick or as skipped, as long as the
  -- counters fit in 64 bits; the ticks are as many as the records that `normalize` makes of them,
  -- and these are what a capture file gets, all of them, in order, wherever the orders go.
  pub stream_loop-Saw :
      (limit : ℕ) (frames : List Text) (t : Totals)
      → t.ticks + t.skipped + length (objects_of frames) < u64_mod
      → (k : ℕ) × Saw t (objects_of (take k frames)) (stream_loop limit t frames)
        × ((k ≡ length frames) ⊎ ((0 < k) × Reaches limit (ticks_after t frames k)))
        × ((j : ℕ) → 0 < j → j < k → ¬ Reaches limit (ticks_after t frames j))
  unfolding stream_loop on_frame
  stream_loop-Saw limit [] t room =
      (0, on_objects-Saw [] t room, inl refl, λ j pos low. absurd (omega arith))
  stream_loop-Saw limit (frame ∷ frames) t room =
      let size = length-append (for_each_object frame) (objects_of frames) in
      let t1 = on_frame t frame in
      let s = on_objects-Saw (for_each_object frame) t (omega (arith, size, room)) in
      let e = ticks_after_frame t t1 frame frames s in
      elim (Bool-cases (not (limit == 0) && leb limit t1.ticks)) [
        | inl reached ↦
            let at : limit ≤ t1.ticks = ground (arith, reached) in
            rw (reached, stream_loop)
              (
                1,
                subst (λ l. Saw t l t1) (sym (append-nil (for_each_object frame))) s,
                inr (omega arith, (ground (arith, reached), omega (arith, e zero, at))),
                λ j pos low. absurd (omega arith),
              )
        | inr under ↦
            let (k, rest, why, early) =
              stream_loop-Saw limit frames t1 (omega (arith, s.all, size, room)) in
            rw (under, stream_loop)
              (
                suc k,
                Saw-append t t1 (stream_loop limit t1 frames) (for_each_object frame)
                    (objects_of (take k frames)) s rest,
                elim why [
                  | inl all ↦ inl (ap suc all)
                  | inr (pos, (on, full)) ↦ inr (omega arith, (on, omega (arith, e k, full)))
                ],
                early_after limit t t1 frame frames k s
                    (λ (on, full). ground (arith, under, on, full)) early,
              )
      ]
