-- ===== src/Tests/Stream.antt =====
-- The theorem on the feed's loop at a concrete frame.
use trade_feed.Prelude.{
  List, some, false, ◌==◌, if◌then◌else◌, ℕ, ◌<◌, ◌≡◌, ◌⊎◌, refl, true, none, [], ◌∷◌, length, take,
  arith,
}
use trade_feed.Feed.{CaptureRecord, Text, for_each_object, scan_text, scan_char}
use trade_feed.Feed.{field, field_str}
use trade_feed.Feed.Normalize.{normalize, normalize_trade}
use trade_feed.Feed.Replay.{Replayed, replay_loop, replay_all, replay_loop-take}
use trade_feed.Feed.Handler.{
  Totals, Saw, Reaches, ticks_after, objects_of, on_frame, on_objects, on_object, take_record,
  stream_loop, stream_loop-Saw,
}

-- `[{"T":"t","S":"A","p":1}]`.
abbrev a_frame : Text
a_frame =
    91 ∷ 123 ∷ 34 ∷ 84 ∷ 34 ∷ 58 ∷ 34 ∷ 116 ∷ 34 ∷ 44 ∷ 34 ∷ 83 ∷ 34 ∷ 58 ∷ 34 ∷ 65 ∷ 34 ∷ 44 ∷ 34
    ∷ 112 ∷ 34 ∷ 58 ∷ 49 ∷ 125 ∷ 93 ∷ []

-- Two frames with a trade each, of which the limit lets the loop read one.
abbrev two_frames : List Text
two_frames = a_frame ∷ a_frame ∷ []

abbrev nothing_yet : Totals
nothing_yet = record { ticks = 0; orders = 0; skipped = 0; captured = []; sent = []; buy = true }

abbrev ten : Text → ℕ
ten t = 10

two_seen : length (objects_of ten ten true none two_frames) ≡ 2
unfolding for_each_object scan_text scan_char
two_seen = refl

one_read : (stream_loop ten ten true none 1 nothing_yet two_frames).ticks ≡ 1
unfolding stream_loop on_frame on_objects on_object take_record normalize normalize_trade field
    field_str for_each_object scan_text scan_char
one_read = refl

stream_loop-Saw_example :
    (k : ℕ) × Saw ten ten true none nothing_yet
      (objects_of ten ten true none (take k two_frames))
      (stream_loop ten ten true none 1 nothing_yet two_frames)
    × ((k ≡ 2)
        ⊎ ((0 < k)
            × Reaches ten ten true none 1 (ticks_after ten ten true none nothing_yet two_frames k)))
    × ((j : ℕ)
        → 0 < j
        → j < k
        → ¬ Reaches ten ten true none 1 (ticks_after ten ten true none nothing_yet two_frames j))
stream_loop-Saw_example =
    stream_loop-Saw ten ten true none 1 two_frames nothing_yet (omega (arith, two_seen))

-- Two trades, of which the limit takes one.
abbrev a_trade : CaptureRecord
a_trade = record {
  is_quote = false;
  symbol = [];
  p1 = 15_025;
  s1 = 100;
  p2 = 0;
  s2 = 0;
  venue_ns = 7;
}

abbrev two_trades : List CaptureRecord
two_trades = a_trade ∷ a_trade ∷ []

abbrev not_started : Replayed
not_started = record { n = 0; orders = 0; prev_ns = 0; sent = []; pauses = []; buy = true }

replay_loop-take_example :
    replay_loop none (some (λ w. true)) 1 not_started two_trades
    ≡ replay_all none
        (some (λ w. true))
        not_started
        (if 1 == 0 then two_trades else take 1 two_trades)
replay_loop-take_example =
    replay_loop-take none (some (λ w. true)) 1 two_trades not_started refl (omega arith)
