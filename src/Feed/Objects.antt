-- ===== src/Feed/Objects.antt =====
-- `for_each_object` finds the objects of an array of objects, whatever their strings and the objects
-- inside them hold.
use trade_feed.Prelude.{
  append-nil, append_assoc, ℕ, suc, ◌+◌, ◌%◌, ◌<◌, ◌≡◌, ◌≢◌, refl, sym, ap, ◌∙◌, Bool, true, false,
  List, [], ◌∷◌, ◌++◌, map, arith, ◌==◌,
}
use trade_feed.Types.{u32_mod, sub32}
use trade_feed.Feed.{
  Text, quote_mark, open_brace, close_brace, backslash, Scan, scan_char, scan_text, for_each_object,
}

-- What stands between two quote marks, and between two braces.
pub data StringBody : Type 0 where
  end_string : StringBody
  letter : ℕ → StringBody → StringBody
  escaped : ℕ → StringBody → StringBody

pub data Body : Type 0 where
  end_body : Body
  plain : ℕ → Body → Body
  quoted : StringBody → Body → Body
  nested : Body → Body → Body

abbrev pub string_text : StringBody → Text
string_text end_string = []
string_text (letter c s) = c ∷ string_text s
string_text (escaped c s) = backslash ∷ c ∷ string_text s

abbrev pub body_text : Body → Text
body_text end_body = []
body_text (plain c b) = c ∷ body_text b
body_text (quoted s b) = (quote_mark ∷ string_text s) ++ quote_mark ∷ body_text b
body_text (nested a b) = (open_brace ∷ body_text a) ++ close_brace ∷ body_text b

-- A letter of a string is no quote mark and no backslash, and a plain character no brace either.
abbrev pub StringOk : StringBody → Type 0
StringOk end_string = Unit
StringOk (letter c s) = (c ≢ quote_mark) × (c ≢ backslash) × StringOk s
StringOk (escaped c s) = StringOk s

abbrev pub IsPlain : ℕ → Type 0
IsPlain c = (c ≢ quote_mark) × (c ≢ backslash) × (c ≢ open_brace) × (c ≢ close_brace)

abbrev pub BodyOk : Body → Type 0
BodyOk end_body = Unit
BodyOk (plain c b) = IsPlain c × BodyOk b
BodyOk (quoted s b) = StringOk s × BodyOk b
BodyOk (nested a b) = BodyOk a × BodyOk b

-- How deep the objects in a body go.
abbrev pub nesting : Body → ℕ
nesting end_body = 0
nesting (plain c b) = nesting b
nesting (quoted s b) = nesting b
nesting (nested a b) = suc (nesting a) + nesting b

abbrev scan_at : ℕ → Bool → Text → List Text → Scan
scan_at d str t k = record { depth = d; in_str = str; esc = false; since_start = t; calls = k }

scan_text-append : (t u : Text) (s : Scan) → scan_text s (t ++ u) ≡ scan_text (scan_text s t) u
unfolding scan_text
scan_text-append [] u s = refl
scan_text-append (c ∷ t) u s = scan_text-append t u (scan_char s c)

-- One step, by the character.
step-letter :
    (d c : ℕ) (t : Text) (k : List Text)
    → c ≢ quote_mark
    → c ≢ backslash
    → scan_char (scan_at d true t k) c ≡ scan_at d true (t ++ c ∷ []) k
unfolding scan_char
step-letter d c t k nq nb =
    let q : (c == 34) ≡ false = ground arith in
    let b : (c == 92) ≡ false = ground arith in rw (b, q) refl

step-plain :
    (d c : ℕ) (t : Text) (k : List Text)
    → IsPlain c
    → scan_char (scan_at d false t k) c ≡ scan_at d false (t ++ c ∷ []) k
unfolding scan_char
step-plain d c t k (nq, nb, n_open, n_close) =
    let q : (c == 34) ≡ false = ground arith in
    let b : (c == 92) ≡ false = ground arith in
    let o : (c == 123) ≡ false = ground arith in
    let e : (c == 125) ≡ false = ground arith in rw (b, q, o, e) refl

scan-string :
    (s : StringBody) (d : ℕ) (t : Text) (k : List Text)
    → StringOk s
    → scan_text (scan_at d true t k) (string_text s) ≡ scan_at d true (t ++ string_text s) k
unfolding scan_text
scan-string end_string d t k ok = ap (λ l. scan_at d true l k) (sym (append-nil t))
scan-string (letter c s) d t k (nq, nb, ok) =
    ap (λ z. scan_text z (string_text s)) (step-letter d c t k nq nb)
    ∙ scan-string s d (t ++ c ∷ []) k ok
    ∙ ap (λ l. scan_at d true l k) (append_assoc t (c ∷ []) (string_text s))
scan-string (escaped c s) d t k ok =
    scan-string s d ((t ++ backslash ∷ []) ++ c ∷ []) k ok
    ∙ ap (λ l. scan_at d true l k)
        (append_assoc (t ++ backslash ∷ []) (c ∷ []) (string_text s)
          ∙ append_assoc t (backslash ∷ []) (c ∷ string_text s))

step-open :
    (d : ℕ) (t : Text) (k : List Text)
    → 0 < d
    → d + 1 < u32_mod
    → scan_char (scan_at d false t k) open_brace ≡ scan_at (d + 1) false (t ++ open_brace ∷ []) k
unfolding scan_char
step-open d t k pos small =
    let z : (d == 0) ≡ false = ground arith in
    let e : (d + 1) % u32_mod ≡ d + 1 = omega arith in rw (z, e) refl

step-close :
    (d : ℕ) (t : Text) (k : List Text)
    → 0 < d
    → d + 1 < u32_mod
    → scan_char (scan_at (d + 1) false t k) close_brace ≡ scan_at d false (t ++ close_brace ∷ []) k
unfolding scan_char
step-close d t k pos small =
    let e : sub32 (d + 1) 1 ≡ d = omega arith in
    let z : (d == 0) ≡ false = ground arith in rw (e, z) refl

-- A body is copied, and the state is as before.
scan-body :
    (b : Body) (d : ℕ) (t : Text) (k : List Text)
    → 0 < d
    → d + nesting b < u32_mod
    → BodyOk b
    → scan_text (scan_at d false t k) (body_text b) ≡ scan_at d false (t ++ body_text b) k
unfolding scan_text
scan-body end_body d t k pos small ok = ap (λ l. scan_at d false l k) (sym (append-nil t))
scan-body (plain c b) d t k pos small (ok, rest) =
    ap (λ z. scan_text z (body_text b)) (step-plain d c t k ok)
    ∙ scan-body b d (t ++ c ∷ []) k pos small rest
    ∙ ap (λ l. scan_at d false l k) (append_assoc t (c ∷ []) (body_text b))
scan-body (quoted s b) d t k pos small (ok, rest) =
    let t1 = t ++ quote_mark ∷ [] in
    let t2 = t1 ++ string_text s in
    scan_text-append (string_text s) (quote_mark ∷ body_text b) (scan_at d true t1 k)
    ∙ ap (λ z. scan_text z (quote_mark ∷ body_text b)) (scan-string s d t1 k ok)
    ∙ scan-body b d (t2 ++ quote_mark ∷ []) k pos small rest
    ∙ ap (λ l. scan_at d false l k)
        (append_assoc t2 (quote_mark ∷ []) (body_text b)
          ∙ append_assoc t1 (string_text s) (quote_mark ∷ body_text b)
          ∙ append_assoc t (quote_mark ∷ []) (string_text s ++ quote_mark ∷ body_text b))
scan-body (nested a b) d t k pos small (ok, rest) =
    let t1 = t ++ open_brace ∷ [] in
    let t2 = t1 ++ body_text a in
    ap (λ z. scan_text z (body_text a ++ close_brace ∷ body_text b))
      (step-open d t k pos (omega arith))
    ∙ scan_text-append (body_text a) (close_brace ∷ body_text b) (scan_at (d + 1) false t1 k)
    ∙ ap (λ z. scan_text z (close_brace ∷ body_text b))
        (scan-body a (d + 1) t1 k (omega arith) (omega arith) ok)
    ∙ ap (λ z. scan_text z (body_text b)) (step-close d t2 k pos (omega arith))
    ∙ scan-body b d (t2 ++ close_brace ∷ []) k pos (omega arith) rest
    ∙ ap (λ l. scan_at d false l k)
        (append_assoc t2 (close_brace ∷ []) (body_text b)
          ∙ append_assoc t1 (body_text a) (close_brace ∷ body_text b)
          ∙ append_assoc t (open_brace ∷ []) (body_text a ++ close_brace ∷ body_text b))

abbrev pub object_text : Body → Text
object_text b = (open_brace ∷ body_text b) ++ close_brace ∷ []

-- Objects, each after a gap of plain characters, and a gap at the end.
abbrev pub frame_text : List (Text × Body) → Text → Text
frame_text [] gap = gap
frame_text ((g, b) ∷ items) gap = g ++ (object_text b ++ frame_text items gap)

abbrev pub AllPlain : Text → Type 0
AllPlain [] = Unit
AllPlain (c ∷ t) = IsPlain c × AllPlain t

abbrev pub FrameOk : List (Text × Body) → Type 0
FrameOk [] = Unit
FrameOk ((g, b) ∷ items) = AllPlain g × BodyOk b × (nesting b + 1 < u32_mod) × FrameOk items

scan-gap :
    (g : Text) (t : Text) (k : List Text)
    → AllPlain g
    → scan_text (scan_at 0 false t k) g ≡ scan_at 0 false (t ++ g) k
unfolding scan_text
scan-gap [] t k ok = ap (λ l. scan_at 0 false l k) (sym (append-nil t))
scan-gap (c ∷ g) t k (ok, rest) =
    ap (λ z. scan_text z g) (step-plain 0 c t k ok)
    ∙ scan-gap g (t ++ c ∷ []) k rest
    ∙ ap (λ l. scan_at 0 false l k) (append_assoc t (c ∷ []) g)

-- At the top, the callback is given the object.
scan-object :
    (b : Body) (t : Text) (k : List Text)
    → BodyOk b
    → nesting b + 1 < u32_mod
    → scan_text (scan_at 0 false t k) (object_text b)
      ≡ scan_at 0 false (object_text b) (k ++ object_text b ∷ [])
unfolding scan_text scan_char
scan-object b t k ok small =
    scan_text-append (body_text b) (close_brace ∷ []) (scan_at 1 false (open_brace ∷ []) k)
    ∙ ap (λ z. scan_text z (close_brace ∷ []))
        (scan-body b 1 (open_brace ∷ []) k (omega arith) (omega arith) ok)

scan-frame :
    (items : List (Text × Body)) (gap t : Text) (k : List Text)
    → FrameOk items
    → AllPlain gap
    → (scan_text (scan_at 0 false t k) (frame_text items gap)).calls
      ≡ k ++ map (λ i. object_text i.1) items
scan-frame [] gap t k ok plain_gap =
    ap (λ s. s.calls) (scan-gap gap t k plain_gap) ∙ sym (append-nil k)
scan-frame ((g, b) ∷ items) gap t k (ok_g, ok_b, small, ok) plain_gap =
    let rest = frame_text items gap in
    ap (λ s. s.calls)
      (scan_text-append g (object_text b ++ rest) (scan_at 0 false t k)
        ∙ ap (λ z. scan_text z (object_text b ++ rest)) (scan-gap g t k ok_g)
        ∙ scan_text-append (object_text b) rest (scan_at 0 false (t ++ g) k)
        ∙ ap (λ z. scan_text z rest) (scan-object b (t ++ g) k ok_b small))
    ∙ scan-frame items gap (object_text b) (k ++ object_text b ∷ []) ok plain_gap
    ∙ append_assoc k (object_text b ∷ []) (map (λ i. object_text i.1) items)

-- The callback of `for_each_object` is given exactly the objects of a frame, in order: whatever
-- braces and escaped characters their strings hold and however they nest, as long as the depth fits
-- in 32 bits and no quote mark, backslash or brace stands outside them.
pub for_each_object-frame_text :
    (items : List (Text × Body)) (gap : Text)
    → FrameOk items
    → AllPlain gap
    → for_each_object (frame_text items gap) ≡ map (λ i. object_text i.1) items
unfolding for_each_object
for_each_object-frame_text items gap ok plain_gap = scan-frame items gap [] [] ok plain_gap
