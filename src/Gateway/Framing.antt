-- ===== src/Gateway/Framing.antt =====
-- `read_client` cuts the byte stream of a client into frames, however `recv` splits it.
use trade_feed.Prelude.{
  append-nil, append_assoc, ℕ, zero, suc, ◌+◌, ◌<◌, ◌≤◌, ◌≡◌, refl, inl, inr, sym, ap, ◌∙◌, subst,
  true, false, Bool-cases, none, List, [], ◌∷◌, ◌++◌, length, leb, if◌then◌else◌, arith,
}
use trade_feed.Prelude.Array.{write}
use trade_feed.Codec.{InboundMessage}
use trade_feed.SpscRing
use trade_feed.SpscRing.{Ring}
use trade_feed.Gateway.{
  ClientState, Gateway, Recv, bytes, closed, would_block, failed, store, take_bytes, read_loop,
  disconnect, wire_of, inbound_of, wire_msg_size,
}

-- The `n` bytes of a buffer from `i` on.
abbrev pub window : (ℕ → ℕ) → ℕ → ℕ → List ℕ
window f i zero = []
window f i (suc n) = f i ∷ window f (suc i) n

store_below : (f : ℕ → ℕ) (p : ℕ) (xs : List ℕ) (j : ℕ) → j < p → store f p xs j ≡ f j
store_below f p [] j h = refl
store_below f p (x ∷ xs) j h = store_below (write f p x) (suc p) xs j (omega arith) ∙ ground arith

window-store_all : (f : ℕ → ℕ) (p : ℕ) (xs : List ℕ) → window (store f p xs) p (length xs) ≡ xs
window-store_all f p [] = refl
window-store_all f p (x ∷ xs) =
    let here : store (write f p x) (suc p) xs p ≡ x =
      store_below (write f p x) (suc p) xs p (omega arith) ∙ ground arith in
    rw here (ap (λ l. x ∷ l) (window-store_all (write f p x) (suc p) xs))

-- The bytes that were stored follow those that were there.
window-store :
    (f : ℕ → ℕ) (n i p : ℕ) (xs : List ℕ)
    → p ≡ i + n
    → window (store f p xs) i (n + length xs) ≡ window f i n ++ xs
window-store f zero i p xs e =
    let e' : p ≡ i = omega arith in
    let z : 0 + length xs ≡ length xs = omega arith in rw (e', z) (window-store_all f i xs)
window-store f (suc n) i p xs e =
    let z : suc n + length xs ≡ suc (n + length xs) = omega arith in
    rw (z, store_below f p xs i (omega arith))
      (ap (λ l. f i ∷ l) (window-store f n (suc i) p xs (omega arith)))

-- `recv` gives at least a byte and at most what the rest of the buffer holds.
abbrev pub Delivers : ℕ → List Recv → Type 0
Delivers pos [] = Unit
Delivers pos (bytes xs tsc ∷ rs) =
    (0 < length xs)
    × (pos + length xs ≤ wire_msg_size)
    × Delivers (if leb wire_msg_size (pos + length xs) then 0 else pos + length xs) rs
Delivers pos (_ ∷ rs) = Unit

-- The bytes that the loop receives.
abbrev pub received : List Recv → List ℕ
received [] = []
received (bytes xs tsc ∷ rs) = xs ++ received rs
received (_ ∷ rs) = []

-- A buffer that was decoded, with the counter read then.
abbrev pub Frame : Type 0
Frame = (ℕ → ℕ) × ℕ

abbrev pub frame_bytes : List Frame → List ℕ
frame_bytes [] = []
frame_bytes (f ∷ fs) = window f.0 0 wire_msg_size ++ frame_bytes fs

abbrev pub push_frames : Ring InboundMessage → List Frame → Ring InboundMessage
push_frames r [] = r
push_frames r (f ∷ fs) = push_frames (SpscRing.push r (inbound_of (wire_of f.0) f.1)).0 fs

abbrev pub pending : ClientState → List ℕ
pending c = window c.read_buf 0 c.read_pos

-- The frames that the loop decoded, and what is left.
abbrev pub Framed : Gateway → ℕ → List Recv → Gateway → Type 0
Framed g slot rs g' =
    (fs : List Frame) × (g'.inbound ≡ push_frames g.inbound fs)
    × (frame_bytes fs ++ pending (g'.clients slot) ≡ pending (g.clients slot) ++ received rs)
    × ((g'.clients slot).read_pos < wire_msg_size)

at_self {ℓ} : {A : Type ℓ} (f : ℕ → A) (i : ℕ) (x : A) → write f i x i ≡ x
at_self f i x = ground arith

-- Bytes that do not fill a frame, and bytes that do.
take_bytes-short :
    (g : Gateway) (slot : ℕ) (xs : List ℕ) (tsc : ℕ)
    → leb wire_msg_size ((g.clients slot).read_pos + length xs) ≡ false
    → let g' = take_bytes g slot xs tsc in
      (g'.inbound ≡ g.inbound)
      × ((g'.clients slot).read_pos ≡ (g.clients slot).read_pos + length xs)
      × (pending (g'.clients slot) ≡ pending (g.clients slot) ++ xs)
unfolding take_bytes
take_bytes-short g slot xs tsc short =
    let c = g.clients slot in
    rw (short, at_self g.clients slot)
      (refl, refl, window-store c.read_buf c.read_pos 0 c.read_pos xs (omega arith))

take_bytes-full :
    (g : Gateway) (slot : ℕ) (xs : List ℕ) (tsc : ℕ)
    → leb wire_msg_size ((g.clients slot).read_pos + length xs) ≡ true
    → (g.clients slot).read_pos + length xs ≤ wire_msg_size
    → let g' = take_bytes g slot xs tsc in
      let f = store (g.clients slot).read_buf (g.clients slot).read_pos xs in
      (g'.inbound ≡ push_frames g.inbound ((f, tsc) ∷ []))
      × ((g'.clients slot).read_pos ≡ 0)
      × (window f 0 wire_msg_size ≡ pending (g.clients slot) ++ xs)
unfolding take_bytes
take_bytes-full g slot xs tsc full fits =
    let c = g.clients slot in
    let n : c.read_pos + length xs ≡ wire_msg_size = ground arith in
    rw (full, at_self g.clients slot)
      (
        refl,
        refl,
        subst (λ k. window (store c.read_buf c.read_pos xs) 0 k ≡ pending c ++ xs) n
            (window-store c.read_buf c.read_pos 0 c.read_pos xs (omega arith)),
      )

stop-Framed :
    (g g' : Gateway) (slot : ℕ) (rs : List Recv)
    → received rs ≡ []
    → g'.inbound ≡ g.inbound
    → pending (g'.clients slot) ≡ pending (g.clients slot)
    → (g'.clients slot).read_pos < wire_msg_size
    → Framed g slot rs g'
stop-Framed g g' slot rs none_left same kept small =
    ([], same, rw (kept, none_left) (sym (append-nil (pending (g.clients slot)))), small)

-- If less than a frame is pending and each `recv` gives a byte or more and no more than fits in the
-- buffer, then `read_loop` loses, repeats and reorders no byte: the frames that it decodes and
-- pushes, and then the bytes that it keeps, are those pending before and those received since, and
-- less than a frame is kept.
pub read_loop-Framed :
    (rs : List Recv) (g : Gateway) (slot : ℕ)
    → (g.clients slot).read_pos < wire_msg_size
    → Delivers (g.clients slot).read_pos rs
    → Framed g slot rs (read_loop g slot rs)
unfolding read_loop disconnect
read_loop-Framed [] g slot small d = stop-Framed g g slot [] refl refl refl small
read_loop-Framed (closed ∷ rs) g slot small d =
    let e = at_self g.clients slot (record (g.clients slot) { fd = none; active = false }) in
    stop-Framed g (disconnect g slot) slot (closed ∷ rs) refl refl (ap pending e) (rw e small)
read_loop-Framed (failed ∷ rs) g slot small d =
    let e = at_self g.clients slot (record (g.clients slot) { fd = none; active = false }) in
    stop-Framed g (disconnect g slot) slot (failed ∷ rs) refl refl (ap pending e) (rw e small)
read_loop-Framed (would_block ∷ rs) g slot small d =
    stop-Framed g g slot (would_block ∷ rs) refl refl refl small
read_loop-Framed (bytes xs tsc ∷ rs) g slot small (pos, fits, d) =
    elim (Bool-cases (leb wire_msg_size ((g.clients slot).read_pos + length xs))) [
      | inr short ↦
          let (same, at, kept) = take_bytes-short g slot xs tsc short in
          let (fs, e, bs, small') =
            read_loop-Framed rs (take_bytes g slot xs tsc) slot (rw at (ground arith))
              (rw at (rw short at d)) in
          (
            fs,
            e ∙ ap (λ r. push_frames r fs) same,
            bs
                ∙ ap (λ l. l ++ received rs) kept
                ∙ append_assoc (pending (g.clients slot)) xs (received rs),
            small',
          )
      | inl full ↦
          let (sent, at, cut) = take_bytes-full g slot xs tsc full fits in
          let f = store (g.clients slot).read_buf (g.clients slot).read_pos xs in
          let g' = take_bytes g slot xs tsc in
          let nothing : pending (g'.clients slot) ≡ [] =
            ap (window (g'.clients slot).read_buf 0) at in
          let (fs, e, bs, small') =
            read_loop-Framed rs g' slot (rw at (omega arith)) (rw at (rw full at d)) in
          (
            (f, tsc) ∷ fs,
            e ∙ ap (λ r. push_frames r fs) sent,
            append_assoc (window f 0 wire_msg_size) (frame_bytes fs) _
                ∙ ap (λ l. window f 0 wire_msg_size ++ l) (bs ∙ ap (λ l. l ++ received rs) nothing)
                ∙ ap (λ l. l ++ received rs) cut
                ∙ append_assoc (pending (g.clients slot)) xs (received rs),
            small',
          )
    ]
