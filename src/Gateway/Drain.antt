-- ===== src/Gateway/Drain.antt =====
-- `drain_outbound` sends everything to everyone.
use trade_feed.Prelude.{
  ℕ, zero, suc, ◌+◌, ◌<◌, ◌≤◌, ◌≡◌, refl, sym, ap, ◌∙◌, ◌↔◌, inl, inr, true, Bool-cases, some,
  Option-cases, List, [], ◌∷◌, ◌++◌, length, map, arith, subst, ℕ_discrete,
}
use trade_feed.PriceLevel.Chain.{In}
use trade_feed.Codec.{OutboundMessage, WireMessage}
use trade_feed.SpscRing
use trade_feed.SpscRing.{Ring}
use trade_feed.SpscRing.Fifo.{IsRing, pop-IsRing}
use trade_feed.Gateway.{ClientState, max_clients, outbound_wire, send_targets, drain_outbound}

-- A client that is there, among the slots from `i` on and below `n`.
pub record IsListening (clients : ℕ → ClientState) (i n fd : ℕ) : Type 0 where
  pub slot : ℕ
  pub from : i ≤ slot
  pub below : slot < n
  pub active : (clients slot).active ≡ true
  pub descriptor : (clients slot).fd ≡ some fd

module _ (clients : ℕ → ClientState) where
  later : (i n fd : ℕ) → IsListening clients (suc i) n fd → IsListening clients i n fd
  later i n fd l = record {
    slot = l.slot;
    from = omega (arith, l.from);
    below = l.below;
    active = l.active;
    descriptor = l.descriptor;
  }

  targets_listen :
      (n i fd : ℕ) → In fd (send_targets clients i n) → IsListening clients i (i + n) fd
  unfolding send_targets
  targets_listen zero i fd k = absurd k
  targets_listen (suc n) i fd k =
      let ih : In fd (send_targets clients (suc i) n) → IsListening clients i (i + suc n) fd = λ m.
        later i (i + suc n) fd (
          subst (λ z. IsListening clients (suc i) z fd) (plus_suc i n)
            (targets_listen n (suc i) fd m)) in
      elim (Option-cases (clients i).fd) [
        | inl closed ↦ ih (rw (closed, send_targets) at k)
        | inr (d, at) ↦ elim (Bool-cases (clients i).active) [
          | inr idle ↦ ih (rw (at, idle, send_targets) at k)
          | inl active ↦ elim (rw (at, active, send_targets) at k) [
            | inl same ↦ record {
              slot = i;
              from = omega arith;
              below = omega arith;
              active = active;
              descriptor = at ∙ ap some (sym same);
            }
            | inr m ↦ ih m
          ]
        ]
      ]
    where
      plus_suc : (a b : ℕ) → suc a + b ≡ a + suc b
      plus_suc a b = omega arith

  listeners_targeted :
      (n i fd : ℕ) → IsListening clients i (i + n) fd → In fd (send_targets clients i n)
  unfolding send_targets
  listeners_targeted zero i fd l = absurd (omega (arith, l.from, l.below))
  listeners_targeted (suc n) i fd l = elim (ℕ_discrete l.slot i) [
    | yes here ↦
        let at : (clients i).fd ≡ some fd = ap (λ k. (clients k).fd) (sym here) ∙ l.descriptor in
        let active : (clients i).active ≡ true =
          ap (λ k. (clients k).active) (sym here) ∙ l.active in
        rw (at, active, send_targets) (inl refl)
    | no ne ↦
        let ih = listeners_targeted n (suc i) fd (record {
          slot = l.slot;
          from = omega (arith, l.from, ne);
          below = omega (arith, l.below);
          active = l.active;
          descriptor = l.descriptor;
        }) in
        elim (Option-cases (clients i).fd) [
          | inl closed ↦ rw (closed, send_targets) ih
          | inr (d, at) ↦ elim (Bool-cases (clients i).active) [
            | inr idle ↦ rw (at, idle, send_targets) ih
            | inl active ↦ rw (at, active, send_targets) (inr ih)
          ]
        ]
  ]

  -- Each message to each of the descriptors, in the order of the messages.
  abbrev pub broadcast : List ℕ → List OutboundMessage → List (ℕ × WireMessage)
  broadcast fds [] = []
  broadcast fds (m ∷ ms) = map (λ fd. (fd, outbound_wire m)) fds ++ broadcast fds ms

  drain_loop-broadcast :
      (xs : List OutboundMessage) (fuel : ℕ) (ring : Ring OutboundMessage)
      → IsRing ring xs
      → length xs < fuel
      → let d = drain_outbound fuel clients ring in
        (d.0 ≡ broadcast (send_targets clients 0 max_clients) xs) × IsRing d.1 []
  unfolding drain_outbound
  drain_loop-broadcast xs zero ring v h = absurd (omega arith)
  drain_loop-broadcast [] (suc fuel) ring v h =
      let (left, out) = pop-IsRing ring [] v in rw (out, drain_outbound) (refl, left)
  drain_loop-broadcast (m ∷ xs) (suc fuel) ring v h =
      let (left, out) = pop-IsRing ring (m ∷ xs) v in
      let (sent, empty_) = drain_loop-broadcast xs fuel (SpscRing.pop ring).0 left (omega arith) in
      rw (out, drain_outbound)
        (
          ap (λ l. map (λ fd. (fd, outbound_wire m)) (send_targets clients 0 max_clients) ++ l)
              sent,
          empty_,
        )

  -- If the outbound ring holds `xs`, and fewer than the fuel, `drain_outbound` leaves it empty and
  -- has sent every one of them, in order, to the same descriptors, which are exactly those of the
  -- active clients.
  pub drain_outbound-broadcast :
      (xs : List OutboundMessage) (fuel : ℕ) (ring : Ring OutboundMessage)
      → IsRing ring xs
      → length xs < fuel
      → let d = drain_outbound fuel clients ring in
        (fds : List ℕ) × (d.0 ≡ broadcast fds xs)
        × IsRing d.1 []
        × ((fd : ℕ) → In fd fds ↔ IsListening clients 0 max_clients fd)
  drain_outbound-broadcast xs fuel ring v h =
      let (sent, empty_) = drain_loop-broadcast xs fuel ring v h in
      (
        send_targets clients 0 max_clients,
        sent,
        empty_,
        λ fd. (targets_listen max_clients 0 fd, listeners_targeted max_clients 0 fd),
      )
