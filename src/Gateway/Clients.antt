-- ===== src/Gateway/Clients.antt =====
-- The table of clients.
use trade_feed.Prelude.{
  ℕ, zero, suc, ◌+◌, ◌<◌, ◌≤◌, ◌≡◌, refl, ◌⊎◌, inl, inr, sym, ap, ◌∙◌, Bool, true, false,
  Bool-cases, Option, none, some, arith, if◌then◌else◌, ◌==◌, ℕ_discrete,
}
use trade_feed.Gateway.{
  ClientState, Gateway, first_slot, is_free, has_fd, find_slot, slot_for_fd, accept_client,
  disconnect, max_clients,
}

-- The search gives the first slot that passes, or none passes.
abbrev pub FirstSlot : (ClientState → Bool) → (ℕ → ClientState) → ℕ → ℕ → Option ℕ → Type 0
FirstSlot p clients i n none = (j : ℕ) → i ≤ j → j < i + n → p (clients j) ≡ false
FirstSlot p clients i n (some s) =
    (i ≤ s)
    × (s < i + n)
    × (p (clients s) ≡ true)
    × ((j : ℕ) → i ≤ j → j < s → p (clients j) ≡ false)

pub first_slot_lem :
    (p : ClientState → Bool) (clients : ℕ → ClientState) (i n : ℕ)
    → FirstSlot p clients i n (first_slot p clients i n)
first_slot_lem p clients i zero = λ j l h. absurd (omega arith)
first_slot_lem p clients i (suc n) = elim (Bool-cases (p (clients i))) [
  | inl hit ↦ rw hit (omega arith, omega arith, hit, λ j l h. absurd (omega arith))
  | inr miss ↦
      rw miss (later miss (first_slot p clients (suc i) n) (first_slot_lem p clients (suc i) n))
]
  where
    later :
        p (clients i) ≡ false
        → (o : Option ℕ) → FirstSlot p clients (suc i) n o
        → FirstSlot p clients i (suc n) o
    later miss none w = λ j l h. elim (ℕ_discrete j i) [
      | yes e ↦ rw e miss
      | no ne ↦ w j (omega arith) (omega arith)
    ]
    later miss (some s) (l, h, hit, before) = (
      omega arith,
      omega arith,
      hit,
      λ j l' h'. elim (ℕ_discrete j i) [ yes e ↦ rw e miss | no ne ↦ before j (omega arith) h' ],
    )

-- No two clients that are active have one descriptor.
abbrev pub OwnFds : Gateway → Type 0
OwnFds g =
    (i j fd : ℕ)
    → i < max_clients
    → j < max_clients
    → has_fd fd (g.clients i) ≡ true
    → has_fd fd (g.clients j) ≡ true
    → i ≡ j

-- The operating system gives a descriptor that no client has.
abbrev pub IsNewFd : Gateway → ℕ → Type 0
IsNewFd g fd = (i : ℕ) → i < max_clients → has_fd fd (g.clients i) ≡ false

-- What `accept_client` does: no slot was free, or the first free one has the new client.
abbrev pub Accepted : Gateway → ℕ → Gateway × Bool → Type 0
Accepted g fd r =
    ((r ≡ (g, false)) × ((j : ℕ) → j < max_clients → (g.clients j).active ≡ true))
    ⊎ ((s : ℕ) × (s < max_clients)
        × ((g.clients s).active ≡ false)
        × (r.1 ≡ true)
        × ((j : ℕ)
            → r.0.clients j ≡ (
                if j == s
                then record (g.clients s) { fd = some fd; active = true; read_pos = 0 }
                else g.clients j)))

not_free : (c : ClientState) → is_free c ≡ false → c.active ≡ true
not_free c e = elim (Bool-cases c.active) [ inl h ↦ h | inr h ↦ absurd (ground arith) ]

free_inactive : (c : ClientState) → is_free c ≡ true → c.active ≡ false
free_inactive c e = elim (Bool-cases c.active) [ inr h ↦ h | inl h ↦ absurd (ground arith) ]

pub accept_client-Accepted : (g : Gateway) (fd : ℕ) → Accepted g fd (accept_client g fd)
unfolding accept_client find_slot
accept_client-Accepted g fd =
    by_slot (find_slot g) refl (first_slot_lem is_free g.clients 0 max_clients)
  where
    by_slot :
        (o : Option ℕ)
        → find_slot g ≡ o
        → FirstSlot is_free g.clients 0 max_clients o
        → Accepted g fd (accept_client g fd)
    by_slot none e w =
        rw (e, accept_client)
          (inl (refl, λ j h. not_free (g.clients j) (w j (omega arith) (omega arith))))
    by_slot (some s) e (l, h, hit, before) =
        rw (e, accept_client)
          (inr (s, omega arith, free_inactive (g.clients s) hit, refl, λ j. refl))

-- Who has a descriptor once the new client is in slot `s`.
fd_after :
    (g : Gateway) (fd s k j : ℕ) (c' : ClientState)
    → c' ≡ (
        if j == s
        then record (g.clients s) { fd = some fd; active = true; read_pos = 0 }
        else g.clients j)
    → has_fd k c' ≡ true
    → ((j ≡ s) × (k ≡ fd)) ⊎ (has_fd k (g.clients j) ≡ true)
fd_after g fd s k j c' e h = elim (ℕ_discrete j s) [
  | yes here ↦
      let hit : (j == s) ≡ true = ground arith in
      let own : has_fd k (record (g.clients s) { fd = some fd; active = true; read_pos = 0 })
          ≡ true =
        rw (rw hit at e) at h in
      inl (here, ground (arith, own))
  | no ne ↦ let miss : (j == s) ≡ false = ground arith in inr (rw (rw miss at e) at h)
]

accept_client_apart :
    (g : Gateway) (fd : ℕ) → IsNewFd g fd → OwnFds g → OwnFds (accept_client g fd).0
accept_client_apart g fd new own = elim (accept_client-Accepted g fd) [
  | inl (e, _) ↦ rw e own
  | inr (s, small, idle, _, at) ↦ λ i j k li lj hi hj. elim (fd_after g fd s k i _ (at i) hi) [
    | inl (a, e) ↦ elim (fd_after g fd s k j _ (at j) hj) [
      | inl (b, _) ↦ a ∙ sym b
      | inr m ↦ absurd (ground (arith, new j lj, rw e at m))
    ]
    | inr m ↦ elim (fd_after g fd s k j _ (at j) hj) [
      | inl (_, e) ↦ absurd (ground (arith, new i li, rw e at m))
      | inr m' ↦ own i j k li lj m m'
    ]
  ]
]

-- No client that was active is disturbed.
abbrev pub KeepsClients : Gateway → Gateway → Type 0
KeepsClients g g' = (j : ℕ) → (g.clients j).active ≡ true → g'.clients j ≡ g.clients j

-- A slot that was not active has the new client.
abbrev pub Seated : Gateway → ℕ → Gateway → Type 0
Seated g fd g' =
    (s : ℕ) × (s < max_clients)
    × ((g.clients s).active ≡ false)
    × ((g'.clients s).active ≡ true)
    × ((g'.clients s).fd ≡ some fd)

-- Every slot is active, and nothing has changed.
abbrev pub TurnedAway : Gateway → Gateway → Type 0
TurnedAway g g' = (g' ≡ g) × ((j : ℕ) → j < max_clients → (g.clients j).active ≡ true)

-- If no active client has the new descriptor and no two active clients share one, then no two share
-- one after `accept_client`, and every client that was active keeps its slot, its descriptor and
-- its buffer. Either the answer is true and a slot that was not active has the new descriptor and
-- is active, or it is false, all slots were active and nothing has changed.
pub accept_client-OwnFds :
    (g : Gateway) (fd : ℕ)
    → IsNewFd g fd
    → OwnFds g
    → OwnFds (accept_client g fd).0
      × KeepsClients g (accept_client g fd).0
      × ((((accept_client g fd).1 ≡ true) × Seated g fd (accept_client g fd).0)
          ⊎ (((accept_client g fd).1 ≡ false) × TurnedAway g (accept_client g fd).0))
accept_client-OwnFds g fd new own = elim (accept_client-Accepted g fd) [
  | inl (e, full) ↦ (
    accept_client_apart g fd new own,
    (λ j live. ap (λ r. r.0.clients j) e),
    inr (ap (λ r. r.1) e, (ap (λ r. r.0) e, full)),
  )
  | inr (s, small, idle, ok, at) ↦
      let here : (accept_client g fd).0.clients s
          ≡ record (g.clients s) { fd = some fd; active = true; read_pos = 0 } =
        at s ∙ ground arith in
      (
        accept_client_apart g fd new own,
        (λ j live.
            let other : (j == s) ≡ false = ground (arith, idle, live) in at j ∙ rw other refl),
        inl (ok, (s, small, idle, ap (λ c. c.active) here, ap (λ c. c.fd) here)),
      )
]

-- If no active client has the new descriptor, no two active clients share one, and `accept_client`
-- takes it, then `slot_for_fd` finds it in a slot that was not active and whose buffer is now
-- empty.
pub slot_for_fd-accept_client :
    (g : Gateway) (fd : ℕ)
    → IsNewFd g fd
    → OwnFds g
    → (accept_client g fd).1 ≡ true
    → (s : ℕ) × (slot_for_fd (accept_client g fd).0 fd ≡ some s)
      × ((g.clients s).active ≡ false)
      × (((accept_client g fd).0.clients s).read_pos ≡ 0)
unfolding slot_for_fd
slot_for_fd-accept_client g fd new own ok = elim (accept_client-Accepted g fd) [
  | inl (e, _) ↦ absurd (ground (arith, ap (λ r. r.1) e))
  | inr (s, small, idle, _, at) ↦
      let g' = (accept_client g fd).0 in
      let same : g'.clients s ≡ record (g.clients s) { fd = some fd; active = true; read_pos = 0 } =
        at s ∙ ground arith in
      let hit : has_fd fd (g'.clients s) ≡ true = rw same (ground arith) in
      (s, found g' s small (accept_client_apart g fd new own) hit, idle, ap (λ c. c.read_pos) same)
]
  where
    found :
        (g' : Gateway) (s : ℕ)
        → s < max_clients
        → OwnFds g'
        → has_fd fd (g'.clients s) ≡ true
        → first_slot (has_fd fd) g'.clients 0 max_clients ≡ some s
    found g' s small own hit =
        by_slot (first_slot (has_fd fd) g'.clients 0 max_clients)
          (first_slot_lem (has_fd fd) g'.clients 0 max_clients)
      where
        by_slot : (o : Option ℕ) → FirstSlot (has_fd fd) g'.clients 0 max_clients o → o ≡ some s
        by_slot none w = absurd (ground (arith, w s (omega arith) (omega arith)))
        by_slot (some t) (l, h, hit', _) = ap some (own t s fd (omega arith) small hit' hit)

-- If no two active clients share a descriptor, none do after `disconnect`.
pub disconnect-OwnFds : (g : Gateway) (slot : ℕ) → OwnFds g → OwnFds (disconnect g slot)
unfolding disconnect
disconnect-OwnFds g slot own i j k li lj hi hj = own i j k li lj (was i hi) (was j hj)
  where
    was : (i : ℕ) → has_fd k ((disconnect g slot).clients i) ≡ true → has_fd k (g.clients i) ≡ true
    was i h = elim (ℕ_discrete i slot) [
      | yes e ↦ let hit : (i == slot) ≡ true = ground arith in absurd (ground (arith, rw hit at h))
      | no ne ↦ let miss : (i == slot) ≡ false = ground arith in rw miss at h
    ]
