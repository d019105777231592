-- ===== src/SpscRing.antt =====
-- src/transport/spsc_ring.h: a ring between one producer and one consumer. The indices are `size_t`
-- and run on; the capacity is that of both rings of the program, and `index & MASK` is `index % ring_size`,
-- as it is a power of two.
pub mod Fifo
pub mod Interleave
pub mod Access
pub mod Steps
use trade_feed.Prelude.{
  ℕ, ◌%◌, Bool, true, false, Option, none, some, ltb, leb, ◌==◌, if◌then◌else◌,
}
use trade_feed.Prelude.Array.{write}
use trade_feed.Types.{add64, sub64, ring_size}

pub record Ring {ℓ} (A : Type ℓ) : Type ℓ where
  pub head : ℕ
  pub tail : ℕ
  pub cached_tail : ℕ
  pub cached_head : ℕ
  pub buffer : ℕ → A

-- A new ring, whose buffer holds `x` everywhere.
unfoldable pub make {ℓ} : {A : Type ℓ} → A → Ring A
make x = record { head = 0; tail = 0; cached_tail = 0; cached_head = 0; buffer = λ _. x }

-- `head - cached_tail_ >= Capacity` and `cached_head_ <= tail`.
abbrev pub looks_full {ℓ} : {A : Type ℓ} → Ring A → Bool
looks_full r = leb ring_size (sub64 r.head r.cached_tail)

abbrev pub looks_empty {ℓ} : {A : Type ℓ} → Ring A → Bool
looks_empty r = leb r.cached_head r.tail

abbrev pub load_tail {ℓ} : {A : Type ℓ} → Ring A → Ring A
load_tail r = record r { cached_tail = r.tail }

abbrev pub load_head {ℓ} : {A : Type ℓ} → Ring A → Ring A
load_head r = record r { cached_head = r.head }

abbrev pub write_item {ℓ} : {A : Type ℓ} → Ring A → A → Ring A
write_item r x = record r { buffer = write r.buffer (r.head % ring_size) x }

abbrev pub store_head {ℓ} : {A : Type ℓ} → Ring A → Ring A
store_head r = record r { head = add64 r.head 1 }

abbrev pub read_item {ℓ} : {A : Type ℓ} → Ring A → A
read_item r = r.buffer (r.tail % ring_size)

abbrev pub store_tail {ℓ} : {A : Type ℓ} → Ring A → Ring A
store_tail r = record r { tail = add64 r.tail 1 }

unfoldable pub push {ℓ} : {A : Type ℓ} → Ring A → A → Ring A × Bool
push r x =
    if looks_full r
    then (let r' = load_tail r in
        if looks_full r' then (r', false) else (store_head (write_item r' x), true))
    else (store_head (write_item r x), true)

unfoldable pub pop {ℓ} : {A : Type ℓ} → Ring A → Ring A × Option A
pop r =
    if looks_empty r
    then (let r' = load_head r in
        if looks_empty r' then (r', none) else (store_tail r', some (read_item r')))
    else (store_tail r, some (read_item r))

unfoldable pub size {ℓ} : {A : Type ℓ} → Ring A → ℕ
size r = sub64 r.head r.tail

unfoldable pub empty {ℓ} : {A : Type ℓ} → Ring A → Bool
unfolding size
empty r = size r == 0
