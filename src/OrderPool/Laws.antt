-- ===== src/OrderPool/Laws.antt =====
-- The free list of the pool: what it starts with, and that it is a stack.
use trade_feed.Prelude.{
  ℕ, zero, suc, ◌+◌, ◌<◌, ◌≡◌, refl, inl, inr, some, List, [], ◌∷◌, arith, length, ap, ◌∙◌,
}
use trade_feed.PriceLevel.Chain.{In, Fresh, Distinct}
use trade_feed.OrderPool.{OrderPool, push_free, make, allocate, deallocate, available, capacity}

-- The indices from `i` on.
abbrev up_from : ℕ → ℕ → List ℕ
up_from zero i = []
up_from (suc n) i = i ∷ up_from n (suc i)

up_from-Fresh : (n i x : ℕ) → x < i → Fresh x (up_from n i)
up_from-Fresh zero i x h = tt
up_from-Fresh (suc n) i x h = (λ e. omega arith, up_from-Fresh n (suc i) x (omega arith))

up_from-Distinct : (n i : ℕ) → Distinct (up_from n i)
up_from-Distinct zero i = tt
up_from-Distinct (suc n) i = (up_from-Fresh n (suc i) i (omega arith), up_from-Distinct n (suc i))

length-up_from : (n i : ℕ) → length (up_from n i) ≡ n
length-up_from zero i = refl
length-up_from (suc n) i = omega (arith, length-up_from n (suc i))

push_free-up_from : (n m : ℕ) → push_free n (up_from m n) ≡ up_from (n + m) 0
unfolding push_free
push_free-up_from zero m = ap (λ k. up_from k 0) (omega arith)
push_free-up_from (suc n) m = push_free-up_from n (suc m) ∙ ap (λ k. up_from k 0) (omega arith)

free_list-make : (n : ℕ) → (make n).free_list ≡ up_from n 0
unfolding make
free_list-make n = push_free-up_from n 0 ∙ ap (λ k. up_from k 0) (omega arith)

-- A new pool has every order free, once.
pub make_lem :
    (n : ℕ) → Distinct (make n).free_list × (available (make n) ≡ n) × (capacity (make n) ≡ n)
unfolding available capacity
make_lem n = rw (free_list-make n) (up_from-Distinct n 0, length-up_from n 0, (unfold make in refl))

-- An order that was just freed is the next one to be handed out, and the free list is as before.
pub allocate-deallocate :
    (p : OrderPool) (o : ℕ)
    → allocate (deallocate p o) ≡ some (o, record p { arena = (deallocate p o).arena })
unfolding allocate deallocate
allocate-deallocate p o = refl

up_from-range : (n i x : ℕ) → In x (up_from n i) → x < n + i
up_from-range zero i x k = absurd k
up_from-range (suc n) i x (inl e) = omega arith
up_from-range (suc n) i x (inr k) = omega (arith, up_from-range n (suc i) x k)

pub size-make : (n : ℕ) → (make n).size ≡ n
unfolding make
size-make n = refl

pub make-In_arena : (n x : ℕ) → In x (make n).free_list → x < (make n).size
make-In_arena n x = rw (free_list-make n, size-make n) λ k. omega (arith, up_from-range n 0 x k)
