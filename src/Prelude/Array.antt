-- ===== src/Prelude/Array.antt =====
-- An array of fixed size, or a store of objects, as the function from an index to what stands there.
-- An index outside is ruled out by the theorems of the module that owns the array.
use trade_feed.Prelude.{ℕ, ◌==◌, if◌then◌else◌}

abbrev pub write {ℓ} : {A : Type ℓ} → (ℕ → A) → ℕ → A → ℕ → A
write a i x j = if j == i then x else a j
