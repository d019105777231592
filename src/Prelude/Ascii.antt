-- ===== src/Prelude/Ascii.antt =====
-- Text literals as lists of bytes.
use Prim.Native.String.{String}
use Prim.Native.Char.{code}
use mathlib.Core.List.{List}
use Prim.Native.Nat.{ℕ}
use Prim.Native.String.{[], ◌∷◌}

-- For characters below 128.
unfoldable pub ascii : String → List ℕ
ascii [] = List.[]
ascii (c ∷ s) = List.◌∷◌ (code c) (ascii s)
