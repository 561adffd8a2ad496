-- ===== src/Prelude/Text.antt =====
-- String literals of the sources as lists of characters.
use Prim.Native.Char.{code}
use Prim.Native.String.{String, [], ◌∷◌}
use Prim.Native.Nat.{ℕ}
use mathlib.Core.List.{List, [] as []ᴸ, ◌∷◌ as ◌∷ᴸ◌}

unfoldable pub text : String → List ℕ
text [] = []ᴸ
text (c ∷ s) = code c ∷ᴸ text s
