-- ===== src/Base/Bytes.antt =====
-- Go strings as their bytes.
use Prim.Native.Nat.{ℕ}
use Prim.Native.Char.{code}
use Prim.Native.String.{String}
use mathlib.Core.Path.{refl, ap₂}
use mathlib.Core.List.{List, [], ◌∷◌}
use native.Mathlib.Decide.{ℕ_discrete}

abbrev pub Text : Type 0
Text = List ℕ

-- The bytes of a text literal: all of the program's are ASCII.
abbrev pub codes : String → Text
codes String.[] = []
codes (String.◌∷◌ c s) = code c ∷ codes s

unfoldable pub text_dec : Discrete Text
unfolding ℕ_discrete
text_dec [] [] = yes refl
text_dec [] (y ∷ ys) = no (λ e. cc)
text_dec (x ∷ xs) [] = no (λ e. cc)
text_dec (x ∷ xs) (y ∷ ys) = elim (ℕ_discrete x y) [
  | no h ↦ no (λ e. h (cc))
  | yes p ↦ elim (text_dec xs ys) [ yes q ↦ yes (ap₂ ◌∷◌ p q) | no h ↦ no (λ e. h (cc)) ]
]
