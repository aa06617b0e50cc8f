-- ===== src/Base/Ints.antt =====
-- Go's signed integers, as far as the program uses them: comparisons and small constants.
use Prim.Native.Nat.{ℕ, zero, suc, compare, Ordering}
use mathlib.Core.Path.{ap}
use mathlib.Core.Bool.{Bool, true, false}
use native.Mathlib.Decide.{ℕ_discrete}

-- `negsuc n` is -(n + 1).
pub data ℤ : Type 0 where
  pos : ℕ → ℤ
  negsuc : ℕ → ℤ

unfoldable pub ℤ_dec : Discrete ℤ
unfolding ℕ_discrete
ℤ_dec (pos a) (pos b) = elim (ℕ_discrete a b) [ yes p ↦ yes (ap pos p) | no h ↦ no (λ e. h (cc)) ]
ℤ_dec (pos a) (negsuc b) = no (λ e. cc)
ℤ_dec (negsuc a) (pos b) = no (λ e. cc)
ℤ_dec (negsuc a) (negsuc b) = elim (ℕ_discrete a b) [
  | yes p ↦ yes (ap negsuc p)
  | no h ↦ no (λ e. h (cc))
]

abbrev pub IsPositive : ℤ → Type 0
IsPositive (pos zero) = ⊥
IsPositive (pos (suc n)) = Unit
IsPositive (negsuc n) = ⊥

-- The constants and comparisons of the program.
abbrev pub ltb_ℤ : ℤ → ℤ → Bool
ltb_ℤ (pos a) (pos b) = elim (compare a b) [ Ordering.lt ↦ true | _ ↦ false ]
ltb_ℤ (pos a) (negsuc b) = false
ltb_ℤ (negsuc a) (pos b) = true
ltb_ℤ (negsuc a) (negsuc b) = elim (compare b a) [ Ordering.lt ↦ true | _ ↦ false ]
