-- ===== src/Base/Tests.antt =====
-- Tests: `==` reads the decision of an instance, so that a proof by cases has the equation.
use Prim.Native.Nat.{ℕ, compare, Ordering}
use mathlib.Core.Path.{◌≡◌, refl}
use mathlib.Core.Bool.{Bool, true, false}
use mathlib.Core.Logic.{◌⊎◌, inl, inr}
use listserver.Base.Ints.{ℤ, ℤ_dec}
use listserver.Base.Bytes.{Text, text_dec}
use native.Mathlib.Decide.{ℕ_discrete}

abbrev pub ltb : ℕ → ℕ → Bool
ltb a b = elim (compare a b) [ Ordering.lt ↦ true | _ ↦ false ]

abbrev pub leb : ℕ → ℕ → Bool
leb a b = elim (compare a b) [ Ordering.gt ↦ false | _ ↦ true ]

infix 1 if◌then◌else◌
abbrev pub if◌then◌else◌ {ℓ} : {A : Type ℓ} → Bool → A → A → A
if true then x else y = x
if false then x else y = y

pub Bool-cases : (b : Bool) → (b ≡ true) ⊎ (b ≡ false)
Bool-cases true = inl refl
Bool-cases false = inr refl

-- What holds of both branches holds of a choice between them.
pub if_both {ℓ κ} :
    {A : Type ℓ} (P : A → Type κ) (b : Bool) {x y : A} → P x → P y → P (if b then x else y)
if_both P true p q = p
if_both P false p q = q

abbrev pub is_yes {ℓ} : {P : Type ℓ} → Dec P → Bool
is_yes (yes p) = true
is_yes (no h) = false

pub record Eq (A : Type 0) : Type 0 where
  pub dec : Discrete A

infix 50 ◌==◌
abbrev pub ◌==◌ : {A : Type 0} ⦃e : Eq A⦄ → A → A → Bool
◌==◌ ⦃e⦄ a b = is_yes (e.dec a b)

instance abbrev pub int_eq : Eq ℤ
int_eq = record { dec = ℤ_dec }

instance abbrev pub text_eq : Eq Text
text_eq = record { dec = text_dec }

instance abbrev pub nat_eq : Eq ℕ
nat_eq = record { dec = ℕ_discrete }

-- For tests: what `==` computes with.
unfoldable pub decisions : Unit {0}
unfolding ℕ_discrete text_dec ℤ_dec
decisions = tt
