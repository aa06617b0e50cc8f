-- ===== src/Base/Lists.antt =====
-- Lists over the native numbers, predicates on lists by recursion, and results of fallible code.
use Prim.Native.Nat.{ℕ, suc, ◌+◌}
use mathlib.Core.Path.{◌≡◌, refl, sym, subst}
use mathlib.Core.Bool.{Bool, true, false, ◌||◌}
use mathlib.Core.Logic.{◌⊎◌, inl, inr, ◌≢◌, ◌↔◌}
use mathlib.Core.Option.{Option, none, some}
use mathlib.Core.List.{List, [], ◌∷◌, ◌++◌}
use native.Mathlib.Omega.{arith}
use listserver.Base.Tests.{if◌then◌else◌, Bool-cases}

pub data Result {ℓ κ} (E : Type ℓ) (A : Type κ) : Type (ℓ ⊔ κ) where
  ok : A → Result E A
  err : E → Result E A

module _ {ℓ} {A : Type ℓ} where
  pub Option-cases : (o : Option A) → (o ≡ none) ⊎ ((a : A) × (o ≡ some a))
  Option-cases none = inl refl
  Option-cases (some a) = inr (a, refl)

  abbrev pub length : List A → ℕ
  length [] = 0
  length (x ∷ xs) = suc (length xs)

  pub length-append : (xs ys : List A) → length (xs ++ ys) ≡ length xs + length ys
  length-append [] ys = omega arith
  length-append (x ∷ xs) ys = omega (arith, length-append xs ys)

  -- The loops of the source that look for an element, keep some, or count.
  unfoldable pub any : (A → Bool) → List A → Bool
  any p [] = false
  any p (x ∷ xs) = p x || any p xs

  unfoldable pub keep : (A → Bool) → List A → List A
  keep p [] = []
  keep p (x ∷ xs) = let rest = keep p xs in if p x then x ∷ rest else rest

  unfoldable pub find : (A → Bool) → List A → Option A
  find p [] = none
  find p (x ∷ xs) = if p x then some x else find p xs

  -- An update of the rows that a test picks.
  unfoldable pub update : (A → Bool) → (A → A) → List A → List A
  update p f [] = []
  update p f (x ∷ xs) = (if p x then f x else x) ∷ update p f xs

  abbrev pub All {κ} : (A → Type κ) → List A → Type κ
  All P [] = Unit
  All P (x ∷ xs) = P x × All P xs

module _ {A : Type 0} where
  -- Membership with its place in the list.
  abbrev pub In : A → List A → Type 0
  In x [] = ⊥
  In x (y ∷ ys) = (x ≡ y) ⊎ In x ys

  -- No two elements have the same key.
  abbrev pub Distinct {κ} : {K : Type κ} → (A → K) → List A → Type κ
  Distinct key [] = Unit
  Distinct key (x ∷ xs) = All (λ y. key y ≢ key x) xs × Distinct key xs

  pub All-In {κ} : (P : A → Type κ) (x : A) (xs : List A) → All P xs → In x xs → P x
  All-In P x [] h i = absurd i
  All-In P x (y ∷ ys) h (inl e) = subst P (sym e) h.0
  All-In P x (y ∷ ys) h (inr i) = All-In P x ys h.1 i

  pub In-All {κ} : (P : A → Type κ) (xs : List A) → ((x : A) → In x xs → P x) → All P xs
  In-All P [] f = tt
  In-All P (x ∷ xs) f = (f x (inl refl), In-All P xs (λ y i. f y (inr i)))

  -- A found element is in the list and passes the test.
  pub find-In : (p : A → Bool) (xs : List A) (x : A) → find p xs ≡ some x → In x xs × (p x ≡ true)
  unfolding find
  find-In p [] x e = cc
  find-In p (y ∷ ys) x e = ground (arith, find-In p ys x)

  pub find-none : (p : A → Bool) (xs : List A) → find p xs ≡ none → All (λ x. p x ≡ false) xs
  unfolding find
  find-none p [] e = tt
  find-none p (y ∷ ys) e = ground (arith, find-none p ys)

  pub any-In : (p : A → Bool) (xs : List A) (x : A) → In x xs → p x ≡ true → any p xs ≡ true
  unfolding any
  any-In p [] x i e = absurd i
  any-In p (y ∷ ys) x i e = ground (arith, any-In p ys x)

  pub any-append : (p : A → Bool) (xs ys : List A) → any p (xs ++ ys) ≡ (any p xs || any p ys)
  unfolding any
  any-append p [] ys = refl
  any-append p (x ∷ xs) ys = ground (arith, any-append p xs ys)

  pub any-witness :
      (p : A → Bool) (xs : List A) → any p xs ≡ true → (x : A) × In x xs × (p x ≡ true)
  unfolding any
  any-witness p [] e = cc
  any-witness p (y ∷ ys) e = elim (Bool-cases (p y)) [
    | inl h ↦ (y, inl refl, h)
    | inr h ↦ let (x, i, q) = any-witness p ys (rw h at e) in (x, inr i, q)
  ]

  -- `keep` holds exactly the elements that pass.
  pub In-keep_iff :
      (p : A → Bool) (x : A) (xs : List A) → In x (keep p xs) ↔ (In x xs × (p x ≡ true))
  unfolding keep
  In-keep_iff p x [] = ground arith
  In-keep_iff p x (y ∷ ys) = ground (arith, In-keep_iff p x ys)

  pub update-any-false :
      (p : A → Bool) (f : A → A) (xs : List A) → any p xs ≡ false → update p f xs ≡ xs
  unfolding any update
  update-any-false p f [] e = refl
  update-any-false p f (x ∷ xs) e = ground (arith, update-any-false p f xs)

  pub In-update_self :
      (p : A → Bool) (f : A → A) (x : A) (xs : List A)
      → In x xs
      → p x ≡ true
      → In (f x) (update p f xs)
  unfolding update
  In-update_self p f x [] i e = absurd i
  In-update_self p f x (y ∷ ys) (inl q) e = inl (ground arith)
  In-update_self p f x (y ∷ ys) (inr i) e = inr (In-update_self p f x ys i e)
