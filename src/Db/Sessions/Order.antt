-- ===== src/Db/Sessions/Order.antt =====
-- ORDER BY: what is ordered, by an order that is total and transitive, holds the same and is sorted.
use listserver.Base.{
  All, All-In, Bool, Bool-cases, In, In-All, List, Text, [], arith, false, inl, inr, refl, subst,
  sym, true, ◌↔◌, ◌∷◌, ◌≡◌, ◌⊎◌,
}
use listserver.Db.Sessions.{insert_by, order_by, text_lt}

abbrev pub IsSorted : {A : Type 0} → (A → A → Bool) → List A → Type 0
IsSorted le [] = Unit {0}
IsSorted le (x ∷ xs) = All (λ y. le x y ≡ true) xs × IsSorted le xs

pub record IsOrder {A : Type 0} (le : A → A → Bool) : Type 0 where
  pub total : (a b : A) → le a b ≡ false → le b a ≡ true
  pub trans : (a b c : A) → le a b ≡ true → le b c ≡ true → le a c ≡ true

module _ {A : Type 0} (le : A → A → Bool) where
  In-insert_by : (x y : A) (ys : List A) → In y (insert_by le x ys) ↔ In y (x ∷ ys)
  unfolding insert_by
  In-insert_by x y [] = ground arith
  In-insert_by x y (z ∷ zs) = elim (Bool-cases (le x z)) [
    | inl e ↦ rw e ((λ i. i), λ i. i)
    | inr e ↦ rw e (ground (arith, In-insert_by x y zs))
  ]

  pub In-order_by : (y : A) (xs : List A) → In y (order_by le xs) ↔ In y xs
  unfolding order_by
  In-order_by y [] = ground arith
  In-order_by y (x ∷ xs) = ground (arith, In-insert_by x y (order_by le xs), In-order_by y xs)

  module _ (o : IsOrder le) where
    insert_by-IsSorted : (x : A) (ys : List A) → IsSorted le ys → IsSorted le (insert_by le x ys)
    unfolding insert_by
    insert_by-IsSorted x [] s = (tt, tt)
    insert_by-IsSorted x (y ∷ ys) s = elim (Bool-cases (le x y)) [
      | inl e ↦
          rw e
            ((e, In-All _ ys (λ z i. o.trans x y z e (All-In (λ z. le y z ≡ true) z ys s.0 i))), s)
      | inr e ↦ rw e (
        In-All _ (insert_by le x ys) (λ z i. below y z ys e s.0 ((In-insert_by x z ys).0 i)),
        insert_by-IsSorted x ys s.1,
      )
    ]
      where
        below :
            (y z : A) (ys : List A)
            → le x y ≡ false
            → All (λ z. le y z ≡ true) ys
            → In z (x ∷ ys)
            → le y z ≡ true
        below y z ys e a (inl q) = subst (λ v. le y v ≡ true) (sym q) (o.total x y e)
        below y z ys e a (inr i) = All-In (λ v. le y v ≡ true) z ys a i

    pub order_by-IsSorted : (xs : List A) → IsSorted le (order_by le xs)
    unfolding order_by
    order_by-IsSorted [] = tt
    order_by-IsSorted (x ∷ xs) = insert_by-IsSorted x (order_by le xs) (order_by-IsSorted xs)

pub text_lt_trans : (s t u : Text) → text_lt s t ≡ true → text_lt t u ≡ true → text_lt s u ≡ true
unfolding text_lt
text_lt_trans s [] u e f = cc
text_lt_trans s (b ∷ t) [] e f = cc
text_lt_trans [] (b ∷ t) (c ∷ u) e f = refl
text_lt_trans (a ∷ s) (b ∷ t) (c ∷ u) e f = ground (arith, e, f, text_lt_trans s t u)

pub text_lt_total : (s t : Text) → text_lt s t ≡ false → (text_lt t s ≡ true) ⊎ (s ≡ t)
unfolding text_lt
text_lt_total [] [] e = inr refl
text_lt_total [] (b ∷ t) e = cc
text_lt_total (a ∷ s) [] e = inl refl
text_lt_total (a ∷ s) (b ∷ t) e = ground (arith, e, text_lt_total s t)
