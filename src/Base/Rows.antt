-- ===== src/Base/Rows.antt =====
-- `Distinct`, `All` and `any` under the changes that statements make to a table.
use mathlib.Core.Path.{◌≡◌, refl, subst, sym, ◌∙◌}
use mathlib.Core.Bool.{Bool, true, false}
use mathlib.Core.Logic.{◌⊎◌, inl, inr, ◌≢◌}
use mathlib.Core.List.{List, [], ◌∷◌, ◌++◌, map}
use native.Mathlib.Omega.{arith}
use listserver.Base.Tests.{Bool-cases, Eq, ◌==◌}
use listserver.Base.Lists.{All, Distinct, keep, update, All-In, In-All}

module _ {A : Type 0} where
  pub All-append_one :
      (P : A → Type 0) (xs : List A) (x : A) → All P xs → P x → All P (xs ++ x ∷ [])
  All-append_one P [] x h p = (p, tt)
  All-append_one P (y ∷ xs) x h p = (h.0, All-append_one P xs x h.1 p)

  pub All-keep : (P : A → Type 0) (p : A → Bool) (xs : List A) → All P xs → All P (keep p xs)
  unfolding keep
  All-keep P p [] h = tt
  All-keep P p (x ∷ xs) h = elim (Bool-cases (p x)) [
    | inl e ↦ rw e (h.0, All-keep P p xs h.1)
    | inr e ↦ rw e (All-keep P p xs h.1)
  ]

  pub All-update :
      (P : A → Type 0) (p : A → Bool) (f : A → A) (xs : List A)
      → ((x : A) → P x → p x ≡ true → P (f x))
      → All P xs
      → All P (update p f xs)
  unfolding update
  All-update P p f [] g h = tt
  All-update P p f (x ∷ xs) g h = elim (Bool-cases (p x)) [
    | inl e ↦ rw e (g x h.0 e, All-update P p f xs g h.1)
    | inr e ↦ rw e (h.0, All-update P p f xs g h.1)
  ]

  pub All-of_map {κ} :
      {B : Type 0} (P : B → Type κ) (f : A → B) (xs : List A)
      → All P (map f xs)
      → All (λ x. P (f x)) xs
  All-of_map P f [] h = tt
  All-of_map P f (x ∷ xs) h = (h.0, All-of_map P f xs h.1)

  pub All-map {κ} :
      {B : Type 0} (P : B → Type κ) (f : A → B) (xs : List A)
      → All (λ x. P (f x)) xs
      → All P (map f xs)
  All-map P f [] h = tt
  All-map P f (x ∷ xs) h = (h.0, All-map P f xs h.1)

  -- A test that picks one row at most.
  abbrev pub AtMostOne : (A → Bool) → List A → Type 0
  AtMostOne p [] = Unit
  AtMostOne p (x ∷ xs) = (p x ≡ true → All (λ y. p y ≡ false) xs) × AtMostOne p xs

  update_none :
      (p : A → Bool) (f : A → A) (xs : List A) → All (λ y. p y ≡ false) xs → update p f xs ≡ xs
  unfolding update
  update_none p f [] h = refl
  update_none p f (x ∷ xs) h = rw (h.0, update_none p f xs h.1)

  module _ {K : Type 0} (key : A → K) where
    pub Distinct-append_one :
        (xs : List A) (x : A)
        → All (λ y. key y ≢ key x) xs
        → Distinct key xs
        → Distinct key (xs ++ x ∷ [])
    Distinct-append_one [] x h d = (tt, tt)
    Distinct-append_one (y ∷ xs) x h d = (
      All-append_one (λ z. key z ≢ key y) xs x d.0 (λ e. h.0 (sym e)),
      Distinct-append_one xs x h.1 d.1,
    )

    pub Distinct-keep : (p : A → Bool) (xs : List A) → Distinct key xs → Distinct key (keep p xs)
    unfolding keep
    Distinct-keep p [] d = tt
    Distinct-keep p (x ∷ xs) d = elim (Bool-cases (p x)) [
      | inl e ↦ rw e (All-keep (λ y. key y ≢ key x) p xs d.0, Distinct-keep p xs d.1)
      | inr e ↦ rw e (Distinct-keep p xs d.1)
    ]

    -- A change that leaves the key alone.
    pub Distinct-update :
        (p : A → Bool) (f : A → A) (xs : List A)
        → ((x : A) → key (f x) ≡ key x)
        → Distinct key xs
        → Distinct key (update p f xs)
    unfolding update
    Distinct-update p f [] g d = tt
    Distinct-update p f (x ∷ xs) g d =
        let rest =
          All-update (λ y. key y ≢ key x) p f xs (λ y n _ e. n (subst (λ k. k ≡ key x) (g y) e))
            d.0 in
        elim (Bool-cases (p x)) [
          | inl e ↦ rw e (
            subst (λ k. All (λ y. key y ≢ k) (update p f xs)) (sym (g x)) rest,
            Distinct-update p f xs g d.1,
          )
          | inr e ↦ rw e (rest, Distinct-update p f xs g d.1)
        ]

    -- A change that gives the one row it picks a key that no other row has.
    pub Distinct-update_one :
        (p : A → Bool) (f : A → A) (k : K) (xs : List A)
        → ((x : A) → key (f x) ≡ k)
        → All (λ y. (p y ≡ true) ⊎ (key y ≢ k)) xs
        → Distinct key xs
        → AtMostOne p xs
        → Distinct key (update p f xs)
    unfolding update
    Distinct-update_one p f k [] g h d o = tt
    Distinct-update_one p f k (x ∷ xs) g h d o = elim (Bool-cases (p x)) [
      | inl e ↦
          rw (e, update_none p f xs (o.0 e))
            (subst (λ j. All (λ y. key y ≢ j) xs) (sym (g x)) (others xs (o.0 e) h.1), d.1)
      | inr e ↦ rw e (
        All-update (λ y. key y ≢ key x) p f xs (λ y n _ q. this e h.0 (sym q ∙ g y)) d.0,
        Distinct-update_one p f k xs g h.1 d.1 o.1,
      )
    ]
      where
        this : p x ≡ false → (p x ≡ true) ⊎ (key x ≢ k) → key x ≡ k → ⊥
        this e (inl t) q = cc
        this e (inr n) q = n q

        others :
            (ys : List A)
            → All (λ y. p y ≡ false) ys
            → All (λ y. (p y ≡ true) ⊎ (key y ≢ k)) ys
            → All (λ y. key y ≢ k) ys
        others [] a b = tt
        others (y ∷ ys) a (inl t, b) = absurd (cc)
        others (y ∷ ys) a (inr n, b) = (n, others ys a.1 b)

  -- Distinct keys: a test for one key picks one row at most.
  pub Distinct-AtMostOne :
      {K : Type 0} ⦃e : Eq K⦄ (key : A → K) (k : K) (xs : List A)
      → Distinct key xs
      → AtMostOne (λ x. key x == k) xs
  Distinct-AtMostOne key k [] d = tt
  Distinct-AtMostOne key k (x ∷ xs) d = (
    λ q.
        In-All (λ y. (key y == k) ≡ false) xs
          (λ y i. apart x y q (All-In (λ z. key z ≢ key x) y xs d.0 i)),
    Distinct-AtMostOne key k xs d.1,
  )
    where
      apart : (x y : A) → (key x == k) ≡ true → key y ≢ key x → (key y == k) ≡ false
      apart x y q n = ground arith

module _ {A B K : Type 0} (f : A → B) (g : B → K) where
  pub Distinct-map : (xs : List A) → Distinct (λ x. g (f x)) xs → Distinct g (map f xs)
  Distinct-map [] d = tt
  Distinct-map (x ∷ xs) d = (All-map (λ b. g b ≢ g (f x)) f xs d.0, Distinct-map xs d.1)

  pub Distinct-of_map : (xs : List A) → Distinct g (map f xs) → Distinct (λ x. g (f x)) xs
  Distinct-of_map [] d = tt
  Distinct-of_map (x ∷ xs) d = (All-of_map (λ b. g b ≢ g (f x)) f xs d.0, Distinct-of_map xs d.1)
