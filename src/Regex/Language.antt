-- ===== src/Regex/Language.antt =====
-- Which texts an expression stands for, and that the matcher decides it.
use listserver.Base.{
  Bool-cases, Text, [], ap, arith, inl, inr, refl, subst, sym, true, ℕ, ◌++◌, ◌↔◌, ◌∙◌, ◌∷◌, ◌≡◌,
  ◌⊎◌,
}
use listserver.Regex.{Re, alt, class, derive, empty, nothing, nullable, re_match, seq, star}

pub data Iterated (P : Text → Type 0) : Text → Type 0 where
  none_of : Iterated P []
  one_more : {s : Text} (u v : Text) → P u → Iterated P v → s ≡ u ++ v → Iterated P s

abbrev pub Lang : Re → Text → Type 0
Lang nothing s = ⊥
Lang empty s = s ≡ []
Lang (class p) s = (c : ℕ) × (p c ≡ true) × (s ≡ c ∷ [])
Lang (seq a b) s = (u : Text) × (v : Text) × Lang a u × Lang b v × (s ≡ u ++ v)
Lang (alt a b) s = Lang a s ⊎ Lang b s
Lang (star a) s = Iterated (Lang a) s

append-nil_inv : (u v : Text) → [] ≡ u ++ v → (u ≡ []) × (v ≡ [])
append-nil_inv [] v e = (refl, sym e)
append-nil_inv (x ∷ u) v e = cc

nullable_sound : (r : Re) → nullable r ≡ true → Lang r []
unfolding nullable
nullable_sound nothing e = cc
nullable_sound empty e = refl
nullable_sound (class p) e = cc
nullable_sound (seq a b) e =
    ([], [], nullable_sound a (ground arith), nullable_sound b (ground arith), refl)
nullable_sound (alt a b) e = elim (Bool-cases (nullable a)) [
  | inl h ↦ inl (nullable_sound a h)
  | inr h ↦ inr (nullable_sound b (ground arith))
]
nullable_sound (star a) e = none_of

nullable_complete : (r : Re) → Lang r [] → nullable r ≡ true
unfolding nullable
nullable_complete nothing h = absurd h
nullable_complete empty h = refl
nullable_complete (class p) h = cc (h.2)
nullable_complete (seq a b) (u, v, hu, hv, e) =
    let (eu, ev) = append-nil_inv u v e in
    let left = nullable_complete a (subst (Lang a) eu hu) in
    let right = nullable_complete b (subst (Lang b) ev hv) in ground arith
nullable_complete (alt a b) (inl h) = let left = nullable_complete a h in ground arith
nullable_complete (alt a b) (inr h) = let right = nullable_complete b h in ground arith
nullable_complete (star a) h = refl

append-cons_inv :
    (c : ℕ) (s u v : Text)
    → c ∷ s ≡ u ++ v
    → ((u ≡ []) × (v ≡ c ∷ s)) ⊎ ((w : Text) × (u ≡ c ∷ w) × (s ≡ w ++ v))
append-cons_inv c s [] v e = inl (refl, sym e)
append-cons_inv c s (x ∷ u) v e = inr (u, cc, cc)

module _ (c : ℕ) (a b : Re) (s : Text) where
  seq_sound :
      ((u : Text) → Lang (derive c a) u → Lang a (c ∷ u))
      → (Lang (derive c b) s → Lang b (c ∷ s))
      → Lang (derive c (seq a b)) s
      → Lang (seq a b) (c ∷ s)
  unfolding derive
  seq_sound ia ib h = elim (Bool-cases (nullable a)) [
    | inl e ↦ both e (rw e at h)
    | inr e ↦ first (rw e at h)
  ]
    where
      first : Lang (seq (derive c a) b) s → Lang (seq a b) (c ∷ s)
      first (u, v, hu, hv, e) = (c ∷ u, v, ia u hu, hv, ap (◌∷◌ c) e)

      both :
          nullable a ≡ true
          → Lang (alt (seq (derive c a) b) (derive c b)) s
          → Lang (seq a b) (c ∷ s)
      both n (inl k) = first k
      both n (inr k) = ([], c ∷ s, nullable_sound a n, ib k, refl)

  seq_complete :
      ((u : Text) → Lang a (c ∷ u) → Lang (derive c a) u)
      → ((u : Text) → Lang b (c ∷ u) → Lang (derive c b) u)
      → Lang (seq a b) (c ∷ s)
      → Lang (derive c (seq a b)) s
  unfolding derive
  seq_complete ia ib (u, v, hu, hv, e) = elim (append-cons_inv c s u v e) [
    | inl (eu, ev) ↦
        rw (nullable_complete a (subst (Lang a) eu hu)) (inr (ib s (subst (Lang b) ev hv)))
    | inr (w, eu, es) ↦ longer (w, v, ia w (subst (Lang a) eu hu), hv, es)
  ]
    where
      longer : Lang (seq (derive c a) b) s → Lang (derive c (seq a b)) s
      longer h = elim (Bool-cases (nullable a)) [ inl n ↦ rw n (inl h) | inr n ↦ rw n h ]

derive_sound : (c : ℕ) (r : Re) (s : Text) → Lang (derive c r) s → Lang r (c ∷ s)
unfolding derive
derive_sound c nothing s h = absurd h
derive_sound c empty s h = absurd h
derive_sound c (class p) s h = elim (Bool-cases (p c)) [
  | inl e ↦ (c, e, ap (◌∷◌ c) (rw e at h))
  | inr e ↦ absurd (rw e at h)
]
derive_sound c (seq a b) s h = seq_sound c a b s (derive_sound c a) (derive_sound c b s) h
derive_sound c (alt a b) s (inl h) = inl (derive_sound c a s h)
derive_sound c (alt a b) s (inr h) = inr (derive_sound c b s h)
derive_sound c (star a) s (u, v, hu, hv, e) =
    one_more (c ∷ u) v (derive_sound c a u hu) hv (ap (◌∷◌ c) e)

-- The first round of a star that is not empty begins with the first byte.
star_complete :
    (c : ℕ) (a : Re)
    → ((u : Text) → Lang a (c ∷ u) → Lang (derive c a) u)
    → {t : Text} (h : Iterated (Lang a) t) (s : Text) → t ≡ c ∷ s
    → Lang (seq (derive c a) (star a)) s
star_complete c a ia none_of s e = cc
star_complete c a ia (one_more u v hu hv q) s e = elim (append-cons_inv c s u v (sym e ∙ q)) [
  | inl (eu, ev) ↦ star_complete c a ia hv s ev
  | inr (w, eu, es) ↦ (w, v, ia w (subst (Lang a) eu hu), hv, es)
]

derive_complete : (c : ℕ) (r : Re) (s : Text) → Lang r (c ∷ s) → Lang (derive c r) s
unfolding derive
derive_complete c nothing s h = absurd h
derive_complete c empty s h = cc h
derive_complete c (class p) s (d, pd, e) = let here : p c ≡ true = cc in rw here (cc)
derive_complete c (seq a b) s h = seq_complete c a b s (derive_complete c a) (derive_complete c b) h
derive_complete c (alt a b) s (inl h) = inl (derive_complete c a s h)
derive_complete c (alt a b) s (inr h) = inr (derive_complete c b s h)
derive_complete c (star a) s h = star_complete c a (derive_complete c a) h s refl

-- The matcher accepts exactly the texts of the expression.
pub re_match_iff : (r : Re) (s : Text) → (re_match r s ≡ true) ↔ Lang r s
unfolding re_match
re_match_iff r [] = (nullable_sound r, nullable_complete r)
re_match_iff r (c ∷ s) = (
  λ e. derive_sound c r s ((re_match_iff (derive c r) s).0 e),
  λ h. (re_match_iff (derive c r) s).1 (derive_complete c r s h),
)
