-- ===== src/Api/Slashes/Normal.antt =====
-- What a normalised path is.
use listserver.Api.Slashes.{collapse_slashes, normalize_slashes}
use listserver.Base.{
  Bool, Bool-cases, List, Text, [], ap, arith, codes, decisions, false, if◌then◌else◌, inl, inr,
  int_eq, nat_eq, refl, subst, sym, text_eq, true, ℕ, ◌++◌, ◌==◌, ◌↔◌, ◌∙◌, ◌∷◌, ◌≡◌, ◌≢◌, ◌⊎◌,
}
use listserver.Strings.{has_suffix}

abbrev pub EndsInSlash : Text → Type 0
EndsInSlash [] = ⊥
EndsInSlash (c ∷ []) = c ≡ b'/'
EndsInSlash (c ∷ d ∷ s) = EndsInSlash (d ∷ s)

-- No two slashes stand next to each other.
abbrev pub NoDouble : Text → Type 0
NoDouble [] = Unit {0}
NoDouble (c ∷ []) = Unit {0}
NoDouble (c ∷ d ∷ s) = ¬ ((c ≡ b'/') × (d ≡ b'/')) × NoDouble (d ∷ s)

abbrev flush : Text → List Text
flush [] = []
flush (c ∷ w) = (c ∷ w) ∷ []

-- The parts of a path between its slashes, with what the first one begins with.
unfoldable pub segments : Text → Text → List Text
segments w [] = flush w
segments w (c ∷ s) =
    let later = segments (w ++ c ∷ []) s in
    let next = segments [] s in if c == b'/' then flush w ++ next else later

has_suffix-EndsInSlash : (s : Text) → (has_suffix s (codes "/") ≡ true) ↔ EndsInSlash s
unfolding has_suffix
has_suffix-EndsInSlash [] = ground arith
has_suffix-EndsInSlash (c ∷ []) = ground arith
has_suffix-EndsInSlash (c ∷ d ∷ s) = ground (arith, has_suffix-EndsInSlash (d ∷ s))

cons-NoDouble : (c : ℕ) (s : Text) → c ≢ b'/' → NoDouble s → NoDouble (c ∷ s)
cons-NoDouble c [] n d = tt
cons-NoDouble c (e ∷ s) n d = ((λ q. n q.0), d)

cons-other : (c d : ℕ) (s : Text) → d ≢ b'/' → NoDouble (d ∷ s) → NoDouble (c ∷ d ∷ s)
cons-other c d s n h = ((λ q. n q.1), h)

slash_cases : (c : ℕ) → (((c == b'/') ≡ true) × (c ≡ b'/')) ⊎ (((c == b'/') ≡ false) × (c ≢ b'/'))
slash_cases c = elim (Bool-cases (c == b'/')) [
  | inl t ↦ inl (t, ground (arith, t))
  | inr f ↦ inr (f, ground (arith, f))
]

collapse-NoDouble :
    (s : Text) → NoDouble (b'/' ∷ collapse_slashes true s) × NoDouble (collapse_slashes false s)
unfolding collapse_slashes
collapse-NoDouble [] = (tt, tt)
collapse-NoDouble (c ∷ s) =
    let rest = collapse-NoDouble s in
    elim (slash_cases c) [
      | inl (t, e) ↦
          rw t (rest.0, subst (λ x. NoDouble (x ∷ collapse_slashes true s)) (sym e) rest.0)
      | inr (f, n) ↦
          let kept = cons-NoDouble c (collapse_slashes false s) n rest.1 in
          rw f (cons-other b'/' c (collapse_slashes false s) n kept, kept)
    ]

add-NoDouble :
    (s : Text)
    → NoDouble s
    → ¬ EndsInSlash s
    → NoDouble (s ++ codes "/") × EndsInSlash (s ++ codes "/")
add-NoDouble [] d n = (tt, refl)
add-NoDouble (c ∷ []) d n = (((λ e. n e.0), tt), refl)
add-NoDouble (c ∷ e ∷ s) d n = let rest = add-NoDouble (e ∷ s) d.1 n in ((d.0, rest.0), rest.1)

NoDouble-tail : (c : ℕ) (s : Text) → NoDouble (c ∷ s) → NoDouble s
NoDouble-tail c [] d = tt
NoDouble-tail c (e ∷ s) d = d.1

-- A text without double slashes, also with a slash before it.
collapse-same :
    (s : Text)
    → (NoDouble s → collapse_slashes false s ≡ s)
      × (NoDouble (b'/' ∷ s) → collapse_slashes true s ≡ s)
unfolding collapse_slashes
collapse-same [] = ((λ d. refl), λ d. refl)
collapse-same (c ∷ s) =
    let rest = collapse-same s in
    elim (slash_cases c) [
      | inl (t, e) ↦ (
        λ d. rw t (ap (λ l. c ∷ l) (rest.1 (subst (λ x. NoDouble (x ∷ s)) e d))),
        λ d. absurd (d.0 (refl, e)),
      )
      | inr (f, n) ↦ rw f (
        λ d. ap (λ t. c ∷ t) (rest.0 (NoDouble-tail c s d)),
        λ d. ap (λ t. c ∷ t) (rest.0 (NoDouble-tail c s d.1)),
      )
    ]

segments-collapse :
    (s : Text)
    → ((w : Text) → segments w (collapse_slashes false s) ≡ segments w s)
      × (segments [] (collapse_slashes true s) ≡ segments [] s)
unfolding segments collapse_slashes
segments-collapse [] = ((λ w. refl), refl)
segments-collapse (c ∷ s) =
    let rest = segments-collapse s in
    elim (slash_cases c) [
      | inl (t, e) ↦ rw t ((λ w. rw t (ap (λ l. flush w ++ l) rest.1)), rest.1)
      | inr (f, n) ↦ rw f ((λ w. rw f (rest.0 (w ++ c ∷ []))), rw f (rest.0 (c ∷ [])))
    ]

flush-nil : (w : Text) → flush w ++ [] ≡ flush w
flush-nil [] = refl
flush-nil (c ∷ w) = refl

segments-add : (w s : Text) → segments w (s ++ codes "/") ≡ segments w s
unfolding segments decisions
segments-add w [] = flush-nil w
segments-add w (c ∷ s) = rw (segments-add (w ++ c ∷ []) s, segments-add [] s)

abbrev pub IsNormal : Text → Type 0
IsNormal path = NoDouble path × EndsInSlash path

-- Every path is made normal: it ends in a slash, no two slashes stand next to each other, and the
-- parts between the slashes are those of before.
pub normalize_slashes-IsNormal :
    (path : Text)
    → IsNormal (normalize_slashes path) × (segments [] (normalize_slashes path) ≡ segments [] path)
unfolding normalize_slashes
normalize_slashes-IsNormal path =
    let collapsed = collapse_slashes false path in
    let doubles = (collapse-NoDouble path).1 in
    let parts = (segments-collapse path).0 [] in
    elim (Bool-cases (has_suffix collapsed (codes "/"))) [
      | inl e ↦ rw e ((doubles, (has_suffix-EndsInSlash collapsed).0 e), parts)
      | inr e ↦
          let open_end : ¬ EndsInSlash collapsed =
            λ h. differs e ((has_suffix-EndsInSlash collapsed).1 h) in
          rw e (add-NoDouble collapsed doubles open_end, segments-add [] collapsed ∙ parts)
    ]
  where
    differs : {b : Bool} → b ≡ false → b ≡ true → ⊥
    differs f t = ground (arith, f, t)

-- A path is left as it is exactly if it is normal.
normalize_slashes_iff : (path : Text) → (normalize_slashes path ≡ path) ↔ IsNormal path
unfolding normalize_slashes
normalize_slashes_iff path = (
  λ e. subst IsNormal e (normalize_slashes-IsNormal path).0,
  λ (d, h). rw ((collapse-same path).0 d, (has_suffix-EndsInSlash path).1 h) refl,
)
