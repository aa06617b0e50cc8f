-- ===== src/Regex/Classes.antt =====
-- What repeated classes of bytes match.
use listserver.Base.{
  All, Bool, Text, [], ap, refl, subst, sym, true, ℕ, ◌++◌, ◌↔◌, ◌∙◌, ◌∷◌, ◌≡◌, ◌≢◌,
}
use listserver.Regex.{class, plus, re_match}
use listserver.Regex.Language.{Iterated, Lang, none_of, one_more, re_match_iff}

abbrev pub Each : (ℕ → Bool) → Text → Type 0
Each p = All (λ c. p c ≡ true)

pub star_class_sound : (p : ℕ → Bool) {s : Text} → Iterated (Lang (class p)) s → Each p s
star_class_sound p none_of = tt
star_class_sound p (one_more u v (c, pc, eu) hv e) =
    subst (Each p) (sym (e ∙ ap (λ w. w ++ v) eu)) (pc, star_class_sound p hv)

pub star_class_complete : (p : ℕ → Bool) (s : Text) → Each p s → Iterated (Lang (class p)) s
star_class_complete p [] h = none_of
star_class_complete p (c ∷ s) (pc, h) =
    one_more (c ∷ []) s (c, pc, refl) (star_class_complete p s h) refl

-- At least one byte of a class.
abbrev pub Some : (ℕ → Bool) → Text → Type 0
Some p s = (s ≢ []) × Each p s

pub plus_class_sound : (p : ℕ → Bool) (s : Text) → Lang (plus (class p)) s → Some p s
plus_class_sound p s (u, v, (c, pc, eu), hv, e) =
    let q : s ≡ c ∷ v = e ∙ ap (λ w. w ++ v) eu in
    subst (Some p) (sym q) ((λ h. cc), (pc, star_class_sound p hv))

pub plus_class_complete : (p : ℕ → Bool) (s : Text) → Some p s → Lang (plus (class p)) s
plus_class_complete p [] (ne, h) = absurd (ne refl)
plus_class_complete p (c ∷ s) (ne, (pc, h)) =
    (c ∷ [], s, (c, pc, refl), star_class_complete p s h, refl)

-- At least one byte of a class, by the matcher.
pub plus_class_iff : (p : ℕ → Bool) (s : Text) → (re_match (plus (class p)) s ≡ true) ↔ Some p s
plus_class_iff p s =
    let h = re_match_iff (plus (class p)) s in
    ((λ e. plus_class_sound p s (h.0 e)), (λ x. h.1 (plus_class_complete p s x)))
