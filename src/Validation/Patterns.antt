-- ===== src/Validation/Patterns.antt =====
-- What the patterns for named hosts and protocol versions accept, without regular expressions.
use listserver.Base.{
  Bool-cases, Text, [], ap, arith, inl, inr, int_eq, nat_eq, refl, subst, sym, text_eq, true, ℕ,
  ◌++◌, ◌==◌, ◌||◌, ◌↔◌, ◌∙◌, ◌∷◌, ◌≡◌, ◌⊎◌,
}
use listserver.Regex.{
  Re, byte, class, is_alnum, is_digit, is_letter, is_not_newline, is_word, plus, re_match, seq,
}
use listserver.Regex.Classes.{Some, plus_class_complete, plus_class_sound}
use listserver.Regex.Language.{Lang, re_match_iff}
use listserver.Validation.{
  is_named_host, is_valid_protocol, named_host_re, number, old_protocol_re, protocol_re,
}

-- Digits, a dot, digits.
abbrev pub Version2 : Text → Type 0
Version2 s =
    (major : Text) × (minor : Text) × Some is_digit major
    × Some is_digit minor
    × (s ≡ major ++ b'.' ∷ minor)

byte_inv : (b : ℕ) (s : Text) → Lang (byte b) s → s ≡ b ∷ []
byte_inv b s (c, e, q) = ground arith

-- A separator between two parts.
separated_sound :
    (b : ℕ) (x y : Re) (s : Text)
    → Lang (seq x (seq (byte b) y)) s
    → (u : Text) × (v : Text) × Lang x u × Lang y v × (s ≡ u ++ b ∷ v)
separated_sound b x y s (u, w, hu, (d, v, hd, hv, ew), e) =
    (u, v, hu, hv, e ∙ ap (◌++◌ u) (ew ∙ ap (λ t. t ++ v) (byte_inv b d hd)))

separated_complete :
    (b : ℕ) (x y : Re) (u v : Text)
    → Lang x u
    → Lang y v
    → Lang (seq x (seq (byte b) y)) (u ++ b ∷ v)
separated_complete b x y u v hu hv =
    (u, b ∷ v, hu, (b ∷ [], v, (b, ground arith, refl), hv, refl), refl)

old_sound : (s : Text) → Lang old_protocol_re s → Version2 s
unfolding old_protocol_re
old_sound s h =
    let (u, v, hu, hv, e) = separated_sound b'.' number number s h in
    (u, v, plus_class_sound is_digit u hu, plus_class_sound is_digit v hv, e)

old_complete : (s : Text) → Version2 s → Lang old_protocol_re s
unfolding old_protocol_re
old_complete s (u, v, hu, hv, e) = subst (Lang old_protocol_re) (sym e) (
    separated_complete b'.' number number u v (plus_class_complete is_digit u hu)
      (plus_class_complete is_digit v hv))

abbrev two_numbers : Re
two_numbers = seq number (seq (byte b'.') number)

abbrev three_numbers : Re
three_numbers = seq number (seq (byte b'.') two_numbers)

-- A namespace, a colon, and three numbers.
abbrev pub Version4 : Text → Type 0
Version4 s =
    (namespace : Text) × (rest : Text) × Some is_word namespace
    × ((server : Text) × (version : Text) × Some is_digit server
        × Version2 version
        × (rest ≡ server ++ b'.' ∷ version))
    × (s ≡ namespace ++ b':' ∷ rest)

new_sound : (s : Text) → Lang protocol_re s → Version4 s
unfolding protocol_re
new_sound s h =
    let (u, v, hu, hv, e) = separated_sound b':' (plus (class is_word)) three_numbers s h in
    let (w, x, hw, hx, f) = separated_sound b'.' number two_numbers v hv in
    let (y, z, hy, hz, g) = separated_sound b'.' number number x hx in
    (
      u,
      v,
      plus_class_sound is_word u hu,
      (
        w,
        x,
        plus_class_sound is_digit w hw,
        (y, z, plus_class_sound is_digit y hy, plus_class_sound is_digit z hz, g),
        f,
      ),
      e,
    )

new_complete : (s : Text) → Version4 s → Lang protocol_re s
unfolding protocol_re
new_complete s (u, v, hu, (w, x, hw, (y, z, hy, hz, g), f), e) =
    let last =
      separated_complete b'.' number number y z (plus_class_complete is_digit y hy)
        (plus_class_complete is_digit z hz) in
    let three =
      separated_complete b'.' number two_numbers w x (plus_class_complete is_digit w hw)
        (subst (Lang two_numbers) (sym g) last) in
    subst (Lang protocol_re) (sym e) (
      separated_complete b':' (plus (class is_word)) three_numbers u v
        (plus_class_complete is_word u hu) (subst (Lang three_numbers) (sym f) three))

-- With no whitelist a protocol is supported exactly if it reads `namespace:server.major.minor`, or
-- `major.minor` as before version 2.0.
pub is_valid_protocol_iff :
    (protocol : Text)
    → (is_valid_protocol protocol [] ≡ true) ↔ (Version4 protocol ⊎ Version2 protocol)
unfolding is_valid_protocol
is_valid_protocol_iff protocol = (to, from)
  where
    to :
        (re_match protocol_re protocol || re_match old_protocol_re protocol) ≡ true
        → Version4 protocol ⊎ Version2 protocol
    to e = elim (Bool-cases (re_match protocol_re protocol)) [
      | inl h ↦ inl (new_sound protocol ((re_match_iff protocol_re protocol).0 h))
      | inr h ↦ inr (old_sound protocol ((re_match_iff old_protocol_re protocol).0 (rw h at e)))
    ]

    from :
        Version4 protocol ⊎ Version2 protocol
        → (re_match protocol_re protocol || re_match old_protocol_re protocol) ≡ true
    from (inl h) =
        let m = (re_match_iff protocol_re protocol).1 (new_complete protocol h) in ground arith
    from (inr h) =
        let m = (re_match_iff old_protocol_re protocol).1 (old_complete protocol h) in ground arith

-- A host name that ends in a dot, a letter and at least one more letter, digit or dash.
abbrev pub HasDomain : Text → Type 0
HasDomain s =
    (front : Text) × (c : ℕ) × (top : Text) × Some is_not_newline front
    × (is_letter c ≡ true)
    × Some (λ d. is_alnum d || d == b'-') top
    × (s ≡ front ++ b'.' ∷ c ∷ top)

-- `IsNamedHost` tells the names with a top-level domain: an address in dotted digits has none.
pub is_named_host_iff : (hostname : Text) → (is_named_host hostname ≡ true) ↔ HasDomain hostname
unfolding is_named_host named_host_re
is_named_host_iff hostname = (to, from)
  where
    tail_re : Re
    tail_re = seq (class is_letter) (plus (class (λ d. is_alnum d || d == b'-')))

    to :
        re_match (seq (plus (class is_not_newline)) (seq (byte b'.') tail_re)) hostname ≡ true
        → HasDomain hostname
    to e =
        let (u, v, hu, (d, w, (c, pc, ec), hw, ev), e') =
          separated_sound b'.' (plus (class is_not_newline)) tail_re hostname
            ((re_match_iff _ hostname).0 e) in
        (
          u,
          c,
          w,
          plus_class_sound is_not_newline u hu,
          pc,
          plus_class_sound (λ d. is_alnum d || d == b'-') w hw,
          e' ∙ ap (λ t. u ++ b'.' ∷ t) (ev ∙ ap (λ t. t ++ w) ec),
        )

    from :
        HasDomain hostname
        → re_match (seq (plus (class is_not_newline)) (seq (byte b'.') tail_re)) hostname ≡ true
    from (u, c, w, hu, pc, hw, e) = (re_match_iff _ hostname).1 (
        subst (Lang (seq (plus (class is_not_newline)) (seq (byte b'.') tail_re))) (sym e) (
          separated_complete b'.' (plus (class is_not_newline)) tail_re u (c ∷ w)
            (plus_class_complete is_not_newline u hu)
            (
              c ∷ [],
              w,
              (c, pc, refl),
              plus_class_complete (λ d. is_alnum d || d == b'-') w hw,
              refl,
            )))
