-- ===== src/Config/Normal.antt =====
-- What the normalisation gives: limits in order, lists in one case, and no change when repeated.
use listserver.Base.{
  List, Text, [], any, arith, false, ltb_ℤ, map, negsuc, pos, refl, ℕ, ℤ, ◌∷◌, ◌≡◌,
}
use listserver.Config.{Config, at_least, contains_nsfm_words, do_normalizations}
use listserver.Strings.{contains, to_lower, to_upper, upper_byte}
use listserver.Validation.Hosts.{to_lower_idem}

upper_byte_idem : (c : ℕ) → upper_byte (upper_byte c) ≡ upper_byte c
unfolding upper_byte
upper_byte_idem c = ground arith

to_upper_idem : (s : Text) → to_upper (to_upper s) ≡ to_upper s
unfolding to_upper
to_upper_idem [] = refl
to_upper_idem (c ∷ s) = cc (upper_byte_idem c, to_upper_idem s)

map_idem :
    (f : Text → Text) → ((s : Text) → f (f s) ≡ f s) → (l : List Text) → map f (map f l) ≡ map f l
map_idem f h [] = refl
map_idem f h (s ∷ l) = cc (h s, map_idem f h l)

at_least_idem : (x y : ℤ) → at_least (at_least x y) y ≡ at_least x y
at_least_idem (pos a) (pos b) = ground arith
at_least_idem (pos a) (negsuc b) = ground arith
at_least_idem (negsuc a) (pos b) = ground arith
at_least_idem (negsuc a) (negsuc b) = ground arith

at_least-not-lt : (x y : ℤ) → ltb_ℤ (at_least x y) y ≡ false
at_least-not-lt (pos a) (pos b) = ground arith
at_least-not-lt (pos a) (negsuc b) = ground arith
at_least-not-lt (negsuc a) (pos b) = ground arith
at_least-not-lt (negsuc a) (negsuc b) = ground arith

-- To normalise a second time changes nothing.
do_normalizations_idem :
    (c : Config) → do_normalizations (do_normalizations c) ≡ do_normalizations c
unfolding do_normalizations
do_normalizations_idem c = rw (
  map_idem to_upper to_upper_idem c.nsfm_words,
  map_idem to_lower to_lower_idem c.banned_hosts,
  map_idem to_lower to_lower_idem c.trusted_hosts,
  at_least_idem c.max_sessions_per_named_host c.max_sessions_per_host,
  at_least_idem c.include_status_cache_ttl c.include_cache_ttl,
)

-- After it the limit for named hosts is not below that for others, and the status of an included
-- server is not kept for a shorter time than its sessions.
pub do_normalizations_limits :
    (c : Config)
    → let d = do_normalizations c in
      (ltb_ℤ d.max_sessions_per_named_host d.max_sessions_per_host ≡ false)
      × (ltb_ℤ d.include_status_cache_ttl d.include_cache_ttl ≡ false)
unfolding do_normalizations
do_normalizations_limits c = (
  at_least-not-lt c.max_sessions_per_named_host c.max_sessions_per_host,
  at_least-not-lt c.include_status_cache_ttl c.include_cache_ttl,
)

any-upper :
    (text : Text) (words : List Text)
    → any (λ s. contains (to_upper (to_upper text)) s) words
      ≡ any (λ s. contains (to_upper text) s) words
any-upper text words = rw (to_upper_idem text)

-- The case of a title makes no difference to the words that mark it as not suitable for minors.
contains_nsfm_words_upper :
    (c : Config) (text : Text) → contains_nsfm_words c (to_upper text) ≡ contains_nsfm_words c text
unfolding contains_nsfm_words
contains_nsfm_words_upper c text = any-upper text c.nsfm_words
