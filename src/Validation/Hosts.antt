-- ===== src/Validation/Hosts.antt =====
-- `IsHostInList`: the entries that match a host name.
use listserver.Base.{
  In, List, Text, [], any-In, any-witness, ap, arith, inl, inr, refl, subst, sym, text_dec, true, ℕ,
  ℕ_discrete, ◌++◌, ◌↔◌, ◌∷◌, ◌≡◌, ◌≢◌, ◌⊎◌,
}
use listserver.Strings.{has_suffix, lower_byte, to_lower}
use listserver.Validation.{is_host_in_list, matches_item}

lower_byte_idem : (c : ℕ) → lower_byte (lower_byte c) ≡ lower_byte c
unfolding lower_byte
lower_byte_idem c = ground arith

pub to_lower_idem : (s : Text) → to_lower (to_lower s) ≡ to_lower s
unfolding to_lower
to_lower_idem [] = refl
to_lower_idem (c ∷ s) = cc (lower_byte_idem c, to_lower_idem s)

has_suffix_sound : (s p : Text) → has_suffix s p ≡ true → (pre : Text) × (s ≡ pre ++ p)
unfolding has_suffix
has_suffix_sound [] p e = ([], ground arith)
has_suffix_sound (c ∷ s) p e = elim (text_dec (c ∷ s) p) [
  | yes q ↦ ([], q)
  | no h ↦ let (pre, q) = has_suffix_sound s p (ground arith) in (c ∷ pre, ap (◌∷◌ c) q)
]

has_suffix_complete : (pre p : Text) → has_suffix (pre ++ p) p ≡ true
unfolding has_suffix
has_suffix_complete [] [] = ground arith
has_suffix_complete [] (c ∷ p) = ground arith
has_suffix_complete (c ∷ pre) p = ground (arith, has_suffix_complete pre p)

-- An entry `*rest` matches the hosts that end in `rest`; any other matches itself.
abbrev pub Matches : Text → Text → Type 0
Matches host [] = host ≡ []
Matches host (c ∷ item) =
    ((c ≡ b'*') × ((pre : Text) × (host ≡ pre ++ item))) ⊎ ((c ≢ b'*') × (host ≡ c ∷ item))

matches_item_sound : (host item : Text) → matches_item host item ≡ true → Matches host item
unfolding matches_item
matches_item_sound host [] e = ground arith
matches_item_sound host (c ∷ item) e = elim (ℕ_discrete c b'*') [
  | yes wild ↦ inl (wild, has_suffix_sound host item (ground arith))
  | no other ↦ inr (other, ground arith)
]

matches_item_complete : (host item : Text) → Matches host item → matches_item host item ≡ true
unfolding matches_item
matches_item_complete host [] e = ground arith
matches_item_complete host (c ∷ item) (inl (wild, (pre, e))) =
    let found : has_suffix host item ≡ true =
      subst (λ h. has_suffix h item ≡ true) (sym e) (has_suffix_complete pre item) in
    ground arith
matches_item_complete host (c ∷ item) (inr (other, e)) = ground arith

-- A host is in a list exactly if an entry matches its name in lower case.
pub is_host_in_list_iff :
    (hostname : Text) (hostlist : List Text)
    → (is_host_in_list hostname hostlist ≡ true)
      ↔ ((item : Text) × In item hostlist × Matches (to_lower hostname) item)
unfolding is_host_in_list
is_host_in_list_iff hostname hostlist = (
  λ e.
      let (item, i, m) = any-witness (matches_item (to_lower hostname)) hostlist e in
      (item, i, matches_item_sound _ _ m),
  λ (item, i, m).
      any-In (matches_item (to_lower hostname)) hostlist item i (matches_item_complete _ _ m),
)

-- The case of the letters of a host name makes no difference.
is_host_in_list_lower :
    (hostname : Text) (hostlist : List Text)
    → is_host_in_list (to_lower hostname) hostlist ≡ is_host_in_list hostname hostlist
unfolding is_host_in_list
is_host_in_list_lower hostname hostlist = rw (to_lower_idem hostname)
