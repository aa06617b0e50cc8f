-- ===== src/Inclsrv/Merge/Keys.antt =====
-- Which sessions `MergeLists` keeps: the first with each key.
use listserver.Base.{
  All, Bool-cases, Distinct, In, In-All, List, Option, Text, [], ap, arith, codes, false, find,
  if◌then◌else◌, inl, inr, int_eq, nat_eq, refl, some, sym, text_eq, ℤ, ◌++◌, ◌==◌, ◌↔◌, ◌∙◌, ◌∷◌,
  ◌≡◌, ◌≢◌,
}
use listserver.Db.Model.{SessionInfo}
use listserver.Inclsrv.Merge.{merge_all, merge_list, merge_lists, seen, session_key}
use listserver.Strings.{itoa}
use mathlib.Core.List.{append-nil, append_assoc}

abbrev pub concat : List (List SessionInfo) → List SessionInfo
concat [] = []
concat (list ∷ lists) = list ++ concat lists

-- The sessions of a list whose key is neither among `ids` nor that of an earlier one.
fresh_from : List Text → List SessionInfo → List SessionInfo
fresh_from ids [] = []
fresh_from ids (s ∷ rest) =
    let skip = fresh_from ids rest in
    let add = fresh_from (session_key s ∷ ids) rest in
    if seen (session_key s) ids then skip else s ∷ add

ids_after : List Text → List SessionInfo → List Text
ids_after ids [] = ids
ids_after ids (s ∷ rest) =
    let skip = ids_after ids rest in
    let add = ids_after (session_key s ∷ ids) rest in if seen (session_key s) ids then skip else add

merge_list_lem :
    (ids : List Text) (merged list : List SessionInfo)
    → merge_list ids merged list ≡ (ids_after ids list, merged ++ fresh_from ids list)
unfolding merge_list fresh_from ids_after
merge_list_lem ids merged [] = ap (λ l. (ids, l)) (sym (append-nil merged))
merge_list_lem ids merged (s ∷ rest) = elim (Bool-cases (seen (session_key s) ids)) [
  | inl e ↦ rw e (merge_list_lem ids merged rest)
  | inr e ↦ rw e (
      merge_list_lem (session_key s ∷ ids) (merged ++ s ∷ []) rest
      ∙ ap (λ l. (ids_after (session_key s ∷ ids) rest, l))
          (append_assoc merged (s ∷ []) (fresh_from (session_key s ∷ ids) rest)))
]

fresh_from-append :
    (ids : List Text) (xs ys : List SessionInfo)
    → fresh_from ids (xs ++ ys) ≡ fresh_from ids xs ++ fresh_from (ids_after ids xs) ys
unfolding fresh_from ids_after
fresh_from-append ids [] ys = refl
fresh_from-append ids (s ∷ xs) ys = elim (Bool-cases (seen (session_key s) ids)) [
  | inl e ↦ rw e (fresh_from-append ids xs ys)
  | inr e ↦ rw e (ap (◌∷◌ s) (fresh_from-append (session_key s ∷ ids) xs ys))
]

merge_all_lem :
    (ids : List Text) (merged : List SessionInfo) (lists : List (List SessionInfo))
    → merge_all ids merged lists ≡ merged ++ fresh_from ids (concat lists)
unfolding merge_all fresh_from
merge_all_lem ids merged [] = sym (append-nil merged)
merge_all_lem ids merged (list ∷ lists) = rw (merge_list_lem ids merged list) (
    rw (fresh_from-append ids list (concat lists)) (
      merge_all_lem (ids_after ids list) (merged ++ fresh_from ids list) lists
      ∙ append_assoc merged (fresh_from ids list) (fresh_from (ids_after ids list) (concat lists))))

merge_lists_lem :
    (lists : List (List SessionInfo)) → merge_lists lists ≡ fresh_from [] (concat lists)
unfolding merge_lists
merge_lists_lem lists = merge_all_lem [] [] lists

abbrev pub first_with : Text → List SessionInfo → Option SessionInfo
first_with key = find (λ z. session_key z == key)

In-fresh_from_iff :
    (y : SessionInfo) (ids : List Text) (xs : List SessionInfo)
    → In y (fresh_from ids xs)
      ↔ ((seen (session_key y) ids ≡ false) × (first_with (session_key y) xs ≡ some y))
unfolding fresh_from find seen
In-fresh_from_iff y ids [] = ground arith
In-fresh_from_iff y ids (s ∷ xs) =
    ground (arith, In-fresh_from_iff y ids xs, In-fresh_from_iff y (session_key s ∷ ids) xs)

-- A session is in the merged list exactly if it is the first with its key in the lists as they
-- follow one another.
pub merge_lists_iff :
    (y : SessionInfo) (lists : List (List SessionInfo))
    → In y (merge_lists lists) ↔ (first_with (session_key y) (concat lists) ≡ some y)
unfolding seen
merge_lists_iff y lists =
    let inner = In-fresh_from_iff y [] (concat lists) in
    rw (merge_lists_lem lists) ((λ i. (inner.0 i).1), (λ e. inner.1 (refl, e)))

known :
    (y s : SessionInfo) (ids : List Text)
    → session_key y ≡ session_key s
    → seen (session_key y) (session_key s ∷ ids) ≡ false
    → ⊥
unfolding seen
known y s ids e h = ground arith

fresh_from-Distinct :
    (ids : List Text) (xs : List SessionInfo) → Distinct session_key (fresh_from ids xs)
unfolding fresh_from
fresh_from-Distinct ids [] = tt
fresh_from-Distinct ids (s ∷ xs) = elim (Bool-cases (seen (session_key s) ids)) [
  | inl e ↦ rw e (fresh_from-Distinct ids xs)
  | inr e ↦ rw e (new s ids xs, fresh_from-Distinct (session_key s ∷ ids) xs)
]
  where
    new :
        (s : SessionInfo) (ids : List Text) (xs : List SessionInfo)
        → All (λ y. session_key y ≢ session_key s) (fresh_from (session_key s ∷ ids) xs)
    new s ids xs =
        In-All (λ y. session_key y ≢ session_key s) (fresh_from (session_key s ∷ ids) xs)
          λ y i e.
            let h = ((In-fresh_from_iff y (session_key s ∷ ids) xs).0 i).0 in known y s ids e h

-- No two sessions of the merged list have the same key.
merge_lists-Distinct : (lists : List (List SessionInfo)) → Distinct session_key (merge_lists lists)
merge_lists-Distinct lists = rw (merge_lists_lem lists) (fresh_from-Distinct [] (concat lists))

abbrev pub shifted : SessionInfo → ℤ → Text → SessionInfo
shifted s port id = record s { host = s.host ++ codes "-" ++ itoa s.port; port = port; id = id }

shifted-key :
    (s : SessionInfo) (port : ℤ) (id : Text)
    → s.id ≡ itoa port ++ codes "-" ++ id
    → session_key (shifted s port id) ≡ session_key s
unfolding session_key
shifted-key s port id e = rw e (simp append_assoc)

merge_two :
    (s t : SessionInfo) → session_key t ≡ session_key s → merge_lists ((s ∷ t ∷ []) ∷ []) ≡ s ∷ []
unfolding merge_lists merge_all merge_list seen
merge_two s t e = ground arith

-- The key does not tell all sessions apart: take a session whose id begins with a port number and a
-- dash, and another on the host whose name is that of the first with a dash and its port, at the
-- port and under the id that the first id is made of. The merged list has the first only.
pub merge_lists_collision :
    (s : SessionInfo) (port : ℤ) (id : Text)
    → s.id ≡ itoa port ++ codes "-" ++ id
    → merge_lists ((s ∷ shifted s port id ∷ []) ∷ []) ≡ s ∷ []
merge_lists_collision s port id e = merge_two s (shifted s port id) (shifted-key s port id e)
