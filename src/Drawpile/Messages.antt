-- ===== src/Drawpile/Messages.antt =====
-- Which bytes are a message: drawpile/protov4.go.
use listserver.Base.{
  Option, Text, [], ap, arith, length, none, refl, some, suc, sym, zero, ℕ, ◌*◌, ◌++◌, ◌+◌, ◌↔◌,
  ◌∙◌, ◌∷◌, ◌≡◌,
}
use listserver.Drawpile.{read_full, read_message}

-- What a read ends in: an error, or a part of that length and the rest.
abbrev ReadEnd : ℕ → Text → Option (Text × Text) → Type 0
ReadEnd n s none = Unit {0}
ReadEnd n s (some (front, rest)) = (length front ≡ n) × (s ≡ front ++ rest)

read_full_end : (n : ℕ) (s : Text) → ReadEnd n s (read_full n s)
unfolding read_full
read_full_end zero s = (refl, refl)
read_full_end (suc n) [] = tt
read_full_end (suc n) (c ∷ s) = go (read_full n s) (read_full_end n s)
  where
    go :
        (r : Option (Text × Text))
        → ReadEnd n s r
        → ReadEnd
            (suc n)
            (c ∷ s)
            (elim r [ none ↦ none | some (front, rest) ↦ some (c ∷ front, rest) ])
    go none h = tt
    go (some (front, rest)) (l, e) = (ap suc l, ap (◌∷◌ c) e)

pub read_full_complete :
    (front rest : Text) → read_full (length front) (front ++ rest) ≡ some (front, rest)
unfolding read_full
read_full_complete [] rest = refl
read_full_complete (c ∷ front) rest = rw (read_full_complete front rest)

abbrev payload_of : Option (Text × Text) → Option Text
payload_of none = none
payload_of (some (payload, _)) = some payload

payload_sound :
    (n : ℕ) (s payload : Text) (r : Option (Text × Text))
    → ReadEnd n s r
    → payload_of r ≡ some payload
    → (rest : Text) × (length payload ≡ n) × (s ≡ payload ++ rest)
payload_sound n s payload none h e = ground arith
payload_sound n s payload (some (p, rest)) (l, h) e = (rest, cc, cc)

-- The bytes of a message: four bytes of header, the first two of which give the length of the
-- payload, which follows.
abbrev pub IsMessage : Text → Text → Type 0
IsMessage conn payload =
    (high : ℕ) × (low : ℕ) × (kind : ℕ) × (user : ℕ) × (rest : Text) × (length payload
      ≡ high * 256 + low)
    × (conn ≡ high ∷ low ∷ kind ∷ user ∷ (payload ++ rest))

read_message-IsMessage :
    (conn payload : Text) → read_message conn ≡ some payload → IsMessage conn payload
unfolding read_message read_full
read_message-IsMessage [] payload e = ground arith
read_message-IsMessage (a ∷ []) payload e = ground arith
read_message-IsMessage (a ∷ b ∷ []) payload e = ground arith
read_message-IsMessage (a ∷ b ∷ c ∷ []) payload e = ground arith
read_message-IsMessage (a ∷ b ∷ c ∷ d ∷ s) payload e =
    let (rest, l, h) =
      payload_sound (a * 256 + b) s payload (read_full (a * 256 + b) s)
        (read_full_end (a * 256 + b) s) e in
    (a, b, c, d, rest, l, cc)

message_at :
    (a b c d : ℕ) (s : Text)
    → read_message (a ∷ b ∷ c ∷ d ∷ s) ≡ payload_of (read_full (a * 256 + b) s)
unfolding read_message read_full
message_at a b c d s = refl

-- A message is read exactly if four bytes of header arrive, and after them as many bytes as the first
-- two bytes say; these are the payload, and what follows is left alone.
pub read_message_iff :
    (conn payload : Text) → (read_message conn ≡ some payload) ↔ IsMessage conn payload
read_message_iff conn payload = (read_message-IsMessage conn payload, from)
  where
    from : IsMessage conn payload → read_message conn ≡ some payload
    from (a, b, c, d, rest, l, e) =
        rw e
          (message_at a b c d (payload ++ rest) ∙ rw (sym l, read_full_complete payload rest) refl)
