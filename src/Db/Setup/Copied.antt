-- ===== src/Db/Setup/Copied.antt =====
-- Rows that a statement copies from one table to another.
use listserver.Base.{
  All, Bool, List, [], any, ap, false, map, refl, true, ◌&&◌, ◌++◌, ◌||◌, ◌∙◌, ◌∷◌, ◌≡◌,
}
use listserver.Db.Setup.{Column, Item, Row, col, has_column, is_fitting}

-- Each row of the second list has come from that of the first at its place.
abbrev pub Pointwise : (Row → Row → Type 0) → List Row → List Row → Type 0
Pointwise R [] [] = Unit {0}
Pointwise R [] (s ∷ ss) = ⊥
Pointwise R (r ∷ rs) [] = ⊥
Pointwise R (r ∷ rs) (s ∷ ss) = R r s × Pointwise R rs ss

pub is_fitting_self :
    (source cs : List Column)
    → All (λ c. has_column source c ≡ true) cs
    → is_fitting source cs (map col cs) ≡ true
is_fitting_self source [] h = refl
is_fitting_self source (c ∷ cs) h = rw (h.0, is_fitting_self source cs h.1) refl

pub Pointwise-map :
    (R : Row → Row → Type 0) (f : Row → Row) (rows : List Row)
    → ((r : Row) → R r (f r))
    → Pointwise R rows (map f rows)
Pointwise-map R f [] h = tt
Pointwise-map R f (r ∷ rows) h = (h r, Pointwise-map R f rows h)

-- A selection that breaks nothing where the row did not.
pub none-broken :
    (p q : Row → Bool) (f : Row → Row) (rows : List Row)
    → ((r : Row) → p r ≡ false → q (f r) ≡ false)
    → All (λ r. p r ≡ false) rows
    → any q (map f rows) ≡ false
unfolding any
none-broken p q f [] h e = refl
none-broken p q f (r ∷ rows) h e =
    ap (λ b. b || any q (map f rows)) (h r e.0) ∙ none-broken p q f rows h e.1

pub is_fitting-append :
    (source cs ds : List Column) (list : List Item)
    → All (λ c. has_column source c ≡ true) cs
    → is_fitting source (cs ++ ds) (map col cs ++ list) ≡ is_fitting source ds list
is_fitting-append source [] ds list h = refl
is_fitting-append source (c ∷ cs) ds list h =
    ap (λ b. b && is_fitting source (cs ++ ds) (map col cs ++ list)) h.0
    ∙ is_fitting-append source cs ds list h.1
