-- ===== src/Api/Keeps.antt =====
-- Rules for handlers: what holds of the tables before a handler runs holds after it, and what holds of
-- the value that it ends with, one rule for each way to build a handler.
use listserver.Api.Http.{
  Exit, Handler, World, call_db, call_on, decoded_body, fail_if, or_internal, parsed_id, try_db,
}
use listserver.Base.{
  Bool, Option, Result, err, false, if◌then◌else◌, none, ok, refl, some, subst, sym, true, ℕ, ℤ,
  ◌≡◌,
}
use listserver.Db.Keeps.{DbPreserves}
use listserver.Db.Model.{Tables}
use listserver.Db.Monad.{Db, Error, SqliteDb, pure, raise, resume, ◌>>=◌, ◌>>◌}
use Prim.Native.String.{String}

abbrev pub Holds : (Tables → Type 0) → Option SqliteDb → Type 0
Holds P none = Unit {0}
Holds P (some db) = P db.tables

abbrev pub Post : {A : Type 0} → (Tables → Type 0) → (A → Type 0) → Result Exit A × World → Type 0
Post P Q (ok a, w) = Q a × Holds P w.db
Post P Q (err e, w) = Holds P w.db

pub record Ensures {A : Type 0} (P : Tables → Type 0) (Q : A → Type 0) (m : Handler A)
    : Type 0 where
  pub at : (w : World) → Holds P w.db → Post P Q (m w)

module _ {P : Tables → Type 0} where
  pub at_end :
      {A : Type 0} {Q : A → Type 0} {m : Handler A}
      → Ensures P Q m
      → (w : World) → Holds P w.db
      → Holds P (m w).1.db
  at_end {A} {Q} {m} h w p = go (m w) (h.at w p)
    where
      go : (x : Result Exit A × World) → Post P Q x → Holds P x.1.db
      go (ok a, w') (q, p') = p'
      go (err e, w') p' = p'

  pub pure-Ensures : {A : Type 0} {Q : A → Type 0} (a : A) → Q a → Ensures P Q (pure a)
  pure-Ensures a q = record { at = λ w h. (q, h) }

  pub raise-Ensures : {A : Type 0} {Q : A → Type 0} (e : Exit) → Ensures P Q (raise {A = A} e)
  raise-Ensures e = record { at = λ w h. h }

  pub bind-Ensures :
      {A B : Type 0} {Q : A → Type 0} {R : B → Type 0} (m : Handler A) (f : A → Handler B)
      → Ensures P Q m
      → ((a : A) → Q a → Ensures P R (f a))
      → Ensures P R (m >>= f)
  bind-Ensures {A} {B} {Q} {R} m f h k = record { at = λ w p. go (m w) (h.at w p) }
    where
      go : (x : Result Exit A × World) → Post P Q x → Post P R (resume f x)
      go (ok a, w') (q, p) = (k a q).at w' p
      go (err e, w') p = p

  pub weaken-Ensures :
      {A : Type 0} {Q R : A → Type 0} {m : Handler A}
      → Ensures P Q m
      → ((a : A) → Q a → R a)
      → Ensures P R m
  weaken-Ensures {A} {Q} {R} {m} h k = record { at = λ w p. go (m w) (h.at w p) }
    where
      go : (x : Result Exit A × World) → Post P Q x → Post P R x
      go (ok a, w') (q, p) = (k a q, p)
      go (err e, w') p = p

  pub then-Ensures :
      {A : Type 0} {Q : Unit {0} → Type 0} {R : A → Type 0} (m : Handler (Unit {0})) (k : Handler A)
      → Ensures P Q m
      → (Q tt → Ensures P R k)
      → Ensures P R (m >> k)
  then-Ensures m k h g = bind-Ensures m (λ _. k) h (λ u q. g q)

  pub fail_if-Ensures :
      (b : Bool) (message : String) (status : ℕ)
      → Ensures P (λ _. b ≡ false) (fail_if b message status)
  fail_if-Ensures true message status = record { at = λ w h. h }
  fail_if-Ensures false message status = record { at = λ w h. (refl, h) }

  pub any_fail_if-Ensures :
      (b : Bool) (message : String) (status : ℕ)
      → Ensures P (λ _. Unit {0}) (fail_if b message status)
  any_fail_if-Ensures b message status =
      weaken-Ensures (fail_if-Ensures b message status) (λ _ _. tt)

  pub branch-Ensures :
      {A : Type 0} {Q : A → Type 0} (b : Bool) {m k : Handler A}
      → Ensures P Q m
      → Ensures P Q k
      → Ensures P Q (if b then m else k)
  branch-Ensures true h g = h
  branch-Ensures false h g = g

  pub or_internal-Ensures :
      {A : Type 0} (r : Result Error A) → Ensures P (λ _. Unit {0}) (or_internal r)
  or_internal-Ensures (ok a) = record { at = λ w h. (tt, h) }
  or_internal-Ensures (err e) = record { at = λ w h. h }

  pub try_db-Ensures :
      {A : Type 0} (op : Db A) → DbPreserves P op → Ensures P (λ _. Unit {0}) (try_db op)
  unfolding try_db
  try_db-Ensures op h = record { at = λ w. go w w.db refl }
    where
      go :
          (w : World) (db : Option SqliteDb)
          → w.db ≡ db
          → Holds P db
          → Post P (λ _. Unit {0}) (call_on op w db)
      go w none e p = subst (Holds P) (sym e) p
      go w (some db) e p = (tt, h db p)

  pub call_db-Ensures :
      {A : Type 0} (op : Db A) → DbPreserves P op → Ensures P (λ _. Unit {0}) (call_db op)
  unfolding call_db
  call_db-Ensures op h =
      bind-Ensures (try_db op) or_internal (try_db-Ensures op h) (λ r _. or_internal-Ensures r)

  pub decoded_body-Ensures :
      {A : Type 0} (body : Option A) → Ensures P (λ _. Unit {0}) (decoded_body body)
  decoded_body-Ensures none = raise-Ensures _
  decoded_body-Ensures (some a) = pure-Ensures a tt

  pub parsed_id-Ensures :
      (message : String) (id : Option ℤ) → Ensures P (λ _. Unit {0}) (parsed_id message id)
  parsed_id-Ensures message none = raise-Ensures _
  parsed_id-Ensures message (some id) = pure-Ensures id tt
