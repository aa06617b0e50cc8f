-- ===== src/Api/Checks.antt =====
-- Rules for handlers that only look: such a part ends with a value of which something holds, or with
-- an exit, and in either case the database has only used up answers of the pool and the driver.
use listserver.Api.Http.{Exit, Handler, World, call_db, fail_if, or_internal, try_db}
use listserver.Base.{Bool, Result, err, false, ok, refl, some, subst, sym, true, ℕ, ◌≡◌}
use listserver.Db.Model.{Tables}
use listserver.Db.Monad.{Error, Oracle, SqliteDb, exec, exec_cases, pure, raise, resume, ◌>>=◌}
use Prim.Native.String.{String}

module _ (w : World) (db : SqliteDb) where
  abbrev pub world_at : Oracle → World
  world_at o = record w { db = some (record db { oracle = o }) }

  abbrev pub Looked : {A : Type 0} → (A → Type 0) → Result Exit A × World → Type 0
  Looked Q (ok a, w') = Q a × ((o : Oracle) × (w' ≡ world_at o))
  Looked Q (err e, w') = (o : Oracle) × (w' ≡ world_at o)

  abbrev pub Looks : {A : Type 0} → (A → Type 0) → Handler A → Type 0
  Looks Q m = (o : Oracle) → Looked Q (m (world_at o))

  pub pure-Looks : {A : Type 0} (Q : A → Type 0) (a : A) → Q a → Looks Q (pure a)
  pure-Looks Q a q o = (q, (o, refl))

  pub raise-Looks : {A : Type 0} (Q : A → Type 0) (e : Exit) → Looks Q (raise e)
  raise-Looks Q e o = (o, refl)

  pub bind-Looks :
      {A B : Type 0} (Q : A → Type 0) (R : B → Type 0) (m : Handler A) (f : A → Handler B)
      → Looks Q m
      → ((a : A) → Q a → Looks R (f a))
      → Looks R (m >>= f)
  bind-Looks {A} {B} Q R m f h k o = go (m (world_at o)) (h o)
    where
      go : (x : Result Exit A × World) → Looked Q x → Looked R (resume f x)
      go (ok a, w') (q, (o', e)) = subst (λ v. Looked R (f a v)) (sym e) (k a q o')
      go (err e, w') l = l

  pub fail_if-Looks :
      (b : Bool) (message : String) (status : ℕ) → Looks (λ _. b ≡ false) (fail_if b message status)
  fail_if-Looks true message status o = (o, refl)
  fail_if-Looks false message status o = (refl, (o, refl))

  -- What a query answers: the value that it computes from the tables, or an error.
  abbrev pub Answers : {A : Type 0} → A → Result Error A → Type 0
  Answers a (ok b) = b ≡ a
  Answers a (err e) = Unit {0}

  pub try_db-Looks :
      {A : Type 0} (f : SqliteDb → Result Error A × Tables) (a : A)
      → ((o : Oracle) → f (record db { oracle = o }) ≡ (ok a, db.tables))
      → Looks (Answers a) (try_db (exec f))
  unfolding try_db
  try_db-Looks f a h o =
      exec_cases (λ x. Looked (Answers a) (ok x.0, record w { db = some x.1 })) f
        (record db { oracle = o }) (λ m o'. (tt, (o', refl)))
        λ o'.
          subst
            (λ y.
              Looked (Answers a)
                (ok y.0, record w { db = some (record db { tables = y.1; oracle = o' }) }))
            (sym (h o')) (refl, (o', refl))

  pub call_db-Looks :
      {A : Type 0} (f : SqliteDb → Result Error A × Tables) (a : A)
      → ((o : Oracle) → f (record db { oracle = o }) ≡ (ok a, db.tables))
      → Looks (λ b. b ≡ a) (call_db (exec f))
  unfolding call_db
  call_db-Looks {A} f a h =
      bind-Looks (Answers a) (λ b. b ≡ a) (try_db (exec f)) or_internal (try_db-Looks f a h) next
    where
      next : (r : Result Error A) → Answers a r → Looks (λ b. b ≡ a) (or_internal r)
      next (ok b) q o = (q, (o, refl))
      next (err e) q o = (o, refl)
