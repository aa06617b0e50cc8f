-- ===== src/Db/Refresh/Editing.antt =====
-- What `AdminUpdateSessions` changes, and what it reports.
use listserver.Base.{
  All, Bool, Bool-cases, Distinct, List, Result, Text, [], any, ap, arith, false, inl, inr, int_eq,
  nat_eq, not, ok, refl, some, sym, text_eq, true, update, ℤ, ◌&&◌, ◌++◌, ◌==◌, ◌||◌, ◌∙◌, ◌∷◌, ◌≡◌,
  ◌≢◌,
}
use listserver.Db.Model.{SessionRow}
use listserver.Db.Monad.{Error, SqliteDb, step}
use listserver.Db.Refresh.{admin_update_loop, admin_update_sessions, also, set_unlisted, zeros}
use listserver.Db.Refresh.Errors.{quiet}
use listserver.Db.Sessions.{with_sessions}

abbrev pub mem : ℤ → List ℤ → Bool
mem i ids = any (λ j. j == i) ids

abbrev pub has_row : ℤ → List SessionRow → Bool
has_row i rows = any (λ r. r.id == i) rows

abbrev pub edited : Bool → Text → SessionRow → SessionRow
edited unlisted reason r = record r { unlisted = unlisted; unlist_reason = some reason }

append_nil : {A : Type 0} (xs : List A) → xs ≡ xs ++ []
append_nil [] = refl
append_nil (x ∷ xs) = ap (λ ys. x ∷ ys) (append_nil xs)

append_one-append :
    {A : Type 0} (xs : List A) (y : A) (zs : List A) → (xs ++ y ∷ []) ++ zs ≡ xs ++ y ∷ zs
append_one-append [] y zs = refl
append_one-append (x ∷ xs) y zs = ap (λ ys. x ∷ ys) (append_one-append xs y zs)

update-same_tests :
    {A : Type 0} (p q : A → Bool) (f : A → A) (xs : List A)
    → ((x : A) → p x ≡ q x)
    → update p f xs ≡ update q f xs
unfolding update
update-same_tests p q f [] h = refl
update-same_tests p q f (x ∷ xs) h = rw (h x, update-same_tests p q f xs h)

module _ (unlisted : Bool) (reason : Text) where
  edit : SessionRow → SessionRow
  edit = edited unlisted reason

  update-twice :
      (p q : SessionRow → Bool) (rows : List SessionRow)
      → ((r : SessionRow) → p (edit r) ≡ p r)
      → update p edit (update q edit rows) ≡ update (λ r. p r || q r) edit rows
  unfolding update edit
  update-twice p q [] h = refl
  update-twice p q (r ∷ rows) h = elim (Bool-cases (q r)) [
    | inl e ↦ elim (Bool-cases (p r)) [
      | inl k ↦ rw (e, h r, k) (ap (λ rs. edit r ∷ rs) (update-twice p q rows h))
      | inr k ↦ rw (e, h r, k) (ap (λ rs. edit r ∷ rs) (update-twice p q rows h))
    ]
    | inr e ↦ elim (Bool-cases (p r)) [
      | inl k ↦ rw (e, k) (ap (λ rs. edit r ∷ rs) (update-twice p q rows h))
      | inr k ↦ rw (e, k) (ap (λ rs. r ∷ rs) (update-twice p q rows h))
    ]
  ]

  has_row-update :
      (i : ℤ) (p : SessionRow → Bool) (rows : List SessionRow)
      → has_row i (update p edit rows) ≡ has_row i rows
  unfolding any update edit
  has_row-update i p [] = refl
  has_row-update i p (r ∷ rows) = elim (Bool-cases (p r)) [
    | inl e ↦ rw (e, has_row-update i p rows)
    | inr e ↦ rw (e, has_row-update i p rows)
  ]

  -- The rows with an id that is picked and was not handled before.
  touched : List ℤ → List ℤ → List SessionRow → List SessionRow
  touched ids handled = update (λ r. mem r.id ids && not (mem r.id handled)) edit

  abbrev Reports :
      List ℤ → List ℤ → List ℤ → List SessionRow → Result Error (List ℤ) × SqliteDb → Type 0
  Reports ids handled changed rows x =
      (more : List ℤ) × (x.0 ≡ ok (changed ++ more))
      × Distinct (λ i. i) more
      × ((i : ℤ) → mem i more ≡ (mem i ids && not (mem i handled) && has_row i rows))
      × (x.1.tables.sessions ≡ touched ids handled rows)

  touched-skip :
      (id : ℤ) (ids handled : List ℤ) (rows : List SessionRow)
      → mem id handled ≡ true
      → touched (id ∷ ids) handled rows ≡ touched ids handled rows
  unfolding touched any
  touched-skip id ids handled rows e = update-same_tests _ _ edit rows (λ r. ground (arith, e))

  touched-step :
      (id : ℤ) (ids handled : List ℤ) (rows : List SessionRow)
      → mem id handled ≡ false
      → touched ids (id ∷ handled) (update (λ r. r.id == id) edit rows)
        ≡ touched (id ∷ ids) handled rows
  unfolding touched any edit
  touched-step id ids handled rows e =
      update-twice (λ r. mem r.id ids && not (mem r.id (id ∷ handled))) (λ r. r.id == id) rows
        (λ r. refl)
      ∙ update-same_tests _ _ edit rows (λ r. ground (arith, e))

  touched-nil : (handled : List ℤ) (rows : List SessionRow) → touched [] handled rows ≡ rows
  unfolding touched update any
  touched-nil handled [] = refl
  touched-nil handled (r ∷ rows) = ap (λ rs. r ∷ rs) (touched-nil handled rows)

  mem-false : (id : ℤ) (ids : List ℤ) → mem id ids ≡ false → All (λ j. j ≢ id) ids
  unfolding any
  mem-false id [] e = tt
  mem-false id (j ∷ ids) e = ground (arith, e, mem-false id ids)

  -- One id, whether it has a row or not.
  next-Reports :
      (hit : Bool) (id : ℤ) (ids handled changed : List ℤ) (rows : List SessionRow)
      (x : Result Error (List ℤ) × SqliteDb)
      → mem id handled ≡ false
      → has_row id rows ≡ hit
      → Reports ids (id ∷ handled) (also hit id changed) (update (λ r. r.id == id) edit rows) x
      → Reports (id ∷ ids) handled changed rows x
  unfolding any
  next-Reports true id ids handled changed rows x n h (more, r, d, m, t) = (
    id ∷ more,
    r ∙ ap ok (append_one-append changed id more),
    (mem-false id more (ground (arith, m id)), d),
    λ i. ground (arith, m i, has_row-update i (λ r. r.id == id) rows, h, n),
    t ∙ touched-step id ids handled rows n,
  )
  next-Reports false id ids handled changed rows x n h (more, r, d, m, t) = (
    more,
    r,
    d,
    λ i. ground (arith, m i, has_row-update i (λ r. r.id == id) rows, h, n),
    t ∙ touched-step id ids handled rows n,
  )

  -- A database whose pool and driver do not fail, with its sessions.
  at_rows : SqliteDb → List SessionRow → SqliteDb
  at_rows db rows = quiet (record db { tables = with_sessions db rows })

  loop-Reports :
      (db : SqliteDb) (ids handled changed : List ℤ) (rows : List SessionRow)
      → Reports ids handled changed rows
          (admin_update_loop unlisted reason ids handled changed (at_rows db rows))
  unfolding admin_update_loop at_rows touched edit set_unlisted step any
  loop-Reports db [] handled changed rows =
      ([], ap ok (append_nil changed), tt, (λ i. refl), sym (touched-nil handled rows))
  loop-Reports db (id ∷ ids) handled changed rows = elim (Bool-cases (mem id handled)) [
    | inl e ↦ rw e (
        let (more, r, d, m, t) = loop-Reports db ids handled changed rows in
        (more, r, d, (λ i. ground (arith, m i, e)), t ∙ sym (touched-skip id ids handled rows e)))
    | inr e ↦ rw e (
        next-Reports (has_row id rows) id ids handled changed rows
          (admin_update_loop unlisted reason ids (id ∷ handled) (also (has_row id rows) id changed)
            (at_rows db (update (λ r. r.id == id) edit rows)))
          e refl
          (loop-Reports db ids (id ∷ handled) (also (has_row id rows) id changed)
            (update (λ r. r.id == id) edit rows)))
  ]

  -- With a pool and a driver that do not fail, the rows whose ids are given become unlisted, or listed
  -- again, with the reason, and no others. What is reported is as many zeros as ids were given,
  -- followed by the ids that have a row, each once.
  pub admin_update_sessions-Reports :
      (ids : List ℤ) (db : SqliteDb)
      → (more : List ℤ) × ((admin_update_sessions ids unlisted reason (quiet db)).0
          ≡ ok (zeros ids ++ more))
        × Distinct (λ i. i) more
        × ((i : ℤ) → mem i more ≡ (mem i ids && has_row i db.tables.sessions))
        × ((admin_update_sessions ids unlisted reason (quiet db)).1.tables.sessions
            ≡ update (λ r. mem r.id ids) (edited unlisted reason) db.tables.sessions)
  unfolding admin_update_sessions touched edit any at_rows
  admin_update_sessions-Reports ids db =
      let (more, r, d, m, t) = loop-Reports db ids [] (zeros ids) db.tables.sessions in
      (
        more,
        r,
        d,
        (λ i. ground (arith, m i)),
        t ∙ update-same_tests _ _ (edited unlisted reason) db.tables.sessions (λ r. ground arith),
      )
