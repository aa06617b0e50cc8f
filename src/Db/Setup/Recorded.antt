-- ===== src/Db/Setup/Recorded.antt =====
-- What a migration records in the file.
use listserver.Base.{
  All, Bool, List, [], any, any-append, ap, arith, false, if◌then◌else◌, int_eq, nat_eq, none, refl,
  some, subst, sym, text_eq, true, ℕ, ◌++◌, ◌==◌, ◌||◌, ◌∙◌, ◌∷◌, ◌≡◌,
}
use listserver.Db.Setup.{DbFile, Setup, Statement, effect, failed}
use listserver.Db.Setup.Opening.{
  insert_versions, migrate_missing, migration_on, sqlite_exec_all, sqlite_migration_exists, unless,
  versions_on,
}
use listserver.Db.Setup.Steps.{Ended, Ends, HasVersions, KeepsVersions, Leads, exec_then-Ends, at}

-- The versions that a file records.
abbrev pub Records : List ℕ → List ℕ → Type 0
Records known vs = All (λ v. any (λ w. w == v) vs ≡ true) known

abbrev pub Knows : List ℕ → DbFile → Type 0
Knows known f = (vs : List ℕ) × (f.versions ≡ some vs) × Records known vs

any-append_self : (v : ℕ) (vs : List ℕ) → any (λ w. w == v) (vs ++ v ∷ []) ≡ true
unfolding any
any-append_self v vs = ground (arith, any-append (λ w. w == v) vs (v ∷ []))

Records-append : (known vs new : List ℕ) → Records known vs → Records known (vs ++ new)
Records-append [] vs new h = tt
Records-append (v ∷ known) vs new h =
    (ground (arith, h.0, any-append (λ w. w == v) vs new), Records-append known vs new h.1)

insert-Leads :
    (v : ℕ) (known vs : List ℕ) (f : DbFile)
    → Records known vs
    → HasVersions (some vs) f
    → Leads (Knows (v ∷ known)) f (insert_versions (v ∷ []) f)
unfolding any
insert-Leads v known vs f h e =
    subst (λ o. Leads (Knows (v ∷ known)) f (versions_on (v ∷ []) f o)) (sym e)
      (test (any (λ w. w == v) vs) refl)
  where
    test :
        (b : Bool)
        → any (λ w. w == v) vs ≡ b
        → Leads
            (Knows (v ∷ known))
            f
            (if b || false then failed else effect (record f { versions = some (vs ++ v ∷ []) }))
    test true there = (vs, e, (there, h))
    test false there =
        (vs ++ v ∷ [], refl, (any-append_self v vs, Records-append known vs (v ∷ []) h))

-- A migration runs unless its version is recorded.
pub migrate_missing-at :
    (v : ℕ) (m : Setup (Unit {0})) (vs : List ℕ) (f : DbFile) (b : Bool)
    → HasVersions (some vs) f
    → any (λ w. w == v) vs ≡ b
    → migrate_missing v m (at f) ≡ unless m b (at f)
unfolding migrate_missing sqlite_migration_exists
migrate_missing-at v m vs f b e h =
    ap (λ o. elim (migration_on v (at f) o) [ none ↦ none | some (a, c) ↦ unless m a c ]) e
    ∙ ap (λ b. unless m b (at f)) h

-- After a migration its version is recorded.
pub migrate_missing-Knows :
    (v : ℕ) (known : List ℕ) (ss : List Statement)
    → All KeepsVersions ss
    → (f : DbFile) → Knows known f
    → Ends
        (Knows (v ∷ known))
        (migrate_missing v (sqlite_exec_all (ss ++ insert_versions (v ∷ []) ∷ [])))
        f
migrate_missing-Knows v known ss keeps f (vs, e, h) = test (any (λ w. w == v) vs) refl
  where
    keeps-at :
        (ss : List Statement)
        → All KeepsVersions ss
        → All
            (λ s. (f : DbFile) → HasVersions (some vs) f → Leads (HasVersions (some vs)) f (s f))
            ss
    keeps-at [] k = tt
    keeps-at (s ∷ ss) k = (k.0 (some vs), keeps-at ss k.1)

    m : Setup (Unit {0})
    m = sqlite_exec_all (ss ++ insert_versions (v ∷ []) ∷ [])

    test : (b : Bool) → any (λ w. w == v) vs ≡ b → Ends (Knows (v ∷ known)) (migrate_missing v m) f
    test true there =
        subst (Ended (Knows (v ∷ known))) (sym (migrate_missing-at v m vs f true e there))
          (f, refl, (vs, e, (there, h)))
    test false there =
        subst (Ended (Knows (v ∷ known))) (sym (migrate_missing-at v m vs f false e there)) (
          exec_then-Ends (HasVersions (some vs)) (Knows (v ∷ known)) ss (insert_versions (v ∷ []))
            (keeps-at ss keeps) (λ f' e'. insert-Leads v known vs f' h e') f e)
