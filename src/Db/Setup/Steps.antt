-- ===== src/Db/Setup/Steps.antt =====
-- Rules for the statements of the set-up, while the driver fails none.
use listserver.Base.{
  All, Bool, List, Option, [], any, false, if◌then◌else◌, none, refl, some, subst, sym, true, ℕ,
  ◌++◌, ◌∙◌, ◌∷◌, ◌≡◌,
}
use listserver.Db.Setup.{
  Cell, Column, Conn, DbFile, Outcome, Selection, Setup, Statement, Table, TableName, add_column,
  add_on, create_on, create_table, done, drop_on, drop_table, effect, exec_outcome, failed,
  get_table, has_column, insert_on, insert_select, put_table, refused, rename_on, rename_table,
  sqlite_exec, t_accesslevels, t_hostbans, t_hostbans_old, t_roles, t_sessions, t_sessions_old,
  t_users, ◌>>◌,
}
use listserver.Db.Setup.Opening.{access_levels_on, insert_access_levels, sqlite_exec_all}

abbrev pub at : DbFile → Conn
at f = record { file = f; failing = [] }

-- It panics, or goes on with a file of which P holds.
abbrev pub Ended : (DbFile → Type 0) → Option ((Unit {0}) × Conn) → Type 0
Ended P none = Unit
Ended P (some (a, c)) = (f : DbFile) × (c ≡ at f) × P f

abbrev pub Ends : (DbFile → Type 0) → Setup (Unit {0}) → DbFile → Type 0
Ends P m f = Ended P (m (at f))

abbrev pub Leads : (DbFile → Type 0) → DbFile → Outcome → Type 0
Leads P f refused = Unit
Leads P f failed = P f
Leads P f (effect f') = P f'

module _ (P Q : DbFile → Type 0) where
  pub bind-Ends :
      (m k : Setup (Unit {0})) (f : DbFile)
      → Ends P m f
      → ((f' : DbFile) → P f' → Ends Q k f')
      → Ends Q (m >> k) f
  bind-Ends m k f h next = go (m (at f)) h
    where
      go :
          (o : Option ((Unit {0}) × Conn))
          → Ended P o
          → Ended Q (elim o [ none ↦ none | some (a, c) ↦ k c ])
      go none h = tt
      go (some (a, c)) (f', e, p) = subst (λ c'. Ended Q (k c')) (sym e) (next f' p)

exec-Ends :
    (P : DbFile → Type 0) (s : Statement) (f : DbFile) → Leads P f (s f) → Ends P (sqlite_exec s) f
unfolding sqlite_exec
exec-Ends P s f h = go (s f) h
  where
    go : (o : Outcome) → Leads P f o → Ended P (exec_outcome (at f) o)
    go refused h = tt
    go failed h = (f, refl, h)
    go (effect f') h = (f', refl, h)

-- The calls, where each statement keeps what holds.
pub sqlite_exec_all-Ends :
    (P : DbFile → Type 0) (ss : List Statement)
    → All (λ s. (f : DbFile) → P f → Leads P f (s f)) ss
    → (f : DbFile) → P f
    → Ends P (sqlite_exec_all ss) f
unfolding sqlite_exec_all
sqlite_exec_all-Ends P [] h f p = (f, refl, p)
sqlite_exec_all-Ends P (s ∷ ss) h f p =
    bind-Ends P P (sqlite_exec s) (sqlite_exec_all ss) f (exec-Ends P s f (h.0 f p))
      (sqlite_exec_all-Ends P ss h.1)

-- The calls and a last one, which brings about what is wanted.
pub exec_then-Ends :
    (P Q : DbFile → Type 0) (ss : List Statement) (s : Statement)
    → All (λ s. (f : DbFile) → P f → Leads P f (s f)) ss
    → ((f : DbFile) → P f → Leads Q f (s f))
    → (f : DbFile) → P f
    → Ends Q (sqlite_exec_all (ss ++ s ∷ [])) f
unfolding sqlite_exec_all
exec_then-Ends P Q [] s h last f p =
    bind-Ends Q Q (sqlite_exec s) (done tt) f (exec-Ends Q s f (last f p)) (λ f' q. (f', refl, q))
exec_then-Ends P Q (t ∷ ss) s h last f p =
    bind-Ends P Q (sqlite_exec t) (sqlite_exec_all (ss ++ s ∷ [])) f (exec-Ends P t f (h.0 f p))
      (exec_then-Ends P Q ss s h.1 last)

-- A first call, and others.
pub first_then-Ends :
    (P Q : DbFile → Type 0) (s : Statement) (ss : List Statement) (f : DbFile)
    → Leads P f (s f)
    → ((f' : DbFile) → P f' → Ends Q (sqlite_exec_all ss) f')
    → Ends Q (sqlite_exec_all (s ∷ ss)) f
unfolding sqlite_exec_all
first_then-Ends P Q s ss f h next =
    bind-Ends P Q (sqlite_exec s) (sqlite_exec_all ss) f (exec-Ends P s f h) next

abbrev pub HasVersions : Option (List ℕ) → DbFile → Type 0
HasVersions o f = f.versions ≡ o

-- The statements on other tables leave the versions alone.
abbrev pub KeepsVersions : Statement → Type 0
KeepsVersions s =
    (o : Option (List ℕ)) (f : DbFile) → HasVersions o f → Leads (HasVersions o) f (s f)

put_table-versions :
    (n : TableName) (t : Option Table) (f : DbFile) → (put_table n t f).versions ≡ f.versions
put_table-versions t_sessions t f = refl
put_table-versions t_sessions_old t f = refl
put_table-versions t_hostbans t f = refl
put_table-versions t_hostbans_old t f = refl
put_table-versions t_accesslevels t f = refl
put_table-versions t_roles t f = refl
put_table-versions t_users t f = refl

module _ (n : TableName) where
  pub create_table-Keeps : (columns : List Column) → KeepsVersions (create_table n columns)
  unfolding create_table
  create_table-Keeps columns o f e = go (get_table n f)
    where
      go : (t : Option Table) → Leads (HasVersions o) f (create_on n columns f t)
      go none = put_table-versions n _ f ∙ e
      go (some t) = tt

  pub drop_table-Keeps : KeepsVersions (drop_table n)
  unfolding drop_table
  drop_table-Keeps o f e = go (get_table n f)
    where
      go : (t : Option Table) → Leads (HasVersions o) f (drop_on n f t)
      go none = tt
      go (some t) = put_table-versions n _ f ∙ e

  pub rename_table-Keeps : (to : TableName) → KeepsVersions (rename_table n to)
  unfolding rename_table
  rename_table-Keeps to o f e = go (get_table n f) (get_table to f)
    where
      go : (t old : Option Table) → Leads (HasVersions o) f (rename_on n to f t old)
      go none old = tt
      go (some t) none = put_table-versions to _ _ ∙ put_table-versions n _ f ∙ e
      go (some t) (some old) = tt

  pub add_column-Keeps : (c : Column) (v : Cell) → KeepsVersions (add_column n c v)
  unfolding add_column any
  add_column-Keeps c v o f e = go (get_table n f)
    where
      test :
          (b : Bool) (t : Option Table)
          → Leads (HasVersions o) f (if b then refused else effect (put_table n t f))
      test true t = tt
      test false t = put_table-versions n _ f ∙ e

      go : (t : Option Table) → Leads (HasVersions o) f (add_on n c v f t)
      go none = tt
      go (some t) = test (has_column t.columns c) _

  pub insert_select-Keeps :
      (what : Selection) (from : TableName) → KeepsVersions (insert_select n what from)
  unfolding insert_select
  insert_select-Keeps what from o f e = go (get_table n f) (get_table from f)
    where
      test :
          (b b' : Bool) (t : Option Table)
          → Leads
              (HasVersions o)
              f
              (if b then refused else if b' then failed else effect (put_table n t f))
      test true b' t = tt
      test false true t = e
      test false false t = put_table-versions n _ f ∙ e

      go : (t s : Option Table) → Leads (HasVersions o) f (insert_on n what f t s)
      go none s = tt
      go (some t) none = tt
      go (some t) (some s) = test _ _ _

pub access_levels-Keeps : KeepsVersions insert_access_levels
access_levels-Keeps o f e = go f.accesslevels
  where
    go : (t : Option Table) → Leads (HasVersions o) f (access_levels_on f t)
    go none = tt
    go (some t) = e
