-- ===== src/Api/Announce/Racing/Added.antt =====
-- What two announcements that take turns in any way add to the tables.
use mathlib.Core.List.{append_assoc, append-nil}
use listserver.Api.Announce.{
  AnnounceRequest, check_active, check_ban, check_included, check_limit, list_announcement,
  read_announcement, timeout_of, welcome_message,
}
use listserver.Api.Announce.Admission.{
  IsWelcome, active_now, check_active-Looks, check_ban-Looks, check_included-Looks,
}
use listserver.Api.Announce.Limit.{limit-Looks}
use listserver.Api.Announce.Racing.{
  Both, Stage, advance, advance_both, answered, arrived, first_part, goes_on, in_limit, not_active,
  not_banned, read_as, read_as_of,
}
use listserver.Api.Announce.Reading.{ReadAs, read-Looks}
use listserver.Api.Checks.{Looked, Looks, bind-Looks, world_at}
use listserver.Api.Http.{
  Exit, Handler, Response, World, announced, call_db, json_ok, or_internal, try_db,
}
use listserver.Base.{
  Bool, List, Result, Text, [], ap, arith, err, false, inl, inr, length, length-append, ok, refl,
  some, subst, suc, sym, true, ℕ, ◌++◌, ◌+◌, ◌∙◌, ◌∷◌, ◌≡◌, ◌⊎◌,
}
use listserver.Config.{Config}
use listserver.Db.Model.{NewSessionInfo, SessionInfo, SessionRow, Sqlite, Tables}
use listserver.Db.Monad.{Error, Oracle, SqliteDb, exec_cases, pure, resume, ◌>>=◌}
use listserver.Db.Sessions.{insert_session, new_row, with_sessions}
use listserver.Drawpile.{Peers}
use listserver.Inclsrv.{include_hosts}
use listserver.Net.{Ip, Net}
use listserver.Validation.{is_host_in_list}

-- One for a request that was answered with a success.
abbrev pub listed : Stage → ℕ
listed arrived = 0
listed (read_as ip info) = 0
listed (not_banned ip info) = 0
listed (not_active ip info) = 0
listed (in_limit ip info) = 0
listed (answered (ok response)) = 1
listed (answered (err e)) = 0

abbrev pub with_rows : SqliteDb → List SessionRow → SqliteDb
with_rows db rows = record db {
  tables = record db.tables { sessions = db.tables.sessions ++ rows };
}

module _ ⦃net : Net⦄ ⦃sq : Sqlite⦄ ⦃peers : Peers⦄ (w : World) (cfg : Config) where
  -- A step only looks, or a row is added with the success.
  abbrev Stepped : SqliteDb → Stage → Stage × World → Type 0
  Stepped db s x =
      ((o : Oracle) × (x.1 ≡ world_at w db o) × (listed x.0 ≡ listed s))
      ⊎ ((row : SessionRow) × (o : Oracle) × (x.1 ≡ world_at w (with_rows db (row ∷ [])) o)
          × (listed x.0 ≡ suc (listed s)))

  Looks-Stepped :
      {A : Type 0} (db : SqliteDb) (Q : A → Type 0) (m : Handler A) (next : A → Stage) (s : Stage)
      (o : Oracle)
      → listed s ≡ 0
      → ((a : A) → listed (next a) ≡ 0)
      → Looks w db Q m
      → Stepped db s (goes_on next (m (world_at w db o)))
  Looks-Stepped {A} db Q m next s o none_yet next_zero l = go (m (world_at w db o)) (l o)
    where
      go : (x : Result Exit A × World) → Looked w db Q x → Stepped db s (goes_on next x)
      go (ok a, u) (q, (o', e)) = inl (o', e, next_zero a ∙ sym none_yet)
      go (err x, u) (o', e) = inl (o', e, sym none_yet)

  first_part-Looks :
      (db : SqliteDb) (r : AnnounceRequest) → Looks w db (λ _. Unit {0}) (first_part cfg r)
  unfolding first_part
  first_part-Looks db r =
      bind-Looks w db (ReadAs w db cfg r) (λ _. Unit {0}) (read_announcement cfg r) _
        (read-Looks w db cfg r)
        λ (ip, info) h.
          bind-Looks w db (λ _. is_host_in_list info.host (include_hosts w.cache) ≡ false)
            (λ _. Unit {0}) (check_included info) (λ _. pure (ip, info))
            (check_included-Looks w db cfg info) (λ _ h' o. (tt, (o, refl)))

  list-Stepped :
      (db : SqliteDb) (ip : Ip) (info : SessionInfo) (key : Result Error Text) (o : Oracle)
      → Stepped db (in_limit ip info) (
          goes_on
            (λ response. answered (ok response))
            (list_announcement cfg key ip info (world_at w db o)))
  unfolding list_announcement insert_session call_db try_db
  list-Stepped db ip info (err e) o = inl (o, refl, refl)
  list-Stepped db ip info (ok key) o =
      exec_cases
        (λ x.
          Stepped db (in_limit ip info) (goes_on (λ response. answered (ok response)) (answer x)))
        inserted (record db { oracle = o }) (λ m o'. inl (o', refl, refl))
        (λ o'. inr (new_row db info (net.ip_string ip) key, o', refl, refl))
    where
      inserted : SqliteDb → Result Error NewSessionInfo × Tables
      inserted db =
          let row = new_row db info (net.ip_string ip) key in
          (
            ok (record { listing_id = row.id; update_key = key }),
            with_sessions db (db.tables.sessions ++ row ∷ []),
          )

      report : NewSessionInfo → Handler Response
      report newses = do
        minutes ← (λ w. (ok (timeout_of w.db), w))
        pure (json_ok (announced newses minutes (welcome_message cfg info.host)))

      answer : Result Error NewSessionInfo × SqliteDb → Result Exit Response × World
      answer x = resume report (resume or_internal (ok x.0, record w { db = some x.1 }))

  advance-Stepped :
      (db : SqliteDb) (r : AnnounceRequest) (s : Stage) (o : Oracle)
      → Stepped db s (advance cfg r s (world_at w db o))
  unfolding advance
  advance-Stepped db r arrived o =
      Looks-Stepped db (λ _. Unit {0}) (first_part cfg r) (read_as_of cfg) arrived o refl
        (λ a. refl) (first_part-Looks db r)
  advance-Stepped db r (read_as ip info) o =
      Looks-Stepped db (λ _. IsWelcome w db cfg info.host) (check_ban cfg info.host)
        (λ _. not_banned ip info) (read_as ip info) o refl (λ a. refl)
        (check_ban-Looks w db cfg info.host)
  advance-Stepped db r (not_banned ip info) o =
      Looks-Stepped db (λ _. active_now w db cfg info ≡ false) (check_active info)
        (λ _. not_active ip info) (not_banned ip info) o refl (λ a. refl)
        (check_active-Looks w db cfg info)
  advance-Stepped db r (not_active ip info) o =
      Looks-Stepped db (λ _. Unit {0}) (check_limit cfg info) (λ _. in_limit ip info)
        (not_active ip info) o refl (λ a. refl) (limit-Looks w db cfg (Unit {0}) info (λ l. tt))
  advance-Stepped db r (in_limit ip info) o = list-Stepped db ip info r.key o
  advance-Stepped db r (answered x) o = inl (o, refl, refl)

  -- What the steps so far have added.
  abbrev pub Added : SqliteDb → Both → Type 0
  Added db b =
      (rows : List SessionRow) × (o : Oracle) × (b.world ≡ world_at w (with_rows db rows) o)
      × (length rows ≡ listed b.first + listed b.second)

  one-more :
      (db : SqliteDb) (s : Stage) (n : ℕ) (rows : List SessionRow) (x : Stage × World)
      → length rows ≡ listed s + n
      → Stepped (with_rows db rows) s x
      → (rows' : List SessionRow) × (o : Oracle) × (x.1 ≡ world_at w (with_rows db rows') o)
        × (length rows' ≡ listed x.0 + n)
  one-more db s n rows x e (inl (o, u, l)) = (rows, o, u, omega arith)
  one-more db s n rows x e (inr (row, o, u, l)) = (
    rows ++ row ∷ [],
    o,
    u
        ∙ ap (λ ss. world_at w (record db { tables = record db.tables { sessions = ss } }) o)
            (append_assoc db.tables.sessions rows (row ∷ [])),
    omega (arith, length-append rows (row ∷ [])),
  )

  advance_both-keeps :
      (db : SqliteDb) (r r' : AnnounceRequest) (schedule : List Bool) (b : Both)
      → Added db b
      → Added db (advance_both cfg r r' schedule b)
  unfolding advance_both
  advance_both-keeps db r r' [] b h = h
  advance_both-keeps db r r' (true ∷ schedule) b (rows, o, u, e) =
      advance_both-keeps db r r' schedule _ (
        one-more db b.first (listed b.second) rows (advance cfg r b.first b.world) e (
          subst (λ v. Stepped (with_rows db rows) b.first (advance cfg r b.first v)) (sym u)
            (advance-Stepped (with_rows db rows) r b.first o)))
  advance_both-keeps db r r' (false ∷ schedule) b (rows, o, u, e) =
      advance_both-keeps db r r' schedule _ (swapped second_turn)
    where
      second_turn :
          (rows' : List SessionRow) × (o : Oracle) × ((advance cfg r' b.second b.world).1
            ≡ world_at w (with_rows db rows') o)
          × (length rows' ≡ listed (advance cfg r' b.second b.world).0 + listed b.first)
      second_turn =
          one-more db b.second (listed b.first) rows (advance cfg r' b.second b.world) (omega arith)
            (subst (λ v. Stepped (with_rows db rows) b.second (advance cfg r' b.second v)) (sym u)
              (advance-Stepped (with_rows db rows) r' b.second o))

      swapped :
          ((rows' : List SessionRow) × (o : Oracle) × ((advance cfg r' b.second b.world).1
              ≡ world_at w (with_rows db rows') o)
            × (length rows' ≡ listed (advance cfg r' b.second b.world).0 + listed b.first))
          → Added db (record {
            first = b.first;
            second = (advance cfg r' b.second b.world).0;
            world = (advance cfg r' b.second b.world).1;
          })
      swapped (rows', o', u', e') = (rows', o', u', omega arith)

  -- However two announcements take turns, and whichever statements fail: the rows that are added are as
  -- many as the requests that were answered with a success so far, and nothing else changes in the
  -- tables or in the cache.
  pub advance_both-Added :
      (db : SqliteDb) (r r' : AnnounceRequest) (schedule : List Bool) (o : Oracle)
      → Added db (
          advance_both cfg r r' schedule
            (record { first = arrived; second = arrived; world = world_at w db o }))
  advance_both-Added db r r' schedule o = advance_both-keeps db r r' schedule _ (
    [],
    o,
    ap (λ ss. world_at w (record db { tables = record db.tables { sessions = ss } }) o)
        (sym (append-nil db.tables.sessions)),
    refl,
  )
