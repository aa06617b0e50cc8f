-- ===== src/Db/Bans.antt =====
-- The operations of `sqliteDb` on the table `hostbans` (db/db_sqlite.go).
use listserver.Base.{
  Bool, List, Option, Text, [], any, int_eq, keep, ltb_ℤ, map, nat_eq, none, not, ok, some, text_eq,
  true, update, ℕ, ℤ, ◌&&◌, ◌++◌, ◌==◌, ◌∷◌,
}
use listserver.Db.Model.{AdminHostBan, HostBanRow, Sqlite, Tables}
use listserver.Db.Monad.{Db, SqliteDb, exec}
use listserver.Db.Sessions.{order_by, text_lt}
use listserver.Strings.{to_lower}

-- COLLATE NOCASE folds the letters of ASCII.
abbrev pub nocase_eq : Text → Text → Bool
unfolding to_lower
nocase_eq a b = to_lower a == to_lower b

abbrev pub with_bans : SqliteDb → List HostBanRow → Tables
with_bans db rows = record (db.tables) { hostbans = rows }

abbrev stored_text : Option Text → Text
stored_text none = []
stored_text (some t) = t

module _ ⦃sq : Sqlite⦄ where
  -- `expires IS NULL OR expires > DATETIME('now')`, a comparison of texts.
  abbrev pub is_running : ℕ → Option Text → Bool
  unfolding text_lt
  is_running now none = true
  is_running now (some expires) = text_lt (sq.now_text now) expires

  unfoldable pub is_banned_host : Text → Db Bool
  unfolding exec any text_lt to_lower
  is_banned_host host = exec λ db. (
    ok (any (λ b. nocase_eq b.host host && is_running db.now b.expires) db.tables.hostbans),
    db.tables,
  )

  -- A new ban stores DATETIME of its last day, an edited one the day as it was sent.
  abbrev pub created_expires : Text → Option Text
  created_expires [] = none
  created_expires (c ∷ day) = sq.datetime (c ∷ day)

  abbrev pub updated_expires : Text → Option Text
  updated_expires [] = none
  updated_expires (c ∷ day) = some (c ∷ day)

  unfoldable pub admin_create_host_ban : Text → Text → Text → Db ℤ
  unfolding exec
  admin_create_host_ban host expires notes = exec λ db.
      let id = sq.new_rowid (map (λ b. b.id) db.tables.hostbans) in
      (
        ok id,
        with_bans db (
            db.tables.hostbans
            ++ record { id = id; host = host; expires = created_expires expires; notes = notes }
              ∷ []),
      )

  unfoldable pub admin_update_host_ban : ℤ → Text → Text → Text → Db Bool
  unfolding exec any update
  admin_update_host_ban id host expires notes = exec λ db.
      let picked = λ (b : HostBanRow). b.id == id in
      (
        ok (any picked db.tables.hostbans),
        with_bans db (
            update picked
              (λ b. record b { host = host; expires = updated_expires expires; notes = notes })
              db.tables.hostbans),
      )

  abbrev pub ban_info : ℕ → HostBanRow → AdminHostBan
  unfolding text_lt
  ban_info now b = record {
    id = b.id;
    host = b.host;
    expires = stored_text b.expires;
    active = is_running now b.expires;
    notes = b.notes;
  }

  -- ORDER BY id DESC
  unfoldable pub admin_query_host_bans : Db (List AdminHostBan)
  unfolding exec order_by text_lt
  admin_query_host_bans = exec λ db. (
    ok (map (ban_info db.now) (order_by (λ a b. not (ltb_ℤ a.id b.id)) db.tables.hostbans)),
    db.tables,
  )

unfoldable pub admin_delete_host_ban : ℤ → Db Bool
unfolding exec any keep
admin_delete_host_ban id = exec λ db. (
  ok (any (λ b. b.id == id) db.tables.hostbans),
  with_bans db (keep (λ b. not (b.id == id)) db.tables.hostbans),
)
