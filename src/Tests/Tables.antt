-- ===== src/Tests/Tables.antt =====
-- Refreshes of a listed session, and a history of the tables.
use listserver.Base.{
  Distinct, List, [], arith, codes, false, inl, ok, pos, refl, true, update, ℤ, ◌&&◌, ◌++◌, ◌∷◌,
  ◌≡◌,
}
use listserver.Db.Consistent.{IsConsistent}
use listserver.Db.Consistent.History.{
  Event, cleans, deletes, empty_db, empty_db-IsConsistent, history, history-IsConsistent, inserts,
  refreshes,
}
use listserver.Db.Model.{QueryOptions}
use listserver.Db.Monad.{SqliteDb}
use listserver.Db.Refresh.{admin_update_sessions, delete_session, refresh_session, zeros}
use listserver.Db.Refresh.Editing.{admin_update_sessions-Reports, edited, has_row, mem}
use listserver.Db.Refresh.Errors.{answer, quiet, refresh_session-answer}
use listserver.Db.Refresh.Listing.{insert_session-roundtrip, later_on}
use listserver.Db.Sessions.{cleanup, insert_session, is_active_session, query_session_list}
use listserver.Db.Sessions.Cleaning.{Cleaned, cleanup-Cleaned}
use listserver.Db.Sessions.Listed.{ListsShown, query_session_list-ListsShown}
use listserver.Json.{Fields, end, entry, str}
use listserver.Tests.Data.{demo_db, demo_sqlite, demo_sqlite-IsRowid, sketching, sketching_row}

abbrev news : Fields
news = entry (codes "title") (str (codes "Painting")) end

abbrev changes : List Event
changes =
    record {
      at = 10;
      oracle = record { conns = []; steps = [] };
      call = inserts (ok (codes "KEY")) sketching (codes "192.0.2.7");
    }
    ∷ record {
      at = 20;
      oracle = record { conns = false ∷ []; steps = [] };
      call = refreshes news (pos 1) (codes "KEY");
    }
    ∷ record {
      at = 30;
      oracle = record { conns = []; steps = [] };
      call = deletes (pos 1) (codes "KEY");
    }
    ∷ record { at = 4000; oracle = record { conns = []; steps = [] }; call = cleans }
    ∷ []

refresh_session-answer_example :
    (refresh_session news (pos 1) (codes "WRONG") (quiet demo_db)).0
    ≡ answer (codes "WRONG") demo_db sketching_row
refresh_session-answer_example =
    refresh_session-answer news (codes "WRONG") demo_db sketching_row (tt, tt) (inl refl)

history-IsConsistent_example :
    IsConsistent (history ⦃sq = demo_sqlite⦄ (empty_db 10) changes).tables
history-IsConsistent_example =
    history-IsConsistent demo_sqlite demo_sqlite-IsRowid (empty_db 10) changes
      (empty_db-IsConsistent 10)

demo_db-IsConsistent : IsConsistent demo_db.tables
demo_db-IsConsistent = record {
  session_ids = (tt, tt);
  ban_ids = tt;
  accounts = record {
    role_ids = tt;
    role_names = tt;
    role_positive = tt;
    role_levels = tt;
    user_ids = tt;
    user_names = tt;
    user_positive = tt;
    user_roles = tt;
  };
}

abbrev db_later : SqliteDb
db_later =
    later_on demo_sqlite demo_sqlite-IsRowid demo_db demo_db-IsConsistent (codes "NEW") sketching
      (codes "192.0.2.7") 500

insert_session-roundtrip_example :
    ((insert_session ⦃sq = demo_sqlite⦄
        (ok (codes "NEW"))
        sketching
        (codes "192.0.2.7")
        (quiet demo_db)).0
      ≡ ok (record { listing_id = pos 2; update_key = codes "NEW" }))
    × ((refresh_session news (pos 2) (codes "NEW") (quiet db_later)).0 ≡ ok tt)
    × ((is_active_session
          (codes "draw.example.com")
          (codes "80-abc")
          (pos 27750)
          (quiet db_later)).0
        ≡ ok true)
    × ((delete_session (pos 2) (codes "NEW") (quiet db_later)).0 ≡ ok true)
insert_session-roundtrip_example =
    insert_session-roundtrip demo_sqlite demo_sqlite-IsRowid demo_db demo_db-IsConsistent
      (codes "NEW") sketching (codes "192.0.2.7") news 500 (omega arith)

abbrev any_title : QueryOptions
any_title = record { title = []; nsfm = false; protocol = codes "dp:4.24.0" }

query_session_list-ListsShown_example :
    ListsShown demo_sqlite any_title demo_db
      (query_session_list ⦃sq = demo_sqlite⦄ any_title demo_db)
query_session_list-ListsShown_example = query_session_list-ListsShown demo_sqlite any_title demo_db

admin_update_sessions-Reports_example :
    (more : List ℤ) × ((admin_update_sessions
        (pos 1 ∷ pos 9 ∷ pos 1 ∷ [])
        true
        (codes "spam")
        (quiet demo_db)).0
      ≡ ok (zeros (pos 1 ∷ pos 9 ∷ pos 1 ∷ []) ++ more))
    × Distinct (λ i. i) more
    × ((i : ℤ)
        → mem i more ≡ (mem i (pos 1 ∷ pos 9 ∷ pos 1 ∷ []) && has_row i demo_db.tables.sessions))
    × ((admin_update_sessions
          (pos 1 ∷ pos 9 ∷ pos 1 ∷ [])
          true
          (codes "spam")
          (quiet demo_db)).1.tables.sessions
        ≡ update
            (λ r. mem r.id (pos 1 ∷ pos 9 ∷ pos 1 ∷ []))
            (edited true (codes "spam"))
            demo_db.tables.sessions)
admin_update_sessions-Reports_example =
    admin_update_sessions-Reports true (codes "spam") (pos 1 ∷ pos 9 ∷ pos 1 ∷ []) demo_db

cleanup-Cleaned_example : Cleaned demo_db (cleanup demo_db)
cleanup-Cleaned_example = cleanup-Cleaned demo_db
