-- ===== src/Tests/Opening.antt =====
-- Database files, and what becomes of them.
use listserver.Base.{
  List, [], any, codes, decisions, if◌then◌else◌, inl, none, pos, refl, some, ◌++◌, ◌∷◌, ◌≡◌,
}
use listserver.Db.Setup.{
  Column, DbFile, Row, Table, breaks_not_null, c_description, c_roomcode, c_title, int, same_column,
  text,
}
use listserver.Db.Setup.Copied.{Pointwise}
use listserver.Db.Setup.Legacy.{
  AreLegacy, IsFromLegacy, IsSameBan, current_file, legacy_file, set_up-legacy,
}
use listserver.Db.Setup.Lost.{copy_fails, failing_at, no_sessions, set_up-loses}
use listserver.Db.Setup.Migrated.{IsFirst, IsUpgraded, set_up-IsUpgraded}
use listserver.Db.Setup.Migrating.{file_of}
use listserver.Db.Setup.Opening.{
  access_levels, ban_columns, base_columns, later_columns, role_columns, session_columns, set_up,
  user_columns,
}
use listserver.Db.Setup.Reopened.{set_up-settles}
use listserver.Db.Setup.Steps.{at}

abbrev pub empty_file : DbFile
empty_file = record {
  versions = none;
  sessions = none;
  sessions_old = none;
  hostbans = none;
  hostbans_old = none;
  accesslevels = none;
  roles = none;
  users = none;
}

abbrev empty_table : List Column → Table
empty_table columns = record { columns = columns; rows = [] }

-- What the program makes of an empty file.
abbrev new_file : DbFile
new_file = record {
  versions = some (1 ∷ 2 ∷ 3 ∷ 4 ∷ []);
  sessions = some (empty_table session_columns);
  sessions_old = none;
  hostbans = some (empty_table ban_columns);
  hostbans_old = none;
  accesslevels = some (record { columns = c_description ∷ []; rows = access_levels });
  roles = some (empty_table role_columns);
  users = some (empty_table user_columns);
}

set_up-settles_example : set_up (at new_file) ≡ some (tt, at new_file)
unfolding set_up decisions
set_up-settles_example = set_up-settles empty_file (at new_file) refl

-- A session of the first version, with a room code.
abbrev first_row : Row
first_row = record {
  rowid = pos 7;
  cell = λ c. if same_column c c_title then text (codes "Oils") else int (pos 1);
}

abbrev first_table : Table
first_table = record { columns = later_columns ++ c_roomcode ∷ []; rows = first_row ∷ [] }

first_table-IsFirst : IsFirst first_table
unfolding any breaks_not_null decisions
first_table-IsFirst = record {
  there = (
    refl,
    (
      refl,
      (
        refl,
        (
          refl,
          (
            refl,
            (
              refl,
              (
                refl,
                (
                  refl,
                  (
                    refl,
                    (refl, (refl, (refl, (refl, (refl, (refl, (refl, (refl, (refl, tt))))))))),
                  ),
                ),
              ),
            ),
          ),
        ),
      ),
    ),
  );
  no_active = refl;
  no_web = refl;
  filled = (refl, tt);
}

set_up-IsUpgraded_example :
    (rows : List Row) × (set_up (at (file_of (1 ∷ []) first_table new_file))
      ≡ some (
        tt,
        at (
            file_of
              (1 ∷ 2 ∷ 3 ∷ 4 ∷ [])
              (record { columns = session_columns; rows = rows })
              new_file),
      ))
    × Pointwise IsUpgraded (first_row ∷ []) rows
set_up-IsUpgraded_example = set_up-IsUpgraded new_file first_table first_table-IsFirst

abbrev third_table : Table
third_table = record { columns = session_columns; rows = first_row ∷ [] }

set_up-loses_example :
    set_up (failing_at copy_fails (file_of (1 ∷ 2 ∷ 3 ∷ []) third_table new_file))
    ≡ some (tt, at (file_of (1 ∷ 2 ∷ 3 ∷ 4 ∷ []) no_sessions new_file))
unfolding any decisions
set_up-loses_example = set_up-loses new_file third_table copy_fails refl (inl refl)

-- Tables of the oldest format.
abbrev old_sessions : Table
old_sessions = record { columns = base_columns; rows = first_row ∷ [] }

abbrev old_bans : Table
old_bans = record { columns = ban_columns; rows = first_row ∷ [] }

old_tables-AreLegacy : AreLegacy old_sessions old_bans
unfolding any breaks_not_null decisions
old_tables-AreLegacy = record {
  there = (
    refl,
    (
      refl,
      (
        refl,
        (
          refl,
          (
            refl,
            (refl, (refl, (refl, (refl, (refl, (refl, (refl, (refl, (refl, (refl, tt)))))))))),
          ),
        ),
      ),
    ),
  );
  filled = (refl, tt);
  ban_table = refl;
  bans_filled = (refl, tt);
}

set_up-legacy_example :
    (rows : List Row) × (new_bans : List Row) × (set_up (at (legacy_file old_sessions old_bans))
      ≡ some (tt, at (current_file rows new_bans none none)))
    × Pointwise IsFromLegacy (first_row ∷ []) rows
    × Pointwise IsSameBan (first_row ∷ []) new_bans
set_up-legacy_example = set_up-legacy old_sessions old_bans old_tables-AreLegacy
