-- ===== src/Tests/Data.antt =====
-- A small server: its database, its network, and an announcement.
use listserver.Base.{
  All, Bool, List, Text, [], arith, codes, false, if◌then◌else◌, int_eq, nat_eq, negsuc, none, pos,
  some, suc, text_eq, true, ℕ, ℤ, ◌+◌, ◌-◌, ◌==◌, ◌∷◌, ◌≢◌, ◌≤◌,
}
use listserver.Db.Model.{IsRowid, SessionInfo, SessionRow, Sqlite}
use listserver.Db.Monad.{SqliteDb}
use listserver.Drawpile.{Dialed, Peers, connected, unreachable}
use listserver.Net.{Ip, Net}
use listserver.Strings.{contains, itoa}

abbrev top_id : List ℤ → ℕ
top_id [] = 0
top_id (pos n ∷ ids) = n + (top_id ids - n)
top_id (negsuc n ∷ ids) = top_id ids

unfoldable pub same_letters : Text → Text → Bool
unfolding contains
same_letters pattern text = contains text pattern

-- The row id is one above the greatest, as in SQLite.
abbrev pub demo_sqlite : Sqlite
demo_sqlite = record {
  like = same_letters;
  new_rowid = λ ids. pos (suc (top_id ids));
  datetime = some;
  now_text = λ n. itoa (pos n);
  iso_text = λ n. itoa (pos n);
}

above : (ids : List ℤ) (k : ℕ) → top_id ids ≤ k → All (λ i. i ≢ pos (suc k)) ids
above [] k h = tt
above (pos n ∷ ids) k h = ((λ e. ground arith), above ids k (omega arith))
above (negsuc n ∷ ids) k h = ((λ e. ground arith), above ids k h)

pub demo_sqlite-IsRowid : IsRowid demo_sqlite
demo_sqlite-IsRowid = record {
  fresh = λ ids. above ids (top_id ids) (omega arith);
  positive = λ ids h. tt;
}

-- A network with one name, and no interface but the resolver's.
abbrev pub client_address : Ip
client_address = 192 ∷ 0 ∷ 2 ∷ 7 ∷ []

instance abbrev pub demo_net : Net
demo_net = record {
  parse_ip = λ s. if s == codes "192.0.2.7" then client_address else [];
  ip_string = λ ip. codes "192.0.2.7";
  lookup_ip = λ s. if s == codes "draw.example.com" then some (client_address ∷ []) else none;
  interfaces = some [];
}

instance abbrev pub sqlite_here : Sqlite
sqlite_here = demo_sqlite

-- One server that greets, in a message of two bytes.
abbrev pub greets : Dialed
greets = connected (0 ∷ 2 ∷ 0 ∷ 0 ∷ codes "{}")

instance abbrev pub demo_peers : Peers
demo_peers = record {
  dial = λ address. if address == codes "192.0.2.7:27750" then greets else unreachable;
  unmarshal = λ s.
      if s == codes "{}" then some (record { version = pos 4; kind = codes "login" }) else none;
}

abbrev pub sketching : SessionInfo
sketching = record {
  host = codes "draw.example.com";
  port = pos 27750;
  id = codes "80-abc";
  protocol = codes "dp:4.24.0";
  title = codes "Sketching";
  users = pos 2;
  max_users = pos 20;
  usernames = [];
  password = false;
  nsfm = false;
  owner = codes "bo";
  started = [];
  private = false;
  closed = false;
  active_drawing_users = negsuc 0;
  allow_web = false;
}

abbrev pub sketching_row : SessionRow
sketching_row = record {
  id = pos 1;
  host = codes "draw.example.com";
  port = pos 27750;
  session_id = codes "abc";
  protocol = codes "dp:4.24.0";
  title = codes "Sketching";
  users = pos 2;
  password = false;
  nsfm = false;
  owner = codes "bo";
  started = codes "now";
  last_active = 100;
  unlisted = false;
  update_key = codes "KEY";
  client_ip = codes "192.0.2.7";
  unlist_reason = none;
  max_users = pos 20;
  closed = false;
  active_drawing_users = negsuc 0;
  allow_web = false;
}

-- One session, and a pool whose second connection is not there.
abbrev pub demo_db : SqliteDb
demo_db = record {
  timeout_minutes = 10;
  now = 160;
  tables = record { sessions = sketching_row ∷ []; hostbans = []; roles = []; users = [] };
  oracle = record { conns = true ∷ false ∷ []; steps = [] };
}
