-- ===== src/Lib.antt =====
-- The listing server for Drawpile: an HTTP service on which drawing sessions are announced, listed,
-- refreshed and unlisted, with a database, an administration interface, and the lists of other servers
-- that it includes.
--
-- The parts of the program, and where they are modelled:
-- - db/ (db_sqlite.go, models.go, errors.go, utils.go): Db. The tables are lists of rows (Db/Model),
--   and each method of `sqliteDb` is a function of the database (Db/Monad): it takes a connection of
--   the pool, steps its statements one after the other, and either can fail; an oracle says which.
--   Db/Sessions holds QuerySessionList, IsActiveSession, GetHostSessionCount, InsertSession and the
--   cleanup, Db/Refresh RefreshSession, DeleteSession and the administrator's view of sessions,
--   Db/Bans, Db/Roles and Db/Users the rest. Db/Sessions/Order is about ORDER BY,
--   Db/Sessions/Listed about the list of sessions and Db/Sessions/Cleaning about the clean-up;
--   Db/Refresh/Outcome and Db/Refresh/Errors are about refreshes, Db/Refresh/Unlisting about
--   DeleteSession, Db/Refresh/Listing about an announcement and what follows it, and
--   Db/Refresh/Editing about AdminUpdateSessions. Db/Consistent is about histories of operations,
--   with Db/Consistent/Accounts and Db/Consistent/Members for roles and users, and
--   Db/Consistent/History for the sequence of calls. Db/Keeps has the rules for what an operation
--   keeps, and Db/Keeps/Accounts what the operations on sessions and bans keep of roles and
--   users. Db/Setup has the file with its tables and the statements on it: a statement that cannot be
--   prepared panics, and the error of a step is dropped. Db/Setup/Opening has the schema and the
--   migrations, Db/Setup/Handle newSqliteDb and InitDatabase (database.go). By the rules of
--   Db/Setup/Steps, Db/Setup/Recorded and Db/Setup/Created say which versions a file records, and
--   Db/Setup/Reopened, Db/Setup/Migrated, Db/Setup/Legacy and Db/Setup/Lost what becomes of files,
--   with Db/Setup/Migrating and Db/Setup/Copied.
-- - validation/: Validation, with its patterns (Validation/Patterns), its host lists
--   (Validation/Hosts) and whole announcements (Validation/Announcements). The regular expressions are
--   terms of Regex, which a matcher by derivatives runs; Regex/Language says what they match, and
--   Regex/Classes what a class of bytes matches.
-- - config.go: Config and Config/Normal; reading the file or the environment is in Start.
-- - inclsrv/queries.go: Inclsrv, with MergeLists in Inclsrv/Merge and Inclsrv/Merge/Keys. What another
--   server answers is a function of its URL; Inclsrv/Fetching makes it of the answers over HTTP, as
--   fetchJson does, with Inclsrv/Fetching/Answers. Inclsrv/Goroutines has the goroutines of
--   FetchFilteredSessionLists as a step relation: each looks into the cache, and later puts its answer
--   into the cache and into the slot of its index, in any order among them. Inclsrv/Goroutines/Order and
--   Inclsrv/Goroutines/Run are about runs of them; nothing is said there of whether a server ever
--   answers, and the time is the same for all. Inclsrv/Kept is about the time to live of a list.
-- - drawpile/: Drawpile, the check that a Drawpile server answers at an announced address, with
--   Drawpile/Messages for the framing and Drawpile/Accepted for the check as a whole.
-- - responses.go, and `apiContext` of listserver.go: Api/Http. A handler reads and changes a world that
--   consists of the database, if there is one, and the cache of included servers; it ends in a
--   response or in a panic.
-- - endpoints.go: Api/Announce is POST /sessions/, the handler that uses all of the above; its proofs
--   are in Api/Announce/Reading, Api/Announce/Limit, Api/Announce/Admission and Api/Announce/Outcome,
--   by the rules of Api/Checks, and in Api/Announce/Answered.
--   Api/Announce/Racing serves two announcements at a time: each call of the database is a step, and a
--   schedule says whose turn it is. Api/Announce/Racing/Twice is about two requests for one session, and
--   Api/Announce/Racing/Added about all schedules. Api/Announce/Repeated is about two requests for one
--   session, one after the other.
--   Api/Refresh is PUT and DELETE of sessions, alone and in a batch, with Api/Refresh/Replies,
--   Api/Refresh/Unlisting and Api/Refresh/Outcome; Api/Listing is GET of the root and of the sessions.
--   Api/Admin has the endpoints for administrators: Api/Admin/Sessions (with
--   FetchServerAdminSessionList), Api/Admin/Bans, Api/Admin/Roles and Api/Admin/Users.
-- - listserver.go: Start is main up to startServer, and Start/Ready about it; Start/Stopping has its
--   end; Api/Server says which handler serves which request, and Api/Server/History what
--   happens to a server over time, request after request, with the daily clean-up of
--   db/db_sqlite.go. Api/Keeps has rules for what a handler keeps; by them Api/Admin/Kept,
--   Api/Server/Kept and their parts bring down a request to the operations it calls.
--   Api/Server/Consistent, Api/Server/Named, Api/Server/Kicked, Api/Server/Untouched and
--   Api/Server/Forbidden are about the server as a whole. Api/Slashes is normalizeSlashesHandler, with Api/Slashes/Normal.
-- - adminauth.go: Auth, who is let in as an administrator and with which access, and Auth/Allowed.
--
-- Base holds what all share: texts as lists of bytes, Go's signed integers, tests that read a decision,
-- lists and rows. Strings is the part of Go's `strings` that the program uses, Json the decoded objects
-- with the accessors of db/utils.go, Net the types of Go's `net`. Tests has concrete data.
--
-- Parameters: the resolver, the interfaces and the notation of addresses (Net); LIKE, row ids and the
-- texts of times in SQLite (Sqlite, with the documented rule for row ids as IsRowid); what a
-- connection to an announced server delivers, and the decoder of its greeting (Peers); the driver of the
-- database (Db/Setup/Handle.Driver); the decoders of settings (Start.Environment); base64 and
-- bcrypt (Hashes, Hasher); the parser of dates (Calendar) and of URLs (UrlParser); and what included
-- servers answer (Upstream). Outside holds them for a server.
--
-- Conventions: integers are exact, as no value is computed that leaves 64 bits; the clock counts
-- seconds; bytes stand for characters, and letters change case in ASCII only. A connection that is
-- taken is put back by the end of its operation, so only whether one is there is modelled. No loop
-- needs fuel but the digits of a number, which has one step more than the number, enough for a number
-- below ten to the power of it.
--
-- A request is what its handler reads of it: the id of the route as a text, the decoded body, or none
-- if it does not parse, and the credentials. Requests are served one after the other here; in the
-- program the operations of requests that come at the same time alternate: what holds of any sequence
-- of operations is stated in Db/Consistent/History, and two announcements at a time are in
-- Api/Announce/Racing.
--
-- Not modelled: the channel and the lock of the goroutines apart from their steps, time-outs of the
-- HTTP client, the clean-up of WAL files and the closing of the database, how the rows of the file
-- become those of Db/Model, the matching of paths and methods by the router, CORS headers, logs and
-- the HTTP server (listserver.go), the text of JSON, and the random source of update keys.
pub mod Base
pub mod Start
pub mod Strings
pub mod Regex
pub mod Net
pub mod Validation
pub mod Config
pub mod Inclsrv
pub mod Json
pub mod Db
pub mod Drawpile
pub mod Api
pub mod Auth
pub mod Tests
