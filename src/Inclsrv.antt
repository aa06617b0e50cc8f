-- ===== src/Inclsrv.antt =====
-- inclsrv/queries.go: the sessions of other Drawpile servers, their cache, and the merged list.
pub mod Merge
pub mod Goroutines
pub mod Kept
pub mod Fetching
use listserver.Base.{
  Bool, List, Option, Text, [], codes, false, if◌then◌else◌, int_eq, keep, ltb_ℤ, map, nat_eq, none,
  not, pos, some, text_eq, ℕ, ℤ, ◌&&◌, ◌++◌, ◌-◌, ◌==◌, ◌||◌, ◌∷◌,
}
use listserver.Db.Model.{QueryOptions, SessionInfo}
use listserver.Strings.{contains, to_lower}

pub record StatusServerResponse : Type 0 where
  pub hostname : Text
  pub port : ℤ

pub record SessionServerResponse : Type 0 where
  pub alias : Text
  pub closed : Bool
  pub founder : Text
  pub has_password : Bool
  pub id : Text
  pub max_user_count : ℤ
  pub nsfm : Bool
  pub persistent : Bool
  pub protocol : Text
  pub size : ℤ
  pub start_time : Text
  pub title : Text
  pub user_count : ℤ
  pub active_drawing_user_count : ℤ
  pub allow_web : Bool

-- What `fetchJson` gets from a URL: the decoded answer, or an error.
pub record Upstream : Type 0 where
  pub status : Text → Option StatusServerResponse
  pub sessions : Text → Option (List SessionServerResponse)

pub record CachedSessionInfos : Type 0 where
  pub time : ℕ
  pub host : Text
  pub port : ℤ
  pub session_info : List SessionInfo

abbrev pub Cache : Type 0
Cache = List (Text × CachedSessionInfos)

-- `CacheTtl` and `StatusCacheTtl`, in the unit of the clock.
pub record Ttls : Type 0 where
  pub cache_ttl : ℤ
  pub status_cache_ttl : ℤ

unfoldable pub alias_or_id : SessionServerResponse → Text
alias_or_id ssr = if not (ssr.alias == []) then ssr.alias else ssr.id

unfoldable pub to_session_info : Text → ℤ → SessionServerResponse → SessionInfo
unfolding alias_or_id
to_session_info host port v = record {
  host = host;
  port = port;
  id = alias_or_id v;
  protocol = v.protocol;
  title = v.title;
  users = v.user_count;
  max_users = v.max_user_count;
  usernames = [];
  password = v.has_password;
  nsfm = v.nsfm;
  owner = v.founder;
  started = v.start_time;
  private = false;
  closed = v.closed;
  active_drawing_users = v.active_drawing_user_count;
  allow_web = v.allow_web;
}

-- The sessions with the host and port that they were listed under.
pub record Fetched : Type 0 where
  pub sessions : List SessionInfo
  pub host : Text
  pub port : ℤ

unfoldable pub get_cached : Text → Cache → Option CachedSessionInfos
get_cached url [] = none
get_cached url ((u, v) ∷ cache) = if u == url then some v else get_cached url cache

unfoldable pub put_cached : Text → CachedSessionInfos → Cache → Cache
put_cached url v [] = (url, v) ∷ []
put_cached url v ((u, w) ∷ cache) =
    let later = put_cached url v cache in if u == url then (url, v) ∷ cache else (u, w) ∷ later

module _ (up : Upstream) where
  abbrev fetch_status : Text → Option StatusServerResponse
  fetch_status url = up.status (url ++ codes "/status/")

  abbrev fetch_listed : Text → Option StatusServerResponse → Option Fetched
  fetch_listed url none = none
  fetch_listed url (some info) = elim (up.sessions (url ++ codes "/sessions/?listed=true")) [
    | none ↦ none
    | some list ↦ some (record {
      sessions = map (to_session_info info.hostname info.port) list;
      host = info.hostname;
      port = info.port;
    })
  ]

  -- An empty host asks the server for its status first.
  unfoldable pub fetch_server_session_list : Text → Text → ℤ → Option Fetched
  unfolding to_session_info
  fetch_server_session_list url [] port = fetch_listed url (fetch_status url)
  fetch_server_session_list url (c ∷ host) port =
      fetch_listed url (some (record { hostname = c ∷ host; port = port }))

  -- `dt <= ttl` for the time since the entry was made.
  abbrev pub is_within : ℕ → CachedSessionInfos → ℤ → Bool
  is_within now value ttl = not (ltb_ℤ ttl (pos (now - value.time)))

  abbrev store : ℕ → Text → Cache → Option Fetched → Option (List SessionInfo) × Cache
  store now url cache none = (none, cache)
  store now url cache (some f) = (
    some f.sessions,
    put_cached url (record { time = now; host = f.host; port = f.port; session_info = f.sessions })
        cache,
  )

  abbrev cached_fetch :
      Ttls → ℕ → Text → Cache → Option CachedSessionInfos → Option (List SessionInfo) × Cache
  cached_fetch ttls now url cache none =
      store now url cache (fetch_server_session_list url [] (pos 0))
  cached_fetch ttls now url cache (some value) =
      if is_within now value ttls.cache_ttl
      then (some value.session_info, cache)
      else if is_within now value ttls.status_cache_ttl
      then store now url cache (fetch_server_session_list url value.host value.port)
      else store now url cache (fetch_server_session_list url [] (pos 0))

  -- With no time to live the entry keeps the host and port alone, those of the zero value on error.
  abbrev uncached_fetch : ℕ → Text → Cache → Option Fetched → Option (List SessionInfo) × Cache
  uncached_fetch now url cache none = (
    none,
    put_cached url (record { time = now; host = []; port = pos 0; session_info = [] }) cache,
  )
  uncached_fetch now url cache (some f) = (
    some f.sessions,
    put_cached url (record { time = now; host = f.host; port = f.port; session_info = [] }) cache,
  )

  -- The fetch, after the look into the cache that finds the entry, and with the entry that it puts.
  unfoldable pub fetch_with :
      Ttls → ℕ → Text → Option CachedSessionInfos → Cache → Option (List SessionInfo) × Cache
  unfolding fetch_server_session_list put_cached
  fetch_with ttls now url found cache =
      if ltb_ℤ (pos 0) ttls.cache_ttl
      then cached_fetch ttls now url cache found
      else uncached_fetch now url cache (fetch_server_session_list url [] (pos 0))

  unfoldable pub cached_fetch_server_session_list :
      Ttls → ℕ → Text → Cache → Option (List SessionInfo) × Cache
  unfolding fetch_with get_cached
  cached_fetch_server_session_list ttls now url cache =
      fetch_with ttls now url (get_cached url cache) cache

unfoldable pub filter_session_list : QueryOptions → List SessionInfo → List SessionInfo
unfolding contains keep
filter_session_list opts = keep λ s.
    (opts.title == [] || contains s.title opts.title)
    && (opts.nsfm || not s.nsfm)
    && (opts.protocol == [] || contains s.protocol opts.protocol)

-- What `asyncFetchSessionList` sends; nil, as an empty list, on an error.
abbrev pub sent_list : QueryOptions → Option (List SessionInfo) × Cache → List SessionInfo × Cache
sent_list opts (none, cache) = ([], cache)
sent_list opts (some list, cache) = (filter_session_list opts list, cache)

abbrev pub fetch_one : Upstream → Ttls → ℕ → QueryOptions → Text → Cache → List SessionInfo × Cache
unfolding cached_fetch_server_session_list
fetch_one up ttls now opts url cache =
    sent_list opts (cached_fetch_server_session_list up ttls now url cache)

-- `FetchFilteredSessionLists`, with the servers asked one after the other; in Inclsrv/Goroutines each
-- has a goroutine of its own.
unfoldable pub fetch_filtered_session_lists :
    Upstream → Ttls → ℕ → QueryOptions → List Text → Cache → List SessionInfo × Cache
fetch_filtered_session_lists up ttls now opts [] cache = ([], cache)
fetch_filtered_session_lists up ttls now opts (url ∷ urls) cache =
    let (list, cache') = fetch_one up ttls now opts url cache in
    let (more, cache'') = fetch_filtered_session_lists up ttls now opts urls cache' in
    (list ++ more, cache'')

-- `IncludeHosts`: `make([]string, len(cache))`, then the hosts appended.
blanks : Cache → List Text
blanks [] = []
blanks (e ∷ cache) = [] ∷ blanks cache

unfoldable pub include_hosts : Cache → List Text
unfolding blanks to_lower
include_hosts cache = blanks cache ++ map (λ e. to_lower (e.1).host) cache
