-- ===== src/Inclsrv/Kept.antt =====
-- For how long the list of an included server is kept.
use listserver.Base.{
  All, List, Option, Text, [], ap, arith, if_both, if◌then◌else◌, ltb_ℤ, none, pos, refl, some,
  subst, sym, text_dec, true, ℕ, ℤ, ◌+◌, ◌<◌, ◌∙◌, ◌∷◌, ◌≡◌, ◌≢◌, ◌≤◌,
}
use listserver.Db.Model.{SessionInfo}
use listserver.Drawpile.{before}
use listserver.Inclsrv.{
  Cache, CachedSessionInfos, Fetched, Ttls, Upstream, cached_fetch,
  cached_fetch_server_session_list, fetch_server_session_list, fetch_with, get_cached, is_within,
  put_cached, store, uncached_fetch,
}
use listserver.Inclsrv.Goroutines.Order.{fetch_with-Alike}
use listserver.Start.{given}

-- A fetch, of any server, with what the servers answer at that time.
pub record Visit : Type 0 where
  pub up : Upstream
  pub at : ℕ
  pub url : Text

-- The cache after fetches that follow one another.
abbrev pub visited : Ttls → List Visit → Cache → Cache
visited ttls [] cache = cache
visited ttls (v ∷ vs) cache =
    visited ttls vs (cached_fetch_server_session_list v.up ttls v.at v.url cache).1

get_cached-put_self :
    (url : Text) (v : CachedSessionInfos) (cache : Cache)
    → get_cached url (put_cached url v cache) ≡ some v
unfolding get_cached put_cached
get_cached-put_self url v [] = ground arith
get_cached-put_self url v ((u, w) ∷ cache) = ground (arith, get_cached-put_self url v cache)

abbrev pub ttls_of : ℕ → ℤ → Ttls
ttls_of ttl status_ttl = record { cache_ttl = pos ttl; status_cache_ttl = status_ttl }

-- What a fetch gives is what the entry of the cache then holds.
abbrev Gives : Text → CachedSessionInfos → Option (List SessionInfo) × Cache → Type 0
Gives url value x =
    (list : List SessionInfo)
    → x.0 ≡ some list
    → get_cached url x.1 ≡ some value
    → value.session_info ≡ list

module _ (ttl : ℕ) (status_ttl : ℤ) (url : Text) (value : CachedSessionInfos) where
  abbrev ttls : Ttls
  ttls = ttls_of ttl status_ttl

  store-Gives :
      (up : Upstream) (now : ℕ) (cache : Cache) (o : Option Fetched)
      → Gives url value (store up now url cache o)
  store-Gives up now cache none list e f = cc
  store-Gives up now cache (some g) list e f = ground (
    arith,
    get_cached-put_self url
        (record { time = now; host = g.host; port = g.port; session_info = g.sessions }) cache,
  )

  kept-Gives :
      (v : CachedSessionInfos) (cache : Cache)
      → get_cached url cache ≡ some v
      → Gives url value (some v.session_info, cache)
  kept-Gives v cache there list e f = ground arith

  has_ttl : 0 < ttl → ltb_ℤ (pos 0) (pos ttl) ≡ true
  has_ttl long = ground arith

  fetch-Gives :
      0 < ttl
      → (up : Upstream) (now : ℕ) (cache : Cache) (found : Option CachedSessionInfos)
      → get_cached url cache ≡ found
      → Gives url value (fetch_with up ttls now url found cache)
  unfolding fetch_with
  fetch-Gives long up now cache found there =
      subst
        (λ b. Gives url value (
          if b
          then cached_fetch up ttls now url cache found
          else uncached_fetch up now url cache (fetch_server_session_list up url [] (pos 0))))
        (sym (has_ttl long)) (go found there)
    where
      go :
          (found : Option CachedSessionInfos)
          → get_cached url cache ≡ found
          → Gives url value (cached_fetch up ttls now url cache found)
      go none there = store-Gives up now cache (fetch_server_session_list up url [] (pos 0))
      go (some v) there =
          if_both (Gives url value) (is_within up now v (pos ttl)) (kept-Gives v cache there) (
            if_both (Gives url value) (is_within up now v status_ttl)
              (store-Gives up now cache (fetch_server_session_list up url v.host v.port))
              (store-Gives up now cache (fetch_server_session_list up url [] (pos 0))))

  is_within-ttl :
      (up : Upstream) (now : ℕ) → now ≤ value.time + ttl → is_within up now value (pos ttl) ≡ true
  is_within-ttl up now soon = ground arith

  hit :
      0 < ttl
      → (up : Upstream) (now : ℕ) (cache : Cache) → now ≤ value.time + ttl
      → get_cached url cache ≡ some value
      → cached_fetch_server_session_list up ttls now url cache ≡ (some value.session_info, cache)
  unfolding cached_fetch_server_session_list fetch_with
  hit long up now cache soon e = rw (e, has_ttl long, is_within-ttl up now soon, cached_fetch) refl

  cached_fetch-others :
      (up : Upstream) (now : ℕ) (u : Text) (cache : Cache)
      → url ≢ u
      → get_cached url (cached_fetch_server_session_list up ttls now u cache).1
        ≡ get_cached url cache
  unfolding cached_fetch_server_session_list
  cached_fetch-others up now u cache n =
      (fetch_with-Alike u cache up ttls now (get_cached u cache)).1 url n

  visited-keeps :
      0 < ttl
      → (vs : List Visit) (cache : Cache) → All (λ v. v.at ≤ value.time + ttl) vs
      → get_cached url cache ≡ some value
      → get_cached url (visited ttls vs cache) ≡ some value
  visited-keeps long [] cache soon e = e
  visited-keeps long (v ∷ vs) cache soon e =
      visited-keeps long vs _ soon.1 (one (text_dec url v.url))
    where
      one :
          Dec (url ≡ v.url)
          → get_cached url (cached_fetch_server_session_list v.up ttls v.at v.url cache).1
            ≡ some value
      one (yes p) =
          subst
            (λ u.
              get_cached url (cached_fetch_server_session_list v.up ttls v.at u cache).1
              ≡ some value)
            p (ap (λ x. get_cached url x.1) (hit long v.up v.at cache soon.0 e) ∙ e)
      one (no n) = cached_fetch-others v.up v.at v.url cache n ∙ e

-- Once a fetch has given a list, every fetch of the same server gives that list, and does not ask it
-- again, until the time to live is over, counted from when the entry was made; whatever other servers
-- are fetched in between, and whatever the servers would answer by then.
pub cached_fetch-once :
    (ttl : ℕ) (status_ttl : ℤ) (url : Text) (value : CachedSessionInfos) (up : Upstream) (now : ℕ)
    (before : Cache) (list : List SessionInfo) (later : Visit) (between : List Visit)
    → let t = ttls_of ttl status_ttl in
      let first = cached_fetch_server_session_list up t now url before in
      0 < ttl
      → first.0 ≡ some list
      → get_cached url first.1 ≡ some value
      → All (λ v. v.at ≤ value.time + ttl) (later ∷ between)
      → cached_fetch_server_session_list later.up t later.at url (visited t between first.1)
        ≡ (some list, visited t between first.1)
unfolding cached_fetch_server_session_list
cached_fetch-once ttl status_ttl url value up now before list later between long given kept soon =
    hit ttl status_ttl url value long later.up later.at _ soon.0
      (visited-keeps ttl status_ttl url value long between _ soon.1 kept)
    ∙ ap (λ l. (some l, visited (ttls_of ttl status_ttl) between first.1))
        (fetch-Gives ttl status_ttl url value long up now before (get_cached url before) refl list
          given kept)
  where
    first : Option (List SessionInfo) × Cache
    first = cached_fetch_server_session_list up (ttls_of ttl status_ttl) now url before
