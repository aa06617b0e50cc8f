-- ===== src/Inclsrv/Goroutines.antt =====
-- The goroutines of `FetchFilteredSessionLists` (inclsrv/queries.go), one for each URL. Each looks into
-- the cache, asks its server, and then puts what it got into the cache and sends it; these two steps
-- come in any order among the goroutines. The receiver puts each result into the slot of its index.
-- A goroutine that waits for its server for good takes no further step. The buffer of the channel has
-- room for all, so sending and receiving are one step here, and the lock of the cache is held for one
-- step at most. The clock stands still.
pub mod Order
pub mod Run
use listserver.Base.{
  List, Option, Text, [], if◌then◌else◌, int_eq, nat_eq, none, some, suc, text_eq, zero, ℕ, ◌++◌,
  ◌==◌, ◌∷◌, ◌≡◌,
}
use listserver.Db.Model.{QueryOptions, SessionInfo}
use listserver.Inclsrv.{
  Cache, CachedSessionInfos, Ttls, Upstream, fetch_with, get_cached, sent_list,
}

-- The element at an index.
unfoldable pub get_elem? : {A : Type 0} → List A → ℕ → Option A
get_elem? [] i = none
get_elem? (x ∷ xs) zero = some x
get_elem? (x ∷ xs) (suc i) = get_elem? xs i

-- A goroutine: not begun, with what it found in the cache, or ended.
pub data Goroutine : Type 0 where
  ready : Goroutine
  asking : Option CachedSessionInfos → Goroutine
  ended : Goroutine

pub record Fetching : Type 0 where
  pub cache : Cache
  pub goroutines : ℕ → Goroutine
  pub results : ℕ → Option (List SessionInfo)

unfoldable pub put_at : {A : Type 0} → ℕ → A → (ℕ → A) → ℕ → A
put_at i a f j = if j == i then a else f j

abbrev pub start_fetching : Cache → Fetching
start_fetching cache = record { cache = cache; goroutines = λ i. ready; results = λ i. none }

-- The slots of the results put together in their order, for the URLs from an index on.
abbrev pub or_nil : Option (List SessionInfo) → List SessionInfo
or_nil none = []
or_nil (some list) = list

unfoldable pub gather : List Text → ℕ → (ℕ → Option (List SessionInfo)) → List SessionInfo
gather [] i results = []
gather (url ∷ urls) i results = or_nil (results i) ++ gather urls (suc i) results

module _ (up : Upstream) (ttls : Ttls) (now : ℕ) (opts : QueryOptions) (urls : List Text) where
  abbrev pub ask : Text → Option CachedSessionInfos → Cache → List SessionInfo × Cache
  ask url found cache = sent_list opts (fetch_with up ttls now url found cache)

  unfoldable pub after_look : ℕ → Text → Fetching → Fetching
  unfolding get_cached put_at
  after_look i url s = record s {
    goroutines = put_at i (asking (get_cached url s.cache)) s.goroutines;
  }

  unfoldable pub after_send : ℕ → Text → Option CachedSessionInfos → Fetching → Fetching
  unfolding fetch_with put_at
  after_send i url found s =
      let (list, cache') = ask url found s.cache in
      record {
        cache = cache';
        goroutines = put_at i ended s.goroutines;
        results = put_at i (some list) s.results;
      }

  pub data Step : Fetching → Fetching → Type 0 where
    looks :
        (s : Fetching) (i : ℕ) (url : Text)
        → get_elem? urls i ≡ some url
        → s.goroutines i ≡ ready
        → Step s (after_look i url s)
    sends :
        (s : Fetching) (i : ℕ) (url : Text) (found : Option CachedSessionInfos)
        → get_elem? urls i ≡ some url
        → s.goroutines i ≡ asking found
        → Step s (after_send i url found s)

  pub data Steps : Fetching → Fetching → Type 0 where
    here : (s : Fetching) → Steps s s
    onward : (s t u : Fetching) → Steps s t → Step t u → Steps s u
