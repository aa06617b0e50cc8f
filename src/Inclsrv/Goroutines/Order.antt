-- ===== src/Inclsrv/Goroutines/Order.antt =====
-- What one goroutine leaves alone: the entries of the cache for other URLs.
use listserver.Base.{
  All-In, Bool, Distinct, In, List, Option, Text, [], ap, arith, false, if◌then◌else◌, inr, ltb_ℤ,
  none, pos, refl, some, suc, true, zero, ℕ, ◌∷◌, ◌≡◌, ◌≢◌,
}
use listserver.Db.Model.{QueryOptions, SessionInfo}
use listserver.Inclsrv.{
  Cache, CachedSessionInfos, Fetched, Ttls, Upstream, fetch_server_session_list, fetch_with,
  get_cached, is_within, put_cached, sent_list, store, uncached_fetch,
}
use listserver.Inclsrv.Goroutines.{ask, get_elem?}

pub put_cached-other :
    (url u : Text) (v : CachedSessionInfos) (cache : Cache)
    → u ≢ url
    → get_cached u (put_cached url v cache) ≡ get_cached u cache
unfolding get_cached put_cached
put_cached-other url u v [] n = ground arith
put_cached-other url u v ((t, w) ∷ cache) n = ground (arith, put_cached-other url u v cache n)

pub In-get_elem : {A : Type 0} (xs : List A) (i : ℕ) (x : A) → get_elem? xs i ≡ some x → In x xs
unfolding get_elem?
In-get_elem [] i x e = cc
In-get_elem (y ∷ ys) zero x e = ground arith
In-get_elem (y ∷ ys) (suc i) x e = inr (In-get_elem ys i x e)

-- A URL has one index.
pub index_unique :
    (urls : List Text) (i j : ℕ) (url : Text)
    → Distinct (λ u. u) urls
    → get_elem? urls i ≡ some url
    → get_elem? urls j ≡ some url
    → i ≡ j
unfolding get_elem?
index_unique [] i j url d e f = cc
index_unique (u ∷ urls) zero zero url d e f = refl
index_unique (u ∷ urls) zero (suc j) url d e f =
    absurd (All-In (λ v. v ≢ u) url urls d.0 (In-get_elem urls j url f) (ground arith))
index_unique (u ∷ urls) (suc i) zero url d e f =
    absurd (All-In (λ v. v ≢ u) url urls d.0 (In-get_elem urls i url e) (ground arith))
index_unique (u ∷ urls) (suc i) (suc j) url d e f = ap suc (index_unique urls i j url d.1 e f)

-- Two results of a fetch are the same, and the first leaves the other URLs of the cache alone.
abbrev pub Alike : {A : Type 0} → Text → Cache → A × Cache → A × Cache → Type 0
Alike url cache x y = (x.0 ≡ y.0) × ((u : Text) → u ≢ url → get_cached u x.1 ≡ get_cached u cache)

module _ (url : Text) (cache : Cache) where
  if-Alike :
      {A : Type 0} (b : Bool) (x y x' y' : A × Cache)
      → Alike url cache x y
      → Alike url cache x' y'
      → Alike url cache (if b then x else x') (if b then y else y')
  if-Alike true x y x' y' p q = p
  if-Alike false x y x' y' p q = q

  module _ (up : Upstream) (ttls : Ttls) (now : ℕ) where
    store-Alike :
        (o : Option Fetched) → Alike url cache (store up now url cache o) (store up now url [] o)
    store-Alike none = (refl, λ u n. refl)
    store-Alike (some f) = (refl, λ u n. put_cached-other url u _ cache n)

    uncached_fetch-Alike :
        (o : Option Fetched)
        → Alike url cache (uncached_fetch up now url cache o) (uncached_fetch up now url [] o)
    uncached_fetch-Alike none = (refl, λ u n. put_cached-other url u _ cache n)
    uncached_fetch-Alike (some f) = (refl, λ u n. put_cached-other url u _ cache n)

    pub fetch_with-Alike :
        (found : Option CachedSessionInfos)
        → Alike url cache
            (fetch_with up ttls now url found cache)
            (fetch_with up ttls now url found [])
    unfolding fetch_with
    fetch_with-Alike none =
        if-Alike (ltb_ℤ (pos 0) ttls.cache_ttl) _ _ _ _
          (store-Alike (fetch_server_session_list up url [] (pos 0)))
          (uncached_fetch-Alike (fetch_server_session_list up url [] (pos 0)))
    fetch_with-Alike (some value) =
        if-Alike (ltb_ℤ (pos 0) ttls.cache_ttl) _ _ _ _
          (if-Alike (is_within up now value ttls.cache_ttl) _ _ _ _ (refl, λ u n. refl)
            (if-Alike (is_within up now value ttls.status_cache_ttl) _ _ _ _
              (store-Alike (fetch_server_session_list up url value.host value.port))
              (store-Alike (fetch_server_session_list up url [] (pos 0)))))
          (uncached_fetch-Alike (fetch_server_session_list up url [] (pos 0)))

    sent_list-Alike :
        (opts : QueryOptions) (x y : Option (List SessionInfo) × Cache)
        → Alike url cache x y
        → Alike url cache (sent_list opts x) (sent_list opts y)
    sent_list-Alike opts (none, c) (none, c') a = (refl, a.1)
    sent_list-Alike opts (some l, c) (some l', c') a = (ground (arith, a.0), a.1)
    sent_list-Alike opts (none, c) (some l, c') a = cc
    sent_list-Alike opts (some l, c) (none, c') a = cc

module _ (up : Upstream) (ttls : Ttls) (now : ℕ) (opts : QueryOptions) (urls : List Text) where
  pub ask-result :
      (url : Text) (found : Option CachedSessionInfos) (cache : Cache)
      → (ask up ttls now opts urls url found cache).0 ≡ (ask up ttls now opts urls url found []).0
  ask-result url found cache =
      (sent_list-Alike url cache up ttls now opts (fetch_with up ttls now url found cache)
        (fetch_with up ttls now url found []) (fetch_with-Alike url cache up ttls now found)).0

  pub ask-others :
      (url u : Text) (found : Option CachedSessionInfos) (cache : Cache)
      → u ≢ url
      → get_cached u (ask up ttls now opts urls url found cache).1 ≡ get_cached u cache
  ask-others url u found cache =
      (sent_list-Alike url cache up ttls now opts (fetch_with up ttls now url found cache)
          (fetch_with up ttls now url found []) (fetch_with-Alike url cache up ttls now found)).1
        u
