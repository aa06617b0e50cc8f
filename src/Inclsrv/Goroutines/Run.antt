-- ===== src/Inclsrv/Goroutines/Run.antt =====
-- The order of the goroutines makes no difference to the list that comes of them.
use listserver.Base.{
  All, All-In, Bool-cases, Distinct, In-All, List, Option, Text, [], ap, arith, false, inl, inr,
  int_eq, nat_eq, refl, some, subst, suc, sym, text_eq, true, ℕ, ◌++◌, ◌+◌, ◌==◌, ◌∙◌, ◌∷◌, ◌≡◌,
  ◌≢◌,
}
use listserver.Db.Model.{QueryOptions, SessionInfo}
use listserver.Inclsrv.{
  Cache, CachedSessionInfos, Ttls, Upstream, cached_fetch_server_session_list,
  fetch_filtered_session_lists, get_cached,
}
use listserver.Inclsrv.Goroutines.{
  Fetching, Goroutine, Step, Steps, after_look, after_send, ask, asking, ended, gather, get_elem?,
  here, looks, onward, put_at, ready, sends, start_fetching,
}
use listserver.Inclsrv.Goroutines.Order.{ask-others, ask-result, index_unique}

module _ (up : Upstream) (ttls : Ttls) (now : ℕ) (opts : QueryOptions) (urls : List Text)
    (distinct : Distinct (λ u. u) urls) (cache0 : Cache) where
  -- What the goroutine of a URL sends.
  result : Text → List SessionInfo
  result url = (ask up ttls now opts urls url (get_cached url cache0) []).0

  -- How far the goroutine of a URL is, and what the cache and its slot then hold.
  IsGoing : Text → Cache → Option (List SessionInfo) → Goroutine → Type 0
  IsGoing url cache slot ready = get_cached url cache ≡ get_cached url cache0
  IsGoing url cache slot (asking found) = found ≡ get_cached url cache0
  IsGoing url cache slot ended = slot ≡ some (result url)

  AllGoing : Fetching → Type 0
  AllGoing s =
      (i : ℕ) (url : Text)
      → get_elem? urls i ≡ some url
      → IsGoing url s.cache (s.results i) (s.goroutines i)

  -- A goroutine is not affected by what another puts into the cache.
  moved :
      (url : Text) (cache cache' : Cache) (slot : Option (List SessionInfo)) (g : Goroutine)
      → get_cached url cache' ≡ get_cached url cache
      → IsGoing url cache slot g
      → IsGoing url cache' slot g
  unfolding IsGoing
  moved url cache cache' slot ready e h = e ∙ h
  moved url cache cache' slot (asking found) e h = h
  moved url cache cache' slot ended e h = h

  other_url :
      (i j : ℕ) (url u : Text)
      → get_elem? urls i ≡ some url
      → get_elem? urls j ≡ some u
      → (j == i) ≡ false
      → u ≢ url
  other_url i j url u e f n q =
      absurd (ground (arith, n, index_unique urls j i url distinct (f ∙ ap some q) e))

  start-AllGoing : AllGoing (start_fetching cache0)
  unfolding AllGoing IsGoing
  start-AllGoing i url e = refl

  same_url :
      (i j : ℕ) (url u : Text)
      → get_elem? urls i ≡ some url
      → get_elem? urls j ≡ some u
      → (j == i) ≡ true
      → url ≡ u
  same_url i j url u e f q = ground (arith, e, f, q)

  looked :
      (url : Text) (s : Fetching) (i : ℕ) (slot : Option (List SessionInfo))
      → s.goroutines i ≡ ready
      → IsGoing url s.cache (s.results i) (s.goroutines i)
      → IsGoing url s.cache slot (asking (get_cached url s.cache))
  unfolding IsGoing
  looked url s i slot r h = subst (IsGoing url s.cache (s.results i)) r h

  sent :
      (url : Text) (s : Fetching) (i : ℕ) (found : Option CachedSessionInfos) (cache : Cache)
      → s.goroutines i ≡ asking found
      → IsGoing url s.cache (s.results i) (s.goroutines i)
      → IsGoing url cache (some (ask up ttls now opts urls url found s.cache).0) ended
  unfolding IsGoing result
  sent url s i found cache r h =
      let same = subst (IsGoing url s.cache (s.results i)) r h in
      ap some (
        ask-result up ttls now opts urls url found s.cache
        ∙ ap (λ v. (ask up ttls now opts urls url v []).0) same)

  put_here : {A : Type 0} (i j : ℕ) (a : A) (f : ℕ → A) → (j == i) ≡ true → put_at i a f j ≡ a
  unfolding put_at
  put_here i j a f e = rw e

  put_there : {A : Type 0} (i j : ℕ) (a : A) (f : ℕ → A) → (j == i) ≡ false → put_at i a f j ≡ f j
  unfolding put_at
  put_there i j a f e = rw e

  Step-AllGoing : (s t : Fetching) → Step up ttls now opts urls s t → AllGoing s → AllGoing t
  unfolding AllGoing after_look after_send
  Step-AllGoing _ _ (looks s i url e r) h j u f = elim (Bool-cases (j == i)) [
    | inl q ↦ rw (put_here i j (asking (get_cached url s.cache)) s.goroutines q) (
        subst (λ v. IsGoing v s.cache (s.results j) (asking (get_cached url s.cache)))
          (same_url i j url u e f q) (looked url s i (s.results j) r (h i url e)))
    | inr q ↦ rw (put_there i j (asking (get_cached url s.cache)) s.goroutines q) (h j u f)
  ]
  Step-AllGoing _ _ (sends s i url found e r) h j u f =
      let x = ask up ttls now opts urls url found s.cache in
      elim (Bool-cases (j == i)) [
        | inl q ↦
            rw (put_here i j ended s.goroutines q, put_here i j (some x.0) s.results q)
              (subst (λ v. IsGoing v x.1 (some x.0) ended) (same_url i j url u e f q)
                (sent url s i found x.1 r (h i url e)))
        | inr q ↦
            rw (put_there i j ended s.goroutines q, put_there i j (some x.0) s.results q)
              (moved u s.cache x.1 (s.results j) (s.goroutines j)
                (ask-others up ttls now opts urls url u found s.cache (other_url i j url u e f q))
                (h j u f))
      ]

  Steps-AllGoing : (s t : Fetching) → Steps up ttls now opts urls s t → AllGoing s → AllGoing t
  Steps-AllGoing _ _ (here s) h = h
  Steps-AllGoing _ _ (onward s t u path last) h = Step-AllGoing t u last (Steps-AllGoing s t path h)

  all_results : List Text → List SessionInfo
  all_results [] = []
  all_results (url ∷ rest) = result url ++ all_results rest

  gather-results :
      (rest : List Text) (k : ℕ) (results : ℕ → Option (List SessionInfo))
      → ((i m : ℕ) (url : Text)
          → m ≡ k + i
          → get_elem? rest i ≡ some url
          → results m ≡ some (result url))
      → gather rest k results ≡ all_results rest
  unfolding gather all_results get_elem?
  gather-results [] k results h = refl
  gather-results (url ∷ rest) k results h = rw (
    h 0 k url (omega arith) refl,
    gather-results rest (suc k) results (λ i m u q e. h (suc i) m u (omega (arith, q)) e),
  )

  fetch_filtered-results :
      (rest : List Text) (cache : Cache)
      → Distinct (λ u. u) rest
      → All (λ u. get_cached u cache ≡ get_cached u cache0) rest
      → (fetch_filtered_session_lists up ttls now opts rest cache).0 ≡ all_results rest
  unfolding fetch_filtered_session_lists all_results cached_fetch_server_session_list result
  fetch_filtered-results [] cache d h = refl
  fetch_filtered-results (url ∷ rest) cache d h =
      let x = ask up ttls now opts urls url (get_cached url cache) cache in
      let first =
        ask-result up ttls now opts urls url (get_cached url cache) cache
        ∙ ap (λ v. (ask up ttls now opts urls url v []).0) h.0 in
      let later = fetch_filtered-results rest x.1 d.1 (
        In-All _ rest (λ u i.
          ask-others up ttls now opts urls url u (get_cached url cache) cache
            (All-In (λ v. v ≢ url) u rest d.0 i)
          ∙ All-In (λ v. get_cached v cache ≡ get_cached v cache0) u rest h.1 i)) in
      ap (λ l. l ++ (fetch_filtered_session_lists up ttls now opts rest x.1).0) first
      ∙ ap (λ l. result url ++ l) later

  -- However the goroutines of different URLs take turns, once all have ended the slots hold what
  -- asking the servers one after the other gives.
  pub fetching-order :
      (s : Fetching)
      → Steps up ttls now opts urls (start_fetching cache0) s
      → ((i : ℕ) (url : Text) → get_elem? urls i ≡ some url → s.goroutines i ≡ ended)
      → gather urls 0 s.results ≡ (fetch_filtered_session_lists up ttls now opts urls cache0).0
  unfolding AllGoing IsGoing
  fetching-order s path all_ended =
      gather-results urls 0 s.results (λ i m url q e.
        let same : i ≡ m = omega (arith, q) in
        subst (λ n. s.results n ≡ some (result url)) same
          (subst (IsGoing url s.cache (s.results i)) (all_ended i url e)
            (Steps-AllGoing (start_fetching cache0) s path start-AllGoing i url e)))
      ∙ sym (fetch_filtered-results urls cache0 distinct (In-All _ urls (λ u i. refl)))
