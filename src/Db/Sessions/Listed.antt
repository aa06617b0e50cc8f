-- ===== src/Db/Sessions/Listed.antt =====
-- What `QuerySessionList` lists.
use listserver.Base.{
  In, In-keep_iff, List, Result, Text, [], any, ap, arith, codes, err, false, inl, inr, int_eq,
  keep, map, nat_eq, ok, refl, text_eq, true, ◌*◌, ◌++◌, ◌+◌, ◌==◌, ◌↔◌, ◌∙◌, ◌∷◌, ◌≡◌, ◌≤◌, ◌⊎◌,
}
use listserver.Db.Model.{QueryOptions, SessionInfo, SessionRow, Sqlite}
use listserver.Db.Monad.{Error, Oracle, SqliteDb, exec_cases}
use listserver.Db.Sessions.{info_le, is_fresh, is_listed, order_by, query_session_list, to_info}
use listserver.Db.Sessions.Order.{
  In-order_by, IsOrder, IsSorted, order_by-IsSorted, text_lt_total, text_lt_trans,
}
use listserver.Strings.{split}

-- A row that the list shows.
pub record IsShown (sq : Sqlite) (opts : QueryOptions) (db : SqliteDb) (r : SessionRow)
    : Type 0 where
  pub not_timed_out : db.now ≤ r.last_active + 60 * db.timeout_minutes
  pub not_unlisted : r.unlisted ≡ false
  pub title_fits : (opts.title ≡ []) ⊎ (sq.like ((b'%' ∷ opts.title) ++ codes "%") r.title ≡ true)
  pub nsfm_fits : (opts.nsfm ≡ true) ⊎ (r.nsfm ≡ false)
  pub protocol_fits : (opts.protocol ≡ []) ⊎ In r.protocol (split b',' opts.protocol)

any-text_iff : (t : Text) (ts : List Text) → (any (λ p. p == t) ts ≡ true) ↔ In t ts
unfolding any
any-text_iff t [] = ground arith
any-text_iff t (p ∷ ts) = ground (arith, any-text_iff t ts)

module _ (sq : Sqlite) (opts : QueryOptions) (db : SqliteDb) where
  is_listed_iff : (r : SessionRow) → (is_listed ⦃sq = sq⦄ opts db r ≡ true) ↔ IsShown sq opts db r
  unfolding is_listed is_fresh
  is_listed_iff r = (
    λ e. record {
      not_timed_out = ground (arith, e);
      not_unlisted = ground (arith, e);
      title_fits = ground (arith, e);
      nsfm_fits = ground (arith, e);
      protocol_fits = ground (arith, e, any-text_iff r.protocol (split b',' opts.protocol));
    },
    λ k. ground (
      arith,
      k.not_timed_out,
      k.not_unlisted,
      k.title_fits,
      k.nsfm_fits,
      k.protocol_fits,
      any-text_iff r.protocol (split b',' opts.protocol),
    ),
  )

  -- What is on the list, and in which order, if it is there at all.
  abbrev pub ListsShown : Result Error (List SessionInfo) × SqliteDb → Type 0
  ListsShown (ok list, db') =
      (db'.tables ≡ db.tables)
      × IsSorted info_le list
      × ((s : SessionInfo)
          → In s list
            ↔ ((r : SessionRow) × In r db.tables.sessions × IsShown sq opts db r × (s ≡ to_info r)))
  ListsShown (err e, db') = db'.tables ≡ db.tables

info_le-IsOrder : IsOrder info_le
info_le-IsOrder = record {
  total = λ a b e. ground (arith, e, text_lt_total a.title b.title);
  trans = λ a b c e f. ground (arith, e, f, text_lt_trans a.title b.title c.title);
}

module _ {A B : Type 0} (f : A → B) (b : B) where
  In-map : (a : A) (xs : List A) → In a xs → b ≡ f a → In b (map f xs)
  In-map a [] i e = absurd i
  In-map a (x ∷ xs) (inl q) e = inl (e ∙ ap f q)
  In-map a (x ∷ xs) (inr i) e = inr (In-map a xs i e)

  In-of_map : (xs : List A) → In b (map f xs) → (a : A) × In a xs × (b ≡ f a)
  In-of_map [] i = absurd i
  In-of_map (x ∷ xs) (inl e) = (x, inl refl, e)
  In-of_map (x ∷ xs) (inr i) = let (a, j, e) = In-of_map xs i in (a, inr j, e)

-- The list of sessions, if the statement does not fail, has the rows that are not timed out nor
-- unlisted and fit the query, and no others, by their titles and then their numbers of users; and no
-- table has changed.
pub query_session_list-ListsShown :
    (sq : Sqlite) (opts : QueryOptions) (db : SqliteDb)
    → ListsShown sq opts db (query_session_list ⦃sq = sq⦄ opts db)
unfolding query_session_list is_listed is_fresh
query_session_list-ListsShown sq opts db =
    exec_cases (ListsShown sq opts db) _ db (λ m o. refl)
      (λ o. (
        refl,
        order_by-IsSorted info_le info_le-IsOrder (map to_info (shown o)),
        λ s. (there s o, back s o),
      ))
  where
    shown : Oracle → List SessionRow
    shown o = keep (is_listed ⦃sq = sq⦄ opts (record db { oracle = o })) db.tables.sessions

    there :
        (s : SessionInfo) (o : Oracle)
        → In s (order_by info_le (map to_info (shown o)))
        → (r : SessionRow) × In r db.tables.sessions × IsShown sq opts db r × (s ≡ to_info r)
    there s o i =
        let (r, j, e) =
          In-of_map to_info s (shown o) ((In-order_by info_le s (map to_info (shown o))).0 i) in
        let (k, p) = (In-keep_iff _ r db.tables.sessions).0 j in
        (r, k, (is_listed_iff sq opts db r).0 p, e)

    back :
        (s : SessionInfo) (o : Oracle)
        → (r : SessionRow) × In r db.tables.sessions × IsShown sq opts db r × (s ≡ to_info r)
        → In s (order_by info_le (map to_info (shown o)))
    back s o (r, i, k, e) = (In-order_by info_le s (map to_info (shown o))).1 (
        In-map to_info s r (shown o)
          ((In-keep_iff _ r db.tables.sessions).1 (i, (is_listed_iff sq opts db r).1 k)) e)
