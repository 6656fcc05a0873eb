-- ===== src/Query/Results.antt =====
-- IndexManager::search of query.rs: how many matches an answer has, and what stays in the cache.
use Prim.Native.String.{String}
use opcda_bridge.Base.{
  ℕ, zero, suc, ◌≤◌, ◌≡◌, Bool, Option, none, some, List, [], ◌∷◌, take, length, arith, get, ◌==◌,
  String-discrete, ◌⊎◌, Option-cases, inl, inr, if-both, ite-both,
}
use opcda_bridge.Query.{CacheKey, CacheKey-discrete, cache_get, cache_insert}
use opcda_bridge.Query.Cache.{
  Inv, cache_get-Inv, cache_insert-Inv, insert-values, cache_get-values, cache_get-result,
}
use opcda_bridge.Query.Search.{
  IndexStatus, IndexedSearch, Result, ok, err, Index, is_deleting_state, clamped_limit, Cache,
  Answer, no_matches, with_result, generation_of, page_of, store_answer, search_database, cached_or,
  search_cached, search_generation_of, search,
}

length-take-le {ℓ} : {A : Type ℓ} (n : ℕ) (xs : List A) → length (take n xs) ≤ n
length-take-le zero xs = omega arith
length-take-le (suc n) [] = omega arith
length-take-le (suc n) (x ∷ xs) = omega (arith, length-take-le n xs)

module _ (Match : Type 0) where
  -- A cache that is well formed, with no more matches under a key than the key's limit.
  pub record Limited (c : Cache Match) : Type 0 where
    pub inv : Inv c
    pub limited :
        (k : CacheKey) (v : IndexedSearch Match)
        → get CacheKey-discrete k c.values ≡ some v
        → length v.matches ≤ k.limit

  -- What a step keeps: the cache is limited, and an answer has at most so many matches.
  abbrev pub Keeps : ℕ → Answer Match → Type 0
  Keeps limit (c, ok v) = Limited c × (length v.matches ≤ limit)
  Keeps limit (c, err e) = Limited c

  page_of-limited :
      (limit : ℕ) (status : IndexStatus) (rows : List Match)
      → length (page_of Match limit status rows).matches ≤ limit
  unfolding page_of
  page_of-limited limit status rows = length-take-le limit rows

  insert-Limited :
      (key : CacheKey) (v : IndexedSearch Match) (c : Cache Match)
      → length v.matches ≤ key.limit
      → Limited c
      → Limited (cache_insert c key v)
  insert-Limited key v c small i = record {
    inv = cache_insert-Inv c key v i.inv;
    limited = λ k w e. ground (arith, insert-values c key k v i.inv, i.limited k w);
  }

  get-Limited : (key : CacheKey) (c : Cache Match) → Limited c → Limited (cache_get c key).0
  get-Limited key c i = record {
    inv = cache_get-Inv c key i.inv;
    limited = λ k w e. i.limited k w (rw (cache_get-values c key) at e);
  }

  with_result-Keeps :
      {A : Type 0} (limit : ℕ) (r : Result A) (c : Cache Match) (f : A → Answer Match)
      → Limited c
      → ((a : A) → Keeps limit (f a))
      → Keeps limit (with_result Match r c f)
  with_result-Keeps limit (ok a) c f i k = k a
  with_result-Keeps limit (err e) c f i k = i

  store_answer-Keeps :
      (key : CacheKey) (status : IndexStatus) (rows : List Match) (c : Cache Match)
      → Limited c
      → Keeps key.limit (store_answer Match key status rows c)
  unfolding store_answer
  store_answer-Keeps key status rows c i =
      let small = page_of-limited key.limit status rows in
      let value = page_of Match key.limit status rows in
      if-both (Keeps key.limit) (status.active_generation == key.generation)
        (cache_insert c key value, ok value) (c, ok value)
        (insert-Limited key value c small i, small) (i, small)

  module _ (index : Index Match)
      (others : (c : Cache Match) → Limited c → Limited (index.others c)) where
    search_database-Keeps :
        (query : String) (key : CacheKey) (status : IndexStatus) (c : Cache Match)
        → Limited c
        → Keeps key.limit (search_database Match index query key status c)
    unfolding search_database
    search_database-Keeps query key status c i =
        with_result-Keeps key.limit
          (index.search key.server key.generation query key.mode key.limit) c _ i
          (λ rows.
            with_result-Keeps key.limit index.is_deleting (index.others c) _ (others c i)
              (λ deleting.
                if-both (Keeps key.limit) deleting
                  (with_result Match (index.status Bool.false) (index.others c)
                    (λ now. (index.others c, ok (no_matches Match now))))
                  (store_answer Match key status rows (index.others c))
                  (with_result-Keeps key.limit (index.status Bool.false) (index.others c) _
                    (others c i) (λ now. (others c i, omega arith)))
                  (store_answer-Keeps key status rows (index.others c) (others c i))))

    search_cached-Keeps :
        (query : String) (key : CacheKey) (status : IndexStatus) (c : Cache Match)
        → Limited c
        → Keeps key.limit (search_cached Match index query key status c)
    unfolding search_cached
    search_cached-Keeps query key status c i =
        if-both (Keeps key.limit) (status.active_generation == key.generation)
          (cached_or Match index query key status (cache_get c key))
          (search_database Match index query key status c)
          (from_cache (Option-cases (cache_get c key).1))
          (search_database-Keeps query key status c i)
      where
        from_cache :
            ((cache_get c key).1 ≡ none)
              ⊎ ((v : IndexedSearch Match) × ((cache_get c key).1 ≡ some v))
            → Keeps key.limit (cached_or Match index query key status (cache_get c key))
        from_cache (inl e) =
            rw e (search_database-Keeps query key status (cache_get c key).0 (get-Limited key c i))
        from_cache (inr (v, e)) =
            rw e (get-Limited key c i, i.limited key v (rw (cache_get-result c key) at e))

    generation-Keeps :
        (server query : String) (mode limit : ℕ) (status : IndexStatus) (c : Cache Match)
        (generation : Option ℕ)
        → Limited c
        → Keeps
            (clamped_limit index.max_results limit)
            (search_generation_of Match index server query mode limit status c generation)
    generation-Keeps server query mode limit status c none i = (i, omega arith)
    generation-Keeps server query mode limit status c (some g) i =
        search_cached-Keeps query _ status c i

-- Whatever the database and the status of the index answer, a search keeps the cache well formed,
-- with at most as many matches under a key as the key's limit, if the other calls that run while
-- the database is read keep it so; and every answer has at most as many matches as the limit
-- asked for, taken as at least one and at most the configured maximum.
pub search-Limited :
    (Match : Type 0) (index : Index Match) (server query : String) (mode limit : ℕ)
    (c : Cache Match)
    → ((d : Cache Match) → Limited Match d → Limited Match (index.others d))
    → Limited Match c
    → Keeps Match
        (clamped_limit index.max_results limit)
        (search Match index server query mode limit c)
unfolding search
search-Limited Match index server query mode limit c others i =
    let top = clamped_limit index.max_results limit in
    ite-both (Keeps Match top) (String-discrete (index.normalize_query query) "")
      (c, err "search query must not be empty") _ i
      (with_result-Keeps Match top (index.status Bool.true) c _ i (λ status.
        if-both (Keeps Match top) (is_deleting_state status.state) (c, ok (no_matches Match status))
          (with_result Match (generation_of Match index status) c
            (search_generation_of Match index server query mode limit status c))
          (i, omega arith)
          (with_result-Keeps Match top (generation_of Match index status) c _ i
            (λ g. generation-Keeps Match index others server query mode limit status c g i))))
