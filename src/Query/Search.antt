-- ===== src/Query/Search.antt =====
-- IndexManager::search of query.rs over its cache. The database, the status of the index and the
-- normalisation of a query, which lowers its case by the Unicode tables, are parameters, and so is
-- what other calls do to the cache while the database is read. Of a status only the fields that
-- the search reads are modelled.
use Prim.Native.String.{String}
use opcda_bridge.Base.{
  ℕ, Bool, true, false, Option, none, some, List, [], ite, min, max, take, length, ltb, ◌==◌,
  if◌then◌else◌, String-discrete,
}
use opcda_bridge.Query.{CacheKey, QueryCache, cache_get, cache_insert}

pub data IndexState : Type 0 where
  not_indexed partial ready stale refreshing promoting failed deleting : IndexState

pub record IndexStatus : Type 0 where
  pub state : IndexState
  pub active_generation : ℕ

pub record IndexedSearch (Match : Type 0) : Type 0 where
  pub matches : List Match
  pub has_more : Bool
  pub status : IndexStatus

-- An error is its message.
pub data Result (A : Type 0) : Type 0 where
  ok : A → Result A
  err : String → Result A

-- What the search asks of the rest of the gateway. `status` is asked before and after the database.
pub record Index (Match : Type 0) : Type 0 where
  pub normalize_query : String → String
  pub max_results : ℕ
  pub status : Bool → Result IndexStatus
  pub search_generation : Result (Option ℕ)
  pub search : String → ℕ → String → ℕ → ℕ → Result (List Match)
  pub is_deleting : Result Bool
  pub others : QueryCache (IndexedSearch Match) → QueryCache (IndexedSearch Match)

abbrev pub is_deleting_state : IndexState → Bool
is_deleting_state deleting = true
is_deleting_state _ = false

abbrev pub is_promoting : IndexState → Bool
is_promoting promoting = true
is_promoting _ = false

abbrev pub clamped_limit : ℕ → ℕ → ℕ
clamped_limit max_results limit = min (max limit 1) max_results

module _ (Match : Type 0) where
  abbrev pub Cache : Type 0
  Cache = QueryCache (IndexedSearch Match)

  -- A step of the search: the cache and an answer.
  abbrev pub Answer : Type 0
  Answer = Cache × Result (IndexedSearch Match)

  abbrev pub no_matches : IndexStatus → IndexedSearch Match
  no_matches status = record { matches = []; has_more = false; status = status }

  abbrev pub with_result : {A : Type 0} → Result A → Cache → (A → Answer) → Answer
  with_result (ok a) c f = f a
  with_result (err e) c f = (c, err e)

  unfoldable pub generation_of : Index Match → IndexStatus → Result (Option ℕ)
  generation_of index status =
      if ltb 0 status.active_generation
      then ok (some status.active_generation)
      else if is_promoting status.state
      then ok none
      else index.search_generation

  -- The rows of the database, one more than the limit if there are more, become the answer.
  unfoldable pub page_of : ℕ → IndexStatus → List Match → IndexedSearch Match
  page_of limit status rows = record {
    matches = take limit rows;
    has_more = ltb limit (length rows);
    status = status;
  }

  unfoldable pub store_answer : CacheKey → IndexStatus → List Match → Cache → Answer
  store_answer key status rows c =
      let value = page_of key.limit status rows in
      if status.active_generation == key.generation
      then (cache_insert c key value, ok value)
      else (c, ok value)

  unfoldable pub search_database : Index Match → String → CacheKey → IndexStatus → Cache → Answer
  search_database index query key status c =
      with_result (index.search key.server key.generation query key.mode key.limit) c (λ rows.
        with_result index.is_deleting (index.others c) (λ deleting.
          if deleting
          then with_result (index.status false) (index.others c)
              (λ status. (index.others c, ok (no_matches status)))
          else store_answer key status rows (index.others c)))

  abbrev pub cached_or :
      Index Match → String → CacheKey → IndexStatus → Cache × Option (IndexedSearch Match) → Answer
  cached_or index query key status (c, none) = search_database index query key status c
  cached_or index query key status (c, some value) = (c, ok (record value { status = status }))

  unfoldable pub search_cached : Index Match → String → CacheKey → IndexStatus → Cache → Answer
  search_cached index query key status c =
      if status.active_generation == key.generation
      then cached_or index query key status (cache_get c key)
      else search_database index query key status c

  abbrev pub search_generation_of :
      Index Match → String → String → ℕ → ℕ → IndexStatus → Cache → Option ℕ → Answer
  search_generation_of index server query mode limit status c none = (c, ok (no_matches status))
  search_generation_of index server query mode limit status c (some generation) =
      search_cached index query
        (record {
          server = server;
          generation = generation;
          query = index.normalize_query query;
          mode = mode;
          limit = clamped_limit index.max_results limit;
        })
        status c

  unfoldable pub search : Index Match → String → String → ℕ → ℕ → Cache → Answer
  search index server query mode limit c =
      ite (String-discrete (index.normalize_query query) "")
        (c, err "search query must not be empty")
        (with_result (index.status true) c (λ status.
          if is_deleting_state status.state
          then (c, ok (no_matches status))
          else with_result (generation_of index status) c
              (search_generation_of index server query mode limit status c)))
