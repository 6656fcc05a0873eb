-- ===== src/Query.antt =====
-- crates/opcda-bridge-gateway/src/index/query.rs: the query cache, the ranks, the bounds of a prefix
-- range and the escaping of a pattern. A text whose characters the source looks at is the list of
-- its Unicode scalar values; one that it only compares is a native string.
pub mod Cache
pub mod History
pub mod Prefix
pub mod Pattern
pub mod Rank
pub mod Search
pub mod Results
mod Tests
use Prim.Native.String.{String}
use opcda_bridge.Base.{
  ℕ, zero, suc, ◌+◌, ◌-◌, ◌≡◌, Bool, true, false, not, ◌&&◌, ◌||◌, Option, none, some, List, [],
  ◌∷◌, ◌++◌, ite, length, leb, ltb, ◌==◌, if◌then◌else◌, ℕ_discrete, String-discrete, take, without,
  retain, get, insert, retain_keys, evict, max,
}

pub record CacheKey : Type 0 where
  pub server : String
  pub generation : ℕ
  pub query : String
  pub mode : ℕ
  pub limit : ℕ

pub CacheKey-discrete : Discrete CacheKey
CacheKey-discrete = hlevel (ℕ_discrete, String-discrete)

-- `V` stands for IndexedSearch, which the cache only stores.
pub record QueryCache (V : Type 0) : Type 0 where
  pub values : List (CacheKey × V)
  pub order : List CacheKey
  pub capacity : ℕ

abbrev pub other_server : String → CacheKey → Bool
other_server server key = ite (String-discrete key.server server) false true

module _ {V : Type 0} where
  -- `get` moves the key that it finds to the back of the queue.
  unfoldable pub cache_get : QueryCache V → CacheKey → QueryCache V × Option V
  cache_get c key = elim (get CacheKey-discrete key c.values) [
    | none ↦ (c, none)
    | some v ↦ (record c { order = without CacheKey-discrete key c.order ++ key ∷ [] }, some v)
  ]

  unfoldable pub cache_insert : QueryCache V → CacheKey → V → QueryCache V
  cache_insert c key value =
      let kept =
        evict CacheKey-discrete c.capacity (insert CacheKey-discrete key value c.values)
          (without CacheKey-discrete key c.order ++ key ∷ []) in
      record c { values = kept.0; order = kept.1 }

  unfoldable pub clear_server : QueryCache V → String → QueryCache V
  clear_server c server = record c {
    values = retain_keys CacheKey-discrete (other_server server) c.values;
    order = retain (other_server server) c.order;
  }

  -- The cache of IndexManager::new: its capacity is at least one.
  unfoldable pub new_cache : ℕ → QueryCache V
  new_cache query_cache_capacity = record {
    values = [];
    order = [];
    capacity = max query_cache_capacity 1;
  }

-- `str::starts_with` and `str::contains`, over scalar values.
unfoldable pub starts_with : List ℕ → List ℕ → Bool
starts_with [] s = true
starts_with (c ∷ p) [] = false
starts_with (c ∷ p) (d ∷ s) = c == d && starts_with p s

unfoldable pub text_contains : List ℕ → List ℕ → Bool
text_contains p [] = starts_with p []
text_contains p (d ∷ s) = starts_with p (d ∷ s) || text_contains p s

unfoldable pub text_eq : List ℕ → List ℕ → Bool
text_eq [] [] = true
text_eq [] (d ∷ s) = false
text_eq (c ∷ p) [] = false
text_eq (c ∷ p) (d ∷ s) = c == d && text_eq p s

unfoldable pub search_rank : List ℕ → List ℕ → List ℕ → ℕ
search_rank query display_name_norm item_id_norm =
    if text_eq display_name_norm query
    then 0
    else if text_eq item_id_norm query
    then 1
    else if starts_with query display_name_norm
    then 2
    else if starts_with query item_id_norm
    then 3
    else if text_contains query display_name_norm
    then 4
    else if text_contains query item_id_norm
    then 5
    else 6

-- `char::from_u32`.
unfoldable pub from_u32 : ℕ → Option ℕ
from_u32 v = if (ltb v 0xd800 || leb 0xe000 v) && leb v 0x10ffff then some v else none

unfoldable pub next_char : ℕ → Option ℕ
next_char value =
    if value == 0x10ffff
    then none
    else if value == 0xd7ff
    then from_u32 0xe000
    else from_u32 (value + 1)

abbrev pub get_elem? {ℓ} : {A : Type ℓ} → List A → ℕ → Option A
get_elem? [] i = none
get_elem? (x ∷ xs) zero = some x
get_elem? (x ∷ xs) (suc i) = get_elem? xs i

abbrev pub next_at : List ℕ → ℕ → Option ℕ
next_at chars index = elim (get_elem? chars index) [ none ↦ none | some c ↦ next_char c ]

-- The loop of `prefix_upper_bound` over the indices below `count`, the last one first.
unfoldable pub bound_loop : List ℕ → ℕ → Option (List ℕ)
bound_loop chars zero = none
bound_loop chars (suc index) = elim (next_at chars index) [
  | some next ↦ some (take index chars ++ next ∷ [])
  | none ↦ bound_loop chars index
]

unfoldable pub prefix_upper_bound : List ℕ → Option (List ℕ)
prefix_upper_bound chars = bound_loop chars (length chars)

-- `str::replace` of one character by a backslash and itself.
unfoldable pub replace_escaped : ℕ → List ℕ → List ℕ
replace_escaped c [] = []
replace_escaped c (x ∷ xs) =
    if x == c then b'\\' ∷ c ∷ replace_escaped c xs else x ∷ replace_escaped c xs

unfoldable pub escape_like : List ℕ → List ℕ
escape_like value = replace_escaped b'_' (replace_escaped b'%' (replace_escaped b'\\' value))
