-- ===== src/Query/Tests.antt =====
-- The queries and their cache at concrete inputs.
use opcda_bridge.Base.{
  moved, retain, arith, false, ℕ, ◌-◌, ◌≡◌, refl, none, some, List, [], ◌∷◌, ite, length, drop,
  if◌then◌else◌, get, member, text,
}
use opcda_bridge.Query.{
  new_cache, CacheKey, CacheKey-discrete, cache_get, cache_insert, starts_with, prefix_upper_bound,
  escape_like, replace_escaped, from_u32, bound_loop, next_char,
}
use opcda_bridge.Query.History.{
  CacheCall, by_last_use, is_held, stores, looks_up, after, last_stored, stored_found, cache_sound,
  cache_bounded, cache_insert_lem,
}
use opcda_bridge.Query.Prefix.{in_range, prefix-range}
use opcda_bridge.Query.Pattern.{literal_text, literal-escape_like}
use opcda_bridge.Query.Search.{ready, ok, Index, Cache, clamped_limit, search}
use opcda_bridge.Query.Results.{Limited, Keeps, search-Limited}

abbrev pump : CacheKey
pump = record { server = "plant"; generation = 1; query = "pump"; mode = 3; limit = 10 }

abbrev valve : CacheKey
valve = record pump { query = "valve" }

abbrev history : List (CacheCall ℕ)
history = stores valve 8 ∷ looks_up pump ∷ stores pump 7 ∷ []

cache_sound_example :
    (last_stored pump (stores pump 7 ∷ history) ≡ some 7)
    × ((cache_get (after 1 (stores pump 9 ∷ stores pump 7 ∷ history)) pump).1 ≡ some 9)
cache_sound_example =
    cache_sound 1 (stores pump 7 ∷ history) pump 7 9 (stored_found 1 history pump 7)

cache_insert_lem_example :
    let c = after 1 history in
    let queue = moved CacheKey-discrete pump (retain (is_held c) (by_last_use 1 history)) in
    let d = cache_insert c pump 9 in
    (c.order ≡ retain (is_held c) (by_last_use 1 history))
    × (d.order ≡ drop (length queue - c.capacity) queue)
    × ((j : CacheKey)
        → get CacheKey-discrete j d.values ≡ (
            if member CacheKey-discrete j d.order
            then ite (CacheKey-discrete pump j) (some 9) (get CacheKey-discrete j c.values)
            else none))
cache_insert_lem_example = cache_insert_lem 1 history pump 9

prefix_test : prefix_upper_bound (text "ab") ≡ some (text "ac")
unfolding prefix_upper_bound bound_loop next_char from_u32
prefix_test = refl

prefix-range_example :
    in_range (text "ab") (prefix_upper_bound (text "ab")) (text "abc")
    ≡ starts_with (text "ab") (text "abc")
unfolding from_u32
prefix-range_example =
    prefix-range (text "ab") (text "abc") (refl, (refl, tt)) (refl, (refl, (refl, tt)))

escape_test : escape_like (text "a%") ≡ text "a\\%"
unfolding escape_like replace_escaped
escape_test = refl

literal-escape_like_example : literal_text (escape_like (text "a_b%")) ≡ some (text "a_b%")
literal-escape_like_example = literal-escape_like (text "a_b%")

abbrev index : Index ℕ
index = record {
  normalize_query = λ q. q;
  max_results = 2;
  status = λ first. ok (record { state = ready; active_generation = 1 });
  search_generation = ok (some 1);
  search = λ server generation query mode limit. ok (1 ∷ 2 ∷ 3 ∷ []);
  is_deleting = ok false;
  others = λ c. c;
}

abbrev start : Cache ℕ
start = new_cache 4

start-Limited : Limited ℕ start
unfolding after new_cache get
start-Limited = record { inv = cache_bounded 4 []; limited = λ k v e. ground arith }

search-Limited_example :
    Keeps ℕ (clamped_limit index.max_results 10) (search ℕ index "plant" "pump" 3 10 start)
search-Limited_example = search-Limited ℕ index "plant" "pump" 3 10 start (λ d i. i) start-Limited
