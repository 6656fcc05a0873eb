-- ===== src/Query/Cache.antt =====
-- QueryCache of query.rs: what it holds, and in which order it forgets.
use Prim.Native.String.{String}
use opcda_bridge.Base.{
  ℕ, ◌-◌, ◌≤◌, ◌≡◌, refl, Bool, true, none, some, List, [], ◌∷◌, ◌++◌, ite, arith, is_some,
  if◌then◌else◌, length, length-append, length-drop-last, drop, member, without, IsUnique,
  member-append, member-without, without-IsUnique, snoc-IsUnique, drop-IsUnique, member-drop,
  member-drop-snoc, length-without-lt, member-retain, retain-IsUnique, length-retain-le, get,
  insert, get-insert, get-retain_keys, evict-order, get-evict, Option-cases, inl, inr,
}
use opcda_bridge.Query.{
  CacheKey, CacheKey-discrete, QueryCache, cache_get, cache_insert, clear_server, other_server,
  new_cache,
}

abbrev known : CacheKey → List CacheKey → Bool
known = member CacheKey-discrete

pub record Inv {V : Type 0} (c : QueryCache V) : Type 0 where
  pub unique : IsUnique CacheKey-discrete c.order
  pub agree :
      (k : CacheKey)
      → member CacheKey-discrete k c.order ≡ is_some (get CacheKey-discrete k c.values)
  pub room : 1 ≤ c.capacity
  pub bounded : length c.order ≤ c.capacity

pub moved-IsUnique :
    (k : CacheKey) (order : List CacheKey)
    → IsUnique CacheKey-discrete order
    → IsUnique CacheKey-discrete (without CacheKey-discrete k order ++ k ∷ [])
moved-IsUnique k order u =
    snoc-IsUnique CacheKey-discrete k _ (without-IsUnique CacheKey-discrete k order u)
      (ground (arith, member-without CacheKey-discrete k k order))

member-moved :
    (k j : CacheKey) (order : List CacheKey)
    → known j (without CacheKey-discrete k order ++ k ∷ [])
      ≡ ite (CacheKey-discrete k j) true (known j order)
member-moved k j order =
    rw (member-append CacheKey-discrete j (without CacheKey-discrete k order) (k ∷ []))
      (unfold member in ground (arith, member-without CacheKey-discrete j k order))

module _ {V : Type 0} where
  -- What `cache_insert` leaves: the last `capacity` keys of the queue, and under each of them the
  -- new value or the old one.
  pub insert-order :
      (c : QueryCache V) (key : CacheKey) (v : V)
      → let moved = without CacheKey-discrete key c.order ++ key ∷ [] in
        (cache_insert c key v).order ≡ drop (length moved - c.capacity) moved
  unfolding cache_insert
  insert-order c key v = evict-order CacheKey-discrete c.capacity _ _

  pub insert-values :
      (c : QueryCache V) (key j : CacheKey) (v : V)
      → Inv c
      → get CacheKey-discrete j (cache_insert c key v).values ≡ (
          if known j (cache_insert c key v).order
          then ite (CacheKey-discrete key j) (some v) (get CacheKey-discrete j c.values)
          else none)
  unfolding cache_insert
  insert-values c key j v i = ground (
    arith,
    get-evict CacheKey-discrete c.capacity (insert CacheKey-discrete key v c.values) _ j
        (moved-IsUnique key c.order i.unique),
    get-insert CacheKey-discrete key j v c.values,
    member-moved key j c.order,
    i.agree j,
  )

  pub insert-known :
      (c : QueryCache V) (key j : CacheKey) (v : V)
      → known j (cache_insert c key v).order ≡ true
      → ite (CacheKey-discrete key j) true (known j c.order) ≡ true
  insert-known c key j v m =
      let moved : List CacheKey = without CacheKey-discrete key c.order ++ key ∷ [] in
      ground (
        arith,
        insert-order c key v,
        member-moved key j c.order,
        member-drop CacheKey-discrete j (length moved - c.capacity) moved,
      )

  pub insert-present :
      (c : QueryCache V) (key : CacheKey) (v : V)
      → 1 ≤ c.capacity
      → known key (cache_insert c key v).order ≡ true
  insert-present c key v h = rw (insert-order c key v) (
      member-drop-snoc CacheKey-discrete key _ (without CacheKey-discrete key c.order)
        (omega (arith, length-append (without CacheKey-discrete key c.order) (key ∷ []))))

  insert-bounded :
      (c : QueryCache V) (key : CacheKey) (v : V) → length (cache_insert c key v).order ≤ c.capacity
  insert-bounded c key v = rw (insert-order c key v) (length-drop-last _ _)

  insert-capacity :
      (c : QueryCache V) (key : CacheKey) (v : V) → (cache_insert c key v).capacity ≡ c.capacity
  unfolding cache_insert
  insert-capacity c key v = refl

  pub cache_insert-Inv :
      (c : QueryCache V) (key : CacheKey) (v : V) → Inv c → Inv (cache_insert c key v)
  cache_insert-Inv c key v i = record {
    unique =
        rw (insert-order c key v)
          (drop-IsUnique CacheKey-discrete _ _ (moved-IsUnique key c.order i.unique));
    agree = λ j. ground (arith, insert-values c key j v i, insert-known c key j v, i.agree j);
    room = rw (insert-capacity c key v) i.room;
    bounded = rw (insert-capacity c key v) (insert-bounded c key v);
  }

  get-known :
      (c : QueryCache V) (key : CacheKey) (v : V)
      → Inv c
      → get CacheKey-discrete key c.values ≡ some v
      → known key c.order ≡ true
  get-known c key v i e = ground (arith, i.agree key)

  pub cache_get-Inv : (c : QueryCache V) (key : CacheKey) → Inv c → Inv (cache_get c key).0
  unfolding cache_get
  cache_get-Inv c key i = elim (Option-cases (get CacheKey-discrete key c.values)) [
    | inl e ↦ rw (e, cache_get) i
    | inr (v, e) ↦
        rw (e, cache_get)
          (let m = get-known c key v i e in
            record {
              unique = moved-IsUnique key c.order i.unique;
              agree = λ j. ground (arith, member-moved key j c.order, i.agree j);
              room = i.room;
              bounded = omega (
                arith,
                length-append (without CacheKey-discrete key c.order) (key ∷ []),
                length-without-lt CacheKey-discrete key c.order m,
                i.bounded,
              );
            })
  ]

  pub clear_server-Inv : (c : QueryCache V) (server : String) → Inv c → Inv (clear_server c server)
  unfolding clear_server
  clear_server-Inv c server i = record {
    unique = retain-IsUnique CacheKey-discrete (other_server server) c.order i.unique;
    agree = λ k. ground (
      arith,
      member-retain CacheKey-discrete (other_server server) k c.order,
      get-retain_keys CacheKey-discrete (other_server server) k c.values,
      i.agree k,
    );
    room = i.room;
    bounded = omega (arith, length-retain-le {0} (other_server server) c.order, i.bounded);
  }

  pub cache_get-values : (c : QueryCache V) (k : CacheKey) → (cache_get c k).0.values ≡ c.values
  unfolding cache_get
  cache_get-values c k = ground arith

  pub clear_server-values :
      (c : QueryCache V) (server : String) (k : CacheKey)
      → get CacheKey-discrete k (clear_server c server).values
        ≡ (if other_server server k then get CacheKey-discrete k c.values else none)
  unfolding clear_server
  clear_server-values c server k =
      get-retain_keys CacheKey-discrete (other_server server) k c.values

  pub cache_get-result :
      (c : QueryCache V) (k : CacheKey) → (cache_get c k).1 ≡ get CacheKey-discrete k c.values
  unfolding cache_get
  cache_get-result c k = ground arith

  pub new_cache-Inv : (n : ℕ) → Inv (new_cache {V = V} n)
  unfolding new_cache member get
  new_cache-Inv n = record {
    unique = tt;
    agree = λ k. refl;
    room = omega arith;
    bounded = omega arith;
  }
