-- ===== src/Query/History.antt =====
-- QueryCache of query.rs after any history of calls: it never answers with another value than the
-- last one stored, and stays within its capacity.
use Prim.Native.String.{String}
use opcda_bridge.Base.{
  Bool, true, is_some, moved, retain, retain-moved, retain-drop, retain-retain, Option-cases, inl,
  inr, ap, sym, ◌∙◌, refl, subst, ℕ, ◌-◌, ◌≡◌, Option, none, some, List, [], ◌∷◌, ite, arith,
  if◌then◌else◌, length, drop, member, get,
}
use opcda_bridge.Query.{
  CacheKey, CacheKey-discrete, QueryCache, cache_get, cache_insert, clear_server, other_server,
  new_cache,
}
use opcda_bridge.Query.Cache.{
  Inv, moved-IsUnique, insert-known, insert-order, insert-values, insert-present, cache_insert-Inv,
  cache_get-Inv, clear_server-Inv, new_cache-Inv, cache_get-values, clear_server-values,
  cache_get-result,
}

-- The calls that a cache receives, and the cache after a history of them, the latest first.
pub data CacheCall (V : Type 0) : Type 0 where
  looks_up : CacheKey → CacheCall V
  stores : CacheKey → V → CacheCall V
  clears : String → CacheCall V

module _ {V : Type 0} where
  unfoldable pub after : ℕ → List (CacheCall V) → QueryCache V
  after n [] = new_cache n
  after n (looks_up k ∷ h) = (cache_get (after n h) k).0
  after n (stores k v ∷ h) = cache_insert (after n h) k v
  after n (clears server ∷ h) = clear_server (after n h) server

  -- The value that was stored last under a key, unless its server was cleared since.
  abbrev pub last_stored : CacheKey → List (CacheCall V) → Option V
  last_stored k [] = none
  last_stored k (looks_up j ∷ h) = last_stored k h
  last_stored k (stores j v ∷ h) = ite (CacheKey-discrete j k) (some v) (last_stored k h)
  last_stored k (clears server ∷ h) = if other_server server k then last_stored k h else none

  after-Inv : (n : ℕ) (h : List (CacheCall V)) → Inv (after n h)
  unfolding after
  after-Inv n [] = new_cache-Inv n
  after-Inv n (looks_up k ∷ h) = cache_get-Inv (after n h) k (after-Inv n h)
  after-Inv n (stores k v ∷ h) = cache_insert-Inv (after n h) k v (after-Inv n h)
  after-Inv n (clears server ∷ h) = clear_server-Inv (after n h) server (after-Inv n h)

  stored_sound :
      (n : ℕ) (h : List (CacheCall V)) (k : CacheKey) (v : V)
      → get CacheKey-discrete k (after n h).values ≡ some v
      → last_stored k h ≡ some v
  unfolding after
  stored_sound n [] k v e = unfold new_cache get in cc e
  stored_sound n (looks_up j ∷ h) k v e =
      stored_sound n h k v (rw (cache_get-values (after n h) j) at e)
  stored_sound n (stores j w ∷ h) k v e =
      ground (arith, insert-values (after n h) j k w (after-Inv n h), stored_sound n h k v)
  stored_sound n (clears server ∷ h) k v e =
      ground (arith, clear_server-values (after n h) server k, stored_sound n h k v)

  pub stored_found :
      (n : ℕ) (h : List (CacheCall V)) (k : CacheKey) (v : V)
      → (cache_get (after n (stores k v ∷ h)) k).1 ≡ some v
  unfolding after
  stored_found n h k v = ground (
    arith,
    cache_get-result (cache_insert (after n h) k v) k,
    insert-values (after n h) k k v (after-Inv n h),
    insert-present (after n h) k v (after-Inv n h).room,
  )

  -- After any history of calls, a lookup that answers answers with the value that was stored last
  -- under exactly that key, and not before the key's server was cleared; and when any value is
  -- stored under the key next, it is found.
  pub cache_sound :
      (n : ℕ) (h : List (CacheCall V)) (k : CacheKey) (v next : V)
      → (cache_get (after n h) k).1 ≡ some v
      → (last_stored k h ≡ some v) × ((cache_get (after n (stores k next ∷ h)) k).1 ≡ some next)
  cache_sound n h k v next e =
      (stored_sound n h k v (rw (cache_get-result (after n h) k) at e), stored_found n h k next)

  -- After any history of calls the queue names each key once, exactly the keys that have a value,
  -- and at most as many as the capacity, which is at least one.
  pub cache_bounded : (n : ℕ) (h : List (CacheCall V)) → Inv (after n h)
  cache_bounded = after-Inv

  -- All keys that were ever stored or found, the one whose last use is longest ago first.
  abbrev pub by_last_use : ℕ → List (CacheCall V) → List CacheKey
  by_last_use n [] = []
  by_last_use n (looks_up k ∷ h) =
      if is_some (cache_get (after n h) k).1
      then moved CacheKey-discrete k (by_last_use n h)
      else by_last_use n h
  by_last_use n (stores k v ∷ h) = moved CacheKey-discrete k (by_last_use n h)
  by_last_use n (clears server ∷ h) = by_last_use n h

  abbrev pub is_held : QueryCache V → CacheKey → Bool
  is_held c k = is_some (get CacheKey-discrete k c.values)

  Ordered : QueryCache V → List CacheKey → Type 0
  Ordered c uses = c.order ≡ retain (is_held c) uses

  get-Ordered :
      (c : QueryCache V) (k : CacheKey) (uses : List CacheKey)
      → Ordered c uses
      → Ordered
          (cache_get c k).0
          (if is_some (cache_get c k).1 then moved CacheKey-discrete k uses else uses)
  unfolding Ordered cache_get
  get-Ordered c k uses e = elim (Option-cases (get CacheKey-discrete k c.values)) [
    | inl absent ↦ rw (absent, cache_get) e
    | inr (v, found) ↦
        rw (found, cache_get)
          (ap (moved CacheKey-discrete k) e
            ∙ sym (
                retain-moved CacheKey-discrete (is_held c) (is_held c) k uses (ap is_some found)
                  (λ j n. refl)))
  ]

  insert-Ordered :
      (c : QueryCache V) (k : CacheKey) (v : V) (uses : List CacheKey)
      → Inv c
      → Ordered c uses
      → Ordered (cache_insert c k v) (moved CacheKey-discrete k uses)
  unfolding Ordered
  insert-Ordered c k v uses i e =
      let d : QueryCache V = cache_insert c k v in
      let used = λ (j : CacheKey). ite (CacheKey-discrete k j) true (is_held c j) in
      let next : List CacheKey = moved CacheKey-discrete k c.order in
      let from_uses : retain used (moved CacheKey-discrete k uses) ≡ next =
        retain-moved CacheKey-discrete used (is_held c) k uses (ground arith) (λ j n. ground arith)
        ∙ sym (ap (moved CacheKey-discrete k) e) in
      insert-order c k v
      ∙ sym (
          retain-drop CacheKey-discrete (is_held d) (length next - c.capacity) next
            (moved-IsUnique k c.order i.unique)
            (λ j.
              sym ((cache_insert-Inv c k v i).agree j)
              ∙ ap (member CacheKey-discrete j) (insert-order c k v)))
      ∙ ap (retain (is_held d)) (sym from_uses)
      ∙ retain-retain CacheKey-discrete (is_held d) used (is_held d)
          (moved CacheKey-discrete k uses)
          (λ j. ground (arith, insert-known c k j v, i.agree j, (cache_insert-Inv c k v i).agree j))

  clear-Ordered :
      (c : QueryCache V) (server : String) (uses : List CacheKey)
      → Ordered c uses
      → Ordered (clear_server c server) uses
  unfolding Ordered clear_server
  clear-Ordered c server uses e =
      ap (retain (other_server server)) e
      ∙ retain-retain CacheKey-discrete (other_server server) (is_held c)
          (is_held (clear_server c server)) uses
          (λ j. ground (arith, clear_server-values c server j))

  after-Ordered : (n : ℕ) (h : List (CacheCall V)) → Ordered (after n h) (by_last_use n h)
  unfolding after
  after-Ordered n [] = unfold Ordered new_cache retain in refl
  after-Ordered n (looks_up k ∷ h) = get-Ordered (after n h) k (by_last_use n h) (after-Ordered n h)
  after-Ordered n (stores k v ∷ h) =
      insert-Ordered (after n h) k v (by_last_use n h) (after-Inv n h) (after-Ordered n h)
  after-Ordered n (clears server ∷ h) =
      clear-Ordered (after n h) server (by_last_use n h) (after-Ordered n h)

  -- After any history the keys that have a value stand in the queue in the order of their last use, by
  -- a store or by a lookup that found a value. Storing a value puts its key at the end, and then forgets
  -- exactly the keys whose last use is longest ago, as many as exceed the capacity; each key that is
  -- left has its old value or the one just stored.
  pub cache_insert_lem :
      (n : ℕ) (h : List (CacheCall V)) (k : CacheKey) (v : V)
      → let c = after n h in
        let queue = moved CacheKey-discrete k (retain (is_held c) (by_last_use n h)) in
        let d = cache_insert c k v in
        (c.order ≡ retain (is_held c) (by_last_use n h))
        × (d.order ≡ drop (length queue - c.capacity) queue)
        × ((j : CacheKey)
            → get CacheKey-discrete j d.values ≡ (
                if member CacheKey-discrete j d.order
                then ite (CacheKey-discrete k j) (some v) (get CacheKey-discrete j c.values)
                else none))
  unfolding Ordered
  cache_insert_lem n h k v =
      let e : (after n h).order ≡ retain (is_held (after n h)) (by_last_use n h) =
        after-Ordered n h in
      (
        e,
        subst
            (λ order.
              let queue = moved CacheKey-discrete k order in
              (cache_insert (after n h) k v).order
              ≡ drop (length queue - (after n h).capacity) queue)
            e (insert-order (after n h) k v),
        λ j. insert-values (after n h) k j v (after-Inv n h),
      )
