-- ===== src/Browse/Capacity.antt =====
-- BrowseManager of browse.rs: what each call keeps of the table of sessions.
use Prim.Native.String.{String}
use opcda_bridge.Base.{
  ℕ, ◌≡◌, refl, Bool, ◌&&◌, Option, none, some, if-both, arith, is_some, leb, length, Option-cases,
  Bool-cases, inl, inr,
}
use opcda_bridge.Browse.{
  BrowsePage, PageKey, Result, ok, err, ◌>>=◌, max_active_sessions, session_not_found,
  session_closed, too_many_sessions, refresh_with_token,
}
use opcda_bridge.Browse.Calls.{
  OpcClient, Sessions, session, Surroundings, Call, lift, operation_result,
}
use opcda_bridge.Browse.Locks.{Prepared, prepare, recheck, check_page, record_page}
use opcda_bridge.Browse.Manager.{
  remove_expired, new_entry, open_session, fetch, answer_or, store_page, fetch_page,
  browse_uncached, browse_prepared, browse_existing, close_session, close_on_error, browse_in,
  named, browse_sized, browse, normalize_page_size,
}
use opcda_bridge.Browse.Caches.{IsConsistent}
use opcda_bridge.Browse.Kept.{
  TableInv, Keeps, Keeps-and_then, remove_expired-TableInv, update-Keeps, PreparedKeeps,
  prepare-Keeps, opened-TableInv, remove-TableInv, OptionKeeps, recheck-Keeps, record_page-Keeps,
}

result_kept :
    {A : Type 0} (P : A → Type 0) (r : Result A) (m : Sessions)
    → TableInv m
    → ((a : A) → r ≡ ok a → P a)
    → Keeps P (lift r m)
result_kept P (ok a) m i h = (i, h a refl)
result_kept P (err e) m i h = i

check_page-IsConsistent : (p q : BrowsePage) → check_page p ≡ ok q → IsConsistent q
unfolding check_page
check_page-IsConsistent p q e = ground arith

fetch-IsConsistent :
    (client : OpcClient) (key : PageKey) (refresh : Bool) (p : Prepared) (q : BrowsePage)
    → fetch client key refresh p ≡ ok q
    → IsConsistent q
unfolding fetch
fetch-IsConsistent client key refresh p q e = from_answer (operation_result _) e
  where
    from_answer : (r : Result BrowsePage) → (r >>= check_page) ≡ ok q → IsConsistent q
    from_answer (ok native) h = check_page-IsConsistent native q h
    from_answer (err x) h = ground arith

-- Other calls run between the locks: they keep the table well too.
abbrev pub OthersKeep : Surroundings → Type 0
OthersKeep env = (k : ℕ) (m : Sessions) → TableInv m → TableInv (env.others k m)

answer_or-Keeps :
    (o : Option BrowsePage) (c : Call BrowsePage) (m : Sessions)
    → OptionKeeps o
    → TableInv m
    → Keeps IsConsistent (c m)
    → Keeps IsConsistent (answer_or o c m)
answer_or-Keeps none c m h i k = k
answer_or-Keeps (some page) c m h i k = (i, h page refl)

module _ (env : Surroundings) (others : OthersKeep env) where
  store_page-Keeps :
      (id : String) (key : PageKey) (native : BrowsePage) (m : Sessions)
      → IsConsistent native
      → TableInv m
      → Keeps IsConsistent (store_page env id key native m)
  unfolding store_page
  store_page-Keeps id key native m c i =
      update-Keeps IsConsistent session_closed id (record_page (env.clock 4) env.fresh key native)
        (env.others 2 m) (λ s is. record_page-Keeps (env.clock 4) env.fresh key native s c is)
        (others 2 m i)

  fetch_page-Keeps :
      (id : String) (key : PageKey) (refresh : Bool) (p : Prepared) (m : Sessions)
      → TableInv m
      → Keeps IsConsistent (fetch_page env id key refresh p m)
  unfolding fetch_page
  fetch_page-Keeps id key refresh p m i =
      Keeps-and_then IsConsistent IsConsistent (store_page env id key)
        (lift (fetch env.client key refresh p) m)
        (result_kept IsConsistent (fetch env.client key refresh p) m i
          (fetch-IsConsistent env.client key refresh p))
        (store_page-Keeps id key)

  browse_uncached-Keeps :
      (id : String) (key : PageKey) (refresh : Bool) (p : Prepared) (m : Sessions)
      → TableInv m
      → Keeps IsConsistent (browse_uncached env id key refresh p m)
  unfolding browse_uncached
  browse_uncached-Keeps id key refresh p m i =
      Keeps-and_then OptionKeeps IsConsistent
        (λ cached. answer_or cached (fetch_page env id key refresh p)) _
        (update-Keeps OptionKeeps session_closed id (recheck (env.clock 3) key refresh)
          (env.others 1 m) (λ s. recheck-Keeps (env.clock 3) key refresh s) (others 1 m i))
        (λ cached m2 hc i2.
          answer_or-Keeps cached (fetch_page env id key refresh p) m2 hc i2
            (fetch_page-Keeps id key refresh p m2 i2))

  browse_existing-Keeps :
      (server id : String) (key : PageKey) (refresh : Bool) (m : Sessions)
      → TableInv m
      → Keeps IsConsistent (browse_existing env server id key refresh m)
  unfolding browse_existing
  browse_existing-Keeps server id key refresh m i =
      Keeps-and_then PreparedKeeps IsConsistent (browse_prepared env id key refresh) _
        (update-Keeps PreparedKeeps session_not_found id (prepare (env.clock 2) server key refresh)
          m (λ s. prepare-Keeps (env.clock 2) server key refresh s) i)
        (λ p m1 hp i1.
          answer_or-Keeps p.cached (browse_uncached env id key refresh p) m1 hp i1
            (browse_uncached-Keeps id key refresh p m1 i1))

  abbrev Any : {A : Type 0} → A → Type 0
  Any a = Unit {0}

  new_entry-Keeps :
      (now : ℕ) (server token native : String) (m : Sessions)
      → TableInv m
      → Keeps Any (new_entry now server token native m)
  unfolding new_entry
  new_entry-Keeps now server token native m i =
      elim (Bool-cases (leb max_active_sessions (length m))) [
        | inl full ↦ rw (full, new_entry) i
        | inr free ↦ rw (free, new_entry) (opened-TableInv now server token native m free i, tt)
      ]

  open_session-Keeps :
      (server : String) (m : Sessions) → TableInv m → Keeps Any (open_session env server m)
  unfolding open_session
  open_session-Keeps server m i =
      let alive = remove_expired (env.clock 0) m in
      let ia = remove_expired-TableInv (env.clock 0) m i in
      if-both (Keeps Any) (leb max_active_sessions (length alive)) (alive, err too_many_sessions) _
        ia
        (Keeps-and_then Any Any
          (λ native table.
            new_entry (env.clock 1) server env.session_token native (env.others 0 table))
          (lift (operation_result (env.client.open_browse_session server)) alive)
          (result_kept Any (operation_result (env.client.open_browse_session server)) alive ia
            (λ a e. tt))
          (λ native table u it.
            new_entry-Keeps (env.clock 1) server env.session_token native (env.others 0 table)
              (others 0 table it)))

  close_session-TableInv :
      (id : String) (m : Sessions) → TableInv m → TableInv (close_session env id m).0
  unfolding close_session
  close_session-TableInv id m i =
      let after = env.others 3 m in
      elim (Option-cases (session m id)) [
        | inl e ↦ rw e i
        | inr (s, e) ↦ rw e (elim (Option-cases (session after id)) [
          | inl f ↦ rw f (others 3 m i)
          | inr (t, f) ↦ rw f (remove-TableInv id after (others 3 m i))
        ])
      ]

  close_on_error-Keeps :
      (id : String) (r : Sessions × Result BrowsePage)
      → Keeps IsConsistent r
      → Keeps (λ answer. IsConsistent answer.1) (close_on_error env id r)
  unfolding close_on_error
  close_on_error-Keeps id (m, ok page) k = k
  close_on_error-Keeps id (m, err e) k = close_session-TableInv id m k

  browse_in-Keeps :
      (server : String) (id : Option String) (key : PageKey) (refresh : Bool) (m : Sessions)
      → TableInv m
      → Keeps (λ answer. IsConsistent answer.1) (browse_in env server id key refresh m)
  unfolding browse_in
  browse_in-Keeps server (some id) key refresh m i =
      Keeps-and_then IsConsistent (λ answer. IsConsistent answer.1)
        (λ page. lift (ok (named id page))) (browse_existing env server id key refresh m)
        (browse_existing-Keeps server id key refresh m i) (λ page m1 c i1. (i1, c))
  browse_in-Keeps server none key refresh m i =
      Keeps-and_then Any (λ answer. IsConsistent answer.1)
        (λ id m1. close_on_error env id (browse_existing env server id key refresh m1))
        (open_session env server m) (open_session-Keeps server m i)
        (λ id m1 u i1.
          close_on_error-Keeps id (browse_existing env server id key refresh m1)
            (browse_existing-Keeps server id key refresh m1 i1))

  browse_sized-Keeps :
      (server : String) (id parent token : Option String) (refresh : Bool) (size : ℕ) (m : Sessions)
      → TableInv m
      → Keeps
          (λ answer. IsConsistent answer.1)
          (browse_sized env server id parent token refresh size m)
  unfolding browse_sized
  browse_sized-Keeps server id parent token refresh size m i =
      let key : PageKey = record {
        parent_node_key = parent;
        page_token = token;
        page_size = size;
      } in
      if-both (λ c. Keeps (λ answer. IsConsistent answer.1) (c m)) (refresh && is_some token)
        (lift (err refresh_with_token)) (browse_in env server id key refresh) i
        (browse_in-Keeps server id key refresh m i)

  browse-Keeps :
      (server : String) (id parent token : Option String) (page_size : ℕ) (refresh : Bool)
      (m : Sessions)
      → TableInv m
      → Keeps
          (λ answer. IsConsistent answer.1)
          (browse env server id parent token page_size refresh m)
  unfolding browse
  browse-Keeps server id parent token page_size refresh m i =
      let alive = remove_expired (env.clock 0) m in
      let ia = remove_expired-TableInv (env.clock 0) m i in
      Keeps-and_then Any (λ answer. IsConsistent answer.1)
        (browse_sized env server id parent token refresh)
        (lift (normalize_page_size page_size) alive)
        (result_kept Any (normalize_page_size page_size) alive ia (λ a e. tt))
        (λ size m1 u i1. browse_sized-Keeps server id parent token refresh size m1 i1)

-- Whatever the native client answers, `browse` and `close_session` keep these of the table, if
-- the other calls that run meanwhile do: one entry to a session and at most 128 sessions; in each
-- session at most 256 pages and 256 page tokens, with the queue of pages naming each page held
-- once and no other; and every page held, like every page that `browse` answers with, is marked
-- complete exactly if it has no token of a next page.
pub calls_keep_table :
    (env : Surroundings)
    → OthersKeep env
    → (m : Sessions) → TableInv m
    → ((server : String) (id parent token : Option String) (page_size : ℕ) (refresh : Bool)
        → Keeps
            (λ answer. IsConsistent answer.1)
            (browse env server id parent token page_size refresh m))
      × ((id : String) → TableInv (close_session env id m).0)
calls_keep_table env others m i = (
  λ server id parent token page_size refresh.
      browse-Keeps env others server id parent token page_size refresh m i,
  λ id. close_session-TableInv env others id m i,
)
