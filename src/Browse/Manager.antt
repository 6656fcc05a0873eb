-- ===== src/Browse/Manager.antt =====
-- browse.rs: BrowseManager. The native client and the other calls are arguments.
use Prim.Native.String.{String}
use opcda_bridge.Base.{
  ℕ, ◌-◌, Bool, ◌&&◌, Option, none, some, is_some, leb, ltb, ◌==◌, if◌then◌else◌, String-discrete,
  remove, retain_entries, length,
}
use opcda_bridge.Browse.{
  BrowsePage, PageKey, Session, session_not_found, session_closed, too_many_sessions,
  refresh_with_token, page_size_too_large, Result, ok, err, ◌>>=◌, default_page_size, max_page_size,
  max_active_sessions, session_ttl,
}
use opcda_bridge.Browse.Sessions.{new_session}
use opcda_bridge.Browse.Calls.{
  OpcClient, operation_result, Sessions, session, put, Surroundings, Call, ◌and_then◌, lift,
  with_session,
}
use opcda_bridge.Browse.Locks.{Prepared, prepare, recheck, check_page, record_page}

unfoldable pub normalize_page_size : ℕ → Result ℕ
normalize_page_size page_size =
    let size = if page_size == 0 then default_page_size else page_size in
    if ltb max_page_size size then err page_size_too_large else ok size

-- The sessions that stay: those used since the cutoff. (Their native sessions are closed after.)
abbrev pub is_alive : ℕ → Session → Bool
is_alive now s = leb (now - session_ttl) s.last_used

unfoldable pub remove_expired : ℕ → Sessions → Sessions
remove_expired now m = retain_entries String-discrete (λ _ s. is_alive now s) m

unfoldable pub new_entry : ℕ → String → String → String → Call String
new_entry now server token native m =
    if leb max_active_sessions (length m)
    then (m, err too_many_sessions)
    else (put token (new_session now server native) m, ok token)

unfoldable pub open_session : Surroundings → String → Call String
open_session env server m =
    let alive = remove_expired (env.clock 0) m in
    if leb max_active_sessions (length alive)
    then (alive, err too_many_sessions)
    else (lift (operation_result (env.client.open_browse_session server)) and_then λ native table.
          new_entry (env.clock 1) server env.session_token native (env.others 0 table))
        alive

-- A cached page is the answer; otherwise the call goes on.
abbrev pub answer_or : Option BrowsePage → Call BrowsePage → Call BrowsePage
answer_or none c = c
answer_or (some page) c = lift (ok page)

unfoldable pub fetch : OpcClient → PageKey → Bool → Prepared → Result BrowsePage
fetch client key refresh p = do
  native ←
      operation_result (client.browse_page p.native_session p.parent p.token key.page_size refresh)
  check_page native

unfoldable pub store_page : Surroundings → String → PageKey → BrowsePage → Call BrowsePage
store_page env id key native m =
    with_session session_closed id (record_page (env.clock 4) env.fresh key native) (env.others 2 m)

unfoldable pub fetch_page : Surroundings → String → PageKey → Bool → Prepared → Call BrowsePage
fetch_page env id key refresh p =
    lift (fetch env.client key refresh p) and_then store_page env id key

-- From the lock of the session's operations on.
unfoldable pub browse_uncached : Surroundings → String → PageKey → Bool → Prepared → Call BrowsePage
browse_uncached env id key refresh p m =
    (with_session session_closed id (recheck (env.clock 3) key refresh) and_then λ cached.
    answer_or cached (fetch_page env id key refresh p))
      (env.others 1 m)

abbrev pub browse_prepared : Surroundings → String → PageKey → Bool → Prepared → Call BrowsePage
browse_prepared env id key refresh p = answer_or p.cached (browse_uncached env id key refresh p)

unfoldable pub browse_existing : Surroundings → String → String → PageKey → Bool → Call BrowsePage
browse_existing env server id key refresh =
    with_session session_not_found id (prepare (env.clock 2) server key refresh)
    and_then browse_prepared env id key refresh

abbrev close_removed :
    Surroundings → String → String → Sessions → Option Session → Sessions × Result (Unit {0})
close_removed env id native m none = (m, err session_not_found)
close_removed env id native m (some s) =
    (remove String-discrete id m, operation_result (env.client.close_browse_session native))

abbrev close_found :
    Surroundings → String → Sessions → Option Session → Sessions × Result (Unit {0})
close_found env id m none = (m, err session_not_found)
close_found env id m (some s) =
    close_removed env id s.native_session_id (env.others 3 m) (session (env.others 3 m) id)

-- The session is looked up, and again when the lock of its operations is free.
unfoldable pub close_session : Surroundings → String → Call (Unit {0})
close_session env id m = close_found env id m (session m id)

-- A temporary session does not outlive an error.
unfoldable pub close_on_error :
    Surroundings → String → Sessions × Result BrowsePage → Sessions × Result (String × BrowsePage)
close_on_error env id (m, ok page) = (m, ok (id, page))
close_on_error env id (m, err e) = ((close_session env id m).0, err e)

abbrev pub named : String → BrowsePage → String × BrowsePage
named id page = (id, page)

unfoldable pub browse_in :
    Surroundings → String → Option String → PageKey → Bool → Call (String × BrowsePage)
browse_in env server (some id) key refresh =
    browse_existing env server id key refresh and_then λ page. lift (ok (named id page))
browse_in env server none key refresh = open_session env server and_then λ id m.
    close_on_error env id (browse_existing env server id key refresh m)

unfoldable pub browse_sized :
    Surroundings
    → String
    → Option String
    → Option String
    → Option String
    → Bool
    → ℕ
    → Call (String × BrowsePage)
browse_sized env server id parent token refresh size =
    if refresh && is_some token
    then lift (err refresh_with_token)
    else browse_in env server id
        (record { parent_node_key = parent; page_token = token; page_size = size }) refresh

unfoldable pub browse :
    Surroundings
    → String
    → Option String
    → Option String
    → Option String
    → ℕ
    → Bool
    → Call (String × BrowsePage)
browse env server id parent token page_size refresh m =
    (lift (normalize_page_size page_size) and_then browse_sized env server id parent token refresh)
      (remove_expired (env.clock 0) m)
