-- ===== src/Index/Store/Recovery.antt =====
-- What changes the generations beside the calls of a build: the opening of a database in index/store.rs,
-- and the cleanup batches of index/scheduler.rs.
use Prim.Native.String.{String}
use opcda_bridge.Base.{
  ℕ, Bool, true, false, not, ◌&&◌, ◌||◌, Option, none, some, List, [], ◌∷◌, ltb, ◌==◌,
  if◌then◌else◌,
}
use opcda_bridge.Index.Store.{
  GenerationState, Generation, Store, superseded, failed, update_where, delete_where, count_where,
  of_server, is_staging, is_active_of,
}

abbrev pub interrupted : String
interrupted = "namespace index build interrupted by gateway restart"

abbrev pub is_staging_of : String → Generation → Bool
is_staging_of server r = of_server server r && is_staging r.state

abbrev pub with_error : Generation → Generation
with_error r = record r { last_error = some interrupted }

abbrev pub or_interrupted : Option String → Option String
or_interrupted none = some interrupted
or_interrupted (some error) = some error

abbrev pub interrupt : Bool → Generation → Generation
interrupt has_active r = record r {
  state = if has_active then superseded else failed;
  last_error = or_interrupted r.last_error;
}

-- What the opening of a database does for a server with a staging generation: `is_held` says whether
-- a living process owns its build.
unfoldable pub recover_server : Bool → String → Store → Store
recover_server is_held server s =
    if is_held || count_where (is_staging_of server) s.generations == 0 then s else record s {
      generations =
          update_where (is_staging_of server)
            (interrupt (ltb 0 (count_where (is_active_of server) s.generations)))
            (update_where (is_active_of server) with_error s.generations);
    }

abbrev pub is_superseded : GenerationState → Bool
is_superseded superseded = true
is_superseded _ = false

abbrev pub is_failed_state : GenerationState → Bool
is_failed_state failed = true
is_failed_state _ = false

-- The rows that a cleanup may delete.
abbrev pub is_garbage : Bool → (String → ℕ → Bool) → String → ℕ → Generation → Bool
is_garbage has_active has_entries server generation r =
    of_server server r
    && (r.generation == generation
        && ((is_superseded r.state || is_failed_state r.state && has_active)
            && not (has_entries r.server r.generation)))

-- The generations that a cleanup batch deletes, one candidate after the other.
unfoldable pub delete_candidates : (String → ℕ → Bool) → String → List ℕ → Store → Store
delete_candidates has_entries server [] s = s
delete_candidates has_entries server (generation ∷ candidates) s =
    delete_candidates has_entries server candidates (record s {
      generations =
          delete_where
            (is_garbage (ltb 0 (count_where (is_active_of server) s.generations)) has_entries server
              generation)
            s.generations;
    })
