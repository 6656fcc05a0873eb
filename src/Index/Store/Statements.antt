-- ===== src/Index/Store/Statements.antt =====
-- The calls that change the tables of index/store.rs, as data: those of that file, the opening of a
-- database included, and the cleanup of index/scheduler.rs.
use Prim.Native.String.{String}
use opcda_bridge.Base.{ℕ, Bool, List}
use opcda_bridge.Browse.{NamespaceOrganization, BrowseSource}
use opcda_bridge.Index.Store.{
  Store, Promotion, enroll, start_generation, record_failed_attempt, promote_with_profile,
  fail_generation, discard_empty_generation, clear_server, delete_index, set_auto_refresh,
  update_progress,
}
use opcda_bridge.Index.Store.Recovery.{recover_server, delete_candidates}

-- A statement of the store.
pub data Statement : Type 0 where
  enrolls : String → Statement
  starts : String → NamespaceOrganization → BrowseSource → String → Statement
  records_failure : String → String → String → Statement
  promotes : String → ℕ → Promotion → Statement
  fails : String → ℕ → String → Statement
  discards : (String → ℕ → Bool) → String → ℕ → Statement
  clears : String → Statement
  deletes : String → Statement
  sets_auto_refresh : String → Bool → Statement
  updates_progress : String → ℕ → ℕ → ℕ → Statement
  recovers : Bool → String → Statement
  cleans : (String → ℕ → Bool) → String → List ℕ → Statement

unfoldable pub execute : Statement → Store → Store
execute (enrolls server) s = enroll server s
execute (starts server o b at) s = (start_generation server o b at s).0
execute (records_failure server at error) s = record_failed_attempt server at error s
execute (promotes server g p) s = (promote_with_profile server g p s).0
execute (fails server g error) s = fail_generation server g error s
execute (discards has_entries server g) s = (discard_empty_generation has_entries server g s).0
execute (clears server) s = clear_server server s
execute (deletes server) s = delete_index server s
execute (sets_auto_refresh server enabled) s = (set_auto_refresh server enabled s).0
execute (updates_progress server g entries items) s = (update_progress server g entries items s).0
execute (recovers is_held server) s = recover_server is_held server s
execute (cleans has_entries server candidates) s = delete_candidates has_entries server candidates s
