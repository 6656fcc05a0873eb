-- ===== src/Wire/Service.antt =====
-- crates/opcda-bridge-gateway/src/server/service.rs: the calls that ask the index, with the errors of
-- server/map.rs. The manager of the index is an interface, and so are the case folding of a query and
-- the quoted form of a name. A status of the transport has one of the codes that the sources name.
use Prim.Native.String.{String, ◌++◌ as append, count}
use opcda_bridge.Base.{ℕ, Bool, none, some, List, map, ite, ltb, if◌then◌else◌, String-discrete}
use opcda_bridge.Compat.{Int32}
use opcda_bridge.Index.Status.{IndexStatus}
use opcda_bridge.Wire.Enums.{
  ProtoSearchMatchMode, match_mode_number, match_mode_of, ProtoSearchIndexControlAction,
  control_action_of,
}
use opcda_bridge.Wire.Messages.{
  ProtoSearchIndexStatus, ProtoSearchIndexRequest, ProtoSearchIndexResponse,
}
use opcda_bridge.Wire.Gateway.{IndexedMatch, map_index_match, map_index_status}

pub data Code : Type 0 where
  invalid_argument not_found failed_precondition internal unimplemented : Code
  unavailable deadline_exceeded cancelled : Code
  other : ℕ → Code

pub record Status : Type 0 where
  pub code : Code
  pub message : String

-- index/enrollment.rs. An internal error is its message.
pub data IndexOperationError : Type 0 where
  unknown_server not_enrolled being_deleted internal_error : String → IndexOperationError

pub data IndexControlAction : Type 0 where
  pause resume cancel enable_auto_refresh disable_auto_refresh delete : IndexControlAction

pub data Answer (E A : Type 0) : Type 0 where
  ok : A → Answer E A
  err : E → Answer E A

pub record IndexedSearch (V : Type 0) : Type 0 where
  pub matches : List IndexedMatch
  pub has_more : Bool
  pub status : IndexStatus V

pub record IndexManager (V : Type 0) : Type 1 where
  pub State : Type 0
  pub status : String → State → State × Answer String (IndexStatus V)
  pub refresh : String → Bool → State → State × Answer IndexOperationError (IndexStatus V)
  pub control : String → IndexControlAction → State → State × Answer IndexOperationError (Unit {0})
  pub search : String → String → ℕ → ℕ → State → State × Answer String (IndexedSearch V)
  pub normalize_query : String → String
  pub quoted : String → String

abbrev pub internal_status : String → Status
internal_status message = record { code = internal; message = message }

abbrev pub invalid : String → Status
invalid message = record { code = invalid_argument; message = message }

abbrev pub deleting_message : String → String
deleting_message name =
    append "namespace index for OPC DA server " (append name " is being deleted")

unfoldable pub index_error : (String → String) → IndexOperationError → Status
index_error quoted (unknown_server server) =
    invalid (append "OPC DA server " (append (quoted server) " is not registered"))
index_error quoted (not_enrolled server) = record {
  code = not_found;
  message = append "namespace index for OPC DA server " (append (quoted server) " is not enrolled");
}
index_error quoted (being_deleted server) = record {
  code = failed_precondition;
  message = deleting_message (quoted server);
}
index_error quoted (internal_error message) = internal_status message

-- `map_err(f)` and `map(g)` of a call's answer.
abbrev pub answered : {S E F A B : Type 0} → (E → F) → (A → B) → S × Answer E A → S × Answer F B
answered f g (s, ok a) = (s, ok (g a))
answered f g (s, err e) = (s, err (f e))

-- The call goes on after a success.
abbrev pub and_then :
    {S E F A B : Type 0} → (E → F) → S × Answer E A → (A → S → S × Answer F B) → S × Answer F B
and_then f (s, ok a) k = k a s
and_then f (s, err e) k = (s, err (f e))

unfoldable pub control_action : Int32 → Answer Status IndexControlAction
control_action value = elim (control_action_of value) [
  | none ↦ err (invalid "unknown index control action")
  | some ProtoSearchIndexControlAction.pause ↦ ok pause
  | some ProtoSearchIndexControlAction.resume ↦ ok resume
  | some ProtoSearchIndexControlAction.cancel ↦ ok cancel
  | some ProtoSearchIndexControlAction.enable_auto_refresh ↦ ok enable_auto_refresh
  | some ProtoSearchIndexControlAction.disable_auto_refresh ↦ ok disable_auto_refresh
  | some ProtoSearchIndexControlAction.delete ↦ ok delete
  | some ProtoSearchIndexControlAction.unspecified ↦
      err (invalid "index control action is required")
]

-- A search without a mode is for texts that contain the query.
unfoldable pub search_mode : Int32 → Answer Status ProtoSearchMatchMode
search_mode value = elim (match_mode_of value) [
  | none ↦ err (invalid "unknown search match mode")
  | some ProtoSearchMatchMode.exact ↦ ok ProtoSearchMatchMode.exact
  | some ProtoSearchMatchMode.prefix ↦ ok ProtoSearchMatchMode.prefix
  | some ProtoSearchMatchMode.contains ↦ ok ProtoSearchMatchMode.contains
  | some ProtoSearchMatchMode.unspecified ↦ ok ProtoSearchMatchMode.contains
]

abbrev pub minimum_length : ProtoSearchMatchMode → ℕ
minimum_length ProtoSearchMatchMode.exact = 2
minimum_length ProtoSearchMatchMode.prefix = 2
minimum_length _ = 3

-- The text of the last error names the mode and the minimum.
abbrev pub too_short : ProtoSearchMatchMode → Status
too_short ProtoSearchMatchMode.exact =
    invalid "indexed Exact searches require at least 2 characters"
too_short ProtoSearchMatchMode.prefix =
    invalid "indexed Prefix searches require at least 2 characters"
too_short _ = invalid "indexed Contains searches require at least 3 characters"

module _ (V : Type 0) (manager : IndexManager V) where
  open manager use {State, status, refresh, control, search, normalize_query, quoted}

  abbrev pub Reply : Type 0 → Type 0
  Reply A = State × Answer Status A

  unfoldable pub get_search_index_status : String → State → Reply (ProtoSearchIndexStatus V)
  get_search_index_status server s = answered internal_status map_index_status (status server s)

  unfoldable pub refresh_search_index : String → Bool → State → Reply (ProtoSearchIndexStatus V)
  refresh_search_index server force s =
      answered (index_error quoted) map_index_status (refresh server force s)

  abbrev status_after : String → Unit {0} → State → Reply (ProtoSearchIndexStatus V)
  status_after server u s = answered internal_status map_index_status (status server s)

  abbrev controlled :
      String → Answer Status IndexControlAction → State → Reply (ProtoSearchIndexStatus V)
  controlled server (err e) s = (s, err e)
  controlled server (ok action) s =
      and_then (index_error quoted) (control server action s) (status_after server)

  unfoldable pub control_search_index : String → Int32 → State → Reply (ProtoSearchIndexStatus V)
  control_search_index server action s = controlled server (control_action action) s

  abbrev pub response_of : IndexedSearch V → ProtoSearchIndexResponse V
  response_of result = record {
    matches = map map_index_match result.matches;
    has_more = result.has_more;
    status = some (map_index_status result.status);
  }

  abbrev searched :
      ProtoSearchIndexRequest
      → Answer Status ProtoSearchMatchMode
      → State
      → Reply (ProtoSearchIndexResponse V)
  searched request (err e) s = (s, err e)
  searched request (ok mode) s =
      ite (String-discrete (normalize_query request.query) "")
        (s, err (invalid "search query must not be empty"))
        (if ltb (count (normalize_query request.query)) (minimum_length mode)
          then (s, err (too_short mode))
          else answered internal_status response_of
              (search request.server request.query (match_mode_number mode) request.max_results s))

  unfoldable pub search_index : ProtoSearchIndexRequest → State → Reply (ProtoSearchIndexResponse V)
  search_index request s = searched request (search_mode request.match_mode) s
