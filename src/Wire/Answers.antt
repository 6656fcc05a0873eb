-- ===== src/Wire/Answers.antt =====
-- What a client makes of the errors, matches and answers of the gateway's manager of the index.
use Prim.Native.String.{String}
use opcda_bridge.Base.{
  ◌≡◌, refl, Bool, true, false, List, [], ◌∷◌, map, arith, all, ite, if◌then◌else◌, String-discrete,
}
use opcda_bridge.Compat.{nonneg}
use opcda_bridge.Index.Status.{IndexStatus}
use opcda_bridge.Wire.Enums.{
  match_mode_number, match_mode_of, control_action_number, control_action_of, node_kind_number,
  node_kind_of,
}
use opcda_bridge.Wire.Library as Library
use opcda_bridge.Wire.Library.{SearchMatchMode, SearchIndexControlAction, SearchIndexRequest}
use opcda_bridge.Wire.Gateway.{InventoryNodeKind, IndexedMatch, map_match_kind, map_index_match}
use opcda_bridge.Wire.Read as Read
use opcda_bridge.Wire.Read.{match_without_item_id, node_kind, collect}
use opcda_bridge.Wire.Convert.{convert_match, convert_response}
use opcda_bridge.Wire.Statuses.{client_status, convert_status-map}
use opcda_bridge.Wire.Service.{
  IndexOperationError, unknown_server, not_enrolled, being_deleted, internal_error,
  IndexControlAction, pause, resume, cancel, enable_auto_refresh, disable_auto_refresh, delete,
  Answer, ok, err, IndexedSearch, IndexManager, internal_status, index_error, control_action,
  search_mode, response_of,
}
use opcda_bridge.Wire.Client.{
  Error, rpc, unknown_index_server, index_not_enrolled, index_deleting, protocol, mode_value,
  action_value, read_answer, index_operation_error,
}

-- The error that a client has for one of the manager.
abbrev pub client_error : String → IndexOperationError → Error
client_error server (unknown_server t) = unknown_index_server server
client_error server (not_enrolled t) = index_not_enrolled server
client_error server (being_deleted t) = index_deleting server
client_error server (internal_error message) = rpc (internal_status message)

-- An error of the manager names the server that it was asked about.
abbrev pub Names : String → IndexOperationError → Type 0
Names server (unknown_server t) = t ≡ server
Names server (not_enrolled t) = t ≡ server
Names server (being_deleted t) = t ≡ server
Names server (internal_error message) = Unit {0}

abbrev pub NamesIn : {S A : Type 0} → String → S × Answer IndexOperationError A → Type 0
NamesIn server (s, ok a) = Unit {0}
NamesIn server (s, err e) = Names server e

pub error-client_error :
    (quoted : String → String) (operation server : String) (e : IndexOperationError)
    → Names server e
    → index_operation_error quoted operation server (index_error quoted e) ≡ client_error server e
unfolding index_operation_error index_error
error-client_error quoted operation server (unknown_server t) n = refl
error-client_error quoted operation server (not_enrolled t) n = refl
error-client_error quoted operation server (being_deleted t) n = rw n (ground arith)
error-client_error quoted operation server (internal_error message) n = refl

abbrev pub gateway_action : SearchIndexControlAction → IndexControlAction
gateway_action SearchIndexControlAction.pause = pause
gateway_action SearchIndexControlAction.resume = resume
gateway_action SearchIndexControlAction.cancel = cancel
gateway_action SearchIndexControlAction.enable_auto_refresh = enable_auto_refresh
gateway_action SearchIndexControlAction.disable_auto_refresh = disable_auto_refresh
gateway_action SearchIndexControlAction.delete = delete

pub action_lem :
    (a : SearchIndexControlAction)
    → control_action (nonneg (control_action_number (action_value a))) ≡ ok (gateway_action a)
unfolding control_action control_action_of
action_lem SearchIndexControlAction.pause = refl
action_lem SearchIndexControlAction.resume = refl
action_lem SearchIndexControlAction.cancel = refl
action_lem SearchIndexControlAction.enable_auto_refresh = refl
action_lem SearchIndexControlAction.disable_auto_refresh = refl
action_lem SearchIndexControlAction.delete = refl

pub mode_lem :
    (m : SearchMatchMode)
    → search_mode (nonneg (match_mode_number (mode_value m))) ≡ ok (mode_value m)
unfolding search_mode match_mode_of
mode_lem SearchMatchMode.exact = refl
mode_lem SearchMatchMode.prefix = refl
mode_lem SearchMatchMode.contains = refl

-- The matches as the client has them.
abbrev client_match_kind : InventoryNodeKind → Library.BrowseNodeKind
client_match_kind InventoryNodeKind.item = Library.BrowseNodeKind.item
client_match_kind InventoryNodeKind.branch_and_item = Library.BrowseNodeKind.branch_and_item

abbrev client_match : IndexedMatch → Library.IndexedSearchMatch
client_match m = record {
  item_id = m.item_id;
  display_name = m.display_name;
  kind = client_match_kind m.kind;
  breadcrumbs = m.breadcrumbs;
}

abbrev has_item_id : IndexedMatch → Bool
has_item_id m = ite (String-discrete m.item_id "") false true

match_kind_lem :
    (k : InventoryNodeKind)
    → node_kind (nonneg (node_kind_number (map_match_kind k))) ≡ Read.ok (client_match_kind k)
unfolding node_kind node_kind_of
match_kind_lem InventoryNodeKind.item = refl
match_kind_lem InventoryNodeKind.branch_and_item = refl

abbrev checked : {A : Type 0} → Bool → A → Read.Result A
checked named a = if named then Read.ok a else Read.err match_without_item_id

convert_match-map :
    (m : IndexedMatch)
    → convert_match (map_index_match m) ≡ checked (has_item_id m) (client_match m)
unfolding convert_match map_index_match
convert_match-map m = rw (match_kind_lem m.kind) (ground arith)

collect_matches :
    (ms : List IndexedMatch)
    → collect convert_match (map map_index_match ms)
      ≡ checked (all has_item_id ms) (map client_match ms)
unfolding collect all
collect_matches [] = refl
collect_matches (m ∷ ms) = rw (convert_match-map m, collect_matches ms) (ground arith)

-- The manager's answer to a search as the client reads it.
abbrev pub client_response :
    {V : Type 0} → IndexedSearch V → Answer Error (Library.SearchIndexResponse V)
client_response result =
    if all has_item_id result.matches
    then ok (record {
      matches = map client_match result.matches;
      has_more = result.has_more;
      status = client_status result.status;
    })
    else err (protocol match_without_item_id)

pub response_lem :
    {V : Type 0} (manager : IndexManager V) (result : IndexedSearch V)
    → read_answer (convert_response (response_of V manager result)) ≡ client_response result
unfolding convert_response
response_lem manager result =
    rw (collect_matches result.matches, convert_status-map result.status) (ground arith)

abbrev pub relayed :
    {S E A B : Type 0} → (E → Error) → (A → Answer Error B) → S × Answer E A → S × Answer Error B
relayed f g (s, ok a) = (s, g a)
relayed f g (s, err e) = (s, err (f e))

abbrev pub internal_error_of : String → Error
internal_error_of message = rpc (internal_status message)

abbrev pub read_status : {V : Type 0} → IndexStatus V → Answer Error (Library.SearchIndexStatus V)
read_status status = ok (client_status status)
