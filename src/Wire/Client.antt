-- ===== src/Wire/Client.antt =====
-- crates/opcda-bridge/src/client.rs: the calls of the client library that ask the index, over a
-- connection that passes each message on to the gateway as it is, and the answer back.
use Prim.Native.String.{String}
use opcda_bridge.Base.{Bool, ite, String-discrete, if◌then◌else◌}
use opcda_bridge.Compat.{nonneg}
use opcda_bridge.Wire.Enums.{
  ProtoSearchMatchMode, match_mode_number, ProtoSearchIndexControlAction, control_action_number,
}
use opcda_bridge.Wire.Messages.{ProtoSearchIndexRequest, ProtoBrowseRequest, ProtoSearchRequest}
use opcda_bridge.Wire.Library.{
  SearchMatchMode, SearchIndexControlAction, SearchIndexRequest, SearchIndexStatus,
  SearchIndexResponse, BrowsePageRequest, SearchRequest,
}
use opcda_bridge.Wire.Read as Read
use opcda_bridge.Wire.Read.{ProtocolError}
use opcda_bridge.Wire.Convert.{convert_status, convert_response}
use opcda_bridge.Wire.Service.{
  Status, invalid_argument, not_found, failed_precondition, unimplemented, Answer, ok, err,
  deleting_message, IndexManager, get_search_index_status, refresh_search_index,
  control_search_index, search_index,
}

-- error.rs, without the errors of connecting.
pub data Error : Type 0 where
  rpc : Status → Error
  incompatible_gateway : String → Error
  unknown_index_server index_not_enrolled index_deleting : String → Error
  protocol : ProtocolError → Error

unfoldable pub feature_error : String → Status → Error
feature_error operation status = elim status.code [
  | unimplemented ↦ incompatible_gateway operation
  | _ ↦ rpc status
]

-- `quoted` is the quoted form of a name, as the gateway's messages have it.
unfoldable pub index_operation_error : (String → String) → String → String → Status → Error
index_operation_error quoted operation server status = elim status.code [
  | unimplemented ↦ incompatible_gateway operation
  | invalid_argument ↦ unknown_index_server server
  | not_found ↦ index_not_enrolled server
  | failed_precondition ↦
      ite (String-discrete status.message (deleting_message (quoted server)))
        (index_deleting server) (rpc status)
  | _ ↦ rpc status
]

abbrev pub mode_value : SearchMatchMode → ProtoSearchMatchMode
mode_value SearchMatchMode.exact = ProtoSearchMatchMode.exact
mode_value SearchMatchMode.prefix = ProtoSearchMatchMode.prefix
mode_value SearchMatchMode.contains = ProtoSearchMatchMode.contains

abbrev pub action_value : SearchIndexControlAction → ProtoSearchIndexControlAction
action_value SearchIndexControlAction.pause = ProtoSearchIndexControlAction.pause
action_value SearchIndexControlAction.resume = ProtoSearchIndexControlAction.resume
action_value SearchIndexControlAction.cancel = ProtoSearchIndexControlAction.cancel
action_value SearchIndexControlAction.enable_auto_refresh =
    ProtoSearchIndexControlAction.enable_auto_refresh
action_value SearchIndexControlAction.disable_auto_refresh =
    ProtoSearchIndexControlAction.disable_auto_refresh
action_value SearchIndexControlAction.delete = ProtoSearchIndexControlAction.delete

-- The conversions of requests, of types/conversions.rs.
unfoldable pub index_request : SearchIndexRequest → ProtoSearchIndexRequest
index_request value = record {
  server = value.server;
  query = value.query;
  match_mode = nonneg (match_mode_number (mode_value value.match_mode));
  max_results = value.max_results;
}

unfoldable pub browse_request : BrowsePageRequest → ProtoBrowseRequest
browse_request value = record {
  server = value.server;
  session_id = value.session_id;
  parent_node_key = value.parent_node_key;
  page_token = value.page_token;
  page_size = value.page_size;
  refresh = value.refresh;
}

unfoldable pub search_request : SearchRequest → ProtoSearchRequest
search_request value = record {
  server = value.server;
  query = value.query;
  match_mode = nonneg (match_mode_number (mode_value value.match_mode));
  session_id = value.session_id;
  scope_node_key = value.scope_node_key;
  max_results = value.max_results;
  include_branches = value.include_branches;
  refresh = value.refresh;
}

abbrev pub read_answer : {A : Type 0} → Read.Result A → Answer Error A
read_answer (Read.ok a) = ok a
read_answer (Read.err e) = err (protocol e)

-- `map_err(f)?.into_inner().try_into()`.
abbrev pub received :
    {S M A : Type 0}
    → (Status → Error)
    → (M → Read.Result A)
    → S × Answer Status M
    → S × Answer Error A
received f read (s, ok m) = (s, read_answer (read m))
received f read (s, err e) = (s, err (f e))

module _ (V : Type 0) (manager : IndexManager V) where
  open manager use {State, quoted}

  unfoldable pub client_status_call : String → State → State × Answer Error (SearchIndexStatus V)
  client_status_call server s =
      received (feature_error "indexed-search status") convert_status
        (get_search_index_status V manager server s)

  unfoldable pub client_refresh : String → Bool → State → State × Answer Error (SearchIndexStatus V)
  client_refresh server force s =
      received (index_operation_error quoted "indexed-search refresh" server) convert_status
        (refresh_search_index V manager server force s)

  unfoldable pub client_control :
      String → SearchIndexControlAction → State → State × Answer Error (SearchIndexStatus V)
  client_control server action s =
      received (index_operation_error quoted "indexed-search control" server) convert_status (
        control_search_index V manager server (nonneg (control_action_number (action_value action)))
          s)

  unfoldable pub set_search_index_auto_refresh :
      String → Bool → State → State × Answer Error (SearchIndexStatus V)
  unfolding client_control
  set_search_index_auto_refresh server enabled s =
      client_control server
        (if enabled
          then SearchIndexControlAction.enable_auto_refresh
          else SearchIndexControlAction.disable_auto_refresh)
        s

  unfoldable pub delete_search_index : String → State → State × Answer Error (SearchIndexStatus V)
  unfolding client_control
  delete_search_index server s = client_control server SearchIndexControlAction.delete s

  unfoldable pub client_search :
      SearchIndexRequest → State → State × Answer Error (SearchIndexResponse V)
  client_search request s =
      received (feature_error "indexed search") convert_response
        (search_index V manager (index_request request) s)
