-- ===== src/Wire/Convert.antt =====
-- crates/opcda-bridge/src/types/conversions.rs: the conversions of the messages.
mod Statuses
unfoldable pub use Statuses.*
use opcda_bridge.Base.{
  true, false, not, ◌&&◌, Option, none, some, List, [], ◌∷◌, is_some, ite, String-discrete,
}
use opcda_bridge.Wire.Read.{
  selectable_without_item_id, item_id_without_selectable, complete_with_token,
  incomplete_without_token, match_not_selectable, match_without_item_id, results_without_status,
  match_without_node, empty_event, Result, ok, err, ◌>>=◌, ok_or, guard, mapped, transposed,
  collect, organization, source, node_kind, search_index_state, index_controller_state,
  index_pause_reason, index_health_state,
}
use opcda_bridge.Wire.Messages.{
  ProtoBrowseNode, ProtoBrowsePage, ProtoIndexedSearchProgress, ProtoIndexInventoryLimits,
  ProtoIndexForegroundDiagnostics, ProtoIndexHostDiagnostics, ProtoIndexStorageDiagnostics,
  ProtoIndexSchedulerDiagnostics, ProtoIndexHealthDiagnostics, ProtoSearchIndexStatus,
  ProtoIndexedSearchMatch, ProtoSearchIndexResponse, ProtoGetCapabilitiesResponse,
  ProtoBrowseBreadcrumb, ProtoEvent, found, progress, completed, ProtoSearchEvent,
}
use opcda_bridge.Wire.Library.{
  IndexHealthState, Capabilities, BrowseNode, BrowsePage, BrowseBreadcrumb, SearchEvent,
  IndexInventoryLimits, IndexForegroundDiagnostics, IndexHostDiagnostics, IndexStorageDiagnostics,
  IndexSchedulerDiagnostics, IndexHealthDiagnostics, IndexedSearchProgress, SearchIndexStatus,
  IndexedSearchMatch, SearchIndexResponse, is_item,
}

unfoldable pub convert_node : ProtoBrowseNode → Result BrowseNode
convert_node value = do
  kind ← node_kind value.kind
  _ ← guard (is_item kind && not (is_some value.item_id)) selectable_without_item_id
  _ ← guard (not (is_item kind) && is_some value.item_id) item_id_without_selectable
  ok (record {
    node_key = value.node_key;
    display_name = value.display_name;
    kind = kind;
    item_id = value.item_id;
  })

unfoldable pub convert_page : ProtoBrowsePage → Result BrowsePage
convert_page value = do
  _ ← guard (value.complete && is_some value.next_page_token) complete_with_token
  _ ← guard (not value.complete && not (is_some value.next_page_token)) incomplete_without_token
  nodes ← collect convert_node value.nodes
  read_organization ← organization value.organization
  read_source ← source value.source
  ok (record {
    session_id = value.session_id;
    nodes = nodes;
    next_page_token = value.next_page_token;
    complete = value.complete;
    organization = read_organization;
    source = read_source;
    warning = value.warning;
  })

unfoldable pub convert_capabilities : ProtoGetCapabilitiesResponse → Result Capabilities
convert_capabilities value = do
  read_organization ← organization value.organization
  read_source ← source value.source
  state ← search_index_state value.search_index_state
  ok (record {
    application_version = value.application_version;
    protocol_version = value.protocol_version;
    max_page_size = value.max_page_size;
    supports_browse_sessions = value.supports_browse_sessions;
    supports_search = value.supports_search;
    organization = read_organization;
    source = read_source;
    supports_indexed_search = value.supports_indexed_search;
    indexed_search_protocol_version = value.indexed_search_protocol_version;
    max_indexed_search_results = value.max_indexed_search_results;
    search_index_state = state;
    search_index_promoting = value.search_index_promoting;
  })

unfoldable pub convert_match : ProtoIndexedSearchMatch → Result IndexedSearchMatch
convert_match value = do
  kind ← node_kind value.kind
  _ ← guard (not (is_item kind)) match_not_selectable
  _ ← guard (ite (String-discrete value.item_id "") true false) match_without_item_id
  ok (record {
    item_id = value.item_id;
    display_name = value.display_name;
    kind = kind;
    breadcrumbs = value.breadcrumbs;
  })

unfoldable pub convert_response :
    {V : Type 0} → ProtoSearchIndexResponse V → Result (SearchIndexResponse V)
convert_response value = do
  matches ← collect convert_match value.matches
  wire_status ← ok_or value.status results_without_status
  status ← convert_status wire_status
  ok (record { matches = matches; has_more = value.has_more; status = status })

abbrev pub convert_breadcrumb : ProtoBrowseBreadcrumb → BrowseBreadcrumb
convert_breadcrumb part = record { node_key = part.node_key; display_name = part.display_name }

abbrev pub convert_breadcrumbs : List ProtoBrowseBreadcrumb → List BrowseBreadcrumb
convert_breadcrumbs [] = []
convert_breadcrumbs (part ∷ parts) = convert_breadcrumb part ∷ convert_breadcrumbs parts

abbrev pub convert_event_value : Option ProtoEvent → Result SearchEvent
convert_event_value none = err empty_event
convert_event_value (some (found m)) = do
  wire_node ← ok_or m.node match_without_node
  node ← convert_node wire_node
  ok (SearchEvent.found (record { node = node; breadcrumbs = convert_breadcrumbs m.breadcrumbs }))
convert_event_value (some (progress p)) = ok (
    SearchEvent.progress
      (record { visited_nodes = p.visited_nodes; matches = p.matches; partial = p.partial }))
convert_event_value (some (completed c)) = ok (
    SearchEvent.completed (record {
      complete = c.complete;
      cancelled = c.cancelled;
      truncated = c.truncated;
      warning = c.warning;
    }))

unfoldable pub convert_event : ProtoSearchEvent → Result SearchEvent
convert_event value = convert_event_value value.event
