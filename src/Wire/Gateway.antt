-- ===== src/Wire/Gateway.antt =====
-- crates/opcda-bridge-gateway/src/server/map.rs: the gateway's answers as messages.
use Prim.Native.String.{String}
use opcda_bridge.Base.{Bool, true, false, Option, none, some, List, map}
use opcda_bridge.Compat.{nonneg}
use opcda_bridge.Browse.{
  NamespaceOrganization, BrowseSource, BrowseNodeKind, BrowseNode, BrowsePage,
}
use opcda_bridge.Controller.{PauseReason, ControllerState, InventoryLimits}
use opcda_bridge.Query.Search.{IndexState}
use opcda_bridge.Index.{HealthProbeState}
use opcda_bridge.Index.Metrics.{ForegroundMetrics}
use opcda_bridge.Index.Status.{
  InventoryProgress, HostMetrics, StorageDiagnostics, SchedulerDiagnostics, IndexStatus,
}
use opcda_bridge.Wire.Enums.{
  ProtoNamespaceOrganization, organization_number, ProtoBrowseSource, source_number,
  ProtoBrowseNodeKind, node_kind_number, ProtoSearchIndexState, index_state_number,
  ProtoIndexControllerState, controller_state_number, ProtoIndexPauseReason, pause_reason_number,
  ProtoIndexHealthState, health_state_number,
}
use opcda_bridge.Wire.Messages.{
  ProtoBrowseNode, ProtoBrowsePage, ProtoIndexedSearchProgress, ProtoIndexInventoryLimits,
  ProtoIndexForegroundDiagnostics, ProtoIndexHostDiagnostics, ProtoIndexStorageDiagnostics,
  ProtoIndexSchedulerDiagnostics, ProtoSearchIndexStatus, ProtoIndexedSearchMatch,
}

abbrev pub mapped : {A B : Type 0} → (A → B) → Option A → Option B
mapped f none = none
mapped f (some a) = some (f a)

unfoldable pub map_namespace_organization : NamespaceOrganization → ProtoNamespaceOrganization
map_namespace_organization NamespaceOrganization.unspecified_organization =
    ProtoNamespaceOrganization.unspecified
map_namespace_organization NamespaceOrganization.flat = ProtoNamespaceOrganization.flat
map_namespace_organization NamespaceOrganization.hierarchical =
    ProtoNamespaceOrganization.hierarchical

unfoldable pub map_browse_source : BrowseSource → ProtoBrowseSource
map_browse_source BrowseSource.unspecified_source = ProtoBrowseSource.unspecified
map_browse_source BrowseSource.da3 = ProtoBrowseSource.da3
map_browse_source BrowseSource.da2 = ProtoBrowseSource.da2
map_browse_source BrowseSource.flat_source = ProtoBrowseSource.flat
map_browse_source BrowseSource.derived = ProtoBrowseSource.derived

unfoldable pub map_node_kind : BrowseNodeKind → ProtoBrowseNodeKind
map_node_kind BrowseNodeKind.branch = ProtoBrowseNodeKind.branch
map_node_kind BrowseNodeKind.item = ProtoBrowseNodeKind.item
map_node_kind BrowseNodeKind.branch_and_item = ProtoBrowseNodeKind.branch_and_item

-- A branch has no ItemID.
abbrev pub item_id_of : BrowseNodeKind → Option String → Option String
item_id_of BrowseNodeKind.branch id = none
item_id_of _ id = id

unfoldable pub map_browse_node : BrowseNode → ProtoBrowseNode
unfolding map_node_kind
map_browse_node node = record {
  node_key = node.node_key;
  display_name = node.display_name;
  kind = nonneg (node_kind_number (map_node_kind node.kind));
  item_id = item_id_of node.kind node.item_id;
}

unfoldable pub map_browse_page : String → BrowsePage → ProtoBrowsePage
unfolding map_browse_node map_namespace_organization map_browse_source
map_browse_page session_id page = record {
  session_id = session_id;
  nodes = map map_browse_node page.nodes;
  next_page_token = page.next_page_token;
  complete = page.complete;
  organization = nonneg (organization_number (map_namespace_organization page.organization));
  source = nonneg (source_number (map_browse_source page.source));
  warning = page.warning;
}

unfoldable pub map_index_state : IndexState → ProtoSearchIndexState
map_index_state IndexState.not_indexed = ProtoSearchIndexState.not_indexed
map_index_state IndexState.partial = ProtoSearchIndexState.partial
map_index_state IndexState.ready = ProtoSearchIndexState.ready
map_index_state IndexState.stale = ProtoSearchIndexState.stale
map_index_state IndexState.refreshing = ProtoSearchIndexState.refreshing
map_index_state IndexState.promoting = ProtoSearchIndexState.refreshing
map_index_state IndexState.failed = ProtoSearchIndexState.failed
map_index_state IndexState.deleting = ProtoSearchIndexState.deleting

abbrev pub is_promoting_state : IndexState → Bool
is_promoting_state IndexState.promoting = true
is_promoting_state _ = false

unfoldable pub map_controller_state : Option ControllerState → ProtoIndexControllerState
map_controller_state none = ProtoIndexControllerState.unspecified
map_controller_state (some ControllerState.ramping) = ProtoIndexControllerState.ramping
map_controller_state (some ControllerState.steady) = ProtoIndexControllerState.steady
map_controller_state (some ControllerState.throttled) = ProtoIndexControllerState.throttled
map_controller_state (some (ControllerState.paused reason)) = ProtoIndexControllerState.paused

unfoldable pub map_pause_reason : PauseReason → Option ProtoIndexPauseReason
map_pause_reason PauseReason.foreground = some ProtoIndexPauseReason.foreground
map_pause_reason PauseReason.opc_health = some ProtoIndexPauseReason.opc_health
map_pause_reason PauseReason.host_cpu = some ProtoIndexPauseReason.host_cpu
map_pause_reason PauseReason.memory = some ProtoIndexPauseReason.memory
map_pause_reason PauseReason.disk = some ProtoIndexPauseReason.disk
map_pause_reason PauseReason.database = some ProtoIndexPauseReason.database
map_pause_reason PauseReason.operator = some ProtoIndexPauseReason.operator
map_pause_reason PauseReason.circuit = some ProtoIndexPauseReason.circuit
map_pause_reason PauseReason.maintenance = none

-- PauseReason::as_str of controller.rs.
unfoldable pub reason_text : PauseReason → String
reason_text PauseReason.foreground = "foreground"
reason_text PauseReason.opc_health = "opc_health"
reason_text PauseReason.host_cpu = "host_cpu"
reason_text PauseReason.memory = "memory"
reason_text PauseReason.disk = "disk"
reason_text PauseReason.database = "database"
reason_text PauseReason.operator = "operator"
reason_text PauseReason.circuit = "circuit"
reason_text PauseReason.maintenance = "maintenance"

abbrev pub reason_on_wire : Option PauseReason → Option ProtoIndexPauseReason
reason_on_wire none = none
reason_on_wire (some reason) = map_pause_reason reason

unfoldable pub map_health_state : HealthProbeState → ProtoIndexHealthState
map_health_state HealthProbeState.unavailable = ProtoIndexHealthState.unavailable
map_health_state HealthProbeState.healthy = ProtoIndexHealthState.healthy
map_health_state HealthProbeState.unhealthy = ProtoIndexHealthState.unhealthy

unfoldable pub map_inventory_progress :
    {V : Type 0} → InventoryProgress V → ProtoIndexedSearchProgress V
map_inventory_progress progress = record {
  branches_visited = progress.branches_visited;
  entries_seen = progress.entries_seen;
  unique_items = progress.unique_items;
  active_time_ms = progress.active_time_ms;
  paused_time_ms = progress.paused_time_ms;
  items_per_second = progress.items_per_second;
  estimated_remaining_ms = progress.estimated_remaining_ms;
}

unfoldable pub map_limits : InventoryLimits → ProtoIndexInventoryLimits
map_limits limits = record {
  item_rate_per_second = limits.item_rate_per_second;
  batch_size = limits.batch_size;
  duty_cycle_percent = limits.duty_cycle_percent;
}

unfoldable pub map_foreground : ForegroundMetrics → ProtoIndexForegroundDiagnostics
map_foreground metrics = record {
  active_count = metrics.active_count;
  operations = metrics.operations;
  errors = metrics.errors;
  bad_quality = metrics.bad_quality;
  latency_p50_ms = metrics.latency_p50_ms;
  latency_p95_ms = metrics.latency_p95_ms;
  latency_max_ms = metrics.latency_max_ms;
  last_error = metrics.last_error;
  last_bad_quality = metrics.last_bad_quality;
}

unfoldable pub map_host : {V : Type 0} → HostMetrics V → ProtoIndexHostDiagnostics V
map_host metrics = record {
  cpu_percent = metrics.cpu_percent;
  available_memory_percent = metrics.available_memory_percent;
  disk_active_percent = metrics.disk_active_percent;
  disk_queue = metrics.disk_queue;
  process_working_set_bytes = metrics.process_working_set_bytes;
  process_private_bytes = metrics.process_private_bytes;
  process_read_bytes_per_second = metrics.process_read_bytes_per_second;
  process_write_bytes_per_second = metrics.process_write_bytes_per_second;
  disk_free_bytes = metrics.disk_free_bytes;
}

unfoldable pub map_storage : StorageDiagnostics → ProtoIndexStorageDiagnostics
map_storage storage = record {
  main_bytes = storage.main_bytes;
  wal_bytes = storage.wal_bytes;
  shm_bytes = storage.shm_bytes;
  free_bytes = storage.free_bytes;
  last_commit_latency_ms = storage.last_commit_latency_ms;
}

unfoldable pub map_scheduler : SchedulerDiagnostics → ProtoIndexSchedulerDiagnostics
map_scheduler scheduler = record {
  next_refresh_at = scheduler.next_refresh_at;
  last_attempt_at = scheduler.last_attempt_at;
  last_success_at = scheduler.last_success_at;
  last_success_duration_ms = scheduler.last_success_duration_ms;
  retry_after = scheduler.retry_after;
  consecutive_failures = scheduler.consecutive_failures;
  circuit_open = scheduler.circuit_open;
}

unfoldable pub map_index_status : {V : Type 0} → IndexStatus V → ProtoSearchIndexStatus V
unfolding map_inventory_progress map_limits map_foreground map_host map_storage map_scheduler
map_index_status status = record {
  server = status.server;
  state = nonneg (index_state_number (map_index_state status.state));
  configured = status.auto_refresh_enabled;
  active_generation = status.active_generation;
  entry_count = status.entry_count;
  unique_item_count = status.unique_item_count;
  started_at = status.started_at;
  completed_at = status.completed_at;
  last_error = status.last_error;
  database_bytes = status.database_bytes;
  organization = nonneg (organization_number (map_namespace_organization status.organization));
  source = nonneg (source_number (map_browse_source status.source));
  progress = mapped map_inventory_progress status.progress;
  effective_limits = mapped map_limits status.effective_limits;
  controller_state =
      nonneg (controller_state_number (map_controller_state status.controller_state));
  pause_reason = mapped (λ r. nonneg (pause_reason_number r)) (reason_on_wire status.pause_reason);
  recovery_deadline = status.recovery_deadline;
  foreground = some (map_foreground status.foreground_metrics);
  host = some (map_host status.host_metrics);
  storage = some (map_storage status.storage);
  scheduler = some (map_scheduler status.scheduler);
  health = some (record {
    state = nonneg (health_state_number (map_health_state status.health));
    sentinel_configured = status.sentinel_configured;
  });
  promoting = is_promoting_state status.state;
  pause_reason_detail = mapped reason_text status.pause_reason;
}

-- InventoryNodeKind of opc.rs, and IndexedMatch of index/query.rs.
pub data InventoryNodeKind : Type 0 where
  item branch_and_item : InventoryNodeKind

pub record IndexedMatch : Type 0 where
  pub item_id : String
  pub display_name : String
  pub kind : InventoryNodeKind
  pub breadcrumbs : List String

abbrev pub map_match_kind : InventoryNodeKind → ProtoBrowseNodeKind
map_match_kind InventoryNodeKind.item = ProtoBrowseNodeKind.item
map_match_kind InventoryNodeKind.branch_and_item = ProtoBrowseNodeKind.branch_and_item

unfoldable pub map_index_match : IndexedMatch → ProtoIndexedSearchMatch
map_index_match value = record {
  item_id = value.item_id;
  display_name = value.display_name;
  kind = nonneg (node_kind_number (map_match_kind value.kind));
  breadcrumbs = value.breadcrumbs;
}
