-- ===== src/Wire/Restored.antt =====
-- A status of the gateway, from what a client has of it.
use Prim.Native.String.{String}
use opcda_bridge.Base.{Bool, true, false, Option, none, some}
use opcda_bridge.Browse.{NamespaceOrganization, BrowseSource}
use opcda_bridge.Controller.{PauseReason, ControllerState, InventoryLimits}
use opcda_bridge.Query.Search.{IndexState}
use opcda_bridge.Index.{HealthProbeState}
use opcda_bridge.Index.Metrics.{ForegroundMetrics}
use opcda_bridge.Index.Status.{
  InventoryProgress, HostMetrics, StorageDiagnostics, SchedulerDiagnostics, IndexStatus,
}
use opcda_bridge.Wire.Library as Library
use opcda_bridge.Wire.Gateway.{mapped}

-- The gateway's values from those that a client has.
abbrev pub gateway_state : Library.SearchIndexState → Bool → IndexState
gateway_state Library.SearchIndexState.not_indexed promoting = IndexState.not_indexed
gateway_state Library.SearchIndexState.partial promoting = IndexState.partial
gateway_state Library.SearchIndexState.ready promoting = IndexState.ready
gateway_state Library.SearchIndexState.stale promoting = IndexState.stale
gateway_state Library.SearchIndexState.failed promoting = IndexState.failed
gateway_state Library.SearchIndexState.deleting promoting = IndexState.deleting
gateway_state Library.SearchIndexState.refreshing true = IndexState.promoting
gateway_state Library.SearchIndexState.refreshing false = IndexState.refreshing
gateway_state Library.SearchIndexState.promoting promoting = IndexState.promoting
gateway_state Library.SearchIndexState.unspecified promoting = IndexState.not_indexed

abbrev pub gateway_organization : Library.NamespaceOrganization → NamespaceOrganization
gateway_organization Library.NamespaceOrganization.unspecified =
    NamespaceOrganization.unspecified_organization
gateway_organization Library.NamespaceOrganization.flat = NamespaceOrganization.flat
gateway_organization Library.NamespaceOrganization.hierarchical = NamespaceOrganization.hierarchical

abbrev pub gateway_source : Library.BrowseSource → BrowseSource
gateway_source Library.BrowseSource.unspecified = BrowseSource.unspecified_source
gateway_source Library.BrowseSource.da3 = BrowseSource.da3
gateway_source Library.BrowseSource.da2 = BrowseSource.da2
gateway_source Library.BrowseSource.flat = BrowseSource.flat_source
gateway_source Library.BrowseSource.derived = BrowseSource.derived

-- The reason of a paused controller is not known to a client.
abbrev pub gateway_controller : Library.IndexControllerState → Option ControllerState
gateway_controller Library.IndexControllerState.unspecified = none
gateway_controller Library.IndexControllerState.ramping = some ControllerState.ramping
gateway_controller Library.IndexControllerState.steady = some ControllerState.steady
gateway_controller Library.IndexControllerState.throttled = some ControllerState.throttled
gateway_controller Library.IndexControllerState.paused =
    some (ControllerState.paused PauseReason.operator)

-- A reason without a value of its own is named in the detail.
abbrev pub gateway_reason : Option Library.IndexPauseReason → Option String → Option PauseReason
gateway_reason none none = none
gateway_reason none (some detail) = some PauseReason.maintenance
gateway_reason (some Library.IndexPauseReason.foreground) detail = some PauseReason.foreground
gateway_reason (some Library.IndexPauseReason.opc_health) detail = some PauseReason.opc_health
gateway_reason (some Library.IndexPauseReason.host_cpu) detail = some PauseReason.host_cpu
gateway_reason (some Library.IndexPauseReason.memory) detail = some PauseReason.memory
gateway_reason (some Library.IndexPauseReason.disk) detail = some PauseReason.disk
gateway_reason (some Library.IndexPauseReason.database) detail = some PauseReason.database
gateway_reason (some Library.IndexPauseReason.operator) detail = some PauseReason.operator
gateway_reason (some Library.IndexPauseReason.circuit) detail = some PauseReason.circuit
gateway_reason (some Library.IndexPauseReason.unspecified) detail = none

abbrev pub gateway_health : Library.IndexHealthState → HealthProbeState
gateway_health Library.IndexHealthState.unavailable = HealthProbeState.unavailable
gateway_health Library.IndexHealthState.healthy = HealthProbeState.healthy
gateway_health Library.IndexHealthState.unhealthy = HealthProbeState.unhealthy
gateway_health Library.IndexHealthState.unspecified = HealthProbeState.unavailable

abbrev pub gateway_progress : {V : Type 0} → Library.IndexedSearchProgress V → InventoryProgress V
gateway_progress x = record {
  branches_visited = x.branches_visited;
  entries_seen = x.entries_seen;
  unique_items = x.unique_items;
  active_time_ms = x.active_time_ms;
  paused_time_ms = x.paused_time_ms;
  items_per_second = x.items_per_second;
  estimated_remaining_ms = x.estimated_remaining_ms;
}

abbrev pub gateway_limits : Library.IndexInventoryLimits → InventoryLimits
gateway_limits x = record {
  item_rate_per_second = x.item_rate_per_second;
  batch_size = x.batch_size;
  duty_cycle_percent = x.duty_cycle_percent;
}

abbrev gateway_foreground : Library.IndexForegroundDiagnostics → ForegroundMetrics
gateway_foreground x = record {
  active_count = x.active_count;
  operations = x.operations;
  errors = x.errors;
  bad_quality = x.bad_quality;
  latency_p50_ms = x.latency_p50_ms;
  latency_p95_ms = x.latency_p95_ms;
  latency_max_ms = x.latency_max_ms;
  last_error = x.last_error;
  last_bad_quality = x.last_bad_quality;
}

abbrev gateway_host : {V : Type 0} → Library.IndexHostDiagnostics V → HostMetrics V
gateway_host x = record {
  cpu_percent = x.cpu_percent;
  available_memory_percent = x.available_memory_percent;
  disk_active_percent = x.disk_active_percent;
  disk_queue = x.disk_queue;
  process_working_set_bytes = x.process_working_set_bytes;
  process_private_bytes = x.process_private_bytes;
  process_read_bytes_per_second = x.process_read_bytes_per_second;
  process_write_bytes_per_second = x.process_write_bytes_per_second;
  disk_free_bytes = x.disk_free_bytes;
}

abbrev gateway_storage : Library.IndexStorageDiagnostics → StorageDiagnostics
gateway_storage x = record {
  main_bytes = x.main_bytes;
  wal_bytes = x.wal_bytes;
  shm_bytes = x.shm_bytes;
  free_bytes = x.free_bytes;
  last_commit_latency_ms = x.last_commit_latency_ms;
}

abbrev gateway_scheduler : Library.IndexSchedulerDiagnostics → SchedulerDiagnostics
gateway_scheduler x = record {
  next_refresh_at = x.next_refresh_at;
  last_attempt_at = x.last_attempt_at;
  last_success_at = x.last_success_at;
  last_success_duration_ms = x.last_success_duration_ms;
  retry_after = x.retry_after;
  consecutive_failures = x.consecutive_failures;
  circuit_open = x.circuit_open;
}

abbrev pub gateway_status : {V : Type 0} → Library.SearchIndexStatus V → IndexStatus V
gateway_status t = record {
  server = t.server;
  state = gateway_state t.state t.promoting;
  auto_refresh_enabled = t.auto_refresh_enabled;
  active_generation = t.active_generation;
  entry_count = t.entry_count;
  unique_item_count = t.unique_item_count;
  started_at = t.started_at;
  completed_at = t.completed_at;
  last_error = t.last_error;
  database_bytes = t.database_bytes;
  organization = gateway_organization t.organization;
  source = gateway_source t.source;
  progress = mapped gateway_progress t.progress;
  effective_limits = mapped gateway_limits t.effective_limits;
  controller_state = gateway_controller t.controller_state;
  pause_reason = gateway_reason t.pause_reason t.pause_reason_detail;
  recovery_deadline = t.recovery_deadline;
  foreground_metrics = gateway_foreground t.foreground;
  host_metrics = gateway_host t.host;
  health = gateway_health t.health.state;
  sentinel_configured = t.health.sentinel_configured;
  storage = gateway_storage t.storage;
  scheduler = gateway_scheduler t.scheduler;
}

abbrev pub without_reason : Option ControllerState → Option ControllerState
without_reason (some (ControllerState.paused reason)) =
    some (ControllerState.paused PauseReason.operator)
without_reason state = state
