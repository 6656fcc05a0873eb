-- ===== src/Wire/Statuses.antt =====
-- The status of an index as the client library reads it: nothing of it is lost on the way but the
-- reason that the controller's state carries.
use opcda_bridge.Base.{◌≡◌, refl, Option, none, some, arith}
use opcda_bridge.Compat.{nonneg}
use opcda_bridge.Controller.{PauseReason, ControllerState, InventoryLimits}
use opcda_bridge.Query.Search.{IndexState}
use opcda_bridge.Index.{HealthProbeState}
use opcda_bridge.Index.Metrics.{ForegroundMetrics}
use opcda_bridge.Index.Status.{
  InventoryProgress, HostMetrics, StorageDiagnostics, SchedulerDiagnostics, IndexStatus,
}
use opcda_bridge.Wire.Enums.{
  index_state_number, index_state_of, controller_state_number, controller_state_of,
  pause_reason_number, pause_reason_of, health_state_number, health_state_of,
}
use opcda_bridge.Wire.Library as Library
use opcda_bridge.Wire.Gateway.{
  mapped, map_index_state, is_promoting_state, map_controller_state, map_pause_reason, reason_text,
  reason_on_wire, map_health_state, map_index_status,
}
use opcda_bridge.Wire.Read.{
  ok, transposed, search_index_state, index_controller_state, index_pause_reason,
  index_health_state,
}
use opcda_bridge.Wire.Convert.{convert_status, convert_health}
use opcda_bridge.Wire.Pages.{client_organization, client_source, organization_lem, source_lem}

-- The client's names of the gateway's values.
abbrev pub client_state : IndexState → Library.SearchIndexState
client_state IndexState.not_indexed = Library.SearchIndexState.not_indexed
client_state IndexState.partial = Library.SearchIndexState.partial
client_state IndexState.ready = Library.SearchIndexState.ready
client_state IndexState.stale = Library.SearchIndexState.stale
client_state IndexState.refreshing = Library.SearchIndexState.refreshing
client_state IndexState.promoting = Library.SearchIndexState.refreshing
client_state IndexState.failed = Library.SearchIndexState.failed
client_state IndexState.deleting = Library.SearchIndexState.deleting

state_lem :
    (x : IndexState)
    → search_index_state (nonneg (index_state_number (map_index_state x))) ≡ ok (client_state x)
unfolding search_index_state index_state_of map_index_state
state_lem IndexState.not_indexed = refl
state_lem IndexState.partial = refl
state_lem IndexState.ready = refl
state_lem IndexState.stale = refl
state_lem IndexState.refreshing = refl
state_lem IndexState.promoting = refl
state_lem IndexState.failed = refl
state_lem IndexState.deleting = refl

abbrev pub client_controller : Option ControllerState → Library.IndexControllerState
client_controller none = Library.IndexControllerState.unspecified
client_controller (some ControllerState.ramping) = Library.IndexControllerState.ramping
client_controller (some ControllerState.steady) = Library.IndexControllerState.steady
client_controller (some ControllerState.throttled) = Library.IndexControllerState.throttled
client_controller (some (ControllerState.paused reason)) = Library.IndexControllerState.paused

controller_lem :
    (x : Option ControllerState)
    → index_controller_state (nonneg (controller_state_number (map_controller_state x)))
      ≡ ok (client_controller x)
unfolding index_controller_state controller_state_of map_controller_state
controller_lem none = refl
controller_lem (some ControllerState.ramping) = refl
controller_lem (some ControllerState.steady) = refl
controller_lem (some ControllerState.throttled) = refl
controller_lem (some (ControllerState.paused reason)) = refl

abbrev pub client_reason : Option PauseReason → Option Library.IndexPauseReason
client_reason none = none
client_reason (some PauseReason.foreground) = some Library.IndexPauseReason.foreground
client_reason (some PauseReason.opc_health) = some Library.IndexPauseReason.opc_health
client_reason (some PauseReason.host_cpu) = some Library.IndexPauseReason.host_cpu
client_reason (some PauseReason.memory) = some Library.IndexPauseReason.memory
client_reason (some PauseReason.disk) = some Library.IndexPauseReason.disk
client_reason (some PauseReason.database) = some Library.IndexPauseReason.database
client_reason (some PauseReason.operator) = some Library.IndexPauseReason.operator
client_reason (some PauseReason.circuit) = some Library.IndexPauseReason.circuit
client_reason (some PauseReason.maintenance) = none

reason_lem :
    (x : Option PauseReason)
    → transposed index_pause_reason
        (mapped (λ r. nonneg (pause_reason_number r)) (reason_on_wire x))
      ≡ ok (client_reason x)
unfolding index_pause_reason pause_reason_of map_pause_reason
reason_lem none = refl
reason_lem (some PauseReason.foreground) = refl
reason_lem (some PauseReason.opc_health) = refl
reason_lem (some PauseReason.host_cpu) = refl
reason_lem (some PauseReason.memory) = refl
reason_lem (some PauseReason.disk) = refl
reason_lem (some PauseReason.database) = refl
reason_lem (some PauseReason.operator) = refl
reason_lem (some PauseReason.circuit) = refl
reason_lem (some PauseReason.maintenance) = refl

abbrev pub client_health : HealthProbeState → Library.IndexHealthState
client_health HealthProbeState.unavailable = Library.IndexHealthState.unavailable
client_health HealthProbeState.healthy = Library.IndexHealthState.healthy
client_health HealthProbeState.unhealthy = Library.IndexHealthState.unhealthy

health_lem :
    (x : HealthProbeState)
    → index_health_state (nonneg (health_state_number (map_health_state x))) ≡ ok (client_health x)
unfolding index_health_state health_state_of map_health_state
health_lem HealthProbeState.unavailable = refl
health_lem HealthProbeState.healthy = refl
health_lem HealthProbeState.unhealthy = refl

abbrev pub client_progress : {V : Type 0} → InventoryProgress V → Library.IndexedSearchProgress V
client_progress x = record {
  branches_visited = x.branches_visited;
  entries_seen = x.entries_seen;
  unique_items = x.unique_items;
  active_time_ms = x.active_time_ms;
  paused_time_ms = x.paused_time_ms;
  items_per_second = x.items_per_second;
  estimated_remaining_ms = x.estimated_remaining_ms;
}

abbrev pub client_limits : InventoryLimits → Library.IndexInventoryLimits
client_limits x = record {
  item_rate_per_second = x.item_rate_per_second;
  batch_size = x.batch_size;
  duty_cycle_percent = x.duty_cycle_percent;
}

abbrev pub client_foreground : ForegroundMetrics → Library.IndexForegroundDiagnostics
client_foreground x = record {
  active_count = x.active_count;
  operations = x.operations;
  errors = x.errors;
  bad_quality = x.bad_quality;
  latency_p50_ms = x.latency_p50_ms;
  latency_p95_ms = x.latency_p95_ms;
  latency_max_ms = x.latency_max_ms;
  last_error = x.last_error;
  last_bad_quality = x.last_bad_quality;
}

abbrev pub client_host : {V : Type 0} → HostMetrics V → Library.IndexHostDiagnostics V
client_host x = record {
  cpu_percent = x.cpu_percent;
  available_memory_percent = x.available_memory_percent;
  disk_active_percent = x.disk_active_percent;
  disk_queue = x.disk_queue;
  process_working_set_bytes = x.process_working_set_bytes;
  process_private_bytes = x.process_private_bytes;
  process_read_bytes_per_second = x.process_read_bytes_per_second;
  process_write_bytes_per_second = x.process_write_bytes_per_second;
  disk_free_bytes = x.disk_free_bytes;
}

abbrev pub client_storage : StorageDiagnostics → Library.IndexStorageDiagnostics
client_storage x = record {
  main_bytes = x.main_bytes;
  wal_bytes = x.wal_bytes;
  shm_bytes = x.shm_bytes;
  free_bytes = x.free_bytes;
  last_commit_latency_ms = x.last_commit_latency_ms;
}

abbrev pub client_scheduler : SchedulerDiagnostics → Library.IndexSchedulerDiagnostics
client_scheduler x = record {
  next_refresh_at = x.next_refresh_at;
  last_attempt_at = x.last_attempt_at;
  last_success_at = x.last_success_at;
  last_success_duration_ms = x.last_success_duration_ms;
  retry_after = x.retry_after;
  consecutive_failures = x.consecutive_failures;
  circuit_open = x.circuit_open;
}

abbrev pub client_status : {V : Type 0} → IndexStatus V → Library.SearchIndexStatus V
client_status s = record {
  server = s.server;
  state = client_state s.state;
  auto_refresh_enabled = s.auto_refresh_enabled;
  active_generation = s.active_generation;
  entry_count = s.entry_count;
  unique_item_count = s.unique_item_count;
  started_at = s.started_at;
  completed_at = s.completed_at;
  last_error = s.last_error;
  database_bytes = s.database_bytes;
  organization = client_organization s.organization;
  source = client_source s.source;
  progress = mapped client_progress s.progress;
  effective_limits = mapped client_limits s.effective_limits;
  controller_state = client_controller s.controller_state;
  pause_reason = client_reason s.pause_reason;
  recovery_deadline = s.recovery_deadline;
  pause_reason_detail = mapped reason_text s.pause_reason;
  foreground = client_foreground s.foreground_metrics;
  host = client_host s.host_metrics;
  storage = client_storage s.storage;
  scheduler = client_scheduler s.scheduler;
  health = record { state = client_health s.health; sentinel_configured = s.sentinel_configured };
  promoting = is_promoting_state s.state;
}

pub convert_status-map :
    {V : Type 0} (s : IndexStatus V) → convert_status (map_index_status s) ≡ ok (client_status s)
unfolding convert_status map_index_status convert_health
convert_status-map s =
    rw
      (
        state_lem s.state,
        organization_lem s.organization,
        source_lem s.source,
        controller_lem s.controller_state,
        reason_lem s.pause_reason,
        health_lem s.health,
      )
      (ground arith)
