-- ===== src/Wire/Convert/Statuses.antt =====
-- crates/opcda-bridge/src/types/conversions.rs: the conversion of a status.
use opcda_bridge.Base.{false, Option, none, some}
use opcda_bridge.Wire.Read.{
  Result, ok, ◌>>=◌, mapped, transposed, organization, source, search_index_state,
  index_controller_state, index_pause_reason, index_health_state,
}
use opcda_bridge.Wire.Messages.{
  ProtoIndexedSearchProgress, ProtoIndexInventoryLimits, ProtoIndexForegroundDiagnostics,
  ProtoIndexHostDiagnostics, ProtoIndexStorageDiagnostics, ProtoIndexSchedulerDiagnostics,
  ProtoIndexHealthDiagnostics, ProtoSearchIndexStatus,
}
use opcda_bridge.Wire.Library.{
  IndexHealthState, IndexInventoryLimits, IndexForegroundDiagnostics, IndexHostDiagnostics,
  IndexStorageDiagnostics, IndexSchedulerDiagnostics, IndexHealthDiagnostics, IndexedSearchProgress,
  SearchIndexStatus,
}

unfoldable pub convert_progress :
    {V : Type 0} → ProtoIndexedSearchProgress V → IndexedSearchProgress V
convert_progress value = record {
  branches_visited = value.branches_visited;
  entries_seen = value.entries_seen;
  unique_items = value.unique_items;
  active_time_ms = value.active_time_ms;
  paused_time_ms = value.paused_time_ms;
  items_per_second = value.items_per_second;
  estimated_remaining_ms = value.estimated_remaining_ms;
}

unfoldable pub convert_limits : ProtoIndexInventoryLimits → IndexInventoryLimits
convert_limits limits = record {
  item_rate_per_second = limits.item_rate_per_second;
  batch_size = limits.batch_size;
  duty_cycle_percent = limits.duty_cycle_percent;
}

-- A part of a status that is missing is the default one.
unfoldable pub convert_foreground :
    Option (ProtoIndexForegroundDiagnostics) → IndexForegroundDiagnostics
convert_foreground none = record {
  active_count = 0;
  operations = 0;
  errors = 0;
  bad_quality = 0;
  latency_p50_ms = none;
  latency_p95_ms = none;
  latency_max_ms = none;
  last_error = false;
  last_bad_quality = false;
}
convert_foreground (some diagnostics) = record {
  active_count = diagnostics.active_count;
  operations = diagnostics.operations;
  errors = diagnostics.errors;
  bad_quality = diagnostics.bad_quality;
  latency_p50_ms = diagnostics.latency_p50_ms;
  latency_p95_ms = diagnostics.latency_p95_ms;
  latency_max_ms = diagnostics.latency_max_ms;
  last_error = diagnostics.last_error;
  last_bad_quality = diagnostics.last_bad_quality;
}

unfoldable pub convert_host :
    {V : Type 0} → Option (ProtoIndexHostDiagnostics V) → IndexHostDiagnostics V
convert_host none = record {
  cpu_percent = none;
  available_memory_percent = none;
  disk_active_percent = none;
  disk_queue = none;
  process_working_set_bytes = none;
  process_private_bytes = none;
  process_read_bytes_per_second = none;
  process_write_bytes_per_second = none;
  disk_free_bytes = none;
}
convert_host (some diagnostics) = record {
  cpu_percent = diagnostics.cpu_percent;
  available_memory_percent = diagnostics.available_memory_percent;
  disk_active_percent = diagnostics.disk_active_percent;
  disk_queue = diagnostics.disk_queue;
  process_working_set_bytes = diagnostics.process_working_set_bytes;
  process_private_bytes = diagnostics.process_private_bytes;
  process_read_bytes_per_second = diagnostics.process_read_bytes_per_second;
  process_write_bytes_per_second = diagnostics.process_write_bytes_per_second;
  disk_free_bytes = diagnostics.disk_free_bytes;
}

unfoldable pub convert_storage : Option (ProtoIndexStorageDiagnostics) → IndexStorageDiagnostics
convert_storage none = record {
  main_bytes = 0;
  wal_bytes = 0;
  shm_bytes = 0;
  free_bytes = none;
  last_commit_latency_ms = none;
}
convert_storage (some diagnostics) = record {
  main_bytes = diagnostics.main_bytes;
  wal_bytes = diagnostics.wal_bytes;
  shm_bytes = diagnostics.shm_bytes;
  free_bytes = diagnostics.free_bytes;
  last_commit_latency_ms = diagnostics.last_commit_latency_ms;
}

unfoldable pub convert_scheduler :
    Option (ProtoIndexSchedulerDiagnostics) → IndexSchedulerDiagnostics
convert_scheduler none = record {
  next_refresh_at = none;
  last_attempt_at = none;
  last_success_at = none;
  last_success_duration_ms = none;
  retry_after = none;
  consecutive_failures = 0;
  circuit_open = false;
}
convert_scheduler (some diagnostics) = record {
  next_refresh_at = diagnostics.next_refresh_at;
  last_attempt_at = diagnostics.last_attempt_at;
  last_success_at = diagnostics.last_success_at;
  last_success_duration_ms = diagnostics.last_success_duration_ms;
  retry_after = diagnostics.retry_after;
  consecutive_failures = diagnostics.consecutive_failures;
  circuit_open = diagnostics.circuit_open;
}

unfoldable pub convert_health : Option ProtoIndexHealthDiagnostics → Result IndexHealthDiagnostics
convert_health none =
    ok (record { state = IndexHealthState.unavailable; sentinel_configured = false })
convert_health (some diagnostics) = do
  state ← index_health_state diagnostics.state
  ok (record { state = state; sentinel_configured = diagnostics.sentinel_configured })

unfoldable pub convert_status :
    {V : Type 0} → ProtoSearchIndexStatus V → Result (SearchIndexStatus V)
unfolding convert_progress convert_limits convert_foreground convert_host convert_storage
    convert_scheduler
convert_status value = do
  state ← search_index_state value.state
  read_organization ← organization value.organization
  read_source ← source value.source
  controller ← index_controller_state value.controller_state
  reason ← transposed index_pause_reason value.pause_reason
  health ← convert_health value.health
  ok (record {
    server = value.server;
    state = state;
    auto_refresh_enabled = value.configured;
    active_generation = value.active_generation;
    entry_count = value.entry_count;
    unique_item_count = value.unique_item_count;
    started_at = value.started_at;
    completed_at = value.completed_at;
    last_error = value.last_error;
    database_bytes = value.database_bytes;
    organization = read_organization;
    source = read_source;
    progress = mapped convert_progress value.progress;
    effective_limits = mapped convert_limits value.effective_limits;
    controller_state = controller;
    pause_reason = reason;
    recovery_deadline = value.recovery_deadline;
    pause_reason_detail = value.pause_reason_detail;
    foreground = convert_foreground value.foreground;
    host = convert_host value.host;
    storage = convert_storage value.storage;
    scheduler = convert_scheduler value.scheduler;
    health = health;
    promoting = value.promoting;
  })
