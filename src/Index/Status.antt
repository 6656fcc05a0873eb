-- ===== src/Index/Status.antt =====
-- index/status.rs: the status that the gateway reports of a server's index. `V` stands for `f64`.
-- What the status asks of the rest of the gateway is an argument. Times are numbers of nanoseconds.
pub mod Rows
pub mod Parts
pub mod Report
pub mod Ready
pub mod States
pub mod Newest
mod Tests
use Prim.Native.String.{String}
use opcda_bridge.Base.{ℕ, Bool, false, Option, none}
use opcda_bridge.Browse.{
  NamespaceOrganization, BrowseSource, unspecified_organization, unspecified_source,
}
use opcda_bridge.Controller.{PauseReason, ControllerState, InventoryLimits}
use opcda_bridge.Index.{HealthProbeState, RuntimeBuild}
use opcda_bridge.Index.Metrics.{ForegroundMetrics}
use opcda_bridge.Query.Search.{IndexState}

pub record InventoryProgress (V : Type 0) : Type 0 where
  pub branches_visited : ℕ
  pub entries_seen : ℕ
  pub unique_items : ℕ
  pub active_time_ms : ℕ
  pub paused_time_ms : ℕ
  pub items_per_second : V
  pub estimated_remaining_ms : Option ℕ

pub record HostMetrics (V : Type 0) : Type 0 where
  pub cpu_percent : Option V
  pub available_memory_percent : Option V
  pub disk_active_percent : Option V
  pub disk_queue : Option V
  pub process_working_set_bytes : Option ℕ
  pub process_private_bytes : Option ℕ
  pub process_read_bytes_per_second : Option ℕ
  pub process_write_bytes_per_second : Option ℕ
  pub disk_free_bytes : Option ℕ

pub record StorageDiagnostics : Type 0 where
  pub main_bytes : ℕ
  pub wal_bytes : ℕ
  pub shm_bytes : ℕ
  pub free_bytes : Option ℕ
  pub last_commit_latency_ms : Option ℕ

pub record SchedulerDiagnostics : Type 0 where
  pub next_refresh_at : Option String
  pub last_attempt_at : Option String
  pub last_success_at : Option String
  pub last_success_duration_ms : Option ℕ
  pub retry_after : Option String
  pub consecutive_failures : ℕ
  pub circuit_open : Bool

pub record IndexStatus (V : Type 0) : Type 0 where
  pub server : String
  pub state : IndexState
  pub auto_refresh_enabled : Bool
  pub active_generation : ℕ
  pub entry_count : ℕ
  pub unique_item_count : ℕ
  pub started_at : Option String
  pub completed_at : Option String
  pub last_error : Option String
  pub database_bytes : ℕ
  pub organization : NamespaceOrganization
  pub source : BrowseSource
  pub progress : Option (InventoryProgress V)
  pub effective_limits : Option InventoryLimits
  pub controller_state : Option ControllerState
  pub pause_reason : Option PauseReason
  pub recovery_deadline : Option String
  pub foreground_metrics : ForegroundMetrics
  pub host_metrics : HostMetrics V
  pub health : HealthProbeState
  pub sentinel_configured : Bool
  pub storage : StorageDiagnostics
  pub scheduler : SchedulerDiagnostics

-- A build with the fields that `RuntimeBuild` leaves out.
pub record ReportedBuild (V : Type 0) : Type 0 where
  pub build : RuntimeBuild
  pub started_at : String
  pub progress : Option (InventoryProgress V)
  pub last_commit_latency_ms : Option ℕ

pub record RuntimeStatus (V : Type 0) : Type 0 where
  pub build : Option (ReportedBuild V)
  pub last_error : Option String
  pub retry_after : Option ℕ
  pub consecutive_failures : ℕ
  pub circuit_open : Bool
  pub health : HealthProbeState

abbrev pub no_metrics : ForegroundMetrics
no_metrics = record {
  active_count = 0;
  operations = 0;
  errors = 0;
  bad_quality = 0;
  latency_p50_ms = none;
  latency_p95_ms = none;
  latency_max_ms = none;
  last_error = false;
  last_bad_quality = false;
}

abbrev pub no_host_metrics : (V : Type 0) → HostMetrics V
no_host_metrics V = record {
  cpu_percent = none;
  available_memory_percent = none;
  disk_active_percent = none;
  disk_queue = none;
  process_working_set_bytes = none;
  process_private_bytes = none;
  process_read_bytes_per_second = none;
  process_write_bytes_per_second = none;
  disk_free_bytes = none;
}

abbrev pub no_storage : StorageDiagnostics
no_storage = record {
  main_bytes = 0;
  wal_bytes = 0;
  shm_bytes = 0;
  free_bytes = none;
  last_commit_latency_ms = none;
}

abbrev pub no_schedule : SchedulerDiagnostics
no_schedule = record {
  next_refresh_at = none;
  last_attempt_at = none;
  last_success_at = none;
  last_success_duration_ms = none;
  retry_after = none;
  consecutive_failures = 0;
  circuit_open = false;
}

abbrev pub empty_status : (V : Type 0) → String → IndexState → IndexStatus V
empty_status V server state = record {
  server = server;
  state = state;
  auto_refresh_enabled = false;
  active_generation = 0;
  entry_count = 0;
  unique_item_count = 0;
  started_at = none;
  completed_at = none;
  last_error = none;
  database_bytes = 0;
  organization = unspecified_organization;
  source = unspecified_source;
  progress = none;
  effective_limits = none;
  controller_state = none;
  pause_reason = none;
  recovery_deadline = none;
  foreground_metrics = no_metrics;
  host_metrics = no_host_metrics V;
  health = HealthProbeState.unavailable;
  sentinel_configured = false;
  storage = no_storage;
  scheduler = no_schedule;
}
