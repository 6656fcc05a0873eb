-- ===== src/Config.antt =====
-- crates/opcda-bridge-gateway/src/config.rs: the settings of the namespace index, as the file gives
-- them and as the gateway resolves them. Reading the file and the environment are left out: what they
-- hold is an argument. Machine words are plain numbers; see Config/Resolve for their ranges.
pub mod Settings
pub mod Resolve
pub mod Pacing
pub mod Load
pub mod Defaults
mod Tests
use Prim.Native.String.{String}
use opcda_bridge.Base.{
  ℕ, ◌*◌, min, max, Bool, true, false, Option, none, some, List, [], ◌∷◌, unwrap_or, if◌then◌else◌,
  u64_max,
}

-- A key that the file does not have is `none`, or the empty list.
pub record IndexConfig : Type 0 where
  pub database_path : Option String
  pub refresh_interval_seconds : Option ℕ
  pub startup_grace_period_seconds : Option ℕ
  pub schedule_jitter_seconds : Option ℕ
  pub inventory_batch_size : Option ℕ
  pub inventory_root : Option String
  pub commit_batch_size : Option ℕ
  pub commit_interval_ms : Option ℕ
  pub batch_size : Option ℕ
  pub item_rate_limit : Option ℕ
  pub burst_size : Option ℕ
  pub duty_cycle_percent : Option ℕ
  pub adaptive : Option Bool
  pub minimum_item_rate : Option ℕ
  pub minimum_batch_size : Option ℕ
  pub minimum_duty_cycle_percent : Option ℕ
  pub canary_item_rate : Option ℕ
  pub canary_batch_size : Option ℕ
  pub canary_duty_cycle_percent : Option ℕ
  pub adaptive_healthy_window_seconds : Option ℕ
  pub adaptive_recovery_delay_seconds : Option ℕ
  pub adaptive_max_recovery_delay_seconds : Option ℕ
  pub sentinel_tag : Option String
  pub sentinel_probe_interval_seconds : Option ℕ
  pub minimum_free_space_bytes : Option ℕ
  pub storage_headroom_bytes : Option ℕ
  pub circuit_failure_threshold : Option ℕ
  pub circuit_open_seconds : Option ℕ
  pub quiet_period_seconds : Option ℕ
  pub health_probe_interval_seconds : Option ℕ
  pub health_latency_threshold_ms : Option ℕ
  pub adaptive_foreground_soft_latency_ms : Option ℕ
  pub adaptive_foreground_hard_latency_ms : Option ℕ
  pub operation_timeout_seconds : Option ℕ
  pub maintenance_windows : List String
  pub concurrency : Option ℕ
  pub worker_count : Option ℕ
  pub query_cache_capacity : Option ℕ
  pub max_results : Option ℕ

pub record ResolvedIndexConfig : Type 0 where
  pub database_path : String
  pub refresh_interval_seconds : ℕ
  pub startup_grace_period_seconds : ℕ
  pub schedule_jitter_seconds : ℕ
  pub inventory_batch_size : ℕ
  pub inventory_root : Option String
  pub commit_batch_size : ℕ
  pub commit_interval_ms : ℕ
  pub batch_size : ℕ
  pub item_rate_limit : ℕ
  pub burst_size : ℕ
  pub duty_cycle_percent : ℕ
  pub adaptive : Bool
  pub minimum_item_rate : ℕ
  pub minimum_batch_size : ℕ
  pub minimum_duty_cycle_percent : ℕ
  pub canary_item_rate : ℕ
  pub canary_batch_size : ℕ
  pub canary_duty_cycle_percent : ℕ
  pub adaptive_healthy_window_seconds : ℕ
  pub adaptive_recovery_delay_seconds : ℕ
  pub adaptive_max_recovery_delay_seconds : ℕ
  pub sentinel_tag : Option String
  pub sentinel_probe_interval_seconds : ℕ
  pub minimum_free_space_bytes : ℕ
  pub storage_headroom_bytes : ℕ
  pub circuit_failure_threshold : ℕ
  pub circuit_open_seconds : ℕ
  pub quiet_period_seconds : ℕ
  pub health_probe_interval_seconds : ℕ
  pub health_latency_threshold_ms : ℕ
  pub adaptive_foreground_soft_latency_ms : ℕ
  pub adaptive_foreground_hard_latency_ms : ℕ
  pub operation_timeout_seconds : ℕ
  pub maintenance_windows : List String
  pub concurrency : ℕ
  pub worker_count : ℕ
  pub query_cache_capacity : ℕ
  pub max_results : ℕ

abbrev pub default_refresh_interval_seconds : ℕ
default_refresh_interval_seconds = 604_800

abbrev pub default_startup_grace_period_seconds : ℕ
default_startup_grace_period_seconds = 30

abbrev pub default_schedule_jitter_seconds : ℕ
default_schedule_jitter_seconds = 21_600

abbrev pub default_inventory_batch_size : ℕ
default_inventory_batch_size = 256

abbrev pub default_commit_batch_size : ℕ
default_commit_batch_size = 1_024

abbrev pub default_commit_interval_ms : ℕ
default_commit_interval_ms = 1_000

abbrev pub default_batch_size : ℕ
default_batch_size = 256

abbrev pub default_item_rate_limit : ℕ
default_item_rate_limit = 0

abbrev pub default_burst_size : ℕ
default_burst_size = 100

abbrev pub default_duty_cycle_percent : ℕ
default_duty_cycle_percent = 100

abbrev pub default_adaptive : Bool
default_adaptive = false

abbrev pub default_minimum_item_rate : ℕ
default_minimum_item_rate = 10

abbrev pub default_minimum_batch_size : ℕ
default_minimum_batch_size = 1

abbrev pub default_minimum_duty_cycle_percent : ℕ
default_minimum_duty_cycle_percent = 1

abbrev pub default_canary_item_rate : ℕ
default_canary_item_rate = 50

abbrev pub default_canary_batch_size : ℕ
default_canary_batch_size = 25

abbrev pub default_canary_duty_cycle_percent : ℕ
default_canary_duty_cycle_percent = 5

abbrev pub default_adaptive_healthy_window_seconds : ℕ
default_adaptive_healthy_window_seconds = 30

abbrev pub default_adaptive_recovery_delay_seconds : ℕ
default_adaptive_recovery_delay_seconds = 30

abbrev pub default_adaptive_max_recovery_delay_seconds : ℕ
default_adaptive_max_recovery_delay_seconds = 300

abbrev pub default_sentinel_probe_interval_seconds : ℕ
default_sentinel_probe_interval_seconds = 30

abbrev pub default_minimum_free_space_bytes : ℕ
default_minimum_free_space_bytes = 100 * 1_024 * 1_024

abbrev pub default_storage_headroom_bytes : ℕ
default_storage_headroom_bytes = 10 * 1_024 * 1_024

abbrev pub default_circuit_failure_threshold : ℕ
default_circuit_failure_threshold = 3

abbrev pub default_circuit_open_seconds : ℕ
default_circuit_open_seconds = 300

abbrev pub default_quiet_period_seconds : ℕ
default_quiet_period_seconds = 2

abbrev pub default_health_probe_interval_seconds : ℕ
default_health_probe_interval_seconds = 30

abbrev pub default_health_latency_threshold_ms : ℕ
default_health_latency_threshold_ms = 500

abbrev pub default_operation_timeout_seconds : ℕ
default_operation_timeout_seconds = 30

abbrev pub default_concurrency : ℕ
default_concurrency = 1

abbrev pub default_worker_count : ℕ
default_worker_count = 1

abbrev pub default_query_cache_capacity : ℕ
default_query_cache_capacity = 256

abbrev pub default_max_results : ℕ
default_max_results = 50

abbrev pub max_worker_count : ℕ
max_worker_count = 4
