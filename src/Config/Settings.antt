-- ===== src/Config/Settings.antt =====
-- resolve_index_config and resolve_port of config.rs.
use Prim.Native.String.{String}
use opcda_bridge.Base.{
  ℕ, ◌*◌, min, max, Bool, Option, none, some, unwrap_or, if◌then◌else◌, u64_max,
}
use opcda_bridge.Controller.{clamp, ◌>>=◌}
use opcda_bridge.Config.{
  IndexConfig, ResolvedIndexConfig, default_adaptive, default_adaptive_healthy_window_seconds,
  default_adaptive_max_recovery_delay_seconds, default_adaptive_recovery_delay_seconds,
  default_batch_size, default_burst_size, default_canary_batch_size,
  default_canary_duty_cycle_percent, default_canary_item_rate, default_circuit_failure_threshold,
  default_circuit_open_seconds, default_commit_batch_size, default_commit_interval_ms,
  default_concurrency, default_duty_cycle_percent, default_health_latency_threshold_ms,
  default_health_probe_interval_seconds, default_inventory_batch_size, default_item_rate_limit,
  default_max_results, default_minimum_batch_size, default_minimum_duty_cycle_percent,
  default_minimum_free_space_bytes, default_minimum_item_rate, default_operation_timeout_seconds,
  default_query_cache_capacity, default_quiet_period_seconds, default_refresh_interval_seconds,
  default_schedule_jitter_seconds, default_sentinel_probe_interval_seconds,
  default_startup_grace_period_seconds, default_storage_headroom_bytes, default_worker_count,
  max_worker_count,
}

-- `Option::or`.
abbrev pub or {ℓ} : {A : Type ℓ} → Option A → Option A → Option A
or none b = b
or (some a) b = some a

-- `saturating_mul` of `u64`.
abbrev pub saturating_mul : ℕ → ℕ → ℕ
saturating_mul a b = min (a * b) u64_max

-- The environment variables of the gateway, and the platform it is built for.
pub record Environment : Type 0 where
  pub xdg_data_home : Option String
  pub home : Option String
  pub program_data : Option String
  pub is_windows : Bool

-- The values that are clamped.
pub record Clamped : Type 0 where
  pub inventory_batch : ℕ
  pub batch : ℕ
  pub duty : ℕ
  pub minimum_batch : ℕ
  pub minimum_duty : ℕ
  pub canary_batch : ℕ
  pub canary_duty : ℕ
  pub workers : ℕ

unfoldable pub health_latency : IndexConfig → ℕ
health_latency c =
    max (unwrap_or c.health_latency_threshold_ms default_health_latency_threshold_ms) 1

unfoldable pub soft_latency : IndexConfig → ℕ
unfolding health_latency
soft_latency c =
    max (unwrap_or c.adaptive_foreground_soft_latency_ms (saturating_mul (health_latency c) 2)) 1

unfoldable pub hard_latency : IndexConfig → ℕ
unfolding health_latency soft_latency
hard_latency c =
    max (unwrap_or c.adaptive_foreground_hard_latency_ms (saturating_mul (health_latency c) 4))
      (soft_latency c)

unfoldable pub settings_with : String → IndexConfig → Clamped → ResolvedIndexConfig
unfolding health_latency soft_latency hard_latency
settings_with path c v = record {
  database_path = path;
  refresh_interval_seconds = unwrap_or c.refresh_interval_seconds default_refresh_interval_seconds;
  startup_grace_period_seconds =
      unwrap_or c.startup_grace_period_seconds default_startup_grace_period_seconds;
  schedule_jitter_seconds = unwrap_or c.schedule_jitter_seconds default_schedule_jitter_seconds;
  inventory_batch_size = v.inventory_batch;
  inventory_root = c.inventory_root;
  commit_batch_size =
      max (unwrap_or (or c.commit_batch_size c.batch_size) default_commit_batch_size) 1;
  commit_interval_ms = max (unwrap_or c.commit_interval_ms default_commit_interval_ms) 1;
  batch_size = v.batch;
  item_rate_limit = unwrap_or c.item_rate_limit default_item_rate_limit;
  burst_size = max (unwrap_or c.burst_size default_burst_size) 1;
  duty_cycle_percent = v.duty;
  adaptive = unwrap_or c.adaptive default_adaptive;
  minimum_item_rate = max (unwrap_or c.minimum_item_rate default_minimum_item_rate) 1;
  minimum_batch_size = v.minimum_batch;
  minimum_duty_cycle_percent = v.minimum_duty;
  canary_item_rate = max (unwrap_or c.canary_item_rate default_canary_item_rate) 1;
  canary_batch_size = v.canary_batch;
  canary_duty_cycle_percent = v.canary_duty;
  adaptive_healthy_window_seconds =
      max (unwrap_or c.adaptive_healthy_window_seconds default_adaptive_healthy_window_seconds) 1;
  adaptive_recovery_delay_seconds =
      max (unwrap_or c.adaptive_recovery_delay_seconds default_adaptive_recovery_delay_seconds) 1;
  adaptive_max_recovery_delay_seconds =
      max
        (unwrap_or c.adaptive_max_recovery_delay_seconds
          default_adaptive_max_recovery_delay_seconds)
        1;
  sentinel_tag = c.sentinel_tag;
  sentinel_probe_interval_seconds =
      max (unwrap_or c.sentinel_probe_interval_seconds default_sentinel_probe_interval_seconds) 1;
  minimum_free_space_bytes = unwrap_or c.minimum_free_space_bytes default_minimum_free_space_bytes;
  storage_headroom_bytes = unwrap_or c.storage_headroom_bytes default_storage_headroom_bytes;
  circuit_failure_threshold =
      max (unwrap_or c.circuit_failure_threshold default_circuit_failure_threshold) 1;
  circuit_open_seconds = max (unwrap_or c.circuit_open_seconds default_circuit_open_seconds) 1;
  quiet_period_seconds = unwrap_or c.quiet_period_seconds default_quiet_period_seconds;
  health_probe_interval_seconds =
      max (unwrap_or c.health_probe_interval_seconds default_health_probe_interval_seconds) 1;
  health_latency_threshold_ms = health_latency c;
  adaptive_foreground_soft_latency_ms = soft_latency c;
  adaptive_foreground_hard_latency_ms = hard_latency c;
  operation_timeout_seconds =
      max (unwrap_or c.operation_timeout_seconds default_operation_timeout_seconds) 1;
  maintenance_windows = c.maintenance_windows;
  concurrency = max (unwrap_or c.concurrency default_concurrency) 1;
  worker_count = v.workers;
  query_cache_capacity = max (unwrap_or c.query_cache_capacity default_query_cache_capacity) 1;
  max_results = max (unwrap_or c.max_results default_max_results) 1;
}

-- `Path::join` belongs to the standard library; `max_batch` is MAX_NATIVE_INVENTORY_BATCH_SIZE, which
-- the OPC DA client crate fixes on Windows.
module _ (join : String → String → String) where
  unfoldable pub index_path_from : Environment → Option String
  index_path_from e =
      if e.is_windows
      then elim e.program_data [
        | some dir ↦ some (join (join dir "opcda-bridge") "index.sqlite3")
        | none ↦ none
      ]
      else elim e.xdg_data_home [
        | some dir ↦ some (join (join dir "opcda-bridge") "index.sqlite3")
        | none ↦ elim e.home [
          | some dir ↦
              some (join (join (join (join dir ".local") "share") "opcda-bridge") "index.sqlite3")
          | none ↦ none
        ]
      ]

  unfoldable pub database_path_of : Environment → IndexConfig → String
  unfolding index_path_from
  database_path_of e c =
      unwrap_or (or c.database_path (index_path_from e)) "opcda-bridge-index.sqlite3"

  module _ (max_batch : ℕ) where
    unfoldable pub clamped : IndexConfig → Option Clamped
    clamped c = do
      inventory_batch ←
          clamp (unwrap_or (or c.inventory_batch_size c.batch_size) default_inventory_batch_size) 1
            max_batch
      batch ← clamp (unwrap_or c.batch_size default_batch_size) 1 max_batch
      duty ← clamp (unwrap_or c.duty_cycle_percent default_duty_cycle_percent) 1 100
      minimum_batch ← clamp (unwrap_or c.minimum_batch_size default_minimum_batch_size) 1 max_batch
      minimum_duty ←
          clamp (unwrap_or c.minimum_duty_cycle_percent default_minimum_duty_cycle_percent) 1 100
      canary_batch ← clamp (unwrap_or c.canary_batch_size default_canary_batch_size) 1 max_batch
      canary_duty ←
          clamp (unwrap_or c.canary_duty_cycle_percent default_canary_duty_cycle_percent) 1 100
      workers ← clamp (unwrap_or c.worker_count default_worker_count) 1 max_worker_count
      some (record {
        inventory_batch = inventory_batch;
        batch = batch;
        duty = duty;
        minimum_batch = minimum_batch;
        minimum_duty = minimum_duty;
        canary_batch = canary_batch;
        canary_duty = canary_duty;
        workers = workers;
      })

    -- `none` is a panic of `clamp`.
    unfoldable pub resolve_index_config : Environment → IndexConfig → Option ResolvedIndexConfig
    unfolding database_path_of clamped settings_with
    resolve_index_config e c = do
      values ← clamped c
      some (settings_with (database_path_of e c) c values)

-- DEFAULT_BRIDGE_PORT of crates/opcda-bridge-proto/src/lib.rs.
abbrev pub default_bridge_port : ℕ
default_bridge_port = 7_600

-- `cli_port` is the flag or else the environment variable.
unfoldable pub resolve_port : Option ℕ → Option ℕ → ℕ
resolve_port cli_port config_port = unwrap_or (or cli_port config_port) default_bridge_port
