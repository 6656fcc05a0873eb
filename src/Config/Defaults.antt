-- ===== src/Config/Defaults.antt =====
-- The settings of a file that gives none, with a database of that name.
use opcda_bridge.Base.{◌*◌, false, none, []}
use opcda_bridge.Config.{ResolvedIndexConfig}

abbrev pub defaults : ResolvedIndexConfig
defaults = record {
  database_path = "index.sqlite3";
  refresh_interval_seconds = 604_800;
  startup_grace_period_seconds = 30;
  schedule_jitter_seconds = 21_600;
  inventory_batch_size = 256;
  inventory_root = none;
  commit_batch_size = 1_024;
  commit_interval_ms = 1_000;
  batch_size = 256;
  item_rate_limit = 0;
  burst_size = 100;
  duty_cycle_percent = 100;
  adaptive = false;
  minimum_item_rate = 10;
  minimum_batch_size = 1;
  minimum_duty_cycle_percent = 1;
  canary_item_rate = 50;
  canary_batch_size = 25;
  canary_duty_cycle_percent = 5;
  adaptive_healthy_window_seconds = 30;
  adaptive_recovery_delay_seconds = 30;
  adaptive_max_recovery_delay_seconds = 300;
  sentinel_tag = none;
  sentinel_probe_interval_seconds = 30;
  minimum_free_space_bytes = 100 * 1_024 * 1_024;
  storage_headroom_bytes = 10 * 1_024 * 1_024;
  circuit_failure_threshold = 3;
  circuit_open_seconds = 300;
  quiet_period_seconds = 2;
  health_probe_interval_seconds = 30;
  health_latency_threshold_ms = 500;
  adaptive_foreground_soft_latency_ms = 1_000;
  adaptive_foreground_hard_latency_ms = 2_000;
  operation_timeout_seconds = 30;
  maintenance_windows = [];
  concurrency = 1;
  worker_count = 1;
  query_cache_capacity = 256;
  max_results = 50;
}
