-- ===== src/Config/Tests.antt =====
-- The settings of a file that gives none, of one that gives all, and of a limited rate.
use Prim.Native.String.{String}
use opcda_bridge.Base.{
  ◌⊎◌, true, false, ◌↔◌, ite, true, String-discrete, ◌≡◌, refl, false, none, some, [], arith, ◌==◌,
  if◌then◌else◌,
}
use opcda_bridge.Controller.{clamp, InventoryLimits}
use opcda_bridge.Config.{IndexConfig, ResolvedIndexConfig}
use opcda_bridge.Config.Load.{
  Toml, contents, config, error, retired_key, Expected, load_config, load_config_file, parse_config,
  convert_value, first_retired, load_config-Expected,
}
use opcda_bridge.Config.Defaults.{defaults}
use opcda_bridge.Config.Settings.{Environment, resolve_index_config, index_path_from}
use opcda_bridge.Config.Resolve.{IsResolved, explicit, resolve_total, resolve-explicit}
use opcda_bridge.Config.Pacing.{
  overflows, IsStart, initial_inventory_limits, pacing_for_limits, first_limits,
}

-- Stands for `Path::join`: the last component.
abbrev last_part : String → String → String
last_part dir name = name

abbrev environment : Environment
environment = record {
  xdg_data_home = none;
  home = some "/home/gateway";
  program_data = none;
  is_windows = false;
}

abbrev empty : IndexConfig
empty = record {
  database_path = none;
  refresh_interval_seconds = none;
  startup_grace_period_seconds = none;
  schedule_jitter_seconds = none;
  inventory_batch_size = none;
  inventory_root = none;
  commit_batch_size = none;
  commit_interval_ms = none;
  batch_size = none;
  item_rate_limit = none;
  burst_size = none;
  duty_cycle_percent = none;
  adaptive = none;
  minimum_item_rate = none;
  minimum_batch_size = none;
  minimum_duty_cycle_percent = none;
  canary_item_rate = none;
  canary_batch_size = none;
  canary_duty_cycle_percent = none;
  adaptive_healthy_window_seconds = none;
  adaptive_recovery_delay_seconds = none;
  adaptive_max_recovery_delay_seconds = none;
  sentinel_tag = none;
  sentinel_probe_interval_seconds = none;
  minimum_free_space_bytes = none;
  storage_headroom_bytes = none;
  circuit_failure_threshold = none;
  circuit_open_seconds = none;
  quiet_period_seconds = none;
  health_probe_interval_seconds = none;
  health_latency_threshold_ms = none;
  adaptive_foreground_soft_latency_ms = none;
  adaptive_foreground_hard_latency_ms = none;
  operation_timeout_seconds = none;
  maintenance_windows = [];
  concurrency = none;
  worker_count = none;
  query_cache_capacity = none;
  max_results = none;
}

resolve_test : resolve_index_config last_part 1000 environment empty ≡ some defaults
unfolding resolve_index_config index_path_from clamp
resolve_test = refl

resolve_total_example :
    (r : ResolvedIndexConfig) × (resolve_index_config last_part 1000 environment empty ≡ some r)
    × IsResolved 1000 r
resolve_total_example = resolve_total last_part 1000 environment empty (omega arith)

defaults-IsResolved : IsResolved 1000 defaults
defaults-IsResolved = omega arith

resolve-explicit_example :
    resolve_index_config last_part 1000 environment (explicit defaults) ≡ some defaults
resolve-explicit_example = resolve-explicit last_part 1000 environment defaults defaults-IsResolved

first_limits_example :
    ((overflows 1000 100_000_000_000 0 defaults ≡ true)
      × (initial_inventory_limits 1000 100_000_000_000 0 defaults ≡ none))
    ⊎ ((overflows 1000 100_000_000_000 0 defaults ≡ false)
        × ((l : InventoryLimits) × (initial_inventory_limits 1000 100_000_000_000 0 defaults
              ≡ some l)
            × IsStart 1000 defaults l
            × (pacing_for_limits 1000 l
                ≡ some (record {
                  min_interval = 0;
                  item_rate_per_second =
                      if defaults.item_rate_limit == 0 then none else some l.item_rate_per_second;
                  batch_size = some l.batch_size;
                }))))
first_limits_example =
    first_limits 1000 last_part environment empty 100_000_000_000 0 (omega arith) resolve_test
      (omega arith) (omega arith)

-- A parser that reads the text itself, and a file that has a retired key.
abbrev plain : Toml String
plain = record {
  Value = String;
  from_str = λ text. some text;
  has_index_key = λ key value. ite (String-discrete key value) true false;
  try_into = λ value. some value;
  default = "";
}

retired_test :
    load_config plain (λ path. contents "paused") "adjacent" none ≡ error (retired_key "paused")
unfolding load_config load_config_file parse_config convert_value first_retired String-discrete
retired_test = refl

load_config-Expected_example :
    (load_config plain (λ path. contents "port") "adjacent" none ≡ config "port")
    ↔ Expected plain (contents "port") none "port"
load_config-Expected_example =
    load_config-Expected plain (λ path. contents "port") "adjacent" none "port"
