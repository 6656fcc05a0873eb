-- ===== src/Config/Resolve.antt =====
-- resolve_index_config of config.rs: bounds of the resolved settings, and that explicit ones are kept.
use Prim.Native.String.{String}
use opcda_bridge.Base.{ℕ, ◌≤◌, min, max, ◌≡◌, refl, some, arith, unwrap_or}
use opcda_bridge.Controller.{clamp}
use opcda_bridge.Config.{
  IndexConfig, ResolvedIndexConfig, max_worker_count, default_inventory_batch_size,
  default_batch_size, default_duty_cycle_percent, default_minimum_batch_size,
  default_minimum_duty_cycle_percent, default_canary_batch_size, default_canary_duty_cycle_percent,
  default_worker_count,
}
use opcda_bridge.Config.Settings.{
  Environment, Clamped, clamped, settings_with, health_latency, soft_latency, hard_latency,
  database_path_of, resolve_index_config, or,
}

pub record IsResolved (max_batch : ℕ) (r : ResolvedIndexConfig) : Type 0 where
  pub inventory_batch : (1 ≤ r.inventory_batch_size) × (r.inventory_batch_size ≤ max_batch)
  pub commit_batch_size : 1 ≤ r.commit_batch_size
  pub commit_interval_ms : 1 ≤ r.commit_interval_ms
  pub batch : (1 ≤ r.batch_size) × (r.batch_size ≤ max_batch)
  pub burst_size : 1 ≤ r.burst_size
  pub duty : (1 ≤ r.duty_cycle_percent) × (r.duty_cycle_percent ≤ 100)
  pub minimum_item_rate : 1 ≤ r.minimum_item_rate
  pub minimum_batch : (1 ≤ r.minimum_batch_size) × (r.minimum_batch_size ≤ max_batch)
  pub minimum_duty : (1 ≤ r.minimum_duty_cycle_percent) × (r.minimum_duty_cycle_percent ≤ 100)
  pub canary_item_rate : 1 ≤ r.canary_item_rate
  pub canary_batch : (1 ≤ r.canary_batch_size) × (r.canary_batch_size ≤ max_batch)
  pub canary_duty : (1 ≤ r.canary_duty_cycle_percent) × (r.canary_duty_cycle_percent ≤ 100)
  pub adaptive_healthy_window_seconds : 1 ≤ r.adaptive_healthy_window_seconds
  pub adaptive_recovery_delay_seconds : 1 ≤ r.adaptive_recovery_delay_seconds
  pub adaptive_max_recovery_delay_seconds : 1 ≤ r.adaptive_max_recovery_delay_seconds
  pub sentinel_probe_interval_seconds : 1 ≤ r.sentinel_probe_interval_seconds
  pub circuit_failure_threshold : 1 ≤ r.circuit_failure_threshold
  pub circuit_open_seconds : 1 ≤ r.circuit_open_seconds
  pub health_probe_interval_seconds : 1 ≤ r.health_probe_interval_seconds
  pub health_latency_threshold_ms : 1 ≤ r.health_latency_threshold_ms
  pub adaptive_foreground_soft_latency_ms : 1 ≤ r.adaptive_foreground_soft_latency_ms
  pub latencies : r.adaptive_foreground_soft_latency_ms ≤ r.adaptive_foreground_hard_latency_ms
  pub operation_timeout_seconds : 1 ≤ r.operation_timeout_seconds
  pub concurrency : 1 ≤ r.concurrency
  pub workers : (1 ≤ r.worker_count) × (r.worker_count ≤ max_worker_count)
  pub query_cache_capacity : 1 ≤ r.query_cache_capacity
  pub max_results : 1 ≤ r.max_results

-- The file that gives every setting of `r`.
abbrev pub explicit : ResolvedIndexConfig → IndexConfig
explicit r = record {
  database_path = some r.database_path;
  refresh_interval_seconds = some r.refresh_interval_seconds;
  startup_grace_period_seconds = some r.startup_grace_period_seconds;
  schedule_jitter_seconds = some r.schedule_jitter_seconds;
  inventory_batch_size = some r.inventory_batch_size;
  inventory_root = r.inventory_root;
  commit_batch_size = some r.commit_batch_size;
  commit_interval_ms = some r.commit_interval_ms;
  batch_size = some r.batch_size;
  item_rate_limit = some r.item_rate_limit;
  burst_size = some r.burst_size;
  duty_cycle_percent = some r.duty_cycle_percent;
  adaptive = some r.adaptive;
  minimum_item_rate = some r.minimum_item_rate;
  minimum_batch_size = some r.minimum_batch_size;
  minimum_duty_cycle_percent = some r.minimum_duty_cycle_percent;
  canary_item_rate = some r.canary_item_rate;
  canary_batch_size = some r.canary_batch_size;
  canary_duty_cycle_percent = some r.canary_duty_cycle_percent;
  adaptive_healthy_window_seconds = some r.adaptive_healthy_window_seconds;
  adaptive_recovery_delay_seconds = some r.adaptive_recovery_delay_seconds;
  adaptive_max_recovery_delay_seconds = some r.adaptive_max_recovery_delay_seconds;
  sentinel_tag = r.sentinel_tag;
  sentinel_probe_interval_seconds = some r.sentinel_probe_interval_seconds;
  minimum_free_space_bytes = some r.minimum_free_space_bytes;
  storage_headroom_bytes = some r.storage_headroom_bytes;
  circuit_failure_threshold = some r.circuit_failure_threshold;
  circuit_open_seconds = some r.circuit_open_seconds;
  quiet_period_seconds = some r.quiet_period_seconds;
  health_probe_interval_seconds = some r.health_probe_interval_seconds;
  health_latency_threshold_ms = some r.health_latency_threshold_ms;
  adaptive_foreground_soft_latency_ms = some r.adaptive_foreground_soft_latency_ms;
  adaptive_foreground_hard_latency_ms = some r.adaptive_foreground_hard_latency_ms;
  operation_timeout_seconds = some r.operation_timeout_seconds;
  maintenance_windows = r.maintenance_windows;
  concurrency = some r.concurrency;
  worker_count = some r.worker_count;
  query_cache_capacity = some r.query_cache_capacity;
  max_results = some r.max_results;
}

clamp_within : (x lo hi : ℕ) → lo ≤ hi → (v : ℕ) × (clamp x lo hi ≡ some v) × (lo ≤ v) × (v ≤ hi)
unfolding clamp
clamp_within x lo hi h = (min (max x lo) hi, ground arith, omega arith, omega arith)

pub clamp_id : (x lo hi : ℕ) → (lo ≤ x) × (x ≤ hi) → clamp x lo hi ≡ some x
unfolding clamp
clamp_id x lo hi h = ground arith

module _ (join : String → String → String) (max_batch : ℕ) where
  clamped_total :
      (c : IndexConfig)
      → 1 ≤ max_batch
      → (v : Clamped) × (clamped join max_batch c ≡ some v)
        × (1 ≤ v.inventory_batch)
        × (v.inventory_batch ≤ max_batch)
        × (1 ≤ v.batch)
        × (v.batch ≤ max_batch)
        × (1 ≤ v.duty)
        × (v.duty ≤ 100)
        × (1 ≤ v.minimum_batch)
        × (v.minimum_batch ≤ max_batch)
        × (1 ≤ v.minimum_duty)
        × (v.minimum_duty ≤ 100)
        × (1 ≤ v.canary_batch)
        × (v.canary_batch ≤ max_batch)
        × (1 ≤ v.canary_duty)
        × (v.canary_duty ≤ 100)
        × (1 ≤ v.workers)
        × (v.workers ≤ max_worker_count)
  unfolding clamped
  clamped_total c h =
      let (a, ea, a1, a2) =
        clamp_within
          (unwrap_or (or c.inventory_batch_size c.batch_size) default_inventory_batch_size) 1
          max_batch h in
      let (b, eb, b1, b2) =
        clamp_within (unwrap_or c.batch_size default_batch_size) 1 max_batch h in
      let (d, ed, d1, d2) =
        clamp_within (unwrap_or c.duty_cycle_percent default_duty_cycle_percent) 1 100
          (omega arith) in
      let (f, ef, f1, f2) =
        clamp_within (unwrap_or c.minimum_batch_size default_minimum_batch_size) 1 max_batch h in
      let (g, eg, g1, g2) =
        clamp_within (unwrap_or c.minimum_duty_cycle_percent default_minimum_duty_cycle_percent) 1
          100 (omega arith) in
      let (k, ek, k1, k2) =
        clamp_within (unwrap_or c.canary_batch_size default_canary_batch_size) 1 max_batch h in
      let (l, el, l1, l2) =
        clamp_within (unwrap_or c.canary_duty_cycle_percent default_canary_duty_cycle_percent) 1 100
          (omega arith) in
      let (w, ew, w1, w2) =
        clamp_within (unwrap_or c.worker_count default_worker_count) 1 max_worker_count
          (omega arith) in
      (
        record {
          inventory_batch = a;
          batch = b;
          duty = d;
          minimum_batch = f;
          minimum_duty = g;
          canary_batch = k;
          canary_duty = l;
          workers = w;
        },
        rw (ea, eb, ed, ef, eg, ek, el, ew) refl,
        a1,
        a2,
        b1,
        b2,
        d1,
        d2,
        f1,
        f2,
        g1,
        g2,
        k1,
        k2,
        l1,
        l2,
        w1,
        w2,
      )

  -- With a native batch limit of at least one, resolving never panics, for any file and environment,
  -- and every resolved size, rate, share, latency, delay and count lies within its bounds.
  pub resolve_total :
      (e : Environment) (c : IndexConfig)
      → 1 ≤ max_batch
      → (r : ResolvedIndexConfig) × (resolve_index_config join max_batch e c ≡ some r)
        × IsResolved max_batch r
  unfolding resolve_index_config settings_with health_latency soft_latency hard_latency
  resolve_total e c h =
      let (v, ev, a1, a2, b1, b2, d1, d2, f1, f2, g1, g2, k1, k2, l1, l2, w1, w2) =
        clamped_total c h in
      (settings_with (database_path_of join e c) c v, rw ev refl, omega arith)

  -- A file that gives every setting, each within its bounds, is resolved to exactly these settings, in
  -- any environment.
  pub resolve-explicit :
      (e : Environment) (r : ResolvedIndexConfig)
      → IsResolved max_batch r
      → resolve_index_config join max_batch e (explicit r) ≡ some r
  unfolding resolve_index_config settings_with health_latency soft_latency hard_latency clamped
      database_path_of
  resolve-explicit e r h =
      rw
        (
          clamp_id r.inventory_batch_size 1 max_batch h.inventory_batch,
          clamp_id r.batch_size 1 max_batch h.batch,
          clamp_id r.duty_cycle_percent 1 100 h.duty,
          clamp_id r.minimum_batch_size 1 max_batch h.minimum_batch,
          clamp_id r.minimum_duty_cycle_percent 1 100 h.minimum_duty,
          clamp_id r.canary_batch_size 1 max_batch h.canary_batch,
          clamp_id r.canary_duty_cycle_percent 1 100 h.canary_duty,
          clamp_id r.worker_count 1 max_worker_count h.workers,
        )
        (ground arith)
