-- ===== src/Index/Metrics.antt =====
-- ForegroundMetricState and percentile of index/status.rs. Instants are numbers of nanoseconds; the
-- counts of errors and of bad qualities stay below the largest `u64`. `sort` stands for the sort of
-- the standard library.
pub mod Percentile
pub mod Window
mod Tests
use opcda_bridge.Base.{
  ℕ, zero, suc, ◌+◌, ◌-◌, ◌*◌, ◌/◌, min, max, Bool, true, false, Option, none, some, List, [], ◌∷◌,
  ◌++◌, ltb, leb, if◌then◌else◌, saturating_add, u64_max, length, drop, is_some_and,
}

pub record ForegroundMetricState : Type 0 where
  pub latencies_ms : List ℕ
  pub operations : ℕ
  pub errors : ℕ
  pub bad_quality : ℕ
  pub last_error : Bool
  pub last_bad_quality : Bool
  pub last_health_failure_at : Option ℕ
  pub last_bad_quality_at : Option ℕ

pub record ForegroundMetrics : Type 0 where
  pub active_count : ℕ
  pub operations : ℕ
  pub errors : ℕ
  pub bad_quality : ℕ
  pub latency_p50_ms : Option ℕ
  pub latency_p95_ms : Option ℕ
  pub latency_max_ms : Option ℕ
  pub last_error : Bool
  pub last_bad_quality : Bool

abbrev pub window : ℕ
window = 128

-- One foreground operation, with the time at which it is recorded.
pub record Operation : Type 0 where
  pub now : ℕ
  pub latency_ms : ℕ
  pub error : Bool
  pub bad_quality : Bool
  pub health_failure : Bool

-- `push_back`, and `pop_front` of a window that is too long.
unfoldable pub push_latency : ℕ → List ℕ → List ℕ
push_latency latency latencies =
    let pushed = latencies ++ latency ∷ [] in
    if ltb window (length pushed) then drop 1 pushed else pushed

unfoldable pub record_health_at : Operation → ForegroundMetricState → ForegroundMetricState
unfolding push_latency
record_health_at o s = record {
  latencies_ms = push_latency o.latency_ms s.latencies_ms;
  operations = saturating_add u64_max s.operations 1;
  errors = s.errors + (if o.error then 1 else 0);
  bad_quality = s.bad_quality + (if o.bad_quality then 1 else 0);
  last_error = o.error;
  last_bad_quality = o.bad_quality;
  last_health_failure_at = if o.health_failure then some o.now else s.last_health_failure_at;
  last_bad_quality_at = if o.bad_quality then some o.now else s.last_bad_quality_at;
}

unfoldable pub recent_health_failure : ℕ → ℕ → ForegroundMetricState → Bool
recent_health_failure now max_age s =
    is_some_and s.last_health_failure_at (λ recorded. leb (now - recorded) max_age)

unfoldable pub recent_bad_quality : ℕ → ℕ → ForegroundMetricState → Bool
recent_bad_quality now max_age s =
    is_some_and s.last_bad_quality_at (λ recorded. leb (now - recorded) max_age)

unfoldable pub get_elem? : List ℕ → ℕ → Option ℕ
get_elem? [] i = none
get_elem? (x ∷ xs) zero = some x
get_elem? (x ∷ xs) (suc i) = get_elem? xs i

unfoldable pub place : ℕ → List ℕ → List ℕ
place v [] = v ∷ []
place v (x ∷ xs) = if leb v x then v ∷ x ∷ xs else x ∷ place v xs

unfoldable pub sort : List ℕ → List ℕ
sort [] = []
sort (x ∷ xs) = place x (sort xs)

-- The place of the nearest rank in a list of that length.
unfoldable pub rank_index : ℕ → ℕ → ℕ
rank_index n p = min (max ((n * p + 99) / 100) 1 - 1) (n - 1)

unfoldable pub percentile : List ℕ → ℕ → Option ℕ
percentile [] p = none
percentile (x ∷ xs) p = get_elem? (x ∷ xs) (rank_index (length (x ∷ xs)) p)

unfoldable pub snapshot : ℕ → ForegroundMetricState → ForegroundMetrics
unfolding sort percentile get_elem?
snapshot active_count s =
    let sorted = sort s.latencies_ms in
    record {
      active_count = active_count;
      operations = s.operations;
      errors = s.errors;
      bad_quality = s.bad_quality;
      latency_p50_ms = percentile sorted 50;
      latency_p95_ms = percentile sorted 95;
      latency_max_ms = get_elem? sorted (length sorted - 1);
      last_error = s.last_error;
      last_bad_quality = s.last_bad_quality;
    }
