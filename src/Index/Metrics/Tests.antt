-- ===== src/Index/Metrics/Tests.antt =====
-- The metrics of two foreground operations.
use opcda_bridge.Base.{ℕ, ◌≡◌, refl, false, none, some, [], ◌∷◌, map}
use opcda_bridge.Index.Metrics.{
  ForegroundMetricState, Operation, snapshot, record_health_at, push_latency, sort, place,
  percentile, rank_index, get_elem?,
}
use opcda_bridge.Index.Metrics.Percentile.{IsRank}
use opcda_bridge.Index.Metrics.Window.{record_all, last_of, latency_of, snapshot-window}

abbrev nothing : ForegroundMetricState
nothing = record {
  latencies_ms = [];
  operations = 0;
  errors = 0;
  bad_quality = 0;
  last_error = false;
  last_bad_quality = false;
  last_health_failure_at = none;
  last_bad_quality_at = none;
}

abbrev slow : Operation
slow = record {
  now = 1;
  latency_ms = 90;
  error = false;
  bad_quality = false;
  health_failure = false;
}

abbrev fast : Operation
fast = record {
  now = 2;
  latency_ms = 10;
  error = false;
  bad_quality = false;
  health_failure = false;
}

percentile_test : (snapshot 0 (record_all (slow ∷ fast ∷ []) nothing)).latency_p50_ms ≡ some 10
unfolding snapshot record_all record_health_at push_latency sort place percentile rank_index
    get_elem?
percentile_test = refl

snapshot-window_example :
    let recorded = record_all (slow ∷ fast ∷ []) nothing in
    let last = last_of (map latency_of (slow ∷ fast ∷ [])) in
    (a : ℕ) × (b : ℕ) × (recorded.latencies_ms ≡ last)
    × ((snapshot 0 recorded).latency_p50_ms ≡ some a)
    × ((snapshot 0 recorded).latency_p95_ms ≡ some b)
    × IsRank 50 a last
    × IsRank 95 b last
snapshot-window_example = snapshot-window 0 slow (fast ∷ []) nothing refl
