-- ===== src/Index/Status/Tests.antt =====
-- The status of a concrete server: enrolled, with one active generation and no build.
use opcda_bridge.Base.{◌≡◌, refl, true, false, none, some, List, [], ◌∷◌, arith, String-discrete}
use opcda_bridge.Browse.{hierarchical, da3}
use opcda_bridge.Index.{HealthProbeState}
use opcda_bridge.Query.Search.{ok}
use opcda_bridge.Index.Store.{Generation, active, count_where}
use opcda_bridge.Index.Store.Active.{Inv}
use opcda_bridge.Index.Status.{IndexStatus, RuntimeStatus, no_metrics, no_host_metrics, no_storage}
use opcda_bridge.Index.Status.Rows.{status_rows, insert_row}
use opcda_bridge.Index.Status.Parts.{Clock, Settings}
use opcda_bridge.Index.Status.Report.{
  Reads, read_enrollment, load_status_rows, load_persisted_retry_state, with_retry_state, status,
}
use opcda_bridge.Index.Status.States.{Reports, status-Reports}

abbrev rows : List Generation
rows =
    record {
      server = "plant";
      generation = 3;
      state = active;
      organization = hierarchical;
      source = da3;
      started_at = "1";
      completed_at = some "2";
      entry_count = 5;
      unique_item_count = 4;
      last_error = none;
      compatibility_fallback = false;
    }
    ∷ []

abbrev clock : Clock
clock = record {
  now = 5_000_000_000;
  latest = 100_000_000_000;
  parse_timestamp = λ t. some 4_000_000_000;
  system_time_timestamp = λ n. "time";
  instant_timestamp = λ n. "time";
}

abbrev settings : Settings
settings = record {
  refresh_interval_seconds = 60;
  schedule_jitter_seconds = 1;
  has_sentinel = true;
}

abbrev runtime : RuntimeStatus Unit
runtime = record {
  build = none;
  last_error = none;
  retry_after = none;
  consecutive_failures = 0;
  circuit_open = false;
  health = HealthProbeState.healthy;
}

abbrev reads : Reads Unit
reads = record {
  server_bytes = 112 ∷ [];
  is_deleting = false;
  deletion_error = none;
  is_promoting = false;
  in_memory = false;
  enrollment = ok (some true);
  read_only_enrollment = ok none;
  rows = ok rows;
  read_only_rows = ok [];
  retry_state = ok (none, 0, false);
  runtime = runtime;
  storage = no_storage;
  storage_for_path = no_storage;
  foreground_metrics = no_metrics;
  host_metrics = no_host_metrics Unit;
}

rows-Inv : Inv rows
unfolding count_where
rows-Inv = record { keyed = λ t g. ground arith; single = λ t. ground arith }

status-Reports_example :
    (s : IndexStatus Unit) × (status Unit clock settings "plant" reads ≡ ok s)
    × Reports clock settings "plant" reads (some true) rows s
unfolding read_enrollment load_status_rows load_persisted_retry_state with_retry_state status_rows
    insert_row String-discrete
status-Reports_example =
    status-Reports clock settings "plant" reads rows (some true) none none runtime rows-Inv refl
      refl refl
