-- ===== src/Index/Status/Report.antt =====
-- IndexManager::status. What it reads from the manager, the database, the disk and the host is an
-- argument; an error is its message.
use Prim.Native.String.{String}
use opcda_bridge.Base.{
  ℕ, ◌+◌, ◌-◌, ◌/◌, min, max, Bool, false, not, ◌&&◌, Option, none, some, List, [], ltb, leb,
  if◌then◌else◌, is_some, is_some_and, u64_max, saturating_add, Text,
}
use opcda_bridge.Schedule.{deterministic_jitter}
use opcda_bridge.Query.Search.{not_indexed, deleting, Result, ok, err}
use opcda_bridge.Index.Metrics.{ForegroundMetrics}
use opcda_bridge.Index.Store.{Generation}
use opcda_bridge.Index.Status.{
  HostMetrics, StorageDiagnostics, SchedulerDiagnostics, IndexStatus, ReportedBuild, RuntimeStatus,
  empty_status,
}
use opcda_bridge.Index.Status.Rows.{StatusRows, from_rows}
use opcda_bridge.Index.Status.Parts.{
  Clock, Settings, nanos, and_then, or_else, mapped, total_bytes, base_status, apply_status_errors,
  with_deletion_error, apply_runtime_status,
}

infixl 5 ◌>>=◌
abbrev pub ◌>>=◌ : {A B : Type 0} → Result A → (A → Result B) → Result B
ok a >>= f = f a
err e >>= f = err e

unfoldable pub next_refresh_at : Clock → Settings → Text → Option String → Option String
next_refresh_at clock settings server completed = mapped clock.system_time_timestamp (
    and_then (and_then completed clock.parse_timestamp) (λ time.
      let next =
        time
        + nanos (
            saturating_add u64_max (max settings.refresh_interval_seconds 1)
              (deterministic_jitter server settings.schedule_jitter_seconds)) in
      if leb next clock.latest then some next else none))

abbrev not_before : Option ℕ → ℕ → ℕ
not_before none next = next
not_before (some retry) next = max retry next

unfoldable pub refresh_time : Clock → Settings → Text → Option String → Option ℕ → Option String
unfolding next_refresh_at
refresh_time clock settings server completed retry =
    mapped (λ next. clock.system_time_timestamp (not_before retry next))
      (and_then (next_refresh_at clock settings server completed) clock.parse_timestamp)

abbrev completed_of : Generation → Option String
completed_of row = row.completed_at

abbrev elapsed_ms : Option ℕ → Option ℕ → Option ℕ
elapsed_ms (some started) (some completed) =
    if leb started completed then some (min ((completed - started) / 1_000_000) u64_max) else none
elapsed_ms _ _ = none

unfoldable pub status_duration_ms : Clock → Generation → Option ℕ
status_duration_ms clock row =
    elapsed_ms (clock.parse_timestamp row.started_at)
      (and_then row.completed_at clock.parse_timestamp)

module _ (V : Type 0) where
  unfoldable pub scheduler_diagnostics :
      Clock → Settings → Text → StatusRows → RuntimeStatus V → Bool → SchedulerDiagnostics
  unfolding refresh_time status_duration_ms
  scheduler_diagnostics clock settings server rows runtime usable_index =
      let last_success_at = and_then rows.active completed_of in
      record {
        next_refresh_at =
            if usable_index
            then refresh_time clock settings server last_success_at runtime.retry_after
            else none;
        last_attempt_at =
            or_else
              (or_else (mapped (λ (b : ReportedBuild V). b.started_at) runtime.build)
                (mapped (λ (r : Generation). r.started_at) rows.failed))
              (mapped (λ (r : Generation). r.started_at) rows.active);
        last_success_at = last_success_at;
        last_success_duration_ms = and_then rows.active (status_duration_ms clock);
        retry_after = mapped clock.system_time_timestamp runtime.retry_after;
        consecutive_failures = runtime.consecutive_failures;
        circuit_open = runtime.circuit_open;
      }

  -- What a status reads. An enrollment says whether the index is refreshed automatically;
  -- `read_only` are the reads of a database that is being promoted.
  pub record Reads : Type 0 where
    pub server_bytes : Text
    pub is_deleting : Bool
    pub deletion_error : Option String
    pub is_promoting : Bool
    pub in_memory : Bool
    pub enrollment : Result (Option Bool)
    pub read_only_enrollment : Result (Option Bool)
    pub rows : Result (List Generation)
    pub read_only_rows : Result (List Generation)
    pub retry_state : Result (Option ℕ × ℕ × Bool)
    pub runtime : RuntimeStatus V
    pub storage : StorageDiagnostics
    pub storage_for_path : StorageDiagnostics
    pub foreground_metrics : ForegroundMetrics
    pub host_metrics : HostMetrics V

  -- While an error keeps a promoted database from being read, the server counts as enrolled.
  abbrev or_unreadable : {A : Type 0} → A → Result A → A × Option String
  or_unreadable fallback (ok a) = (a, none)
  or_unreadable fallback (err e) = (fallback, some e)

  abbrev readable : {A : Type 0} → Result A → Result (A × Option String)
  readable (ok a) = ok (a, none)
  readable (err e) = err e

  unfoldable pub read_enrollment : Reads → Result (Option Bool × Option String)
  read_enrollment reads =
      if reads.is_promoting && not reads.in_memory
      then ok (or_unreadable (some false) reads.read_only_enrollment)
      else readable reads.enrollment

  unfoldable pub load_status_rows : Reads → Result (List Generation × Option String)
  load_status_rows reads =
      if reads.is_promoting && not reads.in_memory
      then ok (or_unreadable [] reads.read_only_rows)
      else readable reads.rows

  -- `Option::max`: no time is before every time.
  abbrev later : Option ℕ → Option ℕ → Option ℕ
  later none b = b
  later (some a) none = some a
  later (some a) (some b) = some (max a b)

  -- load_persisted_retry_state, on the fields of the runtime state that a status copies.
  unfoldable pub with_retry_state : Clock → Option ℕ × ℕ × Bool → RuntimeStatus V → RuntimeStatus V
  with_retry_state clock (retry, failures, circuit) runtime =
      let retry_after = later runtime.retry_after retry in
      if is_some runtime.build then runtime else record runtime {
        retry_after = retry_after;
        consecutive_failures = failures;
        circuit_open = circuit && is_some_and retry_after (λ time. ltb clock.now time);
      }

  unfoldable pub load_persisted_retry_state : Clock → Reads → Result (RuntimeStatus V)
  unfolding with_retry_state
  load_persisted_retry_state clock reads =
      if reads.is_promoting
      then ok reads.runtime
      else reads.retry_state >>= λ persisted. ok (with_retry_state clock persisted reads.runtime)

  abbrev pub storage_of : Reads → StorageDiagnostics
  storage_of reads = if reads.is_promoting then reads.storage_for_path else reads.storage

  -- The status of an enrolled server.
  unfoldable pub enrolled_status :
      Clock
      → Settings
      → String
      → Reads
      → Bool
      → StatusRows
      → Option String
      → RuntimeStatus V
      → IndexStatus V
  enrolled_status clock settings server reads auto_refresh rows read_error runtime =
      let base =
        base_status V clock settings server rows runtime.build reads.is_promoting
          (total_bytes (storage_of reads)) in
      let with_errors = with_deletion_error V reads.deletion_error (
        apply_status_errors V (is_some runtime.build) runtime.last_error read_error (record base {
          sentinel_configured = settings.has_sentinel;
          auto_refresh_enabled = auto_refresh;
        })) in
      let status = apply_runtime_status V clock runtime (record with_errors {
        foreground_metrics = reads.foreground_metrics;
        host_metrics = reads.host_metrics;
        storage = storage_of reads;
      }) in
      record status {
        scheduler = scheduler_diagnostics clock settings reads.server_bytes rows runtime (
            auto_refresh
            && (ltb 0 status.active_generation
                && (not (is_some read_error) && not (is_some reads.deletion_error))));
      }

  abbrev pub not_enrolled : Settings → String → Option String → IndexStatus V
  not_enrolled settings server deletion_error =
      with_deletion_error V deletion_error
        (record (empty_status V server not_indexed) { sentinel_configured = settings.has_sentinel })

  abbrev pub of_enrollment :
      Clock → Settings → String → Reads → Option Bool × Option String → Result (IndexStatus V)
  of_enrollment clock settings server reads (none, e) =
      ok (not_enrolled settings server reads.deletion_error)
  of_enrollment clock settings server reads (some auto_refresh, e) = do
    (rows, rows_error) ← load_status_rows reads
    runtime ← load_persisted_retry_state clock reads
    ok (
        enrolled_status clock settings server reads auto_refresh (from_rows rows)
          (or_else rows_error e) runtime)

  abbrev pub deletion_status : Settings → String → Reads → IndexStatus V
  deletion_status settings server reads = record (empty_status V server deleting) {
    sentinel_configured = settings.has_sentinel;
    database_bytes = total_bytes reads.storage_for_path;
  }

  unfoldable pub status : Clock → Settings → String → Reads → Result (IndexStatus V)
  status clock settings server reads =
      if reads.is_deleting
      then ok (deletion_status settings server reads)
      else read_enrollment reads >>= of_enrollment clock settings server reads
