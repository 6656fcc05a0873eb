-- ===== src/Index/Status/Parts.antt =====
-- The parts of IndexManager::status. The clock and the conversions of times are
-- arguments.
use Prim.Native.String.{String, ◌++◌ as append}
use opcda_bridge.Base.{
  ℕ, ◌-◌, ◌*◌, Bool, Option, none, some, ltb, if◌then◌else◌, is_some, is_some_and, saturating_add,
  u64_max,
}
use opcda_bridge.Query.Search.{
  IndexState, not_indexed, partial, ready, stale, refreshing, promoting, failed,
}
use opcda_bridge.Index.Store.{Generation, is_active}
use opcda_bridge.Index.Status.{
  InventoryProgress, StorageDiagnostics, IndexStatus, ReportedBuild, RuntimeStatus, empty_status,
}
use opcda_bridge.Index.Status.Rows.{StatusRows}

-- `SystemTime::now`, the latest time that there is, and the texts of times.
pub record Clock : Type 0 where
  pub now : ℕ
  pub latest : ℕ
  pub parse_timestamp : String → Option ℕ
  pub system_time_timestamp : ℕ → String
  pub instant_timestamp : ℕ → String

pub record Settings : Type 0 where
  pub refresh_interval_seconds : ℕ
  pub schedule_jitter_seconds : ℕ
  pub has_sentinel : Bool

abbrev pub nanos : ℕ → ℕ
nanos seconds = seconds * 1_000_000_000

abbrev pub and_then : {A B : Type 0} → Option A → (A → Option B) → Option B
and_then none f = none
and_then (some a) f = f a

abbrev pub or_else : {A : Type 0} → Option A → Option A → Option A
or_else none b = b
or_else (some a) b = some a

abbrev pub mapped : {A B : Type 0} → (A → B) → Option A → Option B
mapped f none = none
mapped f (some a) = some (f a)

abbrev pub total_bytes : StorageDiagnostics → ℕ
total_bytes s = saturating_add u64_max (saturating_add u64_max s.main_bytes s.wal_bytes) s.shm_bytes

unfoldable pub is_stale : Clock → Settings → Generation → Bool
is_stale clock settings row =
    is_some_and (and_then row.completed_at clock.parse_timestamp)
      (λ completed. ltb (nanos settings.refresh_interval_seconds) (clock.now - completed))

abbrev error_of_failure : Option Generation → Option String → Option String
error_of_failure none e = e
error_of_failure (some row) e = row.last_error

abbrev build_state : StatusRows → Bool → IndexState
build_state rows is_promoting =
    if is_promoting
    then promoting
    else if is_some rows.active
    then refreshing
    else if is_some rows.staging
    then partial
    else failed

module _ (V : Type 0) where
  unfoldable pub status_from_row :
      String → Generation → IndexState → Option (InventoryProgress V) → ℕ → IndexStatus V
  status_from_row server row state progress database_bytes = record (empty_status V server state) {
    active_generation = if is_active row.state then row.generation else 0;
    entry_count = row.entry_count;
    unique_item_count = row.unique_item_count;
    started_at = some row.started_at;
    completed_at = row.completed_at;
    last_error = row.last_error;
    database_bytes = database_bytes;
    organization = row.organization;
    source = row.source;
    progress = progress;
  }

  abbrev entries_of : Option (InventoryProgress V) → ℕ
  entries_of none = 0
  entries_of (some p) = p.entries_seen

  abbrev items_of : Option (InventoryProgress V) → ℕ
  items_of none = 0
  items_of (some p) = p.unique_items

  unfoldable pub status_from_runtime_build :
      Clock → String → ReportedBuild V → Bool → ℕ → IndexStatus V
  status_from_runtime_build clock server b is_promoting database_bytes =
      record (empty_status V server (if is_promoting then promoting else partial)) {
        entry_count = entries_of b.progress;
        unique_item_count = items_of b.progress;
        started_at = some b.started_at;
        database_bytes = database_bytes;
        progress = b.progress;
        effective_limits = b.build.effective_limits;
        controller_state = b.build.controller_state;
        pause_reason = b.build.pause_reason;
        recovery_deadline = mapped clock.instant_timestamp b.build.recovery_deadline;
      }

  abbrev during_build :
      Clock → String → StatusRows → ReportedBuild V → Bool → ℕ → Option Generation → IndexStatus V
  during_build clock server rows b is_promoting database_bytes none =
      status_from_runtime_build clock server b is_promoting database_bytes
  during_build clock server rows b is_promoting database_bytes (some row) =
      record (status_from_row server row (build_state rows is_promoting) b.progress
        database_bytes) { started_at = some b.started_at }

  unfoldable pub status_during_build :
      Clock → String → StatusRows → ReportedBuild V → Bool → ℕ → IndexStatus V
  status_during_build clock server rows b is_promoting database_bytes =
      during_build clock server rows b is_promoting database_bytes
        (or_else (or_else rows.active rows.staging) rows.failed)

  unfoldable pub status_from_active_row :
      Clock → Settings → String → StatusRows → Generation → ℕ → IndexStatus V
  unfolding is_stale
  status_from_active_row clock settings server rows row database_bytes =
      let state =
        if is_some rows.failed_after_active
        then failed
        else if is_stale clock settings row
        then stale
        else ready in
      record (status_from_row server row state none database_bytes) {
        last_error = error_of_failure rows.failed_after_active row.last_error;
      }

  abbrev without_build :
      Clock
      → Settings
      → String
      → StatusRows
      → ℕ
      → Option Generation
      → Option Generation
      → Option Generation
      → IndexStatus V
  without_build clock settings server rows bytes (some row) s f =
      status_from_active_row clock settings server rows row bytes
  without_build clock settings server rows bytes none (some row) f =
      status_from_row server row partial none bytes
  without_build clock settings server rows bytes none none (some row) =
      status_from_row server row failed none bytes
  without_build clock settings server rows bytes none none none =
      record (empty_status V server not_indexed) {
        database_bytes = bytes;
        sentinel_configured = settings.has_sentinel;
      }

  unfoldable pub status_without_build : Clock → Settings → String → StatusRows → ℕ → IndexStatus V
  status_without_build clock settings server rows database_bytes =
      without_build clock settings server rows database_bytes rows.active rows.staging rows.failed

  unfoldable pub base_status :
      Clock → Settings → String → StatusRows → Option (ReportedBuild V) → Bool → ℕ → IndexStatus V
  base_status clock settings server rows none is_promoting database_bytes =
      status_without_build clock settings server rows database_bytes
  base_status clock settings server rows (some b) is_promoting database_bytes =
      status_during_build clock server rows b is_promoting database_bytes

  abbrev with_runtime_error : Option String → IndexStatus V → IndexStatus V
  with_runtime_error none s = s
  with_runtime_error (some e) s = record s { state = failed; last_error = some e }

  abbrev with_read_error : Option String → IndexStatus V → IndexStatus V
  with_read_error none s = s
  with_read_error (some e) s = record s { last_error = some e }

  unfoldable pub apply_status_errors :
      Bool → Option String → Option String → IndexStatus V → IndexStatus V
  apply_status_errors build_active runtime_error read_error s =
      with_read_error read_error (if build_active then s else with_runtime_error runtime_error s)

  abbrev pub with_deletion_error : Option String → IndexStatus V → IndexStatus V
  with_deletion_error none s = s
  with_deletion_error (some e) s = record s {
    state = failed;
    last_error = some (append "namespace index deletion failed: " e);
  }

  abbrev with_build_fields : Clock → Option (ReportedBuild V) → IndexStatus V → IndexStatus V
  with_build_fields clock none s = s
  with_build_fields clock (some b) s = record s {
    effective_limits = b.build.effective_limits;
    controller_state = b.build.controller_state;
    pause_reason = b.build.pause_reason;
    recovery_deadline = mapped clock.instant_timestamp b.build.recovery_deadline;
    storage = record s.storage { last_commit_latency_ms = b.last_commit_latency_ms };
  }

  unfoldable pub apply_runtime_status : Clock → RuntimeStatus V → IndexStatus V → IndexStatus V
  apply_runtime_status clock runtime s =
      with_build_fields clock runtime.build (record s { health = runtime.health })
