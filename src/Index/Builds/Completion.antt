-- ===== src/Index/Builds/Completion.antt =====
-- The end of a build: the `finish_build` family of index/traversal.rs. Tokens and controls are
-- numbers; `name` holds the UTF-8 bytes of the server's name, from which the retry delay is computed.
use Prim.Native.String.{String}
use opcda_bridge.Base.{
  ℕ, ◌+◌, max, Bool, true, false, ◌&&◌, Option, none, some, leb, ◌==◌, if◌then◌else◌, is_some,
  is_some_and, is_none_or, saturating_add, u32_max, String-discrete, get, remove, without, Text,
}
use opcda_bridge.Config.{ResolvedIndexConfig}
use opcda_bridge.Config.Pacing.{from_secs}
use opcda_bridge.Schedule.{retry_delay}
use opcda_bridge.Schedule.Tasks.{schedule_cleanup}
use opcda_bridge.Index.{RuntimeBuild, RuntimeState, Manager, build_of, update_state, take_build}
use opcda_bridge.Index.Pause.{clear_pause_overlays}

-- The control of a build that is there.
abbrev pub has_control : ℕ → Option RuntimeBuild → Bool
has_control control none = false
has_control control (some b) = is_some_and b.control (λ current. current == control)

-- A build that is missing does not contradict the control.
abbrev pub control_matches : Option ℕ → Option RuntimeBuild → Bool
control_matches none b = true
control_matches (some control) none = true
control_matches (some control) (some b) = is_some_and b.control (λ current. current == control)

abbrev pub completes : Option ℕ → Option RuntimeBuild → Bool
completes none b = is_some b
completes (some control) b = has_control control b

unfoldable pub build_completion_is_current : String → Option ℕ → Option ℕ → Manager → Bool
build_completion_is_current server control (some ownership) m =
    is_some_and (get String-discrete server m.build_owners) (λ current. current == ownership)
    && control_matches control (build_of server m.runtime)
build_completion_is_current server control none m = completes control (build_of server m.runtime)

abbrev pub cancelled_until : Option RuntimeBuild → Option ℕ
cancelled_until none = none
cancelled_until (some b) = b.operator_cancelled_until

-- The retry deadline, not before the deadline of a cancellation.
abbrev pub not_before : Option ℕ → ℕ → ℕ
not_before none retry = retry
not_before (some deadline) retry = max retry deadline

abbrev pub failed_state : ResolvedIndexConfig → ℕ → Text → String → RuntimeState → RuntimeState
failed_state settings now name error s =
    let failures = saturating_add u32_max s.consecutive_failures 1 in
    let open_circuit = leb settings.circuit_failure_threshold failures in
    record s {
      last_error = some error;
      consecutive_failures = failures;
      circuit_open = open_circuit;
      retry_after = some (
          not_before (cancelled_until s.build) (
            now
            + from_secs (retry_delay name failures open_circuit settings.circuit_open_seconds)));
    }

abbrev pub ended_state : Option ℕ → RuntimeState → RuntimeState
ended_state (some deadline) s = record s { last_error = none; retry_after = some deadline }
ended_state none s = record s {
  last_error = none;
  retry_after = none;
  consecutive_failures = 0;
  circuit_open = false;
}

unfoldable pub state_after_build :
    ResolvedIndexConfig → ℕ → Text → Option String → RuntimeState → RuntimeState
state_after_build settings now name (some error) s = failed_state settings now name error s
state_after_build settings now name none s = ended_state (cancelled_until s.build) s

abbrev pub with_error : Option String → RuntimeState → RuntimeState
with_error error s = record s { last_error = error }

-- Under the lock of the runtime; an interrupted build keeps its retry state.
unfoldable pub update_runtime_after_build :
    ResolvedIndexConfig → ℕ → Text → Bool → Option String → String → Manager → Manager
update_runtime_after_build settings now name preserve error server m = record m {
  runtime =
      if preserve
      then update_state (with_error error) server m.runtime
      else update_state (state_after_build settings now name error) server m.runtime;
}

-- The caller names no token, or the one that owns the build.
abbrev pub owns : Option ℕ → Option ℕ → Bool
owns ownership owner =
    is_none_or ownership (λ token. is_some_and owner (λ current. current == token))

unfoldable pub remove_build_owner : String → Option ℕ → Manager → Manager
remove_build_owner server ownership m = record m {
  build_owners =
      if owns ownership (get String-discrete server m.build_owners)
      then remove String-discrete server m.build_owners
      else m.build_owners;
}

unfoldable pub clear_active_build : String → Manager → Manager
clear_active_build server m = record m {
  active_builds = without String-discrete server m.active_builds;
}

unfoldable pub clear_build_lock : String → Manager → Manager
clear_build_lock server m = record m { build_locks = without String-discrete server m.build_locks }

-- `persist_error` is the message that is stored when the write of the retry state fails.
unfoldable pub finalize_owned_build : Option String → Bool → String → Option ℕ → Manager → Manager
finalize_owned_build persist_error reject_spawn server ownership m =
    let reported : Manager = record m {
      runtime =
          if is_some persist_error
          then update_state (with_error persist_error) server m.runtime
          else m.runtime;
    } in
    let cleared = clear_pause_overlays server reported in
    let unlocked =
      clear_build_lock server
        (clear_active_build server (remove_build_owner server ownership cleared)) in
    let taken : Manager = record unlocked { runtime = take_build server unlocked.runtime } in
    record taken {
      cleanup = (schedule_cleanup reject_spawn server taken.cleanup).0;
      pending_cancels = without String-discrete server taken.pending_cancels;
    }

-- How a build ended: its error, whether the retry state is kept, the control that the caller names.
pub record Ending : Type 0 where
  pub error : Option String
  pub preserve_retry_state : Bool
  pub control : Option ℕ
  pub persist_error : Option String

unfoldable pub finish_build :
    ResolvedIndexConfig → ℕ → Text → Ending → String → Option ℕ → Manager → Manager
finish_build settings now name e server ownership m =
    if build_completion_is_current server e.control ownership m
    then finalize_owned_build e.persist_error false server ownership
        (update_runtime_after_build settings now name e.preserve_retry_state e.error server m)
    else m
