-- ===== src/Index/Pause.antt =====
-- index/status.rs, index/enrollment.rs and index/traversal.rs: what pauses a build. A control is
-- paused and resumed outside the lock of the runtime, so `reconcile_pause_state` is two steps,
-- `decide` and `apply_control`.
pub mod Guards
pub mod History
pub mod Reconcile
pub mod Steps
pub mod Refinement
pub mod Reason
pub mod Race
mod Tests
use Prim.Native.String.{String}
use opcda_bridge.Base.{
  ℕ, ◌+◌, ◌-◌, Bool, true, false, not, ◌&&◌, ◌||◌, Option, none, some, List, ltb, leb, ◌==◌,
  if◌then◌else◌, is_some, is_some_and, is_none_or, unwrap_or, saturating_add, u64_max, ℕ_discrete,
  String-discrete, get, insert, remove,
}
use opcda_bridge.Controller.{
  PauseReason, foreground, opc_health, operator, maintenance, ControllerState, paused, ramping,
  InventoryLimits,
}
use opcda_bridge.Controller.Adaptive.{is_paused}
use opcda_bridge.Config.{ResolvedIndexConfig}
use opcda_bridge.Config.Pacing.{from_secs}
use opcda_bridge.Index.{
  RuntimeBuild, RuntimeState, PauseOverlayState, InventoryControl, Manager, Runtime, build_of,
  update_build, no_overlay,
}

-- A quiet period that has not ended.
abbrev pub is_quiet : ℕ → RuntimeBuild → Bool
is_quiet now b = is_some_and b.quiet_until (λ deadline. ltb now deadline)

unfoldable pub controller_reason : Option ControllerState → Option PauseReason
controller_reason (some (paused r)) = some r
controller_reason _ = none

unfoldable pub pause_reason_of : ℕ → PauseOverlayState → RuntimeBuild → Option PauseReason
pause_reason_of now overlay b =
    if b.operator_paused
    then some operator
    else if ltb 0 b.foreground_users || is_quiet now b
    then some foreground
    else if overlay.maintenance
    then some maintenance
    else if overlay.health
    then some opc_health
    else controller_reason b.controller_state

abbrev pub overlay_of : String → Manager → PauseOverlayState
overlay_of server m = unwrap_or (get String-discrete server m.pause_overlays) no_overlay

abbrev pub explained : Option PauseReason → RuntimeBuild → RuntimeBuild
explained reason b = record b { pause_reason = reason }

-- Under the lock of the runtime: the reason is stored, and the control is cloned.
unfoldable pub decide : ℕ → String → Manager → Manager × Option (ℕ × Bool)
decide now server m = elim (build_of server m.runtime) [
  | none ↦ (m, none)
  | some b ↦
      let reason = pause_reason_of now (overlay_of server m) b in
      (
        record m { runtime = update_build (explained reason) server m.runtime },
        elim b.control [ none ↦ none | some k ↦ some (k, is_some reason) ],
      )
]

-- `control.pause()` or `control.resume()`.
abbrev pub set_paused : Bool → Option InventoryControl → InventoryControl
set_paused p none = record { paused = p; cancelled = false }
set_paused p (some c) = record c { paused = p }

unfoldable pub apply_control : Option (ℕ × Bool) → Manager → Manager
apply_control none m = m
apply_control (some (k, p)) m = record m {
  controls = insert ℕ_discrete k (set_paused p (get ℕ_discrete k m.controls)) m.controls;
}

unfoldable pub reconcile_pause_state : ℕ → String → Manager → Manager
reconcile_pause_state now server m =
    let decided = decide now server m in apply_control decided.1 decided.0

-- `if let Some(value)`, with the field as it was otherwise.
abbrev pub assigned : Option Bool → Bool → Bool
assigned none old = old
assigned (some new) old = new

unfoldable pub set_overlay : String → Option Bool → Option Bool → Manager → Manager
set_overlay server set_maintenance set_health m =
    let old = overlay_of server m in
    let new : PauseOverlayState = record {
      maintenance = assigned set_maintenance old.maintenance;
      health = assigned set_health old.health;
    } in
    record m {
      pause_overlays =
          if not new.maintenance && not new.health
          then remove String-discrete server m.pause_overlays
          else insert String-discrete server new m.pause_overlays;
    }

unfoldable pub set_pause_overlay : ℕ → String → Option Bool → Option Bool → Manager → Manager
set_pause_overlay now server set_maintenance set_health m =
    reconcile_pause_state now server (set_overlay server set_maintenance set_health m)

unfoldable pub clear_pause_overlays : String → Manager → Manager
clear_pause_overlays server m = record m {
  pause_overlays = remove String-discrete server m.pause_overlays;
}

-- The number of guards that the manager counts.
abbrev pub users_of : String → Manager → ℕ
users_of server m = unwrap_or (get String-discrete server m.foreground_users) 0

unfoldable pub count_user : String → Manager → Manager
count_user server m = record m {
  foreground_users =
      insert String-discrete server (saturating_add u64_max (users_of server m) 1)
        m.foreground_users;
}

abbrev pub guarded : ℕ → RuntimeBuild → RuntimeBuild
guarded users b = record b { foreground_users = users; quiet_until = none }

unfoldable pub foreground_guard : ℕ → String → Manager → Manager
foreground_guard now server m =
    let counted = count_user server m in
    reconcile_pause_state now server (record counted {
      runtime = update_build (guarded (users_of server counted)) server counted.runtime;
    })

unfoldable pub decrement_foreground_users : String → Manager → Manager
decrement_foreground_users server m =
    let remaining = users_of server m - 1 in
    record m {
      foreground_users =
          if remaining == 0
          then remove String-discrete server m.foreground_users
          else insert String-discrete server remaining m.foreground_users;
    }

unfoldable pub end_users : ℕ → ℕ → RuntimeBuild → RuntimeBuild
end_users users quiet_end b = record b {
  foreground_users = users;
  quiet_until = if users == 0 then some quiet_end else b.quiet_until;
}

-- `quiet_end` is `Instant::now() + quiet_period`.
unfoldable pub update_runtime_after_foreground_end : ℕ → String → Manager → Manager
update_runtime_after_foreground_end quiet_end server m = record m {
  runtime = update_build (end_users (users_of server m) quiet_end) server m.runtime;
}

abbrev pub quiet_expired : ℕ → Option RuntimeBuild → Bool
quiet_expired now none = false
quiet_expired now (some b) =
    b.foreground_users == 0 && is_some_and b.quiet_until (λ deadline. leb deadline now)

abbrev pub unquiet : RuntimeBuild → RuntimeBuild
unquiet b = record b { quiet_until = none }

unfoldable pub clear_expired_foreground_quiet_period : ℕ → String → Manager → Manager × Bool
clear_expired_foreground_quiet_period now server m =
    if quiet_expired now (build_of server m.runtime)
    then (record m { runtime = update_build unquiet server m.runtime }, true)
    else (m, false)

-- Outside an asynchronous runtime, which the gateway has, `foreground_end` would also end the quiet
-- period at once.
unfoldable pub foreground_end : ResolvedIndexConfig → ℕ → String → Manager → Manager
foreground_end settings now server m = reconcile_pause_state now server (
    update_runtime_after_foreground_end (now + from_secs settings.quiet_period_seconds) server
      (decrement_foreground_users server m))

-- The task that `foreground_end` starts, when its sleep is over.
unfoldable pub quiet_ends : ℕ → String → Manager → Manager
quiet_ends now server m =
    let cleared = clear_expired_foreground_quiet_period now server m in
    if cleared.1 then reconcile_pause_state now server cleared.0 else cleared.0

abbrev pub controlled : InventoryLimits → ControllerState → Option ℕ → RuntimeBuild → RuntimeBuild
controlled limits state deadline b = record b {
  effective_limits = some limits;
  controller_state = some state;
  recovery_deadline = deadline;
}

unfoldable pub update_runtime_controller :
    ℕ → String → InventoryLimits → ControllerState → Option ℕ → Manager → Manager
update_runtime_controller now server limits state recovery_deadline m =
    reconcile_pause_state now server (record m {
      runtime = update_build (controlled limits state recovery_deadline) server m.runtime;
    })

unfoldable pub resume_build : ℕ → RuntimeBuild → RuntimeBuild
resume_build now b = record b {
  operator_paused = false;
  quiet_until =
      if b.foreground_users == 0 && is_some_and b.quiet_until (λ deadline. leb deadline now)
      then none
      else b.quiet_until;
}

abbrev pub pause_build : RuntimeBuild → RuntimeBuild
pause_build b = record b { operator_paused = true }

-- The actions Pause and Resume of `control`, for an enrolled server that is not being deleted.
unfoldable pub operator_pauses : ℕ → String → Manager → Manager
operator_pauses now server m =
    reconcile_pause_state now server
      (record m { runtime = update_build pause_build server m.runtime })

unfoldable pub operator_resumes : ℕ → String → Manager → Manager
operator_resumes now server m =
    reconcile_pause_state now server
      (record m { runtime = update_build (resume_build now) server m.runtime })

unfoldable pub build_can_resume : ℕ → RuntimeBuild → PauseOverlayState → Bool
build_can_resume now b overlays =
    b.foreground_users == 0
    && not b.operator_paused
    && is_none_or b.quiet_until (λ deadline. leb deadline now)
    && not overlays.maintenance
    && not overlays.health
    && not (is_some_and b.controller_state is_paused)

-- `attach_refresh_control`: the build gets its control.
abbrev pub with_control : ℕ → RuntimeBuild → RuntimeBuild
with_control k b = record b { control = some k }
