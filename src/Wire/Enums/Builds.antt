-- ===== src/Wire/Enums/Builds.antt =====
-- crates/opcda-bridge-proto/proto/bridge.proto: the enumerations of the index.
use opcda_bridge.Base.{ℕ, ◌≡◌, refl, Option, none, some, ◌==◌, if◌then◌else◌}
use opcda_bridge.Compat.{Int32, nonneg, below}

pub data ProtoSearchIndexState : Type 0 where
  unspecified not_indexed partial ready stale refreshing failed promoting deleting :
      ProtoSearchIndexState

abbrev pub index_state_number : ProtoSearchIndexState → ℕ
index_state_number ProtoSearchIndexState.unspecified = 0
index_state_number ProtoSearchIndexState.not_indexed = 1
index_state_number ProtoSearchIndexState.partial = 2
index_state_number ProtoSearchIndexState.ready = 3
index_state_number ProtoSearchIndexState.stale = 4
index_state_number ProtoSearchIndexState.refreshing = 5
index_state_number ProtoSearchIndexState.failed = 6
index_state_number ProtoSearchIndexState.promoting = 7
index_state_number ProtoSearchIndexState.deleting = 8

unfoldable pub index_state_of : Int32 → Option ProtoSearchIndexState
index_state_of (below n) = none
index_state_of (nonneg n) =
    if n == 0
    then some ProtoSearchIndexState.unspecified
    else if n == 1
    then some ProtoSearchIndexState.not_indexed
    else if n == 2
    then some ProtoSearchIndexState.partial
    else if n == 3
    then some ProtoSearchIndexState.ready
    else if n == 4
    then some ProtoSearchIndexState.stale
    else if n == 5
    then some ProtoSearchIndexState.refreshing
    else if n == 6
    then some ProtoSearchIndexState.failed
    else if n == 7
    then some ProtoSearchIndexState.promoting
    else if n == 8
    then some ProtoSearchIndexState.deleting
    else none

pub index_state_of-number :
    (v : ProtoSearchIndexState) → index_state_of (nonneg (index_state_number v)) ≡ some v
unfolding index_state_of
index_state_of-number ProtoSearchIndexState.unspecified = refl
index_state_of-number ProtoSearchIndexState.not_indexed = refl
index_state_of-number ProtoSearchIndexState.partial = refl
index_state_of-number ProtoSearchIndexState.ready = refl
index_state_of-number ProtoSearchIndexState.stale = refl
index_state_of-number ProtoSearchIndexState.refreshing = refl
index_state_of-number ProtoSearchIndexState.failed = refl
index_state_of-number ProtoSearchIndexState.promoting = refl
index_state_of-number ProtoSearchIndexState.deleting = refl

pub data ProtoSearchIndexControlAction : Type 0 where
  unspecified pause resume cancel enable_auto_refresh disable_auto_refresh delete :
      ProtoSearchIndexControlAction

abbrev pub control_action_number : ProtoSearchIndexControlAction → ℕ
control_action_number ProtoSearchIndexControlAction.unspecified = 0
control_action_number ProtoSearchIndexControlAction.pause = 1
control_action_number ProtoSearchIndexControlAction.resume = 2
control_action_number ProtoSearchIndexControlAction.cancel = 3
control_action_number ProtoSearchIndexControlAction.enable_auto_refresh = 4
control_action_number ProtoSearchIndexControlAction.disable_auto_refresh = 5
control_action_number ProtoSearchIndexControlAction.delete = 6

unfoldable pub control_action_of : Int32 → Option ProtoSearchIndexControlAction
control_action_of (below n) = none
control_action_of (nonneg n) =
    if n == 0
    then some ProtoSearchIndexControlAction.unspecified
    else if n == 1
    then some ProtoSearchIndexControlAction.pause
    else if n == 2
    then some ProtoSearchIndexControlAction.resume
    else if n == 3
    then some ProtoSearchIndexControlAction.cancel
    else if n == 4
    then some ProtoSearchIndexControlAction.enable_auto_refresh
    else if n == 5
    then some ProtoSearchIndexControlAction.disable_auto_refresh
    else if n == 6
    then some ProtoSearchIndexControlAction.delete
    else none

pub control_action_of-number :
    (v : ProtoSearchIndexControlAction)
    → control_action_of (nonneg (control_action_number v)) ≡ some v
unfolding control_action_of
control_action_of-number ProtoSearchIndexControlAction.unspecified = refl
control_action_of-number ProtoSearchIndexControlAction.pause = refl
control_action_of-number ProtoSearchIndexControlAction.resume = refl
control_action_of-number ProtoSearchIndexControlAction.cancel = refl
control_action_of-number ProtoSearchIndexControlAction.enable_auto_refresh = refl
control_action_of-number ProtoSearchIndexControlAction.disable_auto_refresh = refl
control_action_of-number ProtoSearchIndexControlAction.delete = refl

pub data ProtoIndexControllerState : Type 0 where
  unspecified ramping steady throttled paused : ProtoIndexControllerState

abbrev pub controller_state_number : ProtoIndexControllerState → ℕ
controller_state_number ProtoIndexControllerState.unspecified = 0
controller_state_number ProtoIndexControllerState.ramping = 1
controller_state_number ProtoIndexControllerState.steady = 2
controller_state_number ProtoIndexControllerState.throttled = 3
controller_state_number ProtoIndexControllerState.paused = 4

unfoldable pub controller_state_of : Int32 → Option ProtoIndexControllerState
controller_state_of (below n) = none
controller_state_of (nonneg n) =
    if n == 0
    then some ProtoIndexControllerState.unspecified
    else if n == 1
    then some ProtoIndexControllerState.ramping
    else if n == 2
    then some ProtoIndexControllerState.steady
    else if n == 3
    then some ProtoIndexControllerState.throttled
    else if n == 4
    then some ProtoIndexControllerState.paused
    else none

pub controller_state_of-number :
    (v : ProtoIndexControllerState)
    → controller_state_of (nonneg (controller_state_number v)) ≡ some v
unfolding controller_state_of
controller_state_of-number ProtoIndexControllerState.unspecified = refl
controller_state_of-number ProtoIndexControllerState.ramping = refl
controller_state_of-number ProtoIndexControllerState.steady = refl
controller_state_of-number ProtoIndexControllerState.throttled = refl
controller_state_of-number ProtoIndexControllerState.paused = refl

pub data ProtoIndexPauseReason : Type 0 where
  unspecified foreground opc_health host_cpu memory disk database operator circuit :
      ProtoIndexPauseReason

abbrev pub pause_reason_number : ProtoIndexPauseReason → ℕ
pause_reason_number ProtoIndexPauseReason.unspecified = 0
pause_reason_number ProtoIndexPauseReason.foreground = 1
pause_reason_number ProtoIndexPauseReason.opc_health = 2
pause_reason_number ProtoIndexPauseReason.host_cpu = 3
pause_reason_number ProtoIndexPauseReason.memory = 4
pause_reason_number ProtoIndexPauseReason.disk = 5
pause_reason_number ProtoIndexPauseReason.database = 6
pause_reason_number ProtoIndexPauseReason.operator = 7
pause_reason_number ProtoIndexPauseReason.circuit = 8

unfoldable pub pause_reason_of : Int32 → Option ProtoIndexPauseReason
pause_reason_of (below n) = none
pause_reason_of (nonneg n) =
    if n == 0
    then some ProtoIndexPauseReason.unspecified
    else if n == 1
    then some ProtoIndexPauseReason.foreground
    else if n == 2
    then some ProtoIndexPauseReason.opc_health
    else if n == 3
    then some ProtoIndexPauseReason.host_cpu
    else if n == 4
    then some ProtoIndexPauseReason.memory
    else if n == 5
    then some ProtoIndexPauseReason.disk
    else if n == 6
    then some ProtoIndexPauseReason.database
    else if n == 7
    then some ProtoIndexPauseReason.operator
    else if n == 8
    then some ProtoIndexPauseReason.circuit
    else none

pub pause_reason_of-number :
    (v : ProtoIndexPauseReason) → pause_reason_of (nonneg (pause_reason_number v)) ≡ some v
unfolding pause_reason_of
pause_reason_of-number ProtoIndexPauseReason.unspecified = refl
pause_reason_of-number ProtoIndexPauseReason.foreground = refl
pause_reason_of-number ProtoIndexPauseReason.opc_health = refl
pause_reason_of-number ProtoIndexPauseReason.host_cpu = refl
pause_reason_of-number ProtoIndexPauseReason.memory = refl
pause_reason_of-number ProtoIndexPauseReason.disk = refl
pause_reason_of-number ProtoIndexPauseReason.database = refl
pause_reason_of-number ProtoIndexPauseReason.operator = refl
pause_reason_of-number ProtoIndexPauseReason.circuit = refl

pub data ProtoIndexHealthState : Type 0 where
  unspecified healthy unhealthy unavailable : ProtoIndexHealthState

abbrev pub health_state_number : ProtoIndexHealthState → ℕ
health_state_number ProtoIndexHealthState.unspecified = 0
health_state_number ProtoIndexHealthState.healthy = 1
health_state_number ProtoIndexHealthState.unhealthy = 2
health_state_number ProtoIndexHealthState.unavailable = 3

unfoldable pub health_state_of : Int32 → Option ProtoIndexHealthState
health_state_of (below n) = none
health_state_of (nonneg n) =
    if n == 0
    then some ProtoIndexHealthState.unspecified
    else if n == 1
    then some ProtoIndexHealthState.healthy
    else if n == 2
    then some ProtoIndexHealthState.unhealthy
    else if n == 3
    then some ProtoIndexHealthState.unavailable
    else none

pub health_state_of-number :
    (v : ProtoIndexHealthState) → health_state_of (nonneg (health_state_number v)) ≡ some v
unfolding health_state_of
health_state_of-number ProtoIndexHealthState.unspecified = refl
health_state_of-number ProtoIndexHealthState.healthy = refl
health_state_of-number ProtoIndexHealthState.unhealthy = refl
health_state_of-number ProtoIndexHealthState.unavailable = refl
