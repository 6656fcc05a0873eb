-- ===== src/Index.antt =====
-- crates/opcda-bridge-gateway/src/index.rs, with the state that index/scheduler.rs and
-- index/status.rs declare: the manager of the namespace index. Its maps are association lists and
-- its sets are lists; instants are numbers of nanoseconds. The progress, the start
-- time and the commit latency of a build are left out, and so are the metrics and poisoned locks.
pub mod Builds
pub mod Metrics
pub mod Pause
pub mod Store
pub mod Status
pub mod Views
use Prim.Native.String.{String}
use opcda_bridge.Base.{ℕ, Bool, Option, none, some, List, String-discrete, get, insert}
use opcda_bridge.Controller.{PauseReason, ControllerState, InventoryLimits}
use opcda_bridge.Schedule.Tasks.{Cleanup}

pub data HealthProbeState : Type 0 where
  unavailable healthy unhealthy : HealthProbeState

-- `control` names an inventory control; see `InventoryControl`.
pub record RuntimeBuild : Type 0 where
  pub control : Option ℕ
  pub foreground_users : ℕ
  pub operator_paused : Bool
  pub operator_cancelled_until : Option ℕ
  pub quiet_until : Option ℕ
  pub effective_limits : Option InventoryLimits
  pub controller_state : Option ControllerState
  pub pause_reason : Option PauseReason
  pub recovery_deadline : Option ℕ

pub record RuntimeState : Type 0 where
  pub build : Option RuntimeBuild
  pub retry_after : Option ℕ
  pub last_error : Option String
  pub consecutive_failures : ℕ
  pub circuit_open : Bool
  pub health : HealthProbeState
  pub sentinel_checked_at : Option ℕ

pub record PauseOverlayState : Type 0 where
  pub maintenance : Bool
  pub health : Bool

-- The state of a control that the manager shares with the inventory: which of `pause` and `resume`
-- came last, and whether `cancel` came.
pub record InventoryControl : Type 0 where
  pub paused : Bool
  pub cancelled : Bool

abbrev pub Runtime : Type 0
Runtime = List (String × RuntimeState)

-- What the manager keeps in memory beside its settings. A build is owned through a token, a number.
pub record Manager : Type 0 where
  pub runtime : Runtime
  pub active_builds : List String
  pub build_owners : List (String × ℕ)
  pub build_locks : List String
  pub pending_cancels : List String
  pub deleting : List String
  pub foreground_users : List (String × ℕ)
  pub pause_overlays : List (String × PauseOverlayState)
  pub controls : List (ℕ × InventoryControl)
  pub cleanup : Cleanup

-- As the manager is made.
abbrev pub empty_manager : Manager
empty_manager = record {
  runtime = List.[];
  active_builds = List.[];
  build_owners = List.[];
  build_locks = List.[];
  pending_cancels = List.[];
  deleting = List.[];
  foreground_users = List.[];
  pause_overlays = List.[];
  controls = List.[];
  cleanup = record {
    tasks = List.[];
    worker_active = Bool.false;
    background = record { active = 0; shutting_down = Bool.false };
  };
}

-- `runtime.get(server).and_then(|state| state.build.as_ref())`.
abbrev pub build_in : Option RuntimeState → Option RuntimeBuild
build_in none = none
build_in (some s) = s.build

abbrev pub build_of : String → Runtime → Option RuntimeBuild
build_of server r = build_in (get String-discrete server r)

-- `get_mut` of a state, with an assignment to it.
unfoldable pub update_state : (RuntimeState → RuntimeState) → String → Runtime → Runtime
update_state f server r = elim (get String-discrete server r) [
  | none ↦ r
  | some s ↦ insert String-discrete server (f s) r
]

abbrev pub mapped : (RuntimeBuild → RuntimeBuild) → Option RuntimeBuild → Option RuntimeBuild
mapped f none = none
mapped f (some b) = some (f b)

abbrev pub map_build : (RuntimeBuild → RuntimeBuild) → RuntimeState → RuntimeState
map_build f s = record s { build = mapped f s.build }

-- `get_mut` of a build, with an assignment to it.
unfoldable pub update_build : (RuntimeBuild → RuntimeBuild) → String → Runtime → Runtime
update_build f = update_state (map_build f)

-- The default of a state.
abbrev pub default_state : RuntimeState
default_state = record {
  build = none;
  retry_after = none;
  last_error = none;
  consecutive_failures = 0;
  circuit_open = Bool.false;
  health = HealthProbeState.unavailable;
  sentinel_checked_at = none;
}

abbrev pub no_overlay : PauseOverlayState
no_overlay = record { maintenance = Bool.false; health = Bool.false }

-- The build that `reserve_refresh_build` stores.
abbrev pub new_build : ℕ → RuntimeBuild
new_build users = record {
  control = none;
  foreground_users = users;
  operator_paused = Bool.false;
  operator_cancelled_until = none;
  quiet_until = none;
  effective_limits = none;
  controller_state = none;
  pause_reason = none;
  recovery_deadline = none;
}

-- `entry(server).or_default()`.
abbrev pub state_or_default : Option RuntimeState → RuntimeState
state_or_default none = default_state
state_or_default (some s) = s

abbrev pub state_of : String → Runtime → RuntimeState
state_of server r = state_or_default (get String-discrete server r)

unfoldable pub store_build : String → RuntimeBuild → Runtime → Runtime
store_build server b r =
    insert String-discrete server (record (state_of server r) { build = some b; last_error = none })
      r

abbrev pub without_build : RuntimeState → RuntimeState
without_build s = record s { build = none }

-- `state.build.take()`.
unfoldable pub take_build : String → Runtime → Runtime
take_build = update_state without_build
