-- ===== src/Index/Builds.antt =====
-- The life of a build: `reserve_refresh_build` of index/enrollment.rs, `load_persisted_retry_state`
-- of index/scheduler.rs, and in the child Completion the end of a build. What the database, the
-- file lock and the disk answer is an argument.
pub mod Completion
pub mod Invariant
pub mod Policy
pub mod Reserve
pub mod Backoff
mod Tests
use Prim.Native.String.{String}
use opcda_bridge.Base.{
  ℕ, ◌+◌, ◌*◌, max, Bool, true, false, not, ◌&&◌, ◌||◌, Option, none, some, List, ◌∷◌, ltb, leb,
  ◌==◌, if◌then◌else◌, is_some, is_some_and, is_none_or, unwrap_or, saturating_add, u32_max,
  u64_max, String-discrete, get, insert, remove, member, without, length, Text,
}
use opcda_bridge.Config.{ResolvedIndexConfig}
use opcda_bridge.Config.Pacing.{from_secs}
use opcda_bridge.Schedule.{retry_delay}
use opcda_bridge.Schedule.Tasks.{schedule_cleanup}
use opcda_bridge.Index.{
  RuntimeBuild, RuntimeState, Runtime, Manager, build_of, state_of, update_state, new_build,
  store_build, take_build,
}
use opcda_bridge.Index.Pause.{users_of, clear_pause_overlays}

pub data BuildError : Type 0 where
  insufficient_space : ℕ → ℕ → BuildError
  concurrency_limit lock_held owner_registered : BuildError
  external : String → BuildError

pub data Result {ℓ} (A : Type ℓ) : Type ℓ where
  ok : A → Result A
  err : BuildError → Result A

pub record RetryState : Type 0 where
  pub retry_after : Option ℕ
  pub consecutive_failures : ℕ
  pub circuit_open : Bool

-- `enrollment` is the flag of the automatic refresh, if the server is enrolled.
pub record Answers : Type 0 where
  pub enrollment : Result (Option Bool)
  pub free_bytes : Result (Option ℕ)
  pub retry_state : Result RetryState
  pub file_lock : Result (Unit {0})

-- `HashSet::insert`.
abbrev pub insert_member : String → List String → List String
insert_member s xs = if member String-discrete s xs then xs else s ∷ xs

-- The larger of two optional deadlines; `none` is the smallest.
abbrev pub later_of : Option ℕ → Option ℕ → Option ℕ
later_of none b = b
later_of (some a) none = some a
later_of (some a) (some b) = some (max a b)

-- `SystemTime::now() < retry`.
abbrev pub is_ahead : ℕ → Option ℕ → Bool
is_ahead now deadline = is_some_and deadline (λ d. ltb now d)

unfoldable pub load_retry : ℕ → RetryState → RuntimeState → RuntimeState
load_retry now persisted s =
    let retry_after = later_of s.retry_after persisted.retry_after in
    if is_some s.build then s else record s {
      retry_after = retry_after;
      consecutive_failures = persisted.consecutive_failures;
      circuit_open = persisted.circuit_open && is_ahead now retry_after;
    }

unfoldable pub load_persisted_retry_state : ℕ → RetryState → String → Manager → Manager
load_persisted_retry_state now persisted server m = record m {
  runtime =
      insert String-discrete server (load_retry now persisted (state_of server m.runtime))
        m.runtime;
}

abbrev pub build_limit : ResolvedIndexConfig → ℕ
build_limit settings = max settings.concurrency 1

abbrev pub required_bytes : ResolvedIndexConfig → ℕ
required_bytes settings =
    saturating_add u64_max settings.minimum_free_space_bytes settings.storage_headroom_bytes

-- A build that is refused without an error: one runs, or the retry state holds it back.
unfoldable pub holds_back : ℕ → Bool → RuntimeState → Bool
holds_back now force s =
    is_some s.build || not force && is_ahead now s.retry_after || not force && s.circuit_open

-- With the file lock: the owner, the active build, the lock and the build are stored.
unfoldable pub store_reservation :
    ResolvedIndexConfig → String → ℕ → Manager → Manager × Result (Option ℕ)
store_reservation settings server token m =
    if is_some (get String-discrete server m.build_owners)
    then (m, err owner_registered)
    else if leb (build_limit settings) (length m.active_builds)
    then (m, err concurrency_limit)
    else (
      record m {
        build_owners = insert String-discrete server token m.build_owners;
        active_builds = insert_member server m.active_builds;
        build_locks = insert_member server m.build_locks;
        runtime = store_build server (new_build (users_of server m)) m.runtime;
      },
      ok (some token),
    )

-- After the retry state is loaded.
unfoldable pub reserve_loaded :
    ResolvedIndexConfig
    → ℕ
    → Bool
    → Result (Unit {0})
    → String
    → ℕ
    → Manager
    → Manager × Result (Option ℕ)
reserve_loaded settings now force file_lock server token m =
    if holds_back now force (state_of server m.runtime)
    then (m, ok none)
    else if leb (build_limit settings) (length m.active_builds)
    then (m, err concurrency_limit)
    else if member String-discrete server m.build_locks
    then (m, err lock_held)
    else elim file_lock [ err e ↦ (m, err e) | ok held ↦ store_reservation settings server token m ]

abbrev pub refuses : Bool → Option Bool → Bool
refuses automatic none = true
refuses automatic (some auto_refresh_enabled) = automatic && not auto_refresh_enabled

-- After the enrollment is read.
unfoldable pub reserve_enrolled :
    ResolvedIndexConfig → ℕ → Bool → Answers → String → ℕ → Manager → Manager × Result (Option ℕ)
reserve_enrolled settings now force a server token m = elim a.free_bytes [
  | err e ↦ (m, err e)
  | ok free ↦
      if is_some_and free (λ f. ltb f (required_bytes settings))
      then (m, err (insufficient_space (unwrap_or free 0) (required_bytes settings)))
      else elim a.retry_state [
        | err e ↦ (m, err e)
        | ok persisted ↦
            reserve_loaded settings now force a.file_lock server token
              (load_persisted_retry_state now persisted server m)
      ]
]

-- While the gateway does not shut down.
unfoldable pub reserve_open :
    ResolvedIndexConfig
    → ℕ
    → Bool
    → Bool
    → Answers
    → String
    → ℕ
    → Manager
    → Manager × Result (Option ℕ)
reserve_open settings now force automatic a server token m = elim a.enrollment [
  | err e ↦ (m, err e)
  | ok enrollment ↦
      if member String-discrete server m.deleting || refuses automatic enrollment
      then (m, ok none)
      else reserve_enrolled settings now force a server token m
]

unfoldable pub reserve_refresh_build :
    ResolvedIndexConfig
    → ℕ
    → Bool
    → Bool
    → Answers
    → String
    → ℕ
    → Manager
    → Manager × Result (Option ℕ)
reserve_refresh_build settings now force automatic a server token m =
    if m.cleanup.background.shutting_down
    then (m, ok none)
    else reserve_open settings now force automatic a server token m
