-- ===== src/Schedule/Tasks.antt =====
-- scheduler.rs: the background tasks, and the one worker that cleans up obsolete generations. The
-- registry of cleanups is an association list; the sleeps and the database work are left out.
use Prim.Native.String.{String}
use opcda_bridge.Base.{
  ℕ, ◌-◌, Bool, true, false, not, ◌&&◌, ◌||◌, Option, none, some, List, [], ◌∷◌, leb, ◌==◌,
  if◌then◌else◌, String-discrete, get, insert, remove, retain_entries, u64_max, u32_max,
  saturating_add,
}

pub record BackgroundTaskState : Type 0 where
  pub active : ℕ
  pub shutting_down : Bool

-- Whether the watchers of the shutdown are told.
unfoldable pub request_shutdown : BackgroundTaskState → BackgroundTaskState × Bool
request_shutdown s =
    if s.shutting_down then (s, false) else (record s { shutting_down = true }, true)

-- Whether the task was started.
unfoldable pub spawn : BackgroundTaskState → BackgroundTaskState × Bool
spawn s =
    if s.shutting_down
    then (s, false)
    else (record s { active = saturating_add u64_max s.active 1 }, true)

-- The end of a task: whether the waiter for an idle state is told.
unfoldable pub task_ends : BackgroundTaskState → BackgroundTaskState × Bool
task_ends s = let active = s.active - 1 in (record s { active = active }, active == 0)

pub record CleanupTaskState : Type 0 where
  pub running : Bool
  pub requested : Bool

abbrev pub CleanupTasks : Type 0
CleanupTasks = List (String × CleanupTaskState)

-- `entry(server).or_default()`.
abbrev pub task_or_default : Option CleanupTaskState → CleanupTaskState
task_or_default none = record { running = false; requested = false }
task_or_default (some t) = t

abbrev pub task_of : String → CleanupTasks → CleanupTaskState
task_of server tasks = task_or_default (get String-discrete server tasks)

abbrev pub set_task : String → CleanupTaskState → CleanupTasks → CleanupTasks
set_task = insert String-discrete

pub record Cleanup : Type 0 where
  pub tasks : CleanupTasks
  pub worker_active : Bool
  pub background : BackgroundTaskState

-- The first requested task, in the order of the map.
unfoldable pub requested_server : CleanupTasks → Option String
requested_server [] = none
requested_server ((server, t) ∷ tasks) = if t.requested then some server else requested_server tasks

-- `active.swap(true)`, with the value that was there.
unfoldable pub claim : Cleanup → Cleanup × Bool
claim c = (record c { worker_active = true }, c.worker_active)

-- Under the lock of the registry.
unfoldable pub pick : Cleanup → Cleanup × Option String
pick c = elim (requested_server c.tasks) [
  | none ↦ (c, none)
  | some server ↦ (
    record c {
      tasks = set_task server (record (task_of server c.tasks) { running = true }) c.tasks;
    },
    some server,
  )
]

-- `active.store(false)`.
unfoldable pub release : Cleanup → Cleanup
release c = record c { worker_active = false }

-- The server whose worker was started.
unfoldable pub start_worker : Bool → String → Cleanup → Cleanup × Option String
start_worker reject_spawn server c =
    let started = if reject_spawn then (c.background, false) else spawn c.background in
    if started.1 then (record c { background = started.0 }, some server) else (
      record c {
        tasks = retain_entries String-discrete (λ _ t. not t.running) c.tasks;
        worker_active = false;
      },
      none,
    )

abbrev pub start_picked : Bool → Cleanup × Option String → Cleanup × Option String
start_picked reject_spawn (c, none) = (release c, none)
start_picked reject_spawn (c, some server) = start_worker reject_spawn server c

unfoldable pub spawn_cleanup_worker_if_idle : Bool → Cleanup → Cleanup × Option String
spawn_cleanup_worker_if_idle reject_spawn c =
    let claimed = claim c in
    if claimed.1 then (claimed.0, none) else start_picked reject_spawn (pick claimed.0)

-- The request, under the lock of the registry.
unfoldable pub request : String → Cleanup → Cleanup
request server c = record c {
  tasks = set_task server (record (task_of server c.tasks) { requested = true }) c.tasks;
}

unfoldable pub schedule_cleanup : Bool → String → Cleanup → Cleanup × Option String
schedule_cleanup reject_spawn server c =
    let requested = request server c in
    if (task_of server c.tasks).running || c.background.shutting_down
    then (requested, none)
    else spawn_cleanup_worker_if_idle reject_spawn requested

-- CleanupWorkerGuard, dropped when the worker's future ends.
unfoldable pub worker_ends : Cleanup → Cleanup × Option String
worker_ends c = spawn_cleanup_worker_if_idle false (release c)

-- `shutdown_seen` is what the watch channel holds.
unfoldable pub cleanup_task_should_run : String → Bool → Cleanup → Cleanup × Bool
cleanup_task_should_run server shutdown_seen c = (
  record c {
    tasks = set_task server (record (task_of server c.tasks) { requested = false }) c.tasks;
  },
  not c.background.shutting_down && not shutdown_seen,
)

unfoldable pub clear_finished_cleanup_task : String → Cleanup → Cleanup × Bool
clear_finished_cleanup_task server c =
    let rerun = (task_of server c.tasks).requested && not c.background.shutting_down in
    if rerun then (c, true) else (record c { tasks = remove String-discrete server c.tasks }, false)

abbrev pub cleanup_retry_limit : ℕ
cleanup_retry_limit = 3

-- The failures in a row, and whether there is a retry.
unfoldable pub retry_cleanup_after_failure : ℕ → Cleanup → ℕ × Bool
retry_cleanup_after_failure consecutive_failures c =
    let failures = saturating_add u32_max consecutive_failures 1 in
    (failures, leb failures cleanup_retry_limit && not c.background.shutting_down)

-- How the database work of one attempt ends; a deferred one then waits for the builds, and sees
-- them end (true) or the shutdown.
pub data Outcome : Type 0 where
  deferred : Bool → Outcome
  finished failed : Outcome

-- An attempt, with what other calls do meanwhile.
pub record Attempt : Type 0 where
  pub outcome : Outcome
  pub others : Cleanup → Cleanup
  pub shutdown_seen : Bool

-- After an attempt the worker goes on, with a number of failures in a row, or stops.
pub data Next : Type 0 where
  goes_on : ℕ → Cleanup → Next
  stops : Cleanup → Next

abbrev pub request_existing : String → Option CleanupTaskState → Cleanup → Cleanup
request_existing server none c = c
request_existing server (some t) c = record c {
  tasks = set_task server (record t { requested = true }) c.tasks;
}

unfoldable pub after_finished : String → Cleanup → Next
after_finished server c =
    let cleared = clear_finished_cleanup_task server c in
    if cleared.1 then goes_on 0 cleared.0 else stops cleared.0

unfoldable pub run_cleanup_attempt : Outcome → ℕ → String → Cleanup → Next
run_cleanup_attempt (deferred builds_ended) failures server c =
    let waiting = request_existing server (get String-discrete server c.tasks) c in
    if builds_ended then goes_on failures waiting else stops waiting
run_cleanup_attempt finished failures server c = after_finished server c
run_cleanup_attempt failed failures server c =
    let retry = retry_cleanup_after_failure failures c in
    if retry.1 then goes_on retry.0 c else after_finished server c

unfoldable pub cleanup_round : Attempt → ℕ → String → Cleanup → Next
cleanup_round a failures server c =
    let checked = cleanup_task_should_run server a.shutdown_seen c in
    if checked.1
    then run_cleanup_attempt a.outcome failures server (a.others checked.0)
    else stops (record checked.0 { tasks = remove String-discrete server checked.0.tasks })

-- The loop over the attempts given, and whether it ended within them.
unfoldable pub run_scheduled_cleanup : List Attempt → ℕ → String → Cleanup → Cleanup × Bool
run_scheduled_cleanup [] failures server c = (c, false)
run_scheduled_cleanup (a ∷ attempts) failures server c = elim (cleanup_round a failures server c) [
  | stops d ↦ (d, true)
  | goes_on n d ↦ run_scheduled_cleanup attempts n server d
]
