-- ===== src/Schedule/Cleanup.antt =====
-- The cleanup worker of scheduler.rs: no requested cleanup is left without a worker while the calls
-- run one after the other, and which interleaving leaves one.
use Prim.Native.String.{String}
use opcda_bridge.Base.{
  ◌≡◌, refl, Bool, true, false, not, ◌||◌, Option, none, some, [], ◌∷◌, arith, if-both,
  String-discrete, get, insert, retain_entries, Option-cases, Bool-cases, inl, inr,
}
use opcda_bridge.Schedule.Tasks.{
  spawn, CleanupTaskState, CleanupTasks, task_of, set_task, Cleanup, requested_server, claim, pick,
  release, start_worker, start_picked, spawn_cleanup_worker_if_idle, request, schedule_cleanup,
  worker_ends,
}

unfoldable pub any_requested : CleanupTasks → Bool
any_requested [] = false
any_requested ((server, t) ∷ tasks) = t.requested || any_requested tasks

unfoldable pub any_running : CleanupTasks → Bool
any_running [] = false
any_running ((server, t) ∷ tasks) = t.running || any_running tasks

-- Without an active worker no task is marked as running, and none is requested unless the gateway
-- shuts down.
pub record Inv (c : Cleanup) : Type 0 where
  pub idle : c.worker_active ≡ false → any_running c.tasks ≡ false
  pub served :
      c.worker_active ≡ false → c.background.shutting_down ≡ false → any_requested c.tasks ≡ false

requested_server-none :
    (tasks : CleanupTasks) → requested_server tasks ≡ none → any_requested tasks ≡ false
unfolding requested_server any_requested
requested_server-none [] e = refl
requested_server-none ((server, t) ∷ tasks) e = ground (arith, requested_server-none tasks)

any_running-set :
    (server : String) (t : CleanupTaskState) (tasks : CleanupTasks)
    → t.running ≡ false
    → any_running tasks ≡ false
    → any_running (set_task server t tasks) ≡ false
unfolding any_running insert
any_running-set server t [] e h = ground arith
any_running-set server t ((other, u) ∷ tasks) e h = ground (arith, any_running-set server t tasks e)

any_running-retain :
    (tasks : CleanupTasks)
    → any_running (retain_entries String-discrete (λ _ t. not t.running) tasks) ≡ false
unfolding any_running retain_entries
any_running-retain [] = refl
any_running-retain ((server, t) ∷ tasks) = ground (arith, any_running-retain tasks)

any_running-task_of :
    (server : String) (tasks : CleanupTasks)
    → any_running tasks ≡ false
    → (task_of server tasks).running ≡ false
unfolding any_running get
any_running-task_of server [] h = refl
any_running-task_of server ((other, t) ∷ tasks) h = ground (arith, any_running-task_of server tasks)

start_worker-Inv :
    (server : String) (c : Cleanup) → c.worker_active ≡ true → Inv (start_worker false server c).0
unfolding start_worker spawn
start_worker-Inv server c w = record {
  idle = λ a. ground (arith, any_running-retain c.tasks);
  served = λ a s. ground arith;
}

release-Inv :
    (c : Cleanup) → any_running c.tasks ≡ false → any_requested c.tasks ≡ false → Inv (release c)
unfolding release
release-Inv c h r = record { idle = λ a. h; served = λ a s. r }

-- From a table in which no task runs, the spawn of a worker leaves a worker or nothing requested.
spawned-Inv :
    (c : Cleanup)
    → any_running c.tasks ≡ false
    → c.worker_active ≡ true
    → Inv (start_picked false (pick c)).0
unfolding pick
spawned-Inv c h w = elim (Option-cases (requested_server c.tasks)) [
  | inl e ↦
      let p : pick c ≡ (c, none) = rw (e, pick) refl in
      rw p (release-Inv c h (requested_server-none c.tasks e))
  | inr (server, e) ↦
      let d : Cleanup = record c {
        tasks = set_task server (record (task_of server c.tasks) { running = true }) c.tasks;
      } in
      let p : pick c ≡ (d, some server) = rw (e, pick) refl in rw p (start_worker-Inv server d w)
]

idle_spawn-Inv :
    (c : Cleanup) → any_running c.tasks ≡ false → Inv (spawn_cleanup_worker_if_idle false c).0
unfolding spawn_cleanup_worker_if_idle claim
idle_spawn-Inv c h = elim (Bool-cases c.worker_active) [
  | inl a ↦ rw a (record { idle = λ b. ground arith; served = λ b s. ground arith })
  | inr a ↦ rw a (spawned-Inv (record c { worker_active = true }) h refl)
]

busy-Inv : (c : Cleanup) → c.worker_active ≡ true → Inv c
busy-Inv c a = record { idle = λ b. ground arith; served = λ b s. ground arith }

busy_spawn-Inv :
    (c : Cleanup) → c.worker_active ≡ true → Inv (spawn_cleanup_worker_if_idle false c).0
unfolding spawn_cleanup_worker_if_idle claim
busy_spawn-Inv c a = rw a (busy-Inv (record c { worker_active = true }) refl)

schedule_cleanup-Inv :
    (server : String) (c : Cleanup) → Inv c → Inv (schedule_cleanup false server c).0
unfolding schedule_cleanup request
schedule_cleanup-Inv server c i =
    let asked = record (task_of server c.tasks) { requested = true } in
    let requested = record c { tasks = set_task server asked c.tasks } in
    let waits = (task_of server c.tasks).running || c.background.shutting_down in
    elim (Bool-cases c.worker_active) [
      | inl a ↦
          if-both (λ (r : Cleanup × Option String). Inv r.0) waits (requested, none) _
            (busy-Inv requested a) (busy_spawn-Inv requested a)
      | inr a ↦
          let still = any_running-task_of server c.tasks (i.idle a) in
          let idle = any_running-set server asked c.tasks still (i.idle a) in
          elim (Bool-cases c.background.shutting_down) [
            | inl down ↦
                let w : waits ≡ true = ground (arith, down) in
                rw w (record { idle = λ b. idle; served = λ b s. ground (arith, down) })
            | inr up ↦
                let w : waits ≡ false = ground (arith, up, still) in
                rw w (idle_spawn-Inv requested idle)
          ]
    ]

worker_ends-Inv : (c : Cleanup) → any_running c.tasks ≡ false → Inv (worker_ends c).0
unfolding worker_ends release
worker_ends-Inv c h = idle_spawn-Inv (record c { worker_active = false }) h

-- While the calls run one after the other, a request of a cleanup, and the end of a worker that
-- left no task marked as running, keep this: without an active worker, no task is marked as
-- running, and none is requested unless the gateway shuts down. So a requested cleanup has a worker.
pub requests_served :
    (server : String) (c ended : Cleanup)
    → Inv c
    → any_running ended.tasks ≡ false
    → Inv (schedule_cleanup false server c).0 × Inv (worker_ends ended).0
requests_served server c ended i h = (schedule_cleanup-Inv server c i, worker_ends-Inv ended h)

any_requested-set :
    (server : String) (t : CleanupTaskState) (tasks : CleanupTasks)
    → t.requested ≡ true
    → any_requested (set_task server t tasks) ≡ true
unfolding any_requested insert
any_requested-set server t [] e = ground arith
any_requested-set server t ((other, u) ∷ tasks) e = ground (arith, any_requested-set server t tasks)

any_requested-none :
    (tasks : CleanupTasks) → any_requested tasks ≡ false → requested_server tasks ≡ none
unfolding any_requested requested_server
any_requested-none [] h = refl
any_requested-none ((server, t) ∷ tasks) h = ground (arith, any_requested-none tasks)

-- One caller of `spawn_cleanup_worker_if_idle` claims the worker and finds nothing requested; a
-- request of a cleanup comes before it releases the claim. From any idle state without a request,
-- this starts no worker and leaves the cleanup requested, with no active worker.
pub claim_hides_request :
    (server : String) (c : Cleanup)
    → c.worker_active ≡ false
    → any_requested c.tasks ≡ false
    → let picked = pick (claim c).0 in
      let scheduled = schedule_cleanup false server picked.0 in
      (picked.1 ≡ none)
      × (scheduled.1 ≡ none)
      × ((release scheduled.0).worker_active ≡ false)
      × (any_requested (release scheduled.0).tasks ≡ true)
unfolding pick claim schedule_cleanup request release spawn_cleanup_worker_if_idle
claim_hides_request server c a n = ground (
  arith,
  any_requested-none c.tasks n,
  any_requested-set server (record (task_of server c.tasks) { requested = true }) c.tasks,
)
