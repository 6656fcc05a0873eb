-- ===== src/Schedule/Retries.antt =====
-- The loop of run_scheduled_cleanup in scheduler.rs: a cleanup that keeps failing ends.
use Prim.Native.String.{String}
use opcda_bridge.Base.{
  ℕ, ◌+◌, ◌≤◌, ◌≡◌, refl, true, false, not, ◌&&◌, List, [], ◌∷◌, arith, leb, length, ◌⊎◌,
  String-discrete, get-insert, if-both, saturating_add, u32_max, Bool-cases, inl, inr,
}
use opcda_bridge.Schedule.Tasks.{
  task_of, set_task, Cleanup, failed, Attempt, Next, goes_on, stops, run_scheduled_cleanup,
  cleanup_round, run_cleanup_attempt, after_finished, cleanup_task_should_run,
  clear_finished_cleanup_task, retry_cleanup_after_failure, cleanup_retry_limit,
}

-- Attempts that fail, while no other call changes the registry.
abbrev pub AllFail : List Attempt → Type 0
AllFail [] = Unit {0}
AllFail (a ∷ attempts) = (a.outcome ≡ failed) × ((c : Cleanup) → a.others c ≡ c) × AllFail attempts

-- The registry after the check of the server's task.
abbrev checked : String → Cleanup → Cleanup
checked server c = record c {
  tasks = set_task server (record (task_of server c.tasks) { requested = false }) c.tasks;
}

unrequested :
    (server : String) (c : Cleanup) → (task_of server (checked server c).tasks).requested ≡ false
unrequested server c = ground (
  arith,
  get-insert String-discrete server server (record (task_of server c.tasks) { requested = false })
      c.tasks,
)

Ends : Next → ℕ → Type 0
Ends (stops d) n = Unit {0}
Ends (goes_on m d) n = (m ≡ n + 1) × (n + 1 ≤ cleanup_retry_limit)

finished-Ends :
    (server : String) (c : Cleanup) (n : ℕ) → Ends (after_finished server (checked server c)) n
unfolding after_finished clear_finished_cleanup_task Ends
finished-Ends server c n = rw (unrequested server c) tt

failed-Ends :
    (server : String) (c : Cleanup) (n : ℕ)
    → Ends (run_cleanup_attempt failed n server (checked server c)) n
unfolding run_cleanup_attempt retry_cleanup_after_failure Ends
failed-Ends server c n =
    let failures = saturating_add u32_max n 1 in
    let retries = leb failures cleanup_retry_limit && not c.background.shutting_down in
    elim (Bool-cases retries) [
      | inl again ↦ rw again (ground (arith, again), ground (arith, again))
      | inr over ↦ rw over (finished-Ends server c n)
    ]

round-Ends :
    (a : Attempt) (n : ℕ) (server : String) (c : Cleanup)
    → a.outcome ≡ failed
    → ((d : Cleanup) → a.others d ≡ d)
    → Ends (cleanup_round a n server c) n
unfolding cleanup_round cleanup_task_should_run
round-Ends a n server c f same =
    if-both (λ next. Ends next n) (not c.background.shutting_down && not a.shutdown_seen) _ _
      (rw (same (checked server c), f) (failed-Ends server c n)) (unfold Ends in tt)

Next-cases :
    (next : Next)
    → ((d : Cleanup) × (next ≡ stops d)) ⊎ ((m : ℕ) × (d : Cleanup) × (next ≡ goes_on m d))
Next-cases (stops d) = inl (d, refl)
Next-cases (goes_on m d) = inr (m, d, refl)

loop_ends :
    (attempts : List Attempt) (n : ℕ) (server : String) (c : Cleanup)
    → AllFail attempts
    → n ≤ cleanup_retry_limit
    → cleanup_retry_limit + 1 ≤ n + length attempts
    → (run_scheduled_cleanup attempts n server c).1 ≡ true
unfolding run_scheduled_cleanup Ends
loop_ends [] n server c all low enough = absurd (omega arith)
loop_ends (a ∷ attempts) n server c all low enough =
    let e = round-Ends a n server c all.0 all.1 in
    elim (Next-cases (cleanup_round a n server c)) [
      | inl (d, f) ↦ rw (f, run_scheduled_cleanup) refl
      | inr (m, d, f) ↦
          let (more, within) = rw f at e in
          rw (f, run_scheduled_cleanup)
            (loop_ends attempts m server d all.2 (omega arith) (omega arith))
    ]

-- A worker whose attempts all fail, while no other call changes the registry, ends within one
-- attempt more than the retry limit, whatever the state and the shutdown.
pub failing_cleanup_ends :
    (attempts : List Attempt) (server : String) (c : Cleanup)
    → AllFail attempts
    → cleanup_retry_limit + 1 ≤ length attempts
    → (run_scheduled_cleanup attempts 0 server c).1 ≡ true
failing_cleanup_ends attempts server c all enough =
    loop_ends attempts 0 server c all (omega arith) (omega arith)
