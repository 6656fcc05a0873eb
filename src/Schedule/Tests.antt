-- ===== src/Schedule/Tests.antt =====
-- The schedule at concrete inputs.
use opcda_bridge.Base.{
  ◌+◌, ◌-◌, ◌/◌, ◌%◌, ◌≤◌, ◌≡◌, refl, min, true, false, none, some, [], ◌∷◌, arith, ltb, ◌==◌,
  if◌then◌else◌, text, split_once, parse_unsigned, parse_digits,
}
use opcda_bridge.Schedule.{
  MaintenanceWindow, parse_clock, parse_window, contains, retry_base, retry_delay,
  retry_max_backoff,
}
use opcda_bridge.Schedule.Retries.{failing_cleanup_ends}
use opcda_bridge.Schedule.Tasks.{
  Attempt, failed, run_scheduled_cleanup, Cleanup, claim, pick, release, schedule_cleanup,
  worker_ends,
}
use opcda_bridge.Schedule.Cleanup.{
  Inv, any_running, any_requested, requests_served, claim_hides_request,
}
use opcda_bridge.Schedule.Window.{window_text, parse_window_text, contains_lem}
use opcda_bridge.Schedule.Delay.{retry_delay_bounds}

abbrev night : MaintenanceWindow
night = record { start_minute = 1_320; end_minute = 360 }

parse_window_test : parse_window (text "22:00-06:00") ≡ some night
unfolding parse_window parse_clock split_once parse_unsigned parse_digits
parse_window_test = refl

parse_clock_test : parse_clock (text "24:00") ≡ none
unfolding parse_clock split_once parse_unsigned parse_digits
parse_clock_test = refl

parse_window_text_example : parse_window (window_text night) ≡ some night
parse_window_text_example = parse_window_text night (omega arith) (omega arith)

contains_lem_example : contains night 30 ≡ (
    if night.start_minute == night.end_minute
    then true
    else ltb
        ((30 + 1440 - night.start_minute) % 1440)
        ((night.end_minute + 1440 - night.start_minute) % 1440))
contains_lem_example = contains_lem night 30 (omega arith) (omega arith) (omega arith)

retry_delay_bounds_example :
    let d = retry_delay (text "plant") 3 true 900 in
    (retry_base 3 ≤ d)
    × (d ≤ (if true then retry_max_backoff else retry_base 3 + retry_base 3 / 5))
    × ((if true then min 900 retry_max_backoff else 0) ≤ d)
    × (d ≤ retry_max_backoff)
    × (retry_base 3 ≤ retry_base (3 + 1))
retry_delay_bounds_example = retry_delay_bounds (text "plant") 3 true 900

abbrev idle : Cleanup
idle = record {
  tasks = [];
  worker_active = false;
  background = record { active = 0; shutting_down = false };
}

abbrev working : Cleanup
working = record {
  tasks = ("plant", record { running = false; requested = true }) ∷ [];
  worker_active = true;
  background = record { active = 1; shutting_down = false };
}

requests_served_example : Inv (schedule_cleanup false "plant" idle).0 × Inv (worker_ends working).0
unfolding any_running any_requested
requests_served_example =
    requests_served "plant" idle working (record { idle = λ a. refl; served = λ a s. refl }) refl

claim_hides_request_example :
    let picked = pick (claim idle).0 in
    let scheduled = schedule_cleanup false "plant" picked.0 in
    (picked.1 ≡ none)
    × (scheduled.1 ≡ none)
    × ((release scheduled.0).worker_active ≡ false)
    × (any_requested (release scheduled.0).tasks ≡ true)
unfolding any_requested
claim_hides_request_example = claim_hides_request "plant" idle refl refl

abbrev failure : Attempt
failure = record { outcome = failed; others = λ c. c; shutdown_seen = false }

failing_cleanup_ends_example :
    (run_scheduled_cleanup (failure ∷ failure ∷ failure ∷ failure ∷ []) 0 "plant" working).1 ≡ true
failing_cleanup_ends_example =
    failing_cleanup_ends (failure ∷ failure ∷ failure ∷ failure ∷ []) "plant" working
      (refl, λ c. refl, (refl, λ c. refl, (refl, λ c. refl, (refl, λ c. refl, tt)))) (omega arith)
