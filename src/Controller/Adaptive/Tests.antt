-- ===== src/Controller/Adaptive/Tests.antt =====
-- The controller on concrete configurations and observations. Readings are whole numbers.
use opcda_bridge.Base.{
  ℕ, ◌+◌, ◌*◌, ◌^◌, min, ◌≡◌, refl, true, false, ◌||◌, none, some, arith, List, [], ◌∷◌, ◌++◌, leb,
  is_some, length,
}
use opcda_bridge.Controller.{
  ControllerConfig, ramping, steady, one_milli, clamp, normalized, default_config,
}
use opcda_bridge.Controller.Normalize.{HasWordRates, IsNormalized, normalized_total}
use opcda_bridge.Controller.Adaptive.{
  Float64, ControllerObservation, AdaptiveIndexController, new, run, observe, is_paused,
  hard_reason, soft_reason,
}
use opcda_bridge.Controller.Adaptive.Invariant.{Inv}
use opcda_bridge.Controller.Adaptive.Priority.{new-run-Inv, observe-paused, is_recovering}
use opcda_bridge.Controller.Adaptive.Backoff.{hard_run}
use opcda_bridge.Controller.Adaptive.Progress.{healthy-steady}

abbrev naturals : Float64
naturals = record { Val = ℕ; le = leb; literal = λ n. n }

-- One unit of rate lies between the canary and the ceiling.
abbrev config : ControllerConfig
config = record default_config {
  ceiling = record { item_rate_per_second = 51; batch_size = 25; duty_cycle_percent = 5 };
}

config-HasWordRates : HasWordRates config
config-HasWordRates = record { floor_word = omega arith; ceiling_word = omega arith }

abbrev started : AdaptiveIndexController
started = record {
  config = config;
  state = ramping;
  limits = config.canary;
  hold_until = some (30_000 * one_milli);
  recovery_at = none;
  recovery_exponent = 0;
  last_reason = none;
}

new_test : new 1000 config 0 ≡ some started
unfolding new normalized clamp
new_test = refl

abbrev healthy : ControllerObservation ℕ
healthy = record {
  foreground_active = false;
  foreground_error = false;
  foreground_bad_quality = false;
  foreground_latency_ms = none;
  baseline_latency_ms = none;
  inventory_error = false;
  host_cpu_percent = some 10;
  available_memory_percent = some 50;
  disk_active_percent = none;
  disk_queue = none;
  database_commit_p95_ms = none;
  insufficient_disk_space = false;
}

abbrev failing : ControllerObservation ℕ
failing = record healthy { inventory_error = true }

normalized_total_example :
    (r : ControllerConfig) × (normalized 1000 config ≡ some r) × IsNormalized 1000 r
normalized_total_example = normalized_total 1000 config (omega arith) config-HasWordRates

new-run-Inv_example :
    (c : AdaptiveIndexController) × (new 1000 config 0 ≡ some c)
    × ((h : List (ℕ × ControllerObservation ℕ)) → Inv 1000 (run naturals h c))
new-run-Inv_example =
    new-run-Inv 1000 (omega arith) naturals config 0 (omega arith) config-HasWordRates

started-Inv : Inv 1000 started
unfolding run
started-Inv =
    let (c, e, keeps) =
      new-run-Inv 1000 (omega arith) naturals config 0 (omega arith) config-HasWordRates in
    let same : c ≡ started = cc (e, new_test) in rw same at (keeps [])

observe-paused_example : (observe naturals 5 failing started).1.paused ≡ (
    failing.foreground_active
    || (is_some (hard_reason naturals config failing) || is_recovering 5 started))
observe-paused_example = observe-paused 1000 naturals 5 failing started started-Inv

hard_run_example :
    let d = run naturals ((5, failing) ∷ [] ++ (9, failing) ∷ []) started in
    (is_paused d.state ≡ true)
    × (d.limits ≡ config.canary)
    × (d.recovery_at
        ≡ some (
            9
            + min
                (config.recovery_delay
                  * 2 ^ min (0 + length {A = ℕ × ControllerObservation ℕ} ((5, failing) ∷ [])) 10)
                config.maximum_recovery_delay))
unfolding hard_reason
hard_run_example =
    hard_run naturals ((5, failing) ∷ []) 9 failing started (omega arith) (omega arith)
      (refl, refl, (refl, refl, tt))

healthy-steady_example :
    ((run naturals ((30_000 * one_milli, healthy) ∷ []) started).state ≡ steady)
    × ((run naturals ((30_000 * one_milli, healthy) ∷ []) started).limits ≡ config.ceiling)
unfolding hard_reason soft_reason
healthy-steady_example =
    healthy-steady 1000 (omega arith) naturals (30_000 * one_milli) healthy [] started
      (30_000 * one_milli) started-Inv refl refl (omega arith, refl, refl, refl, tt) (omega arith)
