-- ===== src/Controller/Adaptive/Priority.antt =====
-- Which rule of AdaptiveIndexController::observe applies, and what it does.
use opcda_bridge.Base.{
  ℕ, ◌+◌, ◌≤◌, ◌≡◌, refl, Bool, false, ◌&&◌, ◌||◌, not, Option, none, some, arith, List, [], ◌∷◌,
  is_some, is_some_and, ltb, u32_max,
}
use opcda_bridge.Controller.{PauseReason, ramping, ControllerConfig}
use opcda_bridge.Controller.Normalize.{HasWordRates, normalized_total}
use opcda_bridge.Controller.Adaptive.Invariant.{Inv, advance-Inv}
use opcda_bridge.Controller.Adaptive.{
  Float64, ControllerObservation, AdaptiveIndexController, new, is_paused, decision,
  is_paused_for_foreground, throttle, pause_for, increase_limits, leave_foreground, recover, settle,
  admit, hard_reason, soft_reason, advance, observe, run,
}

new-Inv :
    (m : ℕ) (config : ControllerConfig) (now : ℕ)
    → 1 ≤ m
    → HasWordRates config
    → (c : AdaptiveIndexController) × (new m config now ≡ some c) × Inv m c
unfolding new
new-Inv m config now h w =
    let (r, e, n) = normalized_total m config h w in
    (
      record {
        config = r;
        state = ramping;
        limits = r.canary;
        hold_until = some (now + r.healthy_window);
        recovery_at = none;
        recovery_exponent = 0;
        last_reason = none;
      },
      rw e refl,
      ground arith,
    )

module _ (m : ℕ) (word : m ≤ u32_max) (F : Float64) where
  run-Inv :
      (h : List (ℕ × ControllerObservation F.Val)) (c : AdaptiveIndexController)
      → Inv m c
      → Inv m (run F h c)
  unfolding run
  run-Inv [] c v = v
  run-Inv ((now, o) ∷ h) c v = run-Inv h (advance F now o c) (advance-Inv m word now F o c v)

  -- For every configuration whose rates are `u32` values, and a native batch limit between one
  -- and the largest `u32`, `new` returns a controller, and after any sequence of observations its
  -- limits lie between the normalised floor and ceiling, a steady controller stands at the
  -- ceiling, a recovery deadline is set exactly in a pause that is not for foreground work, the
  -- reason is that of the state, and a controller that is not paused has a hold deadline.
  pub new-run-Inv :
      (config : ControllerConfig) (now : ℕ)
      → 1 ≤ m
      → HasWordRates config
      → (c : AdaptiveIndexController) × (new m config now ≡ some c)
        × ((h : List (ℕ × ControllerObservation F.Val)) → Inv m (run F h c))
  new-run-Inv config now h w =
      let (c, e, v) = new-Inv m config now h w in (c, e, λ hist. run-Inv hist c v)

settle-running :
    (now : ℕ) (soft : Option PauseReason) (c : AdaptiveIndexController)
    → is_paused c.state ≡ false
    → is_paused (settle now soft c).state ≡ false
unfolding settle throttle increase_limits
settle-running now none c e = ground arith
settle-running now (some r) c e = ground arith

-- A pause for another reason than foreground work whose recovery deadline has not come.
abbrev pub is_recovering : ℕ → AdaptiveIndexController → Bool
is_recovering now c =
    is_paused c.state
    && (not (is_paused_for_foreground c.state) && is_some_and c.recovery_at (λ t. ltb now t))

admit-paused :
    (now : ℕ) (hard soft : Option PauseReason) (c : AdaptiveIndexController)
    → is_paused_for_foreground c.state ≡ false
    → is_paused (admit now hard soft c).state ≡ (is_some hard || is_recovering now c)
unfolding admit recover
admit-paused now (some r) soft c e = unfold pause_for in refl
admit-paused now none soft c e =
    ground (arith, settle-running now soft c, settle-running now soft (recover now c))

module _ (m : ℕ) (F : Float64) (now : ℕ) (o : ControllerObservation F.Val) where
  -- From a controller within its invariant, `observe` decides to pause exactly when foreground
  -- work is active, or a hard reason is read, or a pause for another reason than foreground work
  -- has not reached its recovery deadline.
  pub observe-paused :
      (c : AdaptiveIndexController)
      → Inv m c
      → (observe F now o c).1.paused
        ≡ (o.foreground_active || (is_some (hard_reason F c.config o) || is_recovering now c))
  unfolding observe decision advance leave_foreground
  observe-paused c v = ground (
    arith,
    admit-paused now (hard_reason F c.config o) (soft_reason F c.config o) (leave_foreground now c),
  )
