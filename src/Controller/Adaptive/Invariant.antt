-- ===== src/Controller/Adaptive/Invariant.antt =====
-- What holds of an AdaptiveIndexController between two observations.
use opcda_bridge.Base.{
  ℕ, ◌≤◌, ◌≡◌, refl, true, false, ◌&&◌, not, Option, none, some, arith, is_some, u32_max,
}
use opcda_bridge.Controller.{
  PauseReason, ControllerState, ramping, steady, throttled, paused, ControllerConfig,
}
use opcda_bridge.Controller.Normalize.{IsBelow, IsNormalized}
use opcda_bridge.Controller.Adaptive.Bounds.{increased-IsBelow_ceiling, increased_grows}
use opcda_bridge.Controller.Adaptive.{
  Float64, ControllerObservation, AdaptiveIndexController, is_paused, is_paused_for_foreground,
  throttle, pause_for, increase_limits, leave_foreground, recover, settle, admit, hard_reason,
  soft_reason, advance,
}

-- The reason that a state carries: a paused one its own, a throttled one any, the others none.
abbrev pub ReasonFits : ControllerState → Option PauseReason → Type 0
ReasonFits ramping r = r ≡ none
ReasonFits steady r = r ≡ none
ReasonFits throttled r = is_some r ≡ true
ReasonFits (paused p) r = r ≡ some p

pub record Inv (max_batch : ℕ) (c : AdaptiveIndexController) : Type 0 where
  pub normal : IsNormalized max_batch c.config
  pub above_floor : IsBelow c.config.floor c.limits
  pub below_ceiling : IsBelow c.limits c.config.ceiling
  pub steady_full : c.state ≡ steady → c.limits ≡ c.config.ceiling
  pub recovering :
      is_some c.recovery_at ≡ (is_paused c.state && not (is_paused_for_foreground c.state))
  pub reason_fits : ReasonFits c.state c.last_reason
  pub held : is_paused c.state ≡ false → is_some c.hold_until ≡ true

module _ (m : ℕ) (word : m ≤ u32_max) (now : ℕ) where
  throttle-Inv :
      (r : PauseReason) (c : AdaptiveIndexController) → Inv m c → Inv m (throttle now r c)
  unfolding throttle
  throttle-Inv r c v = ground arith

  pause_for-Inv :
      (r : PauseReason) (c : AdaptiveIndexController)
      → is_paused_for_foreground (paused r) ≡ false
      → Inv m c
      → Inv m (pause_for now r c)
  unfolding pause_for
  pause_for-Inv r c e v = ground arith

  pub increase_limits-Inv :
      (c : AdaptiveIndexController)
      → is_paused c.state ≡ false
      → Inv m c
      → Inv m (increase_limits now c)
  unfolding increase_limits
  increase_limits-Inv c e v = ground (
    arith,
    increased-IsBelow_ceiling m word c.config v.normal c.limits v.below_ceiling,
    increased_grows m word c.config v.normal c.limits v.below_ceiling,
  )

  leave_foreground-Inv : (c : AdaptiveIndexController) → Inv m c → Inv m (leave_foreground now c)
  unfolding leave_foreground
  leave_foreground-Inv c v = ground arith

  recover-Inv : (c : AdaptiveIndexController) → Inv m c → Inv m (recover now c)
  unfolding recover
  recover-Inv c v = ground arith

  settle-Inv :
      (soft : Option PauseReason) (c : AdaptiveIndexController)
      → is_paused c.state ≡ false
      → Inv m c
      → Inv m (settle now soft c)
  unfolding settle
  settle-Inv none c e v = ground (arith, increase_limits-Inv c e v)
  settle-Inv (some r) c e v = ground (arith, throttle-Inv r c v)

  recover-running : (c : AdaptiveIndexController) → is_paused (recover now c).state ≡ false
  unfolding recover
  recover-running c = refl

  leave_foreground-other :
      (c : AdaptiveIndexController)
      → is_paused_for_foreground (leave_foreground now c).state ≡ false
  unfolding leave_foreground
  leave_foreground-other c = ground arith

  admit-Inv :
      (hard soft : Option PauseReason) (c : AdaptiveIndexController)
      → Inv m c
      → ((r : PauseReason) → hard ≡ some r → is_paused_for_foreground (paused r) ≡ false)
      → Inv m (admit now hard soft c)
  unfolding admit
  admit-Inv (some r) soft c v h = pause_for-Inv r c (h r refl) v
  admit-Inv none soft c v h = ground (
    arith,
    settle-Inv soft (recover now c) (recover-running c) (recover-Inv c v),
    settle-Inv soft c,
  )

  module _ (F : Float64) where
    hard_reason-other :
        (config : ControllerConfig) (o : ControllerObservation F.Val) (r : PauseReason)
        → hard_reason F config o ≡ some r
        → is_paused_for_foreground (paused r) ≡ false
    unfolding hard_reason
    hard_reason-other config o r e = ground arith

    -- Every observation, whatever it reads, keeps the invariant.
    pub advance-Inv :
        (o : ControllerObservation F.Val) (c : AdaptiveIndexController)
        → Inv m c
        → Inv m (advance F now o c)
    unfolding advance
    advance-Inv o c v = ground (
      arith,
      admit-Inv (hard_reason F c.config o) (soft_reason F c.config o) (leave_foreground now c)
          (leave_foreground-Inv c v) (hard_reason-other c.config o),
    )
