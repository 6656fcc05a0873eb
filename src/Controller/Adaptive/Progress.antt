-- ===== src/Controller/Adaptive/Progress.antt =====
-- Healthy observations bring AdaptiveIndexController to its ceiling.
use opcda_bridge.Base.{
  ℕ, ◌+◌, ◌-◌, ◌≤◌, ◌≡◌, refl, false, none, some, arith, List, [], ◌∷◌, u32_max, length,
}
use opcda_bridge.Controller.{steady, InventoryLimits, ControllerConfig}
use opcda_bridge.Controller.Normalize.{IsBelow, IsNormalized}
use opcda_bridge.Controller.Adaptive.Bounds.{increased_strict, increased-IsBelow_ceiling}
use opcda_bridge.Controller.Adaptive.Invariant.{Inv, increase_limits-Inv}
use opcda_bridge.Controller.Adaptive.{
  Float64, ControllerObservation, run, run-cons, AdaptiveIndexController, is_paused, increased,
  increase_limits, leave_foreground, settle, admit, hard_reason, soft_reason, advance,
}

-- How far the limits are below the ceiling, all fields together.
abbrev pub distance : InventoryLimits → InventoryLimits → ℕ
distance l top =
    (top.item_rate_per_second - l.item_rate_per_second)
    + (top.batch_size - l.batch_size)
    + (top.duty_cycle_percent - l.duty_cycle_percent)

module _ (F : Float64) (config : ControllerConfig) where
  -- Observations with neither foreground work nor a reason to pause or throttle, the first at
  -- `earliest` or later and each next one at least a healthy window after the one before.
  abbrev pub Spaced : ℕ → List (ℕ × ControllerObservation F.Val) → Type 0
  Spaced earliest [] = Unit {0}
  Spaced earliest ((now, o) ∷ h) =
      (earliest ≤ now)
      × (o.foreground_active ≡ false)
      × (hard_reason F config o ≡ none)
      × (soft_reason F config o ≡ none)
      × Spaced (now + config.healthy_window) h

module _ (m : ℕ) (word : m ≤ u32_max) where
  closer :
      (config : ControllerConfig) (l : InventoryLimits)
      → IsNormalized m config
      → IsBelow l config.ceiling
      → distance (increased config l) config.ceiling ≤ distance l config.ceiling - 1
  closer config l n h =
      omega
        (arith, increased_strict m word config n l h, increased-IsBelow_ceiling m word config n l h)

  reached : (l top : InventoryLimits) → IsBelow l top → distance l top ≡ 0 → l ≡ top
  reached l top h e = ground arith

  increase_limits-steady :
      (now : ℕ) (c : AdaptiveIndexController)
      → Inv m c
      → distance c.limits c.config.ceiling ≤ 1
      → (increase_limits now c).state ≡ steady
  unfolding increase_limits
  increase_limits-steady now c v d = ground (
    arith,
    closer c.config c.limits v.normal v.below_ceiling,
    reached (increased c.config c.limits) c.config.ceiling
        (increased-IsBelow_ceiling m word c.config v.normal c.limits v.below_ceiling),
  )

  increase_limits-running :
      (now : ℕ) (c : AdaptiveIndexController) → is_paused (increase_limits now c).state ≡ false
  unfolding increase_limits
  increase_limits-running now c = ground arith

  module _ (F : Float64) where
    due_step :
        (now : ℕ) (o : ControllerObservation F.Val) (c : AdaptiveIndexController) (t : ℕ)
        → is_paused c.state ≡ false
        → c.hold_until ≡ some t
        → t ≤ now
        → o.foreground_active ≡ false
        → hard_reason F c.config o ≡ none
        → soft_reason F c.config o ≡ none
        → advance F now o c ≡ increase_limits now c
    unfolding advance leave_foreground admit settle
    due_step now o c t p e le f h s = ground arith

    -- From a controller within its invariant that is not paused, any non-empty sequence of healthy
    -- observations, the first not before the hold deadline and each next one a healthy window
    -- later, leads to the steady state at the ceiling, if there are at least as many observations
    -- as the limits are units below the ceiling.
    pub healthy-steady :
        (now : ℕ) (o : ControllerObservation F.Val) (h : List (ℕ × ControllerObservation F.Val))
        (c : AdaptiveIndexController) (t : ℕ)
        → Inv m c
        → is_paused c.state ≡ false
        → c.hold_until ≡ some t
        → Spaced F c.config t ((now, o) ∷ h)
        → distance c.limits c.config.ceiling ≤ length ((now, o) ∷ h)
        → ((run F ((now, o) ∷ h) c).state ≡ steady)
          × ((run F ((now, o) ∷ h) c).limits ≡ c.config.ceiling)
    unfolding run increase_limits
    healthy-steady now o [] c t v p e s d = rw (due_step now o c t p e s.0 s.1 s.2 s.3) (
        let full = increase_limits-steady now c v d in
        (full, (increase_limits-Inv m word now c p v).steady_full full))
    healthy-steady now o ((next, o') ∷ h) c t v p e s d =
        rw (run-cons, due_step now o c t p e s.0 s.1 s.2 s.3)
          (healthy-steady next o' h (increase_limits now c) (now + c.config.healthy_window)
            (increase_limits-Inv m word now c p v) (increase_limits-running now c) refl s.4
            (omega (arith, closer c.config c.limits v.normal v.below_ceiling)))
