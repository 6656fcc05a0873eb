-- ===== src/Controller/Adaptive/Bounds.antt =====
-- How the limits of AdaptiveIndexController move: `increase_limits` and `throttle`.
use opcda_bridge.Base.{ℕ, ◌+◌, ◌≤◌, arith, u32_max, min}
use opcda_bridge.Controller.{InventoryLimits, ControllerConfig}
use opcda_bridge.Controller.Normalize.{IsBelow, IsNormalized}
use opcda_bridge.Controller.Adaptive.{increased}

module _ (m : ℕ) (word : m ≤ u32_max) (config : ControllerConfig) (n : IsNormalized m config) where
  pub increased-IsBelow_ceiling :
      (l : InventoryLimits) → IsBelow l config.ceiling → IsBelow (increased config l) config.ceiling
  unfolding increased
  increased-IsBelow_ceiling l h = ground arith

  pub increased_grows :
      (l : InventoryLimits) → IsBelow l config.ceiling → IsBelow l (increased config l)
  unfolding increased
  increased_grows l h = ground arith

  -- Each field either grows by at least one or stands at its ceiling.
  pub increased_strict :
      (l : InventoryLimits)
      → IsBelow l config.ceiling
      → (min (l.batch_size + 1) config.ceiling.batch_size ≤ (increased config l).batch_size)
        × (min (l.duty_cycle_percent + 1) config.ceiling.duty_cycle_percent
            ≤ (increased config l).duty_cycle_percent)
        × (min (l.item_rate_per_second + 1) config.ceiling.item_rate_per_second
            ≤ (increased config l).item_rate_per_second)
  unfolding increased
  increased_strict l h = ground arith
