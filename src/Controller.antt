-- ===== src/Controller.antt =====
-- crates/opcda-bridge-gateway/src/controller.rs: the data of the adaptive index controller.
-- Instants and durations are numbers of nanoseconds.
pub mod Normalize
pub mod Adaptive
use opcda_bridge.Base.{
  ℕ, ◌+◌, ◌-◌, ◌*◌, ◌/◌, ◌^◌, min, max, ◌≡◌, Bool, true, false, ◌&&◌, ◌||◌, not, decide, Option,
  none, some, leb, ltb, if◌then◌else◌, is_some_and, ℕ_discrete, u8_max, u32_max, u64_max,
  saturating_add,
}

pub data PauseReason : Type 0 where
  foreground opc_health host_cpu memory disk database operator circuit maintenance : PauseReason

pub data ControllerState : Type 0 where
  ramping steady throttled : ControllerState
  paused : PauseReason → ControllerState

pub record InventoryLimits : Type 0 where
  pub item_rate_per_second : ℕ
  pub batch_size : ℕ
  pub duty_cycle_percent : ℕ

pub record ControllerConfig : Type 0 where
  pub floor : InventoryLimits
  pub canary : InventoryLimits
  pub ceiling : InventoryLimits
  pub unlimited_item_rate : Bool
  pub healthy_window : ℕ
  pub recovery_delay : ℕ
  pub maximum_recovery_delay : ℕ
  pub foreground_latency_soft_ms : ℕ
  pub foreground_latency_hard_ms : ℕ

-- `Duration::from_millis(1)`.
abbrev pub one_milli : ℕ
one_milli = 1_000_000

-- `Ord::clamp`, which panics (`none`) when the bounds are reversed.
unfoldable pub clamp : ℕ → ℕ → ℕ → Option ℕ
clamp x lo hi = if leb lo hi then some (min (max x lo) hi) else none

infixl 5 ◌>>=◌
abbrev pub ◌>>=◌ {ℓ κ} : {A : Type ℓ} {B : Type κ} → Option A → (A → Option B) → Option B
none >>= f = none
some a >>= f = f a

-- The rate is clamped only when the item rate is limited.
abbrev pub canary_rate : ControllerConfig → InventoryLimits → InventoryLimits → Option ℕ
canary_rate c floor ceiling =
    if c.unlimited_item_rate
    then some 0
    else clamp c.canary.item_rate_per_second floor.item_rate_per_second ceiling.item_rate_per_second

-- `max_batch` is MAX_NATIVE_INVENTORY_BATCH_SIZE, which the OPC DA client crate fixes on Windows.
module _ (max_batch : ℕ) where
  pub normalized_floor : ControllerConfig → Option InventoryLimits
  normalized_floor c = do
    batch ← clamp c.floor.batch_size 1 max_batch
    duty ← clamp c.floor.duty_cycle_percent 1 100
    some (record {
      item_rate_per_second =
          if c.unlimited_item_rate then 0 else max c.floor.item_rate_per_second 1;
      batch_size = batch;
      duty_cycle_percent = duty;
    })

  pub normalized_ceiling : ControllerConfig → InventoryLimits → Option InventoryLimits
  normalized_ceiling c floor = do
    batch ← clamp c.ceiling.batch_size floor.batch_size max_batch
    duty ← clamp c.ceiling.duty_cycle_percent floor.duty_cycle_percent 100
    some (record {
      item_rate_per_second =
          if c.unlimited_item_rate
          then 0
          else max c.ceiling.item_rate_per_second floor.item_rate_per_second;
      batch_size = batch;
      duty_cycle_percent = duty;
    })

  pub normalized_canary :
      ControllerConfig → InventoryLimits → InventoryLimits → Option InventoryLimits
  normalized_canary c floor ceiling = do
    rate ← canary_rate c floor ceiling
    batch ← clamp c.canary.batch_size floor.batch_size (min ceiling.batch_size max_batch)
    duty ← clamp c.canary.duty_cycle_percent floor.duty_cycle_percent ceiling.duty_cycle_percent
    some (record { item_rate_per_second = rate; batch_size = batch; duty_cycle_percent = duty })

  unfoldable pub normalized : ControllerConfig → Option ControllerConfig
  unfolding normalized_floor normalized_ceiling normalized_canary
  normalized c = do
    floor ← normalized_floor c
    ceiling ← normalized_ceiling c floor
    canary ← normalized_canary c floor ceiling
    some (record {
      floor = floor;
      canary = canary;
      ceiling = ceiling;
      unlimited_item_rate = c.unlimited_item_rate;
      healthy_window = max c.healthy_window one_milli;
      recovery_delay = max c.recovery_delay one_milli;
      maximum_recovery_delay = max c.maximum_recovery_delay (max c.recovery_delay one_milli);
      foreground_latency_soft_ms = max c.foreground_latency_soft_ms 1;
      foreground_latency_hard_ms =
          max c.foreground_latency_hard_ms (max c.foreground_latency_soft_ms 1);
    })

abbrev pub default_config : ControllerConfig
default_config = record {
  floor = record { item_rate_per_second = 10; batch_size = 1; duty_cycle_percent = 1 };
  canary = record { item_rate_per_second = 50; batch_size = 25; duty_cycle_percent = 5 };
  ceiling = record { item_rate_per_second = 250; batch_size = 100; duty_cycle_percent = 20 };
  unlimited_item_rate = false;
  healthy_window = 30_000 * one_milli;
  recovery_delay = 30_000 * one_milli;
  maximum_recovery_delay = 300_000 * one_milli;
  foreground_latency_soft_ms = 1_000;
  foreground_latency_hard_ms = 2_000;
}
