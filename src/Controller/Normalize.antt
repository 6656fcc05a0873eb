-- ===== src/Controller/Normalize.antt =====
-- ControllerConfig::normalized of controller.rs.
use opcda_bridge.Base.{
  ℕ, ◌≤◌, min, max, ◌≡◌, refl, inl, inr, Bool-cases, true, false, some, arith, u32_max,
  if◌then◌else◌,
}
use opcda_bridge.Controller.{
  ControllerConfig, InventoryLimits, clamp, normalized_floor, normalized_ceiling, normalized_canary,
  canary_rate, normalized, one_milli,
}

-- One limit record lies below another in each field.
pub record IsBelow (a b : InventoryLimits) : Type 0 where
  pub rate : a.item_rate_per_second ≤ b.item_rate_per_second
  pub batch : a.batch_size ≤ b.batch_size
  pub duty : a.duty_cycle_percent ≤ b.duty_cycle_percent

pub record IsNormalized (max_batch : ℕ) (c : ControllerConfig) : Type 0 where
  pub floor_canary : IsBelow c.floor c.canary
  pub canary_ceiling : IsBelow c.canary c.ceiling
  pub ceiling_batch : c.ceiling.batch_size ≤ max_batch
  pub ceiling_rate : c.ceiling.item_rate_per_second ≤ u32_max
  pub ceiling_duty : c.ceiling.duty_cycle_percent ≤ 100
  pub floor_batch : 1 ≤ c.floor.batch_size
  pub floor_duty : 1 ≤ c.floor.duty_cycle_percent
  pub limited_rate : c.unlimited_item_rate ≡ false → 1 ≤ c.floor.item_rate_per_second
  pub unlimited_rate : c.unlimited_item_rate ≡ true → c.ceiling.item_rate_per_second ≡ 0
  pub window : one_milli ≤ c.healthy_window
  pub delay : one_milli ≤ c.recovery_delay
  pub delay_capped : c.recovery_delay ≤ c.maximum_recovery_delay
  pub soft : 1 ≤ c.foreground_latency_soft_ms
  pub soft_hard : c.foreground_latency_soft_ms ≤ c.foreground_latency_hard_ms

-- The rates of the configuration are values of `u32`.
pub record HasWordRates (c : ControllerConfig) : Type 0 where
  pub floor_word : c.floor.item_rate_per_second ≤ u32_max
  pub ceiling_word : c.ceiling.item_rate_per_second ≤ u32_max

clamp_cases : (x lo hi : ℕ) → lo ≤ hi → (v : ℕ) × (clamp x lo hi ≡ some v) × (lo ≤ v) × (v ≤ hi)
unfolding clamp
clamp_cases x lo hi h = (min (max x lo) hi, ground arith, omega arith, omega arith)

floor_total :
    (m : ℕ) (c : ControllerConfig)
    → 1 ≤ m
    → HasWordRates c
    → (f : InventoryLimits) × (normalized_floor m c ≡ some f)
      × (1 ≤ f.batch_size)
      × (f.batch_size ≤ m)
      × (1 ≤ f.duty_cycle_percent)
      × (f.duty_cycle_percent ≤ 100)
      × (c.unlimited_item_rate ≡ false → 1 ≤ f.item_rate_per_second)
      × (c.unlimited_item_rate ≡ true → f.item_rate_per_second ≡ 0)
      × (f.item_rate_per_second ≤ u32_max)
unfolding normalized_floor
floor_total m c h w =
    let (b, eb, lb, hb) = clamp_cases c.floor.batch_size 1 m h in
    let (d, ed, ld, hd) = clamp_cases c.floor.duty_cycle_percent 1 100 (omega arith) in
    (
      record {
        item_rate_per_second =
            if c.unlimited_item_rate then 0 else max c.floor.item_rate_per_second 1;
        batch_size = b;
        duty_cycle_percent = d;
      },
      rw (eb, ed) refl,
      lb,
      hb,
      ld,
      hd,
      ground arith,
      ground arith,
      ground arith,
    )

ceiling_total :
    (m : ℕ) (c : ControllerConfig) (f : InventoryLimits)
    → f.batch_size ≤ m
    → f.duty_cycle_percent ≤ 100
    → (c.unlimited_item_rate ≡ true → f.item_rate_per_second ≡ 0)
    → f.item_rate_per_second ≤ u32_max
    → HasWordRates c
    → (g : InventoryLimits) × (normalized_ceiling m c f ≡ some g)
      × IsBelow f g
      × (g.batch_size ≤ m)
      × (g.duty_cycle_percent ≤ 100)
      × (c.unlimited_item_rate ≡ true → g.item_rate_per_second ≡ 0)
      × (g.item_rate_per_second ≤ u32_max)
unfolding normalized_ceiling
ceiling_total m c f hm hd u w ww =
    let (b, eb, lb, hb) = clamp_cases c.ceiling.batch_size f.batch_size m hm in
    let (d, ed, ld, hd') = clamp_cases c.ceiling.duty_cycle_percent f.duty_cycle_percent 100 hd in
    (
      record {
        item_rate_per_second =
            if c.unlimited_item_rate
            then 0
            else max c.ceiling.item_rate_per_second f.item_rate_per_second;
        batch_size = b;
        duty_cycle_percent = d;
      },
      rw (eb, ed) refl,
      ground arith,
      hb,
      hd',
      ground arith,
      ground arith,
    )

canary_total :
    (m : ℕ) (c : ControllerConfig) (f g : InventoryLimits)
    → IsBelow f g
    → g.batch_size ≤ m
    → (c.unlimited_item_rate ≡ true → f.item_rate_per_second ≡ 0)
    → (k : InventoryLimits) × (normalized_canary m c f g ≡ some k) × IsBelow f k × IsBelow k g
unfolding normalized_canary
canary_total m c f g h hm u =
    let (b, eb, lb, hb) =
      clamp_cases c.canary.batch_size f.batch_size (min g.batch_size m) (omega arith) in
    let (d, ed, ld, hd) =
      clamp_cases c.canary.duty_cycle_percent f.duty_cycle_percent g.duty_cycle_percent h.duty in
    let (r, er, lr, hr) = rate in
    (
      record { item_rate_per_second = r; batch_size = b; duty_cycle_percent = d },
      rw (er, eb, ed) refl,
      omega arith,
      omega arith,
    )
  where
    rate :
        (v : ℕ) × (canary_rate c f g ≡ some v)
        × (f.item_rate_per_second ≤ v)
        × (v ≤ g.item_rate_per_second)
    rate = elim (Bool-cases c.unlimited_item_rate) [
      | inl e ↦ (0, rw e refl, omega (arith, u e), omega arith)
      | inr e ↦ rw e (
          clamp_cases c.canary.item_rate_per_second f.item_rate_per_second g.item_rate_per_second
            h.rate)
    ]

-- For every configuration whose rates are `u32` values, and a native batch limit of at least one,
-- `normalized` returns a result and does not panic. In the result floor, canary and ceiling lie in
-- that order in each field, the batch size and the duty cycle are at least one and within their
-- limits, the rate is a `u32`, at least one where it is limited and zero where it is not, and the
-- times and latencies are at least one unit and in order.
pub normalized_total :
    (max_batch : ℕ) (c : ControllerConfig)
    → 1 ≤ max_batch
    → HasWordRates c
    → (r : ControllerConfig) × (normalized max_batch c ≡ some r) × IsNormalized max_batch r
unfolding normalized
normalized_total m c h w =
    let (f, ef, f1, f2, f3, f4, f5, f6, f7) = floor_total m c h w in
    let (g, eg, below, g2, g3, g4, g5) = ceiling_total m c f f2 f4 f6 f7 w in
    let (k, ek, fk, kg) = canary_total m c f g below g2 f6 in
    (
      record {
        floor = f;
        canary = k;
        ceiling = g;
        unlimited_item_rate = c.unlimited_item_rate;
        healthy_window = max c.healthy_window one_milli;
        recovery_delay = max c.recovery_delay one_milli;
        maximum_recovery_delay = max c.maximum_recovery_delay (max c.recovery_delay one_milli);
        foreground_latency_soft_ms = max c.foreground_latency_soft_ms 1;
        foreground_latency_hard_ms =
            max c.foreground_latency_hard_ms (max c.foreground_latency_soft_ms 1);
      },
      rw (ef, eg, ek) refl,
      ground arith,
    )
