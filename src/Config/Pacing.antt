-- ===== src/Config/Pacing.antt =====
-- The limits with which a build starts: controller_config, initial_inventory_limits and
-- pacing_for_limits of crates/opcda-bridge-gateway/src/index/traversal.rs, over the settings that
-- config.rs resolves. Durations are numbers of nanoseconds.
use Prim.Native.String.{String}
use opcda_bridge.Base.{
  ◌+◌, ◌⊎◌, ◌&&◌, Bool, true, false, is_some_and, ℕ, ◌*◌, ◌≤◌, max, ◌≡◌, ◌↔◌, ◌≢◌, refl, Option,
  none, some, arith, ◌==◌, ltb, if◌then◌else◌, u32_max, Bool-cases, inl, inr, ◌∙◌, subst,
}
use opcda_bridge.Controller.{ControllerConfig, InventoryLimits, clamp, normalized, one_milli, ◌>>=◌}
use opcda_bridge.Controller.Normalize.{HasWordRates, IsNormalized, normalized_total}
use opcda_bridge.Controller.Adaptive.{AdaptiveIndexController, new}
use opcda_bridge.Config.{IndexConfig, ResolvedIndexConfig}
use opcda_bridge.Config.Settings.{Environment, resolve_index_config}
use opcda_bridge.Config.Resolve.{IsResolved, resolve_total, clamp_id}

-- `Duration::from_secs`.
abbrev pub from_secs : ℕ → ℕ
from_secs n = n * 1_000 * one_milli

unfoldable pub controller_config : ResolvedIndexConfig → ControllerConfig
controller_config r = record {
  floor = record {
    item_rate_per_second = r.minimum_item_rate;
    batch_size = r.minimum_batch_size;
    duty_cycle_percent = r.minimum_duty_cycle_percent;
  };
  canary = record {
    item_rate_per_second = r.canary_item_rate;
    batch_size = r.canary_batch_size;
    duty_cycle_percent = r.canary_duty_cycle_percent;
  };
  ceiling = record {
    item_rate_per_second = r.item_rate_limit;
    batch_size = r.inventory_batch_size;
    duty_cycle_percent = r.duty_cycle_percent;
  };
  unlimited_item_rate = r.item_rate_limit == 0;
  healthy_window = from_secs (max r.adaptive_healthy_window_seconds 1);
  recovery_delay = from_secs (max r.adaptive_recovery_delay_seconds 1);
  maximum_recovery_delay = from_secs (max r.adaptive_max_recovery_delay_seconds 1);
  foreground_latency_soft_ms = max r.adaptive_foreground_soft_latency_ms 1;
  foreground_latency_hard_ms =
      max r.adaptive_foreground_hard_latency_ms (max r.adaptive_foreground_soft_latency_ms 1);
}

-- The pacing that the native inventory is given; its minimal interval is zero.
pub record InventoryPacing : Type 0 where
  pub min_interval : ℕ
  pub item_rate_per_second : Option ℕ
  pub batch_size : Option ℕ

module _ (max_batch : ℕ) where
  -- AdaptiveIndexController::new panics if its first deadline is beyond the `latest` Instant.
  abbrev pub within : ℕ → AdaptiveIndexController → Option InventoryLimits
  within latest controller =
      if is_some_and controller.hold_until (λ deadline. ltb latest deadline)
      then none
      else some controller.limits

  unfoldable pub initial_inventory_limits : ℕ → ℕ → ResolvedIndexConfig → Option InventoryLimits
  initial_inventory_limits latest now r =
      if r.adaptive
      then (do controller ← new max_batch (controller_config r) now; within latest controller)
      else some (record {
        item_rate_per_second = r.item_rate_limit;
        batch_size = r.inventory_batch_size;
        duty_cycle_percent = r.duty_cycle_percent;
      })

  unfoldable pub pacing_for_limits : InventoryLimits → Option InventoryPacing
  pacing_for_limits l = do
    batch ← clamp l.batch_size 1 max_batch
    some (record {
      min_interval = 0;
      item_rate_per_second =
          if ltb 0 l.item_rate_per_second then some l.item_rate_per_second else none;
      batch_size = some batch;
    })

  -- What holds of the first limits of a build.
  pub record IsStart (r : ResolvedIndexConfig) (l : InventoryLimits) : Type 0 where
    pub batch : (1 ≤ l.batch_size) × (l.batch_size ≤ max_batch)
    pub duty : (1 ≤ l.duty_cycle_percent) × (l.duty_cycle_percent ≤ 100)
    pub unlimited : (l.item_rate_per_second ≡ 0) ↔ (r.item_rate_limit ≡ 0)
    pub rate : l.item_rate_per_second ≤ u32_max

  normalized-unlimited :
      (c d : ControllerConfig)
      → normalized max_batch c ≡ some d
      → d.unlimited_item_rate ≡ c.unlimited_item_rate
  unfolding normalized
  normalized-unlimited c d e = ground arith

  IsNormalized-IsStart :
      (r : ResolvedIndexConfig) (c : ControllerConfig)
      → c.unlimited_item_rate ≡ (r.item_rate_limit == 0)
      → IsNormalized max_batch c
      → IsStart r c.canary
  IsNormalized-IsStart r c e n = elim (Bool-cases c.unlimited_item_rate) [
    | inl u ↦ ground (arith, n.unlimited_rate u)
    | inr l ↦ ground (arith, n.limited_rate l)
  ]

  controller_config-words :
      (r : ResolvedIndexConfig)
      → r.minimum_item_rate ≤ u32_max
      → r.item_rate_limit ≤ u32_max
      → HasWordRates (controller_config r)
  unfolding controller_config
  controller_config-words r f w = record { floor_word = f; ceiling_word = w }

  controller_config-flag :
      (r : ResolvedIndexConfig)
      → (controller_config r).unlimited_item_rate ≡ (r.item_rate_limit == 0)
  unfolding controller_config
  controller_config-flag r = refl

  normalized-window :
      (r : ResolvedIndexConfig) (d : ControllerConfig)
      → normalized max_batch (controller_config r) ≡ some d
      → d.healthy_window ≡ from_secs (max r.adaptive_healthy_window_seconds 1)
  unfolding normalized controller_config
  normalized-window r d e = ground arith

  -- The first deadline of the adaptive controller is beyond the latest Instant.
  abbrev pub overflows : ℕ → ℕ → ResolvedIndexConfig → Bool
  overflows latest now r =
      r.adaptive && ltb latest (now + from_secs (max r.adaptive_healthy_window_seconds 1))

  Started : ℕ → ℕ → ResolvedIndexConfig → Type 0
  Started latest now r =
      (overflows latest now r ≡ true) × (initial_inventory_limits latest now r ≡ none)
      ⊎ (overflows latest now r ≡ false)
        × ((l : InventoryLimits) × (initial_inventory_limits latest now r ≡ some l) × IsStart r l)

  IsStart-total :
      (latest now : ℕ) (r : ResolvedIndexConfig)
      → 1 ≤ max_batch
      → IsResolved max_batch r
      → r.minimum_item_rate ≤ u32_max
      → r.item_rate_limit ≤ u32_max
      → Started latest now r
  unfolding Started initial_inventory_limits new
  IsStart-total latest now r h i f w = elim (Bool-cases r.adaptive) [
    | inl a ↦
        let (d, e, n) =
          normalized_total max_batch (controller_config r) h (controller_config-words r f w) in
        let window = normalized-window r d e in
        elim (Bool-cases (ltb latest (now + d.healthy_window))) [
          | inl late ↦ inl (ground (arith, late, window), simp (a, e, late))
          | inr fits ↦ inr (
            ground (arith, fits, window),
            (
              d.canary,
              simp (a, e, fits),
              IsNormalized-IsStart r d
                  (normalized-unlimited (controller_config r) d e ∙ controller_config-flag r) n,
            ),
          )
        ]
    | inr a ↦ inr (
      ground arith,
      (
        record {
          item_rate_per_second = r.item_rate_limit;
          batch_size = r.inventory_batch_size;
          duty_cycle_percent = r.duty_cycle_percent;
        },
        rw a refl,
        ground arith,
      ),
    )
  ]

  limited_rate :
      (limit rate : ℕ)
      → (rate ≡ 0) ↔ (limit ≡ 0)
      → ◌≡◌ {A = Option ℕ}
          (if ltb 0 rate then some rate else none)
          (if limit == 0 then none else some rate)
  limited_rate limit rate h = elim (Bool-cases (limit == 0)) [
    | inl e ↦ let z : rate ≡ 0 = h.1 (ground arith) in ground arith
    | inr e ↦ let z : rate ≢ 0 = λ q. ground (arith, h.0 q) in ground arith
  ]

  pacing_start :
      (r : ResolvedIndexConfig) (l : InventoryLimits)
      → IsStart r l
      → pacing_for_limits l
        ≡ some (record {
          min_interval = 0;
          item_rate_per_second =
              if r.item_rate_limit == 0 then none else some l.item_rate_per_second;
          batch_size = some l.batch_size;
        })
  unfolding pacing_for_limits
  pacing_start r l start = rw (
    clamp_id l.batch_size 1 max_batch start.batch,
    limited_rate r.item_rate_limit l.item_rate_per_second start.unlimited,
  )

  -- For the settings resolved from any file whose two item rates are `u32` values, and a native batch
  -- limit of at least one: the first limits of a build cannot be computed, for a panic, exactly if the
  -- adaptive controller is on and its first deadline, the healthy window from now on, is beyond the
  -- latest Instant. Otherwise they are; batch size and duty cycle lie within their bounds, the rate is
  -- zero exactly when the settings do not limit it, and the pacing for these limits is computed and has
  -- that rate and batch size.
  pub first_limits :
      (join : String → String → String) (e : Environment) (c : IndexConfig) (latest now : ℕ)
      {r : ResolvedIndexConfig}
      → 1 ≤ max_batch
      → resolve_index_config join max_batch e c ≡ some r
      → r.minimum_item_rate ≤ u32_max
      → r.item_rate_limit ≤ u32_max
      → ((overflows latest now r ≡ true) × (initial_inventory_limits latest now r ≡ none))
        ⊎ ((overflows latest now r ≡ false)
            × ((l : InventoryLimits) × (initial_inventory_limits latest now r ≡ some l)
                × IsStart r l
                × (pacing_for_limits l
                    ≡ some (record {
                      min_interval = 0;
                      item_rate_per_second =
                          if r.item_rate_limit == 0 then none else some l.item_rate_per_second;
                      batch_size = some l.batch_size;
                    }))))
  unfolding Started
  first_limits join e c latest now {r} h p f w =
      let (s, q, i) = resolve_total join max_batch e c h in
      let same : s ≡ r = cc in
      elim (IsStart-total latest now r h (subst (IsResolved max_batch) same i) f w) [
        | inl panics ↦ inl panics
        | inr (fits, (l, g, start)) ↦ inr (fits, (l, g, start, pacing_start r l start))
      ]
