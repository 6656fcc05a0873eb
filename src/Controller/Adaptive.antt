-- ===== src/Controller/Adaptive.antt =====
-- crates/opcda-bridge-gateway/src/controller.rs: AdaptiveIndexController and its observations.
-- A method that changes the controller returns the new one. Floating-point readings enter through
-- `Float64`, since the source only compares them with whole numbers.
pub mod Bounds
pub mod Invariant
pub mod Priority
pub mod Backoff
pub mod Progress
mod Tests
use opcda_bridge.Base.{
  List, [], ◌∷◌, ℕ, ◌+◌, ◌*◌, ◌/◌, ◌^◌, min, max, ◌≡◌, refl, Bool, true, false, ◌&&◌, ◌||◌, not,
  ite, Option, none, some, leb, ltb, if◌then◌else◌, is_some_and, is_none_or, ℕ_discrete, u8_max,
  u32_max, u64_max, saturating_add,
}
use opcda_bridge.Controller.{
  PauseReason, foreground, opc_health, host_cpu, memory, disk, database, ControllerState, ramping,
  steady, throttled, paused, InventoryLimits, ControllerConfig, normalized, ◌>>=◌,
}

-- The `f64` operations that the controller uses: `a <= b`, and the value of a literal.
pub record Float64 : Type 1 where
  pub Val : Type 0
  pub le : Val → Val → Bool
  pub literal : ℕ → Val

pub record ControllerObservation (V : Type 0) : Type 0 where
  pub foreground_active : Bool
  pub foreground_error : Bool
  pub foreground_bad_quality : Bool
  pub foreground_latency_ms : Option ℕ
  pub baseline_latency_ms : Option ℕ
  pub inventory_error : Bool
  pub host_cpu_percent : Option V
  pub available_memory_percent : Option V
  pub disk_active_percent : Option V
  pub disk_queue : Option V
  pub database_commit_p95_ms : Option ℕ
  pub insufficient_disk_space : Bool

pub record AdaptiveIndexController : Type 0 where
  pub config : ControllerConfig
  pub state : ControllerState
  pub limits : InventoryLimits
  pub hold_until : Option ℕ
  pub recovery_at : Option ℕ
  pub recovery_exponent : ℕ
  pub last_reason : Option PauseReason

pub record ControllerDecision : Type 0 where
  pub state : ControllerState
  pub limits : InventoryLimits
  pub paused : Bool
  pub reason : Option PauseReason
  pub recovery_at : Option ℕ
  pub transitioned : Bool

-- The largest `Duration`, in nanoseconds.
abbrev pub duration_max : ℕ
duration_max = 18_446_744_073_709_551_615_999_999_999

-- `Duration::checked_mul`.
unfoldable pub checked_mul : ℕ → ℕ → Option ℕ
checked_mul d k = if leb (d * k) duration_max then some (d * k) else none

abbrev pub or_else {ℓ} : {A : Type ℓ} → Option A → A → A
or_else none a = a
or_else (some b) a = b

-- The overflow of the first deadline, which is an Instant, is left to initial_inventory_limits.
unfoldable pub new : ℕ → ControllerConfig → ℕ → Option AdaptiveIndexController
new max_batch c now = do
  config ← normalized max_batch c
  some (record {
    config = config;
    state = ramping;
    limits = config.canary;
    hold_until = some (now + config.healthy_window);
    recovery_at = none;
    recovery_exponent = 0;
    last_reason = none;
  })

abbrev pub is_paused : ControllerState → Bool
is_paused (paused r) = true
is_paused _ = false

abbrev pub is_foreground : PauseReason → Bool
is_foreground foreground = true
is_foreground _ = false

abbrev pub is_paused_for_foreground : ControllerState → Bool
is_paused_for_foreground (paused r) = is_foreground r
is_paused_for_foreground _ = false

abbrev pub is_throttled : ControllerState → Bool
is_throttled throttled = true
is_throttled _ = false

pub InventoryLimits-discrete : Discrete InventoryLimits
InventoryLimits-discrete = hlevel ℕ_discrete

abbrev pub Snapshot : Type 0
Snapshot = ControllerState × InventoryLimits × Option ℕ

abbrev pub snapshot : AdaptiveIndexController → Snapshot
snapshot c = (c.state, c.limits, c.recovery_at)

pub Snapshot-discrete : Discrete Snapshot
Snapshot-discrete = hlevel ℕ_discrete

unfoldable pub decision : Snapshot → AdaptiveIndexController → ControllerDecision
decision previous c = record {
  state = c.state;
  limits = c.limits;
  paused = is_paused c.state;
  reason = c.last_reason;
  recovery_at = c.recovery_at;
  transitioned = ite (Snapshot-discrete previous (snapshot c)) false true;
}

unfoldable pub throttle : ℕ → PauseReason → AdaptiveIndexController → AdaptiveIndexController
throttle now reason c = record c {
  state = throttled;
  limits = record {
    item_rate_per_second =
        max (c.limits.item_rate_per_second / 2) c.config.floor.item_rate_per_second;
    batch_size = max (c.limits.batch_size / 2) c.config.floor.batch_size;
    duty_cycle_percent = max (c.limits.duty_cycle_percent / 2) c.config.floor.duty_cycle_percent;
  };
  hold_until = some (now + c.config.healthy_window);
  recovery_at = none;
  last_reason = some reason;
}

-- `1_u32.checked_shl(recovery_exponent.min(10))` is never out of range.
unfoldable pub recovery_pause : ControllerConfig → ℕ → ℕ
recovery_pause config exponent =
    min
      (or_else (checked_mul config.recovery_delay (2 ^ min exponent 10))
        config.maximum_recovery_delay)
      config.maximum_recovery_delay

unfoldable pub pause_for : ℕ → PauseReason → AdaptiveIndexController → AdaptiveIndexController
pause_for now reason c = record c {
  state = paused reason;
  limits = c.config.canary;
  recovery_at = some (now + recovery_pause c.config c.recovery_exponent);
  recovery_exponent = saturating_add u32_max c.recovery_exponent 1;
  hold_until = none;
  last_reason = some reason;
}

unfoldable pub increased : ControllerConfig → InventoryLimits → InventoryLimits
increased config l = record {
  item_rate_per_second =
      if config.unlimited_item_rate
      then l.item_rate_per_second
      else min (saturating_add u32_max l.item_rate_per_second (max (l.item_rate_per_second / 10) 1))
          config.ceiling.item_rate_per_second;
  batch_size =
      min (saturating_add u32_max l.batch_size (max (l.batch_size / 10) 1))
        config.ceiling.batch_size;
  duty_cycle_percent =
      min (saturating_add u8_max l.duty_cycle_percent 1) config.ceiling.duty_cycle_percent;
}

unfoldable pub increase_limits : ℕ → AdaptiveIndexController → AdaptiveIndexController
increase_limits now c = record c {
  limits = increased c.config c.limits;
  state =
      ite (InventoryLimits-discrete (increased c.config c.limits) c.config.ceiling) steady ramping;
  hold_until = some (now + c.config.healthy_window);
  recovery_exponent = 0;
  last_reason = none;
}

-- The pause for foreground work ends: the first `if matches!` of `observe`.
unfoldable pub leave_foreground : ℕ → AdaptiveIndexController → AdaptiveIndexController
leave_foreground now c =
    if is_paused_for_foreground c.state
    then record c {
      state = ramping;
      hold_until = some (now + c.config.healthy_window);
      last_reason = none;
    }
    else c

-- The second `if matches!`: a pause that has run out goes on from the canary limits.
unfoldable pub recover : ℕ → AdaptiveIndexController → AdaptiveIndexController
recover now c = record c {
  state = ramping;
  limits = c.config.canary;
  recovery_at = none;
  hold_until = some (now + c.config.healthy_window);
  last_reason = none;
}

abbrev pub hold_expired : ℕ → Option ℕ → Bool
hold_expired now hold = is_none_or hold (λ t. leb t now)

module _ (F : Float64) where
  open F use {Val, le, literal}

  unfoldable pub hard_reason : ControllerConfig → ControllerObservation Val → Option PauseReason
  hard_reason config o =
      if o.foreground_error || o.foreground_bad_quality || o.inventory_error
      then some opc_health
      else if is_some_and o.foreground_latency_ms (λ t. leb config.foreground_latency_hard_ms t)
      then some opc_health
      else if is_some_and o.host_cpu_percent (λ v. le (literal 85) v)
      then some host_cpu
      else if is_some_and o.available_memory_percent (λ v. le v (literal 8))
      then some memory
      else if is_some_and o.disk_active_percent (λ v. le (literal 90) v)
          || is_some_and o.disk_queue (λ v. le (literal 5) v)
      then some disk
      else if is_some_and o.database_commit_p95_ms (λ t. leb 1_000 t) || o.insufficient_disk_space
      then some database
      else none

  unfoldable pub soft_reason : ControllerConfig → ControllerObservation Val → Option PauseReason
  soft_reason config o =
      if is_some_and o.foreground_latency_ms (λ t. leb config.foreground_latency_soft_ms t)
      then some opc_health
      else if is_some_and o.host_cpu_percent (λ v. le (literal 70) v)
      then some host_cpu
      else if is_some_and o.available_memory_percent (λ v. le v (literal 15))
      then some memory
      else if is_some_and o.disk_active_percent (λ v. le (literal 70) v)
          || is_some_and o.disk_queue (λ v. le (literal 2) v)
      then some disk
      else if is_some_and o.database_commit_p95_ms (λ t. leb 250 t)
      then some database
      else none

-- The rest of `observe`, once neither foreground work nor a hard reason nor a pause is left.
unfoldable pub settle : ℕ → Option PauseReason → AdaptiveIndexController → AdaptiveIndexController
settle now (some reason) c =
    if not (is_throttled c.state) || hold_expired now c.hold_until then throttle now reason c else c
settle now none c = if is_some_and c.hold_until (λ t. leb t now) then increase_limits now c else c

unfoldable pub admit :
    ℕ → Option PauseReason → Option PauseReason → AdaptiveIndexController → AdaptiveIndexController
admit now (some reason) soft c = pause_for now reason c
admit now none soft c =
    if is_paused c.state
    then if is_some_and c.recovery_at (λ t. ltb now t) then c else settle now soft (recover now c)
    else settle now soft c

-- `observe` without the decision that it returns.
module _ (F : Float64) where
  unfoldable pub advance :
      ℕ → ControllerObservation F.Val → AdaptiveIndexController → AdaptiveIndexController
  advance now o c =
      if o.foreground_active
      then record c { state = paused foreground; recovery_at = none; last_reason = some foreground }
      else admit now (hard_reason F c.config o) (soft_reason F c.config o) (leave_foreground now c)

  unfoldable pub observe :
      ℕ
      → ControllerObservation F.Val
      → AdaptiveIndexController
      → AdaptiveIndexController × ControllerDecision
  observe now o c = (advance now o c, decision (snapshot c) (advance now o c))

-- The controller after a sequence of observations, each with its instant.
unfoldable pub run :
    (F : Float64)
    → List (ℕ × ControllerObservation F.Val)
    → AdaptiveIndexController
    → AdaptiveIndexController
run F [] c = c
run F ((now, o) ∷ h) c = run F h (advance F now o c)

pub run-cons :
    (F : Float64) (now : ℕ) (o : ControllerObservation F.Val)
    (h : List (ℕ × ControllerObservation F.Val)) (c : AdaptiveIndexController)
    → run F ((now, o) ∷ h) c ≡ run F h (advance F now o c)
unfolding run
run-cons F now o h c = refl
