-- ===== src/Schedule/Delay.antt =====
-- The jitter and the retry delay of scheduler.rs.
use opcda_bridge.Base.{
  ℕ, zero, suc, ◌+◌, ◌-◌, ◌/◌, ◌^◌, ◌≤◌, ◌≡◌, min, max, Bool, ◌++◌, arith, Text, text,
  if◌then◌else◌,
}
use native.Mathlib.Nat.{zero-add, suc-add, pow-suc, le_refl}
use opcda_bridge.Schedule.{
  decimal, deterministic_jitter, retry_initial_backoff, retry_max_backoff, retry_base, retry_delay,
}

-- The jitter never passes its maximum.
pub jitter-le : (server : Text) (top : ℕ) → deterministic_jitter server top ≤ top
unfolding deterministic_jitter
jitter-le server top = ground arith

pow_mono : (k a : ℕ) → 2 ^ a ≤ 2 ^ (k + a)
pow_mono zero a = rw zero-add (le_refl _)
pow_mono (suc k) a = rw (suc-add, pow-suc) (omega (arith, pow_mono k a))

pow_le : (a b : ℕ) → a ≤ b → 2 ^ a ≤ 2 ^ b
pow_le a b h = let e : (b - a) + a ≡ b = omega arith in rw e at (pow_mono (b - a) a)

retry_base_mono : (m n : ℕ) → m ≤ n → retry_base m ≤ retry_base n
unfolding retry_base
retry_base_mono m n h = omega (arith, pow_le (min (m - 1) 8) (min (n - 1) 8) (omega arith))

retry_base_bounds :
    (n : ℕ) → (retry_initial_backoff ≤ retry_base n) × (retry_base n ≤ retry_max_backoff)
unfolding retry_base
retry_base_bounds n = omega (arith, pow_le 0 (min (n - 1) 8) (omega arith))

-- The retry delay lies between the doubled base and one day; while the circuit is closed it passes
-- the base by a fifth at most, and while it is open it is at least the circuit's own delay, as far
-- as that is below a day. The base never falls from one failure to the next.
pub retry_delay_bounds :
    (server : Text) (failures : ℕ) (circuit_open : Bool) (circuit_seconds : ℕ)
    → let d = retry_delay server failures circuit_open circuit_seconds in
      (retry_base failures ≤ d)
      × (d ≤ (
          if circuit_open
          then retry_max_backoff
          else retry_base failures + retry_base failures / 5))
      × ((if circuit_open then min circuit_seconds retry_max_backoff else 0) ≤ d)
      × (d ≤ retry_max_backoff)
      × (retry_base failures ≤ retry_base (failures + 1))
unfolding retry_delay
retry_delay_bounds server failures circuit_open circuit_seconds = ground (
  arith,
  retry_base_bounds failures,
  retry_base_mono failures (failures + 1) (omega arith),
  jitter-le (server ++ (text ":retry:" ++ decimal failures)) (max (retry_base failures / 5) 1),
)
