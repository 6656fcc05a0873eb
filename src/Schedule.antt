-- ===== src/Schedule.antt =====
-- crates/opcda-bridge-gateway/src/index/scheduler.rs: maintenance windows, the hash of a server's
-- name, and the delays of refreshes and retries. A delay is a number of seconds; a minute of the
-- day is a `u16`.
pub mod Window
pub mod Delay
pub mod Tasks
pub mod Cleanup
pub mod Retries
mod Tests
use Prim.Native.Nat.{bit_xor}
use opcda_bridge.Base.{
  ℕ, zero, suc, ◌+◌, ◌-◌, ◌*◌, ◌/◌, ◌%◌, ◌^◌, ◌≡◌, min, max, Bool, true, false, ◌&&◌, ◌||◌, Option,
  none, some, List, [], ◌∷◌, ◌++◌, leb, ltb, ◌==◌, if◌then◌else◌, Text, text, split_once,
  parse_unsigned, any, u16_max, u64_max, saturating_add,
}

pub record MaintenanceWindow : Type 0 where
  pub start_minute : ℕ
  pub end_minute : ℕ

infixl 5 ◌>>=◌
abbrev pub ◌>>=◌ {ℓ κ} : {A : Type ℓ} {B : Type κ} → Option A → (A → Option B) → Option B
none >>= f = none
some a >>= f = f a

-- `none` is the error, whose message tells which part is at fault.
unfoldable pub parse_clock : Text → Option ℕ
parse_clock value = do
  (hour_text, minute_text) ← split_once b':' value
  hour ← parse_unsigned u16_max hour_text
  minute ← parse_unsigned u16_max minute_text
  if leb 24 hour || leb 60 minute then none else some (hour * 60 + minute)

unfoldable pub parse_window : Text → Option MaintenanceWindow
parse_window value = do
  (start, end) ← split_once b'-' value
  start_minute ← parse_clock start
  end_minute ← parse_clock end
  some (record { start_minute = start_minute; end_minute = end_minute })

unfoldable pub parse_maintenance_windows : List Text → Option (List MaintenanceWindow)
parse_maintenance_windows [] = some []
parse_maintenance_windows (value ∷ values) = do
  window ← parse_window value
  windows ← parse_maintenance_windows values
  some (window ∷ windows)

unfoldable pub contains : MaintenanceWindow → ℕ → Bool
contains w minute =
    if w.start_minute == w.end_minute
    then true
    else if ltb w.start_minute w.end_minute
    then leb w.start_minute minute && ltb minute w.end_minute
    else leb w.start_minute minute || ltb minute w.end_minute

-- The hour and the minute are those of the local clock.
unfoldable pub maintenance_window_active : List MaintenanceWindow → ℕ → ℕ → Bool
maintenance_window_active [] hour minute = false
maintenance_window_active (w ∷ ws) hour minute =
    any (λ window. contains window (hour * 60 + minute)) (w ∷ ws)

-- One byte of the FNV-1a hash in `deterministic_jitter` and `stable_server_hash`.
unfoldable pub hash_byte : ℕ → ℕ → ℕ
hash_byte hash byte = bit_xor hash byte * 0x100000001b3 % 2 ^ 64

unfoldable pub hash_from : ℕ → Text → ℕ
hash_from hash [] = hash
hash_from hash (byte ∷ bytes) = hash_from (hash_byte hash byte) bytes

unfoldable pub server_hash : Text → ℕ
server_hash bytes = hash_from 0xcbf29ce484222325 bytes

unfoldable pub deterministic_jitter : Text → ℕ → ℕ
deterministic_jitter server maximum_seconds =
    if maximum_seconds == 0
    then 0
    else server_hash server % saturating_add u64_max maximum_seconds 1

-- The decimal digits of a `u32`, of which there are at most ten.
unfoldable pub digits_loop : ℕ → ℕ → Text → Text
digits_loop zero n acc = acc
digits_loop (suc fuel) n acc =
    let rest = digits_loop fuel (n / 10) ((b'0' + n % 10) ∷ acc) in
    if ltb n 10 then (b'0' + n) ∷ acc else rest

unfoldable pub decimal : ℕ → Text
unfolding digits_loop
decimal n = digits_loop 10 n []

abbrev pub retry_initial_backoff : ℕ
retry_initial_backoff = 300

abbrev pub retry_max_backoff : ℕ
retry_max_backoff = 86_400

-- The multiplier is at most 256, so neither the shift nor the product overflows.
unfoldable pub retry_base : ℕ → ℕ
retry_base consecutive_failures =
    min (retry_initial_backoff * 2 ^ min (consecutive_failures - 1) 8) retry_max_backoff

unfoldable pub retry_delay : Text → ℕ → Bool → ℕ → ℕ
retry_delay server consecutive_failures circuit_open circuit_open_seconds =
    let base = retry_base consecutive_failures in
    let jitter =
      deterministic_jitter (server ++ (text ":retry:" ++ decimal consecutive_failures))
        (max (base / 5) 1) in
    let exponential = min (base + jitter) retry_max_backoff in
    if circuit_open
    then max exponential (min circuit_open_seconds retry_max_backoff)
    else exponential
