-- ===== src/Index/Builds/Backoff.antt =====
-- A failed build waits: the retry policy of index/traversal.rs with the reservation of
-- index/enrollment.rs.
use Prim.Native.String.{String}
use opcda_bridge.Base.{
  ℕ, ◌+◌, ◌<◌, ◌≤◌, min, ◌≡◌, refl, sym, ap, ◌∙◌, subst, Bool, true, false, Option, none, some,
  arith, leb, is_some, lt→ltb, Bool-cases, inl, inr, String-discrete, get, get-insert, Text,
  saturating_add, u32_max,
}
use opcda_bridge.Config.{ResolvedIndexConfig}
use opcda_bridge.Config.Pacing.{from_secs}
use opcda_bridge.Schedule.{retry_base, retry_delay}
use opcda_bridge.Schedule.Delay.{retry_delay_bounds}
use opcda_bridge.Index.{RuntimeState, Manager, build_in, build_of, state_of, state_or_default}
use opcda_bridge.Index.Builds.{
  Answers, RetryState, load_retry, load_persisted_retry_state, holds_back, is_ahead,
  reserve_refresh_build,
}
use opcda_bridge.Index.Builds.Reserve.{reserve-Keeps}
use opcda_bridge.Index.Builds.Completion.{
  Ending, build_completion_is_current, cancelled_until, not_before, failed_state, state_after_build,
  finish_build,
}
use opcda_bridge.Index.Builds.Policy.{ended, completed, get-runtime_left, finish-completed}

-- No build, and a deadline that is not reached.
record Waits (s : String) (now : ℕ) (m : Manager) : Type 0 where
  idle : build_of s m.runtime ≡ none
  later : is_ahead now (state_of s m.runtime).retry_after ≡ true

load-Waits :
    (s : String) (now : ℕ) (p : RetryState) (m : Manager)
    → Waits s now m
    → Waits s now (load_persisted_retry_state now p s m)
unfolding load_persisted_retry_state load_retry
load-Waits s now p m w =
    let loaded =
      get-insert String-discrete s s (load_retry now p (state_of s m.runtime)) m.runtime in
    record {
      idle = ground (arith, loaded, w.idle);
      later = ground (arith, loaded, w.idle, w.later);
    }

reserve-Waits :
    (settings : ResolvedIndexConfig) (s : String) (token now : ℕ) (automatic : Bool) (a : Answers)
    (m : Manager)
    → Waits s now m
    → Waits s now (reserve_refresh_build settings now false automatic a s token m).0
unfolding holds_back
reserve-Waits settings s token now automatic a m w =
    reserve-Keeps (Waits s now) settings s token now false (λ p n v. load-Waits s now p n v)
      (λ n free v. absurd (ground (arith, v.later))) automatic a m w

-- A deadline that an operator set can only move the end of the wait back.
not_before_le : (deadline : Option ℕ) (retry : ℕ) → retry ≤ not_before deadline retry
not_before_le none retry = omega arith
not_before_le (some d) retry = omega arith

module _ (settings : ResolvedIndexConfig) (now : ℕ) (name : Text) (e : Ending) (error : String)
    (v : RuntimeState) (x : e.error ≡ some error) (p : e.preserve_retry_state ≡ false) where
  -- The retry state of a failed build, whether or not it could be written.
  ended_failed :
      ((ended settings now name e v).consecutive_failures
        ≡ (failed_state settings now name error v).consecutive_failures)
      × ((ended settings now name e v).circuit_open
          ≡ (failed_state settings now name error v).circuit_open)
      × ((ended settings now name e v).retry_after
          ≡ (failed_state settings now name error v).retry_after)
      × ((ended settings now name e v).build ≡ none)
  unfolding state_after_build
  ended_failed = elim (Bool-cases (is_some e.persist_error)) [
    | inl q ↦ simp (x, p, q) (refl, refl, refl, refl)
    | inr q ↦ simp (x, p, q) (refl, refl, refl, refl)
  ]

  failed_waits :
      (later : ℕ)
      → later < now + from_secs (retry_base (min (v.consecutive_failures + 1) u32_max))
      → is_ahead later (failed_state settings now name error v).retry_after ≡ true
  failed_waits later l =
      let failures = saturating_add u32_max v.consecutive_failures 1 in
      let open_circuit = leb settings.circuit_failure_threshold failures in
      let bounds = retry_delay_bounds name failures open_circuit settings.circuit_open_seconds in
      let delay = retry_delay name failures open_circuit settings.circuit_open_seconds in
      let waits : now + from_secs delay
          ≤ not_before (cancelled_until v.build) (now + from_secs delay) =
        not_before_le (cancelled_until v.build) (now + from_secs delay) in
      lt→ltb later (not_before (cancelled_until v.build) (now + from_secs delay))
        (omega (arith, waits, bounds.0))

build_in-default : (o : Option RuntimeState) → build_in o ≡ (state_or_default o).build
build_in-default none = refl
build_in-default (some v) = refl

-- The state that the completion leaves for its server.
state-finish :
    (settings : ResolvedIndexConfig) (now : ℕ) (name : Text) (e : Ending) (s : String)
    (o : Option ℕ) (m : Manager) (v : RuntimeState)
    → build_completion_is_current s e.control o m ≡ true
    → get String-discrete s m.runtime ≡ some v
    → state_of s (finish_build settings now name e s o m).runtime ≡ ended settings now name e v
unfolding completed
state-finish settings now name e s o m v c g =
    rw (finish-completed settings now name e s o m c)
      (ground (arith, get-runtime_left settings now name e s s m.runtime))

-- The current build of a server ends with an error, and its retry state is not to be kept. The
-- failures in a row go up by one, within a `u32`; the circuit is open exactly when they reach the
-- threshold; and the server has no build. Until the base of the retry delay is over, no reservation
-- without force starts a build of the server, whatever the database, the disk and the file lock
-- answer.
pub failed_build_backs_off :
    (settings : ResolvedIndexConfig) (now : ℕ) (name : Text) (e : Ending) (s error : String)
    (o : Option ℕ) (m : Manager) (v : RuntimeState) (later token : ℕ) (automatic : Bool)
    (a : Answers)
    → build_completion_is_current s e.control o m ≡ true
    → get String-discrete s m.runtime ≡ some v
    → e.error ≡ some error
    → e.preserve_retry_state ≡ false
    → later < now + from_secs (retry_base (min (v.consecutive_failures + 1) u32_max))
    → let m' = finish_build settings now name e s o m in
      let reserved = reserve_refresh_build settings later false automatic a s token m' in
      ((state_of s m'.runtime).consecutive_failures ≡ min (v.consecutive_failures + 1) u32_max)
      × ((state_of s m'.runtime).circuit_open
          ≡ leb settings.circuit_failure_threshold (min (v.consecutive_failures + 1) u32_max))
      × (build_of s m'.runtime ≡ none)
      × (build_of s reserved.0.runtime ≡ none)
failed_build_backs_off settings now name e s error o m v later token automatic a c g x p l =
    let m' : Manager = finish_build settings now name e s o m in
    let u = state-finish settings now name e s o m v c g in
    let f = ended_failed settings now name e error v x p in
    let w : Waits s later m' = record {
      idle =
          build_in-default (get String-discrete s m'.runtime)
          ∙ ap (λ (r : RuntimeState). r.build) u
          ∙ f.3;
      later =
          subst (λ d. is_ahead later d ≡ true)
            (sym (ap (λ (r : RuntimeState). r.retry_after) u ∙ f.2))
            (failed_waits settings now name e error v x p later l);
    } in
    (
      ap (λ (r : RuntimeState). r.consecutive_failures) u ∙ f.0,
      ap (λ (r : RuntimeState). r.circuit_open) u ∙ f.1,
      w.idle,
      (reserve-Waits settings s token later automatic a m' w).idle,
    )
