-- ===== src/Controller/Adaptive/Backoff.antt =====
-- How long a pause for a hard reason lasts: `pause_for` of controller.rs.
use opcda_bridge.Base.{
  ℕ, suc, ◌+◌, ◌*◌, ◌^◌, ◌≤◌, min, ◌≡◌, refl, true, false, some, arith, List, [], ◌∷◌, is_some,
  u32_max, length, ◌++◌,
}
use native.Mathlib.Nat.{add-zero}
use opcda_bridge.Controller.{ControllerConfig}
use opcda_bridge.Controller.Adaptive.{
  Float64, ControllerObservation, run, AdaptiveIndexController, is_paused, pause_for, checked_mul,
  duration_max, recovery_pause, leave_foreground, admit, hard_reason, advance,
}

-- Whatever the multiplication overflows, the pause is the exact doubling cut at the maximum.
pub recovery_pause_lem :
    (config : ControllerConfig) (e : ℕ)
    → config.maximum_recovery_delay ≤ duration_max
    → recovery_pause config e
      ≡ min (config.recovery_delay * 2 ^ min e 10) config.maximum_recovery_delay
unfolding recovery_pause checked_mul
recovery_pause_lem config e h = ground arith

module _ (F : Float64) where
  -- Hard reasons without foreground work, at the given instants.
  abbrev pub AllHard : ControllerConfig → List (ℕ × ControllerObservation F.Val) → Type 0
  AllHard config [] = Unit {0}
  AllHard config ((now, o) ∷ h) =
      (o.foreground_active ≡ false) × (is_some (hard_reason F config o) ≡ true) × AllHard config h

  hard_step :
      (now : ℕ) (o : ControllerObservation F.Val) (c : AdaptiveIndexController)
      → o.foreground_active ≡ false
      → is_some (hard_reason F c.config o) ≡ true
      → ((advance F now o c).config ≡ c.config)
        × ((advance F now o c).limits ≡ c.config.canary)
        × (is_paused (advance F now o c).state ≡ true)
        × ((advance F now o c).recovery_at
            ≡ some (now + recovery_pause c.config c.recovery_exponent))
        × ((advance F now o c).recovery_exponent ≡ min (c.recovery_exponent + 1) u32_max)
  unfolding advance leave_foreground admit pause_for
  hard_step now o c f e = ground arith

  steps : (e n : ℕ) → min (min (e + 1) u32_max + n) 10 ≡ min (e + suc n) 10
  steps e n = omega arith

  -- Any number of observations in a row that read a hard reason, without foreground work, leave
  -- the controller paused at the canary limits, and the pause that the last one starts ends after
  -- the recovery delay doubled once for each of the others and for each earlier one that was not
  -- yet forgotten, ten times at most, and never more than the maximum delay; that maximum being a
  -- duration that the source can represent and the counter a `u32`.
  pub hard_run :
      (h : List (ℕ × ControllerObservation F.Val)) (now : ℕ) (o : ControllerObservation F.Val)
      (c : AdaptiveIndexController)
      → c.config.maximum_recovery_delay ≤ duration_max
      → c.recovery_exponent ≤ u32_max
      → AllHard c.config (h ++ (now, o) ∷ [])
      → let d = run F (h ++ (now, o) ∷ []) c in
        (is_paused d.state ≡ true)
        × (d.limits ≡ c.config.canary)
        × (d.recovery_at
            ≡ some (
                now
                + min
                    (c.config.recovery_delay * 2 ^ min (c.recovery_exponent + length h) 10)
                    c.config.maximum_recovery_delay))
  unfolding run
  hard_run [] now o c top w a =
      let (ce, l, p, r, _) = hard_step now o c a.0 a.1 in
      (p, l, rw (r, recovery_pause_lem c.config c.recovery_exponent top, add-zero) refl)
  hard_run ((t, q) ∷ h) now o c top w a =
      let (ce, l, p, r, ex) = hard_step t q c a.0 a.1 in
      let c' = advance F t q c in
      let (p', l', r') = hard_run h now o c' (rw ce top) (rw ex (omega arith)) (rw ce a.2) in
      (p', cc (l', ce), cc (r', ce, ex, steps c.recovery_exponent (length h)))
