-- ===== src/Schedule/Window.antt =====
-- MaintenanceWindow of scheduler.rs: which texts are windows, and which minutes they hold.
use opcda_bridge.Base.{
  ℕ, ◌+◌, ◌-◌, ◌/◌, ◌%◌, ◌≤◌, ◌<◌, ◌≡◌, refl, true, false, some, [], ◌∷◌, arith, ltb, ◌==◌,
  if◌then◌else◌, Text, split_once, parse_unsigned, parse_digits,
}
use opcda_bridge.Schedule.{MaintenanceWindow, parse_clock, parse_window, contains}

-- A number below one hundred, and a clock, as texts of two digits.
abbrev pub two_digits : ℕ → Text → Text
two_digits n rest = (b'0' + n / 10) ∷ (b'0' + n % 10) ∷ rest

abbrev pub clock_text : ℕ → Text → Text
clock_text minute rest = two_digits (minute / 60) (b':' ∷ two_digits (minute % 60) rest)

abbrev pub window_text : MaintenanceWindow → Text
window_text w = clock_text w.start_minute (b'-' ∷ clock_text w.end_minute [])

two_digits-parse : (n : ℕ) → n < 100 → parse_unsigned 65_535 (two_digits n []) ≡ some n
unfolding parse_unsigned parse_digits
two_digits-parse n h = ground arith

digit-ne : (n c : ℕ) → n < 10 → 58 ≤ c → ((b'0' + n) == c) ≡ false
digit-ne n c h k = ground arith

clock-split :
    (minute : ℕ) (c : Text)
    → minute < 1440
    → split_once b':' (clock_text minute c)
      ≡ some (two_digits (minute / 60) [], two_digits (minute % 60) c)
unfolding split_once
clock-split minute c h = ground arith

parse_clock_text : (minute : ℕ) → minute < 1440 → parse_clock (clock_text minute []) ≡ some minute
unfolding parse_clock
parse_clock_text minute h =
    rw
      (
        clock-split minute [] h,
        two_digits-parse (minute / 60) (omega arith),
        two_digits-parse (minute % 60) (omega arith),
      )
      (ground arith)

window-split :
    (a b : ℕ)
    → a < 1440
    → split_once b'-' (clock_text a (b'-' ∷ clock_text b []))
      ≡ some (clock_text a [], clock_text b [])
unfolding split_once
window-split a b h = ground arith

-- The text of a window whose clocks are times of a day, in two digits each, is parsed to that
-- window.
pub parse_window_text :
    (w : MaintenanceWindow)
    → w.start_minute < 1440
    → w.end_minute < 1440
    → parse_window (window_text w) ≡ some w
unfolding parse_window
parse_window_text w a b =
    rw
      (
        window-split w.start_minute w.end_minute a,
        parse_clock_text w.start_minute a,
        parse_clock_text w.end_minute b,
      )
      refl

clock_bound : (v : Text) (t : ℕ) → parse_clock v ≡ some t → t < 1440
unfolding parse_clock
clock_bound v t e = ground arith

-- A minute of the day lies in a window exactly when its distance from the start, forwards round
-- the clock, is below the length of the window; a window that ends where it starts is the whole day.
pub contains_lem :
    (w : MaintenanceWindow) (minute : ℕ)
    → w.start_minute < 1440
    → w.end_minute < 1440
    → minute < 1440
    → contains w minute ≡ (
        if w.start_minute == w.end_minute
        then true
        else ltb
            ((minute + 1440 - w.start_minute) % 1440)
            ((w.end_minute + 1440 - w.start_minute) % 1440))
unfolding contains
contains_lem w minute a b c = ground arith
