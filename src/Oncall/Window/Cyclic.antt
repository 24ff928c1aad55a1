-- ===== src/Oncall/Window/Cyclic.antt =====
-- A window is a half-open interval on the circle of the week's minutes.
use wachd.Base.{ℕ, ◌+◌, ◌-◌, ◌*◌, ◌%◌, ◌<◌, ◌≡◌, ◌↔◌, String, arith, true}
use wachd.Base.Int.{pos, wrap64-pos, ◌+ℤ◌}
use wachd.GoTime.{Time, hour-lt, minute-lt}
use wachd.Oncall.Window.{covers, weekday_index, minute_of_week, minutes_at, window_covers}
use wachd.Oncall.Window.Text.{parse_hhmm, clock_text, parse_hhmm-clock_text}

abbrev pub week_minutes : ℕ
week_minutes = 10080

-- Going round the circle from `start`, minute `m` comes before `end`.
abbrev pub InCycle : ℕ → ℕ → ℕ → Type 0
InCycle start end m =
    (m + week_minutes - start) % week_minutes < (end + week_minutes - start) % week_minutes

covers-InCycle :
    (start end m : ℕ)
    → start < week_minutes
    → end < week_minutes
    → m < week_minutes
    → (covers (pos start) (pos end) (pos m) ≡ true → InCycle start end m)
      × (InCycle start end m → covers (pos start) (pos end) (pos m) ≡ true)
unfolding covers
covers-InCycle start end m p q r = ground arith

pub weekday_index-lt : (day : String) → weekday_index day < 7
unfolding weekday_index
weekday_index-lt day = ground arith

pub minute_of_week-lt : (t : Time) → minute_of_week t < week_minutes
unfolding minute_of_week
minute_of_week-lt t = omega (arith, hour-lt t, minute-lt t)

abbrev pub minute_at : String → ℕ → ℕ → ℕ
minute_at day h m = weekday_index day * 1440 + (h * 60 + m)

minutes_at-clock_text :
    (day : String) (h m : ℕ)
    → h < 24
    → m < 60
    → minutes_at day (parse_hhmm (clock_text h m)) ≡ pos (minute_at day h m)
unfolding minutes_at ◌+ℤ◌
minutes_at-clock_text day h m p q =
    rw (parse_hhmm-clock_text h m (omega arith) (omega arith))
      (ground (arith, weekday_index-lt day, wrap64-pos (minute_at day h m)))

minute_at-lt : (day : String) (h m : ℕ) → h < 24 → m < 60 → minute_at day h m < week_minutes
minute_at-lt day h m p q = omega (arith, weekday_index-lt day)

-- A window whose two times are written HH:MM (hours below 24, minutes below 60) covers a time exactly
-- when, going round the week from the window's start, the time's minute comes before the window's end:
-- the start is in, the end is out, and a window that ends before it starts runs over the end of the week.
pub window_covers-InCycle :
    (d1 d2 : String) (h1 m1 h2 m2 : ℕ) (t : Time)
    → h1 < 24
    → m1 < 60
    → h2 < 24
    → m2 < 60
    → (window_covers
          (record {
            start_day = d1;
            start_time = clock_text h1 m1;
            end_day = d2;
            end_time = clock_text h2 m2;
          })
          t
        ≡ true)
      ↔ InCycle (minute_at d1 h1 m1) (minute_at d2 h2 m2) (minute_of_week t)
unfolding window_covers
window_covers-InCycle d1 d2 h1 m1 h2 m2 t p1 q1 p2 q2 =
    rw (minutes_at-clock_text d1 h1 m1 p1 q1, minutes_at-clock_text d2 h2 m2 p2 q2)
      (covers-InCycle (minute_at d1 h1 m1) (minute_at d2 h2 m2) (minute_of_week t)
        (minute_at-lt d1 h1 m1 p1 q1) (minute_at-lt d2 h2 m2 p2 q2) (minute_of_week-lt t))
