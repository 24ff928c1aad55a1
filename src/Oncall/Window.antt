-- ===== src/Oncall/Window.antt =====
-- Time windows: parseHHMM, weekdayIndex, windowCovers and layerActiveAt of internal/oncall/schedule.go.
pub mod Text
pub mod Cyclic
use Text.{parse_hhmm}
use wachd.Base.{
  ℕ, zero, suc, ◌+◌, ◌*◌, ◌%◌, String, Bool, true, ◌&&◌, ◌||◌, any, ltb, leb, ◌==◌, if◌then◌else◌,
  str_eq,
}
use wachd.Base.Int.{ℤ, pos, ◌+ℤ◌, leb_ℤ, ltb_ℤ, wrap64}
use wachd.GoTime.{Time, weekday, hour, minute}
use wachd.Oncall.Types.{TimeWindow, TimeRestriction}

-- A name that is not in the map counts as Monday.
pub weekday_index : String → ℕ
weekday_index name =
    if str_eq name "tuesday"
    then 1
    else if str_eq name "wednesday"
    then 2
    else if str_eq name "thursday"
    then 3
    else if str_eq name "friday"
    then 4
    else if str_eq name "saturday"
    then 5
    else if str_eq name "sunday"
    then 6
    else 0

-- Minutes from Monday 00:00.
pub minute_of_week : Time → ℕ
minute_of_week t = (weekday t + 6) % 7 * 1440 + (hour t * 60 + minute t)

minutes_at : String → ℤ → ℤ
minutes_at day minutes = wrap64 (pos (weekday_index day * 1440) +ℤ minutes)

covers : ℤ → ℤ → ℤ → Bool
covers start_total end_total t_total =
    if leb_ℤ start_total end_total
    then leb_ℤ start_total t_total && ltb_ℤ t_total end_total
    else leb_ℤ start_total t_total || ltb_ℤ t_total end_total

unfoldable pub window_covers : TimeWindow → Time → Bool
unfolding minutes_at weekday_index covers minute_of_week parse_hhmm
window_covers w t =
    covers (minutes_at w.start_day (parse_hhmm w.start_time))
      (minutes_at w.end_day (parse_hhmm w.end_time)) (pos (minute_of_week t))

unfoldable pub layer_active_at : TimeRestriction → Time → Bool
layer_active_at tr t =
    if str_eq tr.type "always" || str_eq tr.type ""
    then true
    else if str_eq tr.type "weekdays"
    then leb 1 (weekday t) && leb (weekday t) 5
    else if str_eq tr.type "weekends"
    then weekday t == 6 || weekday t == 0
    else if str_eq tr.type "custom"
    then any (λ w. window_covers w t) tr.windows
    else true
