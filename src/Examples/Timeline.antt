-- ===== src/Examples/Timeline.antt =====
-- The timeline of three days, the second of which has an override of one hour in the evening.
use wachd.Base.{◌+◌, ◌*◌, ◌≤◌, [], ◌∷◌, none, some, ok, refl, true}
use wachd.Base.Int.{pos}
use wachd.GoTime.{utc, nanos_per_day, nanos_per_hour}
use wachd.Oncall.Types.{Uuid}
use wachd.Store.Schedules.{ScheduleRow, OverrideRow}
use wachd.Server.Timeline.{Lookups, days_of, handle_get_on_call_timeline}
use wachd.Server.Timeline.Shown.{Answer, handle_get_on_call_timeline-AreShown}
use wachd.Examples.Oncall.{schedule, rotation-IsStaffed, ada}

abbrev row : ScheduleRow
row = record { schedule = schedule; name = "Main"; enabled = true; created_at = 0 }

abbrev evening : OverrideRow
evening = record {
  override = record {
    id = 4;
    user_id = 30;
    start_at = record { nanos = 8 * nanos_per_day + 20 * nanos_per_hour; location = utc };
    end_at = record { nanos = 8 * nanos_per_day + 21 * nanos_per_hour; location = utc };
  };
  schedule_id = 7;
  team_id = 1;
  reason = none;
  created_by = 20;
  created_at = 0;
}

abbrev lookups : Uuid → Lookups
lookups team_id = record {
  get_schedule = ok (some row);
  get_team_members = ok (ada ∷ []);
  list_overrides_for_range = λ schedule_id from to. ok (evening ∷ []);
}

handle_get_on_call_timeline-AreShown_example :
    (1 ≤ days_of (some (pos 3)))
    × (days_of (some (pos 3)) ≤ 42)
    × Answer lookups 1 0
        (some 7)
        (some (pos 3))
        row
        (handle_get_on_call_timeline (some 1) true 0 (some 7) (some (pos 3)) lookups)
handle_get_on_call_timeline-AreShown_example =
    handle_get_on_call_timeline-AreShown lookups 1 0 (some 7) (some (pos 3)) {row = row} refl
      rotation-IsStaffed
