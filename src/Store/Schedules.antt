-- ===== src/Store/Schedules.antt =====
-- The tables of schedules and overrides: internal/store/schedules.go. A row adds to what the on-call code
-- reads of it (Oncall/Types) the columns that the statements use; instants are compared by their
-- nanoseconds, and times of creation are nanoseconds.
use wachd.Base.{
  ℕ, String, Bool, ◌&&◌, List, [], ◌∷◌, ◌++◌, Option, none, some, any, take, ◌==◌, if◌then◌else◌,
  ltb, leb,
}
use wachd.GoTime.{Time}
use wachd.Oncall.Types.{Uuid, Schedule, ScheduleOverride, RotationConfig}

pub record ScheduleRow : Type 0 where
  pub schedule : Schedule
  pub name : String
  pub enabled : Bool
  pub created_at : ℕ

pub record OverrideRow : Type 0 where
  pub override : ScheduleOverride
  pub schedule_id : Uuid
  pub team_id : Uuid
  pub reason : Option String
  pub created_by : Uuid
  pub created_at : ℕ

abbrev pub is_of_team : Uuid → ScheduleRow → Bool
is_of_team team_id r = r.schedule.team_id == team_id

update_schedules : Uuid → String → RotationConfig → Bool → List ScheduleRow → List ScheduleRow
update_schedules team_id name config enabled [] = []
update_schedules team_id name config enabled (r ∷ rows) =
    (if is_of_team team_id r
      then record r {
        schedule = record {
          id = r.schedule.id;
          team_id = r.schedule.team_id;
          rotation_config = config;
        };
        name = name;
        enabled = enabled;
      }
      else r)
    ∷ update_schedules team_id name config enabled rows

-- UPDATE first, and INSERT where no row has the team.
unfoldable pub upsert_schedule :
    ℕ → Uuid → Uuid → String → RotationConfig → Bool → List ScheduleRow → List ScheduleRow
unfolding update_schedules
upsert_schedule now new_id team_id name config enabled rows =
    if any (is_of_team team_id) rows
    then update_schedules team_id name config enabled rows
    else rows
      ++ record {
        schedule = record { id = new_id; team_id = team_id; rotation_config = config };
        name = name;
        enabled = enabled;
        created_at = now;
      }
        ∷ []

-- LIMIT 1 with no order: the first row.
unfoldable pub get_schedule : Uuid → List ScheduleRow → Option Schedule
get_schedule team_id [] = none
get_schedule team_id (r ∷ rows) =
    if is_of_team team_id r && r.enabled then some r.schedule else get_schedule team_id rows

abbrev pub is_override_of : Uuid → Uuid → OverrideRow → Bool
is_override_of schedule_id team_id r = r.schedule_id == schedule_id && r.team_id == team_id

abbrev pub is_active_at : Uuid → Uuid → Time → OverrideRow → Bool
is_active_at schedule_id team_id t r =
    is_override_of schedule_id team_id r
    && leb r.override.start_at.nanos t.nanos
    && ltb t.nanos r.override.end_at.nanos

abbrev newer : OverrideRow → Option OverrideRow → OverrideRow
newer r none = r
newer r (some s) = if ltb r.created_at s.created_at then s else r

-- WHERE test ORDER BY created_at DESC LIMIT 1
unfoldable pub newest : (OverrideRow → Bool) → List OverrideRow → Option OverrideRow
newest test [] = none
newest test (r ∷ rows) = let rest = newest test rows in if test r then some (newer r rest) else rest

override_of : Option OverrideRow → Option ScheduleOverride
override_of none = none
override_of (some r) = some r.override

unfoldable pub get_active_override_for_schedule :
    Uuid → Uuid → Time → List OverrideRow → Option ScheduleOverride
unfolding newest override_of
get_active_override_for_schedule schedule_id team_id t rows =
    override_of (newest (is_active_at schedule_id team_id t) rows)

insert_by_start : OverrideRow → List OverrideRow → List OverrideRow
insert_by_start r [] = r ∷ []
insert_by_start r (s ∷ rows) =
    if leb r.override.start_at.nanos s.override.start_at.nanos
    then r ∷ s ∷ rows
    else s ∷ insert_by_start r rows

-- WHERE test ORDER BY start_at ASC
by_start : (OverrideRow → Bool) → List OverrideRow → List OverrideRow
unfolding insert_by_start
by_start test [] = []
by_start test (r ∷ rows) =
    let rest = by_start test rows in if test r then insert_by_start r rest else rest

unfoldable pub list_overrides_for_schedule : ℕ → Uuid → Uuid → List OverrideRow → List OverrideRow
unfolding by_start
list_overrides_for_schedule now schedule_id team_id rows =
    take 100
      (by_start (λ r. is_override_of schedule_id team_id r && ltb now r.override.end_at.nanos) rows)

unfoldable pub list_overrides_for_range :
    Uuid → Uuid → Time → Time → List OverrideRow → List OverrideRow
unfolding by_start
list_overrides_for_range schedule_id team_id from to rows =
    by_start
      (λ r.
        is_override_of schedule_id team_id r
        && ltb r.override.start_at.nanos to.nanos
        && ltb from.nanos r.override.end_at.nanos)
      rows

unfoldable pub create_override : OverrideRow → List OverrideRow → List OverrideRow
create_override r rows = rows ++ r ∷ []

unfoldable pub delete_override : Uuid → Uuid → List OverrideRow → List OverrideRow
delete_override id team_id [] = []
delete_override id team_id (r ∷ rows) =
    let rest = delete_override id team_id rows in
    if r.override.id == id && r.team_id == team_id then rest else r ∷ rest
