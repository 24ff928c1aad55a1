-- ===== src/Server/Overrides.antt =====
-- The schedule and override handlers of cmd/server/main.go. A request is given by what its parts parse to,
-- `none` where that fails; Roster is what the lookup of the team's members gives.
pub mod InForce
use wachd.Base.{
  ℕ, String, Bool, true, false, not, ◌&&◌, List, [], ◌∷◌, Option, none, some, any, ◌==◌,
  if◌then◌else◌, ltb, Result, ok, err, str_eq,
}
use wachd.GoTime.{Time}
use wachd.Oncall.Types.{Uuid, RotationConfig, Schedule, TeamMember}
use wachd.Oncall.Manager.{Query, QueryError, ConfigStore}
use wachd.Access.{
  Caller, caller_id, require_team_access, require_team_admin, require_team_responder,
}
use wachd.Store.Schedules.{
  ScheduleRow, OverrideRow, get_schedule, get_active_override_for_schedule, upsert_schedule,
  create_override, delete_override, list_overrides_for_schedule,
}

pub record Calendar : Type 0 where
  pub schedules : List ScheduleRow
  pub overrides : List OverrideRow

pub record OverrideBody : Type 0 where
  pub user_id : Option Uuid
  pub start_at : Option Time
  pub end_at : Option Time
  pub reason : Option String

pub data Reply : Type 0 where
  invalid_team_id forbidden invalid_body invalid_user_id invalid_override_id : Reply
  not_a_member invalid_start_at invalid_end_at end_not_after_start : Reply
  no_schedule internal_error created removed saved rotation_required : Reply
  listed : List OverrideRow → Reply

-- Which later calls fail.
pub record Trouble : Type 0 where
  pub get_schedule : Bool
  pub statement : Bool

abbrev pub Roster : Type 0
Roster = Result QueryError (List TeamMember)

-- The row that CreateOverride inserts.
unfoldable pub new_override :
    ℕ → Uuid → Caller → Uuid → Uuid → Time → Time → Option String → Schedule → OverrideRow
unfolding caller_id
new_override now new_id caller team_id user_id start end reason schedule = record {
  override = record { id = new_id; start_at = start; end_at = end; user_id = user_id };
  schedule_id = schedule.id;
  team_id = team_id;
  reason = reason;
  created_by = caller_id caller;
  created_at = now;
}

on_schedule :
    Trouble
    → ℕ
    → Uuid
    → Caller
    → Uuid
    → Uuid
    → Time
    → Time
    → Option String
    → Option Schedule
    → Calendar
    → Calendar × Reply
unfolding create_override new_override
on_schedule trouble now new_id caller team_id user_id start end reason none s = (s, no_schedule)
on_schedule trouble now new_id caller team_id user_id start end reason (some schedule) s =
    if trouble.statement then (s, internal_error) else (
      record s {
        overrides =
            create_override
              (new_override now new_id caller team_id user_id start end reason schedule)
              s.overrides;
      },
      created,
    )

on_times :
    Trouble
    → ℕ
    → Uuid
    → Caller
    → Uuid
    → Uuid
    → OverrideBody
    → Option Time
    → Option Time
    → Calendar
    → Calendar × Reply
unfolding on_schedule
on_times trouble now new_id caller team_id user_id body none end s = (s, invalid_start_at)
on_times trouble now new_id caller team_id user_id body (some start) none s = (s, invalid_end_at)
on_times trouble now new_id caller team_id user_id body (some start) (some end) s =
    if not (ltb start.nanos end.nanos)
    then (s, end_not_after_start)
    else if trouble.get_schedule
    then (s, internal_error)
    else on_schedule trouble now new_id caller team_id user_id start end body.reason
        (get_schedule team_id s.schedules) s

abbrev pub is_member : Uuid → List TeamMember → Bool
is_member user_id members = any (λ m. m.id == user_id) members

on_members :
    Trouble → ℕ → Uuid → Caller → Uuid → Uuid → OverrideBody → Roster → Calendar → Calendar × Reply
unfolding on_times
on_members trouble now new_id caller team_id user_id body (err e) s = (s, internal_error)
on_members trouble now new_id caller team_id user_id body (ok members) s =
    if not (is_member user_id members)
    then (s, not_a_member)
    else on_times trouble now new_id caller team_id user_id body body.start_at body.end_at s

on_override_body :
    Trouble → ℕ → Uuid → Caller → Roster → Uuid → Option OverrideBody → Calendar → Calendar × Reply
unfolding on_members
on_override_body trouble now new_id caller roster team_id none s = (s, invalid_body)
on_override_body trouble now new_id caller roster team_id (some body) s = elim body.user_id [
  | none ↦ (s, invalid_user_id)
  | some user_id ↦ on_members trouble now new_id caller team_id user_id body roster s
]

unfoldable pub handle_create_override :
    Trouble
    → ℕ
    → Uuid
    → Caller
    → Roster
    → Option Uuid
    → Option OverrideBody
    → Calendar
    → Calendar × Reply
unfolding on_override_body require_team_responder
handle_create_override trouble now new_id caller roster none body s = (s, invalid_team_id)
handle_create_override trouble now new_id caller roster (some team_id) body s =
    if require_team_responder caller team_id
    then on_override_body trouble now new_id caller roster team_id body s
    else (s, forbidden)

unfoldable pub handle_delete_override :
    Bool → Caller → Option Uuid → Option Uuid → Calendar → Calendar × Reply
unfolding delete_override require_team_admin
handle_delete_override fails caller none override_id s = (s, invalid_team_id)
handle_delete_override fails caller (some team_id) none s = (s, invalid_override_id)
handle_delete_override fails caller (some team_id) (some override_id) s =
    if not (require_team_admin caller team_id)
    then (s, forbidden)
    else if fails
    then (s, internal_error)
    else (record s { overrides = delete_override override_id team_id s.overrides }, removed)

listed_for : Bool → ℕ → Uuid → Option Schedule → List OverrideRow → Reply
unfolding list_overrides_for_schedule
listed_for fails now team_id none overrides = listed []
listed_for fails now team_id (some schedule) overrides =
    if fails
    then internal_error
    else listed (list_overrides_for_schedule now schedule.id team_id overrides)

unfoldable pub handle_list_overrides : Trouble → ℕ → Caller → Option Uuid → Calendar → Reply
unfolding listed_for require_team_access
handle_list_overrides trouble now caller none s = invalid_team_id
handle_list_overrides trouble now caller (some team_id) s =
    if not (require_team_access caller team_id)
    then forbidden
    else if trouble.get_schedule
    then internal_error
    else listed_for trouble.statement now team_id (get_schedule team_id s.schedules) s.overrides

-- `config` is what the bytes of json.Marshal decode to.
pub record ScheduleBody : Type 0 where
  pub name : String
  pub config : Option RotationConfig
  pub enabled : Option Bool

abbrev pub or_true : Option Bool → Bool
or_true none = true
or_true (some b) = b

on_schedule_body : Bool → ℕ → Uuid → Uuid → Option ScheduleBody → Calendar → Calendar × Reply
unfolding upsert_schedule
on_schedule_body fails now new_id team_id none s = (s, invalid_body)
on_schedule_body fails now new_id team_id (some body) s = elim body.config [
  | none ↦ (s, rotation_required)
  | some config ↦ if fails then (s, internal_error) else (
    record s {
      schedules =
          upsert_schedule now new_id team_id
            (if str_eq body.name "" then "Primary On-Call" else body.name) config
            (or_true body.enabled) s.schedules;
    },
    saved,
  )
]

unfoldable pub handle_upsert_schedule :
    Bool → ℕ → Uuid → Caller → Option Uuid → Option ScheduleBody → Calendar → Calendar × Reply
unfolding on_schedule_body require_team_admin
handle_upsert_schedule fails now new_id caller none body s = (s, invalid_team_id)
handle_upsert_schedule fails now new_id caller (some team_id) body s =
    if require_team_admin caller team_id
    then on_schedule_body fails now new_id team_id body s
    else (s, forbidden)

-- The store that the on-call manager reads, with its two lookups by these tables.
unfoldable pub config_store : ConfigStore → Calendar → ConfigStore
unfolding get_schedule get_active_override_for_schedule
config_store cfg s = record cfg {
  get_schedule = λ team_id. ok (get_schedule team_id s.schedules);
  get_active_override_for_schedule = λ schedule_id team_id t.
      ok (get_active_override_for_schedule schedule_id team_id t s.overrides);
}
