-- ===== src/Server/Timeline.antt =====
-- The coverage of the coming days: handleGetOnCallTimeline of cmd/server/main.go. A day is its number from the
-- origin of GoTime, in UTC; `from` is what the query parses to, `none` without one or where it does not parse,
-- and so is `wanted` for the number of days. An id that is written as the empty text is `none`.
pub mod Shown
use wachd.Base.{
  ℕ, zero, suc, ◌+◌, ◌*◌, ◌/◌, String, Bool, true, false, not, ◌&&◌, ◌||◌, List, [], ◌∷◌, Option,
  none, some, is_nil, ◌==◌, ltb, if◌then◌else◌, Result, ok, err,
}
use wachd.Base.Int.{ℤ, pos, pos_part, ltb_ℤ, leb_ℤ}
use wachd.GoTime.{Time, utc, nanos_per_day, nanos_per_hour}
use wachd.Oncall.Types.{
  Uuid, uuid_nil, TeamMember, LayerResult, RotationConfig, Schedule, ScheduleOverride, Failure,
  divide_by_zero, index_out_of_range,
}
use wachd.Oncall.Manager.{Query, QueryError}
use wachd.Oncall.Rotation.{resolve_all_layers_at}
use wachd.Store.Schedules.{ScheduleRow, OverrideRow}

pub record TimelineLayer : Type 0 where
  pub layer_name : String
  pub user_id : Option Uuid
  pub user_name : String

pub record Entry : Type 0 where
  pub date : ℕ
  pub layers : List TimelineLayer
  pub override : Option OverrideRow
  pub final_user_id : Option Uuid
  pub final_user_name : String

-- The map from a member's id to the name: the last of the members with the id counts.
unfoldable pub find_name : Uuid → List TeamMember → Option String
find_name id [] = none
find_name id (m ∷ members) = elim (find_name id members) [
  | some name ↦ some name
  | none ↦ if m.id == id then some m.name else none
]

unfoldable pub name_of : List TeamMember → Uuid → String
unfolding find_name
name_of members id = elim (find_name id members) [ none ↦ "" | some name ↦ name ]

abbrev pub day_start : ℕ → Time
day_start day = record { nanos = day * nanos_per_day; location = utc }

abbrev pub noon_of : ℕ → Time
noon_of day = record { nanos = day * nanos_per_day + 12 * nanos_per_hour; location = utc }

abbrev pub overlaps : ℕ → OverrideRow → Bool
overlaps day o =
    ltb o.override.start_at.nanos (day_start (suc day)).nanos
    && ltb (day_start day).nanos o.override.end_at.nanos

unfoldable pub day_override : ℕ → List OverrideRow → Option OverrideRow
day_override day [] = none
day_override day (o ∷ overrides) = if overlaps day o then some o else day_override day overrides

abbrev pub id_or_none : Uuid → Option Uuid
id_or_none id = if id == 0 then none else some id

unfoldable pub timeline_layers : List TeamMember → List LayerResult → List TimelineLayer
unfolding name_of
timeline_layers members [] = []
timeline_layers members (lr ∷ results) =
    record {
      layer_name = lr.layer_name;
      user_id = id_or_none lr.user_id;
      user_name = if lr.user_id == 0 then "" else name_of members lr.user_id;
    }
    ∷ timeline_layers members results

-- The first layer with a user: the user and the name.
unfoldable pub first_covered : List TimelineLayer → Option Uuid × String
first_covered [] = (none, "")
first_covered (l ∷ layers) = elim l.user_id [
  | some id ↦ (some id, l.user_name)
  | none ↦ first_covered layers
]

final_user : List TeamMember → Option OverrideRow → List TimelineLayer → Option Uuid × String
unfolding first_covered name_of
final_user members (some o) layers = (some o.override.user_id, name_of members o.override.user_id)
final_user members none layers = first_covered layers

entry_of : List TeamMember → List OverrideRow → ℕ → List LayerResult → Entry
unfolding final_user timeline_layers day_override
entry_of members overrides day results =
    let layers = timeline_layers members results in
    let override = day_override day overrides in
    let final = final_user members override layers in
    record {
      date = day;
      layers = layers;
      override = override;
      final_user_id = final.0;
      final_user_name = final.1;
    }

-- `layerResults, _ := …`: an error leaves no results, and a panic is `none`.
unfoldable pub results_or_panic : Result Failure (List LayerResult) → Option (List LayerResult)
results_or_panic (ok results) = some results
results_or_panic (err divide_by_zero) = none
results_or_panic (err index_out_of_range) = none
results_or_panic (err e) = some []

-- The results of so many days from a day on.
unfoldable pub day_results : RotationConfig → ℕ → ℕ → Option (List (List LayerResult))
unfolding results_or_panic
day_results config day zero = some []
day_results config day (suc n) =
    let later = day_results config (suc day) n in
    elim (results_or_panic (resolve_all_layers_at config (noon_of day))) [
      | none ↦ none
      | some results ↦ elim later [ none ↦ none | some all ↦ some (results ∷ all) ]
    ]

unfoldable pub entries_from :
    List TeamMember → List OverrideRow → ℕ → List (List LayerResult) → List Entry
unfolding entry_of
entries_from members overrides day [] = []
entries_from members overrides day (results ∷ all) =
    entry_of members overrides day results ∷ entries_from members overrides (suc day) all

unfoldable pub names_in : List LayerResult → List String
names_in [] = []
names_in (lr ∷ results) = lr.layer_name ∷ names_in results

-- The names of the first day that has results.
unfoldable pub layer_names : List (List LayerResult) → List String
unfolding names_in
layer_names [] = []
layer_names (results ∷ all) =
    let later = layer_names all in if is_nil results then later else names_in results

pub data Reply : Type 0 where
  invalid_team_id forbidden internal_error crashed : Reply
  no_schedule : ℕ → ℕ → Reply
  timeline : String → List String → ℕ → ℕ → List Entry → Reply

abbrev pub from_day : ℕ → Option ℕ → ℕ
from_day now none = now / nanos_per_day
from_day now (some day) = day

abbrev pub days_of : Option ℤ → ℕ
days_of none = 14
days_of (some d) = if ltb_ℤ (pos 0) d && leb_ℤ d (pos 42) then pos_part d else 14

-- The errors of the overrides' lookup are ignored.
abbrev pub or_none {ℓ} : {A : Type ℓ} → Result QueryError (List A) → List A
or_none (ok rows) = rows
or_none (err e) = []

pub record Lookups : Type 0 where
  pub get_schedule : Query ScheduleRow
  pub get_team_members : Result QueryError (List TeamMember)
  pub list_overrides_for_range : Uuid → Time → Time → Result QueryError (List OverrideRow)

timeline_reply :
    ScheduleRow
    → List TeamMember
    → List OverrideRow
    → ℕ
    → ℕ
    → Option (List (List LayerResult))
    → Reply
unfolding layer_names entries_from
timeline_reply row members overrides from days none = crashed
timeline_reply row members overrides from days (some all) =
    timeline row.name (layer_names all) from days (entries_from members overrides from all)

timeline_of : Lookups → ℕ → ℕ → ScheduleRow → Result QueryError (List TeamMember) → Reply
unfolding timeline_reply day_results
timeline_of lookups from days row (err e) = internal_error
timeline_of lookups from days row (ok members) =
    timeline_reply row members
      (or_none (
        lookups.list_overrides_for_range row.schedule.id (day_start from)
          (day_start (from + days))))
      from days (day_results row.schedule.rotation_config from days)

on_schedule : Lookups → ℕ → ℕ → Query ScheduleRow → Reply
unfolding timeline_of
on_schedule lookups from days (err e) = internal_error
on_schedule lookups from days (ok none) = no_schedule from days
on_schedule lookups from days (ok (some row)) =
    timeline_of lookups from days row lookups.get_team_members

unfoldable pub handle_get_on_call_timeline :
    Option Uuid → Bool → ℕ → Option ℕ → Option ℤ → (Uuid → Lookups) → Reply
unfolding on_schedule
handle_get_on_call_timeline none access now from wanted lookups = invalid_team_id
handle_get_on_call_timeline (some team_id) false now from wanted lookups = forbidden
handle_get_on_call_timeline (some team_id) true now from wanted lookups =
    on_schedule (lookups team_id) (from_day now from) (days_of wanted)
      (lookups team_id).get_schedule
