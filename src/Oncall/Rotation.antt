-- ===== src/Oncall/Rotation.antt =====
-- Who is on call by the rotation: resolveWeekly, resolveLayered, resolveLayeredAllLayers and
-- ResolveAllLayersAt of internal/oncall/schedule.go.
mod Label
pub mod Agree
pub mod Slots
pub mod Safety
use Label.{layer_label}
use wachd.Base.{
  ℕ, zero, suc, ◌+◌, ◌*◌, ◌/◌, ◌%◌, ◌^◌, String, Bool, not, ◌||◌, List, [], ◌∷◌, Option, none, some,
  length, min, get_elem?, is_nil, ◌==◌, if◌then◌else◌, str_eq, Result, ok, err, ◌>>=◌,
}
use wachd.Base.Int.{ℤ, pos, pos_part, leb_ℤ}
use wachd.Graph.Float.{one, to_53_bits}
use wachd.GoTime.{Time, nanos_per_hour, weekday, sub, midnight_before}
use wachd.Oncall.Types.{
  Uuid, uuid_nil, DayAssignment, Layer, Hours, LayeredRotation, RotationConfig, LayerResult,
  Schedule, Failure, invalid_rotation_config, decode_failed, no_layers, divide_by_zero,
  index_out_of_range,
}
use wachd.Oncall.Window.{layer_active_at}
use wachd.Oncall.Layers.{sorted_layers}

-- A weekday is below 7: the last clause is Saturday.
weekday_name : ℕ → String
weekday_name zero = "sunday"
weekday_name (suc zero) = "monday"
weekday_name (suc (suc zero)) = "tuesday"
weekday_name (suc (suc (suc zero))) = "wednesday"
weekday_name (suc (suc (suc (suc zero)))) = "thursday"
weekday_name (suc (suc (suc (suc (suc zero))))) = "friday"
weekday_name _ = "saturday"

day_user : String → List DayAssignment → Uuid
day_user day [] = uuid_nil
day_user day (a ∷ rest) = if str_eq a.day day then a.user_id else day_user day rest

unfoldable pub resolve_weekly : RotationConfig → Time → Result Failure Uuid
unfolding day_user weekday_name
resolve_weekly raw t = elim raw.weekly [
  | none ↦ err decode_failed
  | some rot ↦ ok (day_user (weekday_name (weekday t)) rot.rotation)
]

-- A rotation interval that is not positive stands for a week.
interval_or_week : Hours → Hours
interval_or_week h = if leb_ℤ h.count (pos 0) then record { count = pos 168; scale = 0 } else h

-- time.Duration(float64(time.Hour) * hours), for hours above zero: the product of two float64 values is
-- rounded to 53 bits, and then cut to whole nanoseconds. What an int64 does not hold becomes -2^63 on amd64.
-- The interval is only divided by, and as a duration is below 2^63, both -2^63 and 2^63 give the slot 0: so
-- 2^63 stands for it here.
unfoldable pub duration_of_hours : Hours → ℕ
unfolding to_53_bits
duration_of_hours h =
    min (2 ^ 63) (to_53_bits 2100 (pos_part h.count * nanos_per_hour * one) (2 ^ h.scale) / one)

unfoldable pub interval_of : LayeredRotation → ℕ
unfolding interval_or_week duration_of_hours
interval_of rot = duration_of_hours (interval_or_week rot.rotation_interval_hours)

unfoldable pub start_of_week : Time → Time
start_of_week t = midnight_before ((weekday t + 6) % 7) t

anchor_at : LayeredRotation → Time → Time
unfolding start_of_week
anchor_at rot t = elim rot.rotation_start [ none ↦ start_of_week t | some a ↦ a ]

-- The time since the anchor, 0 before it.
unfoldable pub elapsed_at : LayeredRotation → Time → ℕ
unfolding anchor_at sub
elapsed_at rot t = pos_part (sub t (anchor_at rot t))

checked_index : Option Uuid → Result Failure Uuid
checked_index none = err index_out_of_range
checked_index (some u) = ok u

-- members[int(elapsed / interval) % len(members)], with the panics that it could raise.
unfoldable pub member_in_slot : ℕ → ℕ → List Uuid → Result Failure Uuid
unfolding checked_index
member_in_slot elapsed interval members =
    if interval == 0
    then err divide_by_zero
    else checked_index (get_elem? members (elapsed / interval % length members))

unfoldable pub is_covered : Layer → Time → Bool
is_covered layer t = not (is_nil layer.members || not (layer_active_at layer.time_restriction t))

unfoldable pub layer_member : LayeredRotation → Time → Layer → Result Failure Uuid
unfolding member_in_slot
layer_member rot t layer = member_in_slot (elapsed_at rot t) (interval_of rot) layer.members

-- The loop of resolveLayered.
first_active : LayeredRotation → Time → List Layer → Result Failure Uuid
first_active rot t [] = ok uuid_nil
first_active rot t (layer ∷ layers) =
    let rest = first_active rot t layers in
    if is_covered layer t then layer_member rot t layer else rest

unfoldable pub resolve_layered_rotation : LayeredRotation → Time → Result Failure Uuid
unfolding first_active
resolve_layered_rotation rot t =
    if is_nil rot.layers then err no_layers else first_active rot t (sorted_layers rot.layers)

unfoldable pub resolve_layered : RotationConfig → Time → Result Failure Uuid
unfolding resolve_layered_rotation
resolve_layered raw t = elim raw.layered [
  | none ↦ err decode_failed
  | some rot ↦ resolve_layered_rotation rot t
]

layer_name : Layer → String
unfolding layer_label
layer_name layer = if str_eq layer.name "" then layer_label layer.layer_order else layer.name

layer_result : LayeredRotation → Time → Layer → Result Failure LayerResult
unfolding layer_name
layer_result rot t layer =
    if is_covered layer t
    then (layer_member rot t layer >>= λ u.
        ok (record { layer_name = layer_name layer; user_id = u }))
    else ok (record { layer_name = layer_name layer; user_id = uuid_nil })

-- The loop of resolveLayeredAllLayers.
layer_results : LayeredRotation → Time → List Layer → Result Failure (List LayerResult)
unfolding layer_result
layer_results rot t [] = ok []
layer_results rot t (layer ∷ layers) =
    layer_result rot t layer >>= λ r. layer_results rot t layers >>= λ rs. ok (r ∷ rs)

unfoldable pub resolve_layered_all_layers :
    RotationConfig → Time → Result Failure (List LayerResult)
unfolding layer_results
resolve_layered_all_layers raw t = elim raw.layered [
  | none ↦ err decode_failed
  | some rot ↦ layer_results rot t (sorted_layers rot.layers)
]

all_layers_of_type : String → RotationConfig → Time → Result Failure (List LayerResult)
unfolding resolve_layered_all_layers resolve_weekly
all_layers_of_type type raw t =
    if str_eq type "layered"
    then resolve_layered_all_layers raw t
    else do uid ← resolve_weekly raw t; ok (record { layer_name = "On-Call"; user_id = uid } ∷ [])

unfoldable pub resolve_all_layers_at : RotationConfig → Time → Result Failure (List LayerResult)
unfolding all_layers_of_type
resolve_all_layers_at raw t = elim raw.peek [
  | none ↦ err invalid_rotation_config
  | some type ↦ all_layers_of_type type raw t
]

user_of_type : String → RotationConfig → Time → Result Failure Uuid
unfolding resolve_layered resolve_weekly
user_of_type type raw t =
    if str_eq type "layered" then resolve_layered raw t else resolve_weekly raw t

-- Manager.resolveRotationUserID
unfoldable pub resolve_rotation_user_id : Schedule → Time → Result Failure Uuid
unfolding user_of_type
resolve_rotation_user_id schedule t = elim schedule.rotation_config.peek [
  | none ↦ err invalid_rotation_config
  | some type ↦ user_of_type type schedule.rotation_config t
]
