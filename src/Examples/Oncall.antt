-- ===== src/Examples/Oncall.antt =====
-- A team with two layers that hand over weekly, one of them at work hours only.
use wachd.Base.{
  ℕ, ◌+◌, ◌*◌, String, List, [], ◌∷◌, Option, none, some, Result, ok, err, ◌≡◌, ◌≢◌, ◌↔◌, refl,
  arith, ◌/◌, if◌then◌else◌, ◌==◌, str_eq, All, subst,
}
use wachd.Base.Int.{pos, wrap64, ◌+ℤ◌, ◌*ℤ◌}
use wachd.GoTime.{Time, utc, nanos_per_day, nanos_per_hour, weekday, hour, minute, sub}
use wachd.Oncall.Types.{
  Uuid, TimeWindow, TimeRestriction, Layer, LayeredRotation, RotationConfig, LayerResult,
  EscalationLayer, EscalationConfig, EscalationPolicy, EscalationStep, TeamMember, Schedule,
  divide_by_zero,
}
use wachd.Oncall.Window.{window_covers, layer_active_at}
use wachd.Oncall.Window.Text.{clock_text, parse_hhmm, parse_hhmm-clock_text}
use wachd.Oncall.Layers.{sorted_layers}
use wachd.Oncall.Rotation.{
  elapsed_at, interval_of, is_covered, layer_member, resolve_layered_rotation,
  resolve_all_layers_at, resolve_rotation_user_id, member_in_slot, duration_of_hours,
}
use wachd.Oncall.Rotation.Agree.{IsStaffed, resolve_rotation_user_id-first_user}
use wachd.Oncall.Rotation.Safety.{PanicsByInterval, resolve_layered_rotation-PanicsByInterval}
use wachd.Oncall.Manager.{
  layer_user, QueryError, ConfigStore, get_on_call_at, get_current_on_call, get_escalation_chain,
}
use wachd.Oncall.Manager.Target.{HasOneTarget}
use wachd.Oncall.Manager.Chain.{Resolves, get_escalation_chain-Resolves}
use wachd.Worker.Escalation.Agree.{ResolvesSchedules}
use wachd.Oncall.Manager.Duty.{OnDuty, get_on_call_at-OnDuty}

-- 10:30 on the n-th day from the origin, a Monday.
abbrev at_1030 : ℕ → Time
at_1030 n = record {
  nanos = n * nanos_per_day + 10 * nanos_per_hour + nanos_per_hour / 2;
  location = utc;
}

abbrev always : TimeRestriction
always = record { type = "always"; windows = [] }

abbrev office : TimeWindow
office = record {
  start_day = "monday";
  start_time = clock_text 9 0;
  end_day = "friday";
  end_time = clock_text 17 30;
}

abbrev office_hours : TimeRestriction
office_hours = record { type = "custom"; windows = office ∷ [] }

abbrev backup : Layer
backup = record {
  id = "b";
  name = "";
  layer_order = pos 2;
  time_restriction = always;
  members = 30 ∷ [];
}

abbrev primary : Layer
primary = record {
  id = "p";
  name = "Primary";
  layer_order = pos 1;
  time_restriction = office_hours;
  members = 10 ∷ 20 ∷ [];
}

abbrev pub rotation : LayeredRotation
rotation = record {
  rotation_start = some (record { nanos = 0; location = utc });
  rotation_interval_hours = record { count = pos 168; scale = 0 };
  layers = backup ∷ primary ∷ [];
}

abbrev pub config : RotationConfig
config = record { peek = some "layered"; weekly = none; layered = some rotation }

abbrev pub schedule : Schedule
schedule = record { id = 7; team_id = 1; rotation_config = config }

program : Unit {0}
unfolding resolve_all_layers_at resolve_rotation_user_id sorted_layers is_covered layer_member
    layer_active_at elapsed_at layer_user window_covers member_in_slot interval_of wrap64 ◌+ℤ◌ ◌*ℤ◌
    weekday hour minute sub parse_hhmm
program = tt

-- 0.7 hours, as the float64 closest to it: the product is rounded up to the whole second.
seven_tenths :
    duration_of_hours (record { count = pos 6305039478318694; scale = 53 }) ≡ 2520000000000
unfolding duration_of_hours
seven_tenths = refl

-- On the second Wednesday the second member of the primary layer is on call.
abbrev results : List LayerResult
results =
    record { layer_name = "Primary"; user_id = 20 }
    ∷ record { layer_name = "Layer 2"; user_id = 30 }
    ∷ []

all_layers : resolve_all_layers_at config (at_1030 9) ≡ ok results
unfolding program
all_layers = refl

parse_hhmm-clock_text_example : parse_hhmm (clock_text 17 30) ≡ pos 1050
parse_hhmm-clock_text_example = parse_hhmm-clock_text 17 30 (omega arith) (omega arith)

pub rotation-IsStaffed : (rot : LayeredRotation) → some rotation ≡ some rot → IsStaffed rot
rotation-IsStaffed rot e = ground arith

resolve_rotation_user_id-first_user_example : resolve_rotation_user_id schedule (at_1030 9) ≡ ok 20
resolve_rotation_user_id-first_user_example =
    resolve_rotation_user_id-first_user schedule (at_1030 9) rotation-IsStaffed all_layers

resolve_layered_rotation-PanicsByInterval_example : PanicsByInterval rotation (at_1030 9)
resolve_layered_rotation-PanicsByInterval_example =
    resolve_layered_rotation-PanicsByInterval rotation (at_1030 9)

-- An interval of 2 ^ -50 hours, about three picoseconds, which is positive and comes to no nanosecond.
abbrev hasty : LayeredRotation
hasty = record rotation { rotation_interval_hours = record { count = pos 1; scale = 50 } }

hasty_panics : resolve_layered_rotation hasty (at_1030 9) ≡ err divide_by_zero
unfolding program resolve_layered_rotation
hasty_panics = refl

abbrev pub ada : TeamMember
ada = record {
  id = 20;
  source = "local";
  team_id = 1;
  name = "Ada";
  email = "ada@example.com";
  phone = none;
  role = "responder";
}

abbrev only_ada : Uuid → Result QueryError (Option TeamMember)
only_ada id = if id == 20 then ok (some ada) else ok none

abbrev layer_of : String → String → EscalationLayer
layer_of schedule_id user_id = record {
  schedule_id = schedule_id;
  user_id = user_id;
  notify_after_minutes = pos 5;
  layer_name = "l";
}

abbrev policy_config : EscalationConfig
policy_config = record {
  layers = layer_of "" "unknown" ∷ layer_of "main" "" ∷ [];
  repeat_interval_minutes = pos 0;
  max_repeats = pos 0;
}

abbrev policy : EscalationPolicy
policy = record { team_id = 1; config = some policy_config }

abbrev parse : String → Option Uuid
parse text = if str_eq text "main" then some 7 else none

-- The store of team 1, which has the schedule and the policy; team 2 has neither.
abbrev store : ConfigStore
store = record {
  get_member_by_id = only_ada;
  get_schedule = λ team. if team == 1 then ok (some schedule) else ok none;
  get_schedule_by_id = λ id team. if id == 7 then ok (some schedule) else ok none;
  get_active_override_for_schedule = λ id team t. ok none;
  get_escalation_policy = λ team. if team == 1 then ok (some policy) else ok none;
}

get_on_call_at-OnDuty_example :
    (get_on_call_at store 1 (at_1030 9) ≡ ok (some ada)) ↔ OnDuty store 1 (at_1030 9) ada
get_on_call_at-OnDuty_example = get_on_call_at-OnDuty store 1 (at_1030 9) ada

ada_on_call : get_on_call_at store 1 (at_1030 9) ≡ ok (some ada)
unfolding program get_on_call_at
ada_on_call = refl

abbrev ada_step : EscalationStep
ada_step = record { user = some ada; notify_after_minutes = pos 5; layer_name = "l" }

-- The first layer's user_id does not parse, so the chain is the second layer alone.
get_escalation_chain-Resolves_example :
    (get_escalation_chain store parse 1 (at_1030 9) ≡ ok (ada_step ∷ [])) ↔ (
      All HasOneTarget policy_config.layers
      × Resolves store parse 1 (at_1030 9) policy_config.layers (ada_step ∷ [])
      × (ada_step ∷ [] ≢ []))
get_escalation_chain-Resolves_example =
    get_escalation_chain-Resolves store parse 1 (at_1030 9) {policy = policy}
      {config = policy_config} {steps = ada_step ∷ []} refl refl

chain_holds : get_escalation_chain store parse 1 (at_1030 9) ≡ ok (ada_step ∷ [])
unfolding program get_escalation_chain
chain_holds = refl

nobody : get_current_on_call store 2 (at_1030 9) ≡ ok none
unfolding get_current_on_call
nobody = refl

-- Team 2 has neither a policy nor a schedule: its chain is a step without a user.
abbrev nobody_step : EscalationStep
nobody_step = record { user = none; notify_after_minutes = pos 0; layer_name = "primary" }

nobody_chain : get_escalation_chain store parse 2 (at_1030 9) ≡ ok (nobody_step ∷ [])
unfolding get_escalation_chain get_current_on_call
nobody_chain = refl

-- A store that has this one schedule and this one member.
abbrev small_store : ConfigStore
small_store = record store {
  get_member_by_id = λ id. ok (some ada);
  get_schedule_by_id = λ id team. ok (some schedule);
}

small_store-ResolvesSchedules : ResolvesSchedules small_store (at_1030 9)
small_store-ResolvesSchedules id team_id s e =
    let same : schedule ≡ s = ground arith in
    subst
      (λ s.
        ((rot : LayeredRotation) → s.rotation_config.layered ≡ some rot → IsStaffed rot)
        × ((rs : List LayerResult) × (resolve_all_layers_at s.rotation_config (at_1030 9) ≡ ok rs)))
      same (rotation-IsStaffed, (results, all_layers))
