-- ===== src/Oncall/Manager.antt =====
-- Manager of internal/oncall/schedule.go: who is on call, and the escalation chain of a policy. The
-- store is the part of ConfigStore (internal/store/config_store.go) that it calls, and uuid.Parse is a
-- parameter. The functions only read the store, and time.Now() is an argument.
pub mod Users
pub mod Target
pub mod Chain
pub mod Duty
use wachd.Base.{
  ℕ, suc, String, Bool, true, false, List, [], ◌∷◌, Option, none, some, Result, ok, err, ◌>>=◌,
  ◌==◌, if◌then◌else◌, str_eq, is_nil,
}
use wachd.Base.Int.{pos}
use wachd.GoTime.{Time}
use wachd.Oncall.Types.{
  Uuid, uuid_nil, EscalationLayer, EscalationConfig, TeamMember, EscalationStep, Schedule,
  ScheduleOverride, EscalationPolicy, Failure, loading_schedule, checking_overrides,
  loading_override_member, loading_member, loading_policy, parsing_policy, no_resolvable_layers,
  invalid_layer, divide_by_zero, index_out_of_range,
}
use wachd.Oncall.Rotation.{resolve_rotation_user_id}

-- A query's error.
pub data QueryError : Type 0 where
  query_failed : QueryError

abbrev pub Query : Type 0 → Type 0
Query A = Result QueryError (Option A)

pub record ConfigStore : Type 0 where
  pub get_member_by_id : Uuid → Query TeamMember
  pub get_schedule : Uuid → Query Schedule
  pub get_schedule_by_id : Uuid → Uuid → Query Schedule
  pub get_active_override_for_schedule : Uuid → Uuid → Time → Query ScheduleOverride
  pub get_escalation_policy : Uuid → Query EscalationPolicy

-- `if err != nil { return nil, fmt.Errorf(…) }`
abbrev pub wrap {ℓ} : {A : Type ℓ} → Failure → Result QueryError A → Result Failure A
wrap f (ok a) = ok a
wrap f (err e) = err f

module _ (cfg : ConfigStore) where
  -- The member with this id, or nil where the id is uuid.Nil.
  member_unless_nil : Uuid → Result Failure (Option TeamMember)
  member_unless_nil id = if id == 0 then ok none else wrap loading_member (cfg.get_member_by_id id)

  resolve_rotation : Schedule → Time → Result Failure (Option TeamMember)
  unfolding member_unless_nil
  resolve_rotation schedule t = resolve_rotation_user_id schedule t >>= member_unless_nil

  override_or_rotation :
      Schedule → Time → Option ScheduleOverride → Result Failure (Option TeamMember)
  unfolding resolve_rotation
  override_or_rotation schedule t (some override) =
      wrap loading_override_member (cfg.get_member_by_id override.user_id)
  override_or_rotation schedule t none = resolve_rotation schedule t

  on_call_by : Uuid → Time → Option Schedule → Result Failure (Option TeamMember)
  unfolding override_or_rotation
  on_call_by team_id t none = ok none
  on_call_by team_id t (some schedule) =
      wrap checking_overrides (cfg.get_active_override_for_schedule schedule.id team_id t)
      >>= override_or_rotation schedule t

  unfoldable pub get_on_call_at : Uuid → Time → Result Failure (Option TeamMember)
  unfolding on_call_by
  get_on_call_at team_id t =
      wrap loading_schedule (cfg.get_schedule team_id) >>= on_call_by team_id t

  unfoldable pub get_current_on_call : Uuid → Time → Result Failure (Option TeamMember)
  unfolding get_on_call_at
  get_current_on_call team_id now = get_on_call_at team_id now

-- The panics of a rotation.
abbrev pub is_panic : Failure → Bool
is_panic divide_by_zero = true
is_panic index_out_of_range = true
is_panic _ = false

-- The user of a layer; `none` where the loop of GetEscalationChain goes on to the next layer.
unfoldable pub found : Query TeamMember → Option TeamMember
found (ok (some member)) = some member
found (ok none) = none
found (err e) = none

module _ (cfg : ConfigStore) (parse_uuid : String → Option Uuid) where
  unfoldable pub fixed_user : Option Uuid → Option TeamMember
  unfolding found
  fixed_user none = none
  fixed_user (some id) = found (cfg.get_member_by_id id)

  -- A failure leaves the layer out; a panic ends the whole call.
  unfoldable pub rotation_user : Result Failure Uuid → Result Failure (Option TeamMember)
  unfolding found
  rotation_user (ok uid) = ok (if uid == 0 then none else found (cfg.get_member_by_id uid))
  rotation_user (err e) = if is_panic e then err e else ok none

  -- A failed override check falls through to the rotation.
  unfoldable pub override_user :
      Schedule → Time → Query ScheduleOverride → Result Failure (Option TeamMember)
  unfolding rotation_user
  override_user schedule now (ok (some override)) =
      ok (found (cfg.get_member_by_id override.user_id))
  override_user schedule now (ok none) = rotation_user (resolve_rotation_user_id schedule now)
  override_user schedule now (err e) = rotation_user (resolve_rotation_user_id schedule now)

  unfoldable pub schedule_user : Uuid → Time → Query Schedule → Result Failure (Option TeamMember)
  unfolding override_user
  schedule_user team_id now (ok (some schedule)) =
      override_user schedule now (cfg.get_active_override_for_schedule schedule.id team_id now)
  schedule_user team_id now (ok none) = ok none
  schedule_user team_id now (err e) = ok none

  unfoldable pub scheduled_user : Uuid → Time → Option Uuid → Result Failure (Option TeamMember)
  unfolding schedule_user
  scheduled_user team_id now none = ok none
  scheduled_user team_id now (some id) =
      schedule_user team_id now (cfg.get_schedule_by_id id team_id)

  unfoldable pub layer_user : Uuid → Time → EscalationLayer → Result Failure (Option TeamMember)
  unfolding fixed_user scheduled_user
  layer_user team_id now layer =
      if str_eq layer.user_id ""
      then scheduled_user team_id now (parse_uuid layer.schedule_id)
      else ok (fixed_user (parse_uuid layer.user_id))

-- Exactly one of schedule_id and user_id is set.
unfoldable pub is_valid_layer : EscalationLayer → Bool
is_valid_layer layer =
    if str_eq layer.schedule_id ""
    then (if str_eq layer.user_id "" then false else true)
    else str_eq layer.user_id ""

-- The step is left out where the layer has no user.
pub add_step : EscalationLayer → Option TeamMember → List EscalationStep → List EscalationStep
add_step layer none steps = steps
add_step layer (some user) steps =
    record {
      user = some user;
      notify_after_minutes = layer.notify_after_minutes;
      layer_name = layer.layer_name;
    }
    ∷ steps

refuse_empty : List EscalationStep → Result Failure (List EscalationStep)
refuse_empty [] = err no_resolvable_layers
refuse_empty (s ∷ steps) = ok (s ∷ steps)

-- Without a policy, one step for whoever is on call, who may be nobody.
unfoldable pub primary_step : Option TeamMember → List EscalationStep
primary_step user =
    record { user = user; notify_after_minutes = pos 0; layer_name = "primary" } ∷ []

module _ (cfg : ConfigStore) (parse_uuid : String → Option Uuid) where
  -- The loop over the layers, from index i on.
  unfoldable pub chain_from :
      Uuid → Time → ℕ → List EscalationLayer → Result Failure (List EscalationStep)
  unfolding is_valid_layer add_step
  chain_from team_id now i [] = ok []
  chain_from team_id now i (layer ∷ layers) =
      let rest = chain_from team_id now (suc i) layers in
      if is_valid_layer layer
      then (layer_user cfg parse_uuid team_id now layer >>= λ user.
          rest >>= λ steps. ok (add_step layer user steps))
      else err (invalid_layer i)

  unfoldable pub chain_of_config :
      Uuid → Time → Option EscalationConfig → Result Failure (List EscalationStep)
  unfolding chain_from refuse_empty
  chain_of_config team_id now none = err parsing_policy
  chain_of_config team_id now (some c) = chain_from team_id now 0 c.layers >>= refuse_empty

  unfoldable pub chain_of_policy :
      Uuid → Time → Option EscalationPolicy → Result Failure (List EscalationStep)
  unfolding chain_of_config primary_step get_current_on_call
  chain_of_policy team_id now none =
      get_current_on_call cfg team_id now >>= λ user. ok (primary_step user)
  chain_of_policy team_id now (some policy) = chain_of_config team_id now policy.config

  unfoldable pub get_escalation_chain : Uuid → Time → Result Failure (List EscalationStep)
  unfolding chain_of_policy
  get_escalation_chain team_id now =
      wrap loading_policy (cfg.get_escalation_policy team_id) >>= chain_of_policy team_id now
