-- ===== src/Worker/Escalation.antt =====
-- The escalation loop of cmd/worker/helper.go: checkEscalations, checkEscalationForIncident and
-- resolveLayerMember. A check reads the clock once, and the database may fail it at its UPDATE. Firing
-- the channels is recorded as a notice.
pub mod Race
pub mod Limit
pub mod Agree
use wachd.Base.{
  ℕ, suc, ◌+◌, ◌-◌, ◌/◌, ◌%◌, String, Bool, true, false, ◌&&◌, List, [], ◌∷◌, Option, none, some,
  length, get_elem?, ltb, ◌==◌, if◌then◌else◌, str_eq, Result, ok, err,
}
use wachd.Base.Int.{ℤ, pos, ◌+ℤ◌, ◌*ℤ◌, ltb_ℤ, leb_ℤ, wrap64}
use wachd.GoTime.{Time, utc, sub, nanos_per_minute}
use wachd.Oncall.Types.{
  Uuid, EscalationLayer, EscalationConfig, EscalationPolicy, TeamMember, Schedule, ScheduleOverride,
  LayerResult, Failure,
}
use wachd.Oncall.Rotation.{resolve_all_layers_at}
use wachd.Oncall.Manager.{ConfigStore, Query, is_panic}
use wachd.Store.Incidents.{Incident, Incidents, increment_escalation_step, get_open_for_escalation}

-- A call of fireAllChannels for an escalation: whom it tells of which step of which incident.
pub record Notice : Type 0 where
  pub team_id : Uuid
  pub incident_id : Uuid
  pub step : ℕ
  pub user : TeamMember

-- The shared state: the table, and the notices so far, the latest first.
pub record Escalations : Type 0 where
  pub incidents : Incidents
  pub notices : List Notice

-- (cycleDuration + repeatInterval) * repeat + notify_after, in minutes.
pub threshold_minutes : EscalationConfig → EscalationLayer → EscalationLayer → ℕ → ℤ
threshold_minutes c last next repeat =
    (last.notify_after_minutes +ℤ c.repeat_interval_minutes) *ℤ pos repeat
    +ℤ next.notify_after_minutes

-- elapsed < time.Duration(thresholdMinutes) * time.Minute
is_early : ℤ → ℕ → Time → Bool
is_early threshold fired_at now =
    ltb_ℤ (sub now (record { nanos = fired_at; location = utc }))
      (wrap64 (threshold *ℤ pos nanos_per_minute))

pub is_stopped : EscalationConfig → ℕ → Bool
is_stopped c repeat =
    if ltb_ℤ (pos 0) c.max_repeats && ltb_ℤ c.max_repeats (pos repeat)
    then true
    else leb_ℤ c.repeat_interval_minutes (pos 0)
      && leb_ℤ (pos 0) c.repeat_interval_minutes
      && ltb 0 repeat

wait_or_go :
    EscalationConfig
    → ℕ
    → ℕ
    → Time
    → Option EscalationLayer
    → Option EscalationLayer
    → Option EscalationLayer
unfolding is_early threshold_minutes
wait_or_go c repeat fired_at now (some last) (some next) =
    if is_early (threshold_minutes c last next repeat) fired_at now then none else some next
wait_or_go c repeat fired_at now _ _ = none

-- The layer to notify now, for the step after `step`; `none` where the check returns.
unfoldable pub layer_due : EscalationConfig → ℕ → ℕ → Time → Option EscalationLayer
unfolding wait_or_go is_stopped
layer_due c step fired_at now =
    let n = length c.layers in
    if n == 0
    then none
    else if is_stopped c ((step + 1) / n)
    then none
    else wait_or_go c ((step + 1) / n) fired_at now (get_elem? c.layers (n - 1))
        (get_elem? c.layers ((step + 1) % n))

-- `user, _ = …`: an error leaves no user.
pub or_nil : Query TeamMember → Option TeamMember
or_nil (ok member) = member
or_nil (err e) = none

or_else : Query TeamMember → Option TeamMember → Option TeamMember
or_else (ok member) other = member
or_else (err e) other = other

module _ (cfg : ConfigStore) (parse_uuid : String → Option Uuid) where
  -- The first result with a user whose lookup does not fail.
  first_member : List LayerResult → Option TeamMember
  unfolding or_else
  first_member [] = none
  first_member (r ∷ rs) =
      let rest = first_member rs in
      if r.user_id == 0 then rest else or_else (cfg.get_member_by_id r.user_id) rest

  -- A rotation that panics ends the worker here; any other failure leaves nobody.
  members_of : Result Failure (List LayerResult) → Result Failure (Option TeamMember)
  unfolding first_member
  members_of (ok rs) = ok (first_member rs)
  members_of (err e) = if is_panic e then err e else ok none

  -- The rotation is looked at where the lookup of the override's user fails.
  override_or :
      Query TeamMember → Result Failure (Option TeamMember) → Result Failure (Option TeamMember)
  override_or (ok member) by_rotation = ok member
  override_or (err e) by_rotation = by_rotation

  by_rotation : Schedule → Time → Result Failure (Option TeamMember)
  unfolding members_of
  by_rotation schedule now = members_of (resolve_all_layers_at schedule.rotation_config now)

  by_override : Schedule → Time → Query ScheduleOverride → Result Failure (Option TeamMember)
  unfolding by_rotation override_or
  by_override schedule now (ok (some o)) =
      override_or (cfg.get_member_by_id o.user_id) (by_rotation schedule now)
  by_override schedule now (ok none) = by_rotation schedule now
  by_override schedule now (err e) = by_rotation schedule now

  of_schedule : Uuid → Time → Query Schedule → Result Failure (Option TeamMember)
  unfolding by_override
  of_schedule team_id now (ok (some schedule)) =
      by_override schedule now (cfg.get_active_override_for_schedule schedule.id team_id now)
  of_schedule team_id now (ok none) = ok none
  of_schedule team_id now (err e) = ok none

  of_schedule_id : Uuid → Time → Option Uuid → Result Failure (Option TeamMember)
  unfolding of_schedule
  of_schedule_id team_id now none = ok none
  of_schedule_id team_id now (some sid) =
      of_schedule team_id now (cfg.get_schedule_by_id sid team_id)

  unfoldable pub resolve_layer_member : Uuid → Time → String → Result Failure (Option TeamMember)
  unfolding of_schedule_id
  resolve_layer_member team_id now schedule_id = of_schedule_id team_id now (parse_uuid schedule_id)

  of_user_id : Option Uuid → Option TeamMember
  of_user_id none = none
  of_user_id (some uid) = or_nil (cfg.get_member_by_id uid)

  unfoldable pub layer_target : Uuid → Time → EscalationLayer → Result Failure (Option TeamMember)
  unfolding of_user_id or_nil
  layer_target team_id now layer =
      if str_eq layer.user_id ""
      then resolve_layer_member team_id now layer.schedule_id
      else ok (of_user_id (parse_uuid layer.user_id))

-- The claim of the step, and the notice if it was won. `down` is a failed UPDATE.
unfoldable pub claim : Time → Bool → Incident → Option TeamMember → Escalations → Escalations
claim now true incident user s = s
claim now false incident none s =
    let (rows, advanced) =
      increment_escalation_step now.nanos incident.team_id incident.id incident.escalation_step
        s.incidents in
    record s { incidents = rows }
claim now false incident (some user) s =
    let (rows, advanced) =
      increment_escalation_step now.nanos incident.team_id incident.id incident.escalation_step
        s.incidents in
    if advanced
    then record {
      incidents = rows;
      notices =
          record {
            team_id = incident.team_id;
            incident_id = incident.id;
            step = incident.escalation_step + 1;
            user = user;
          }
          ∷ s.notices;
    }
    else record s { incidents = rows }

module _ (cfg : ConfigStore) (parse_uuid : String → Option Uuid) where
  -- A panic ends the worker before it writes anything.
  on_target :
      Time
      → Bool
      → Incident
      → Result Failure (Option TeamMember)
      → Escalations
      → Result Failure Escalations
  unfolding claim
  on_target now down incident (ok user) s = ok (claim now down incident user s)
  on_target now down incident (err e) s = err e

  on_due :
      Time → Bool → Incident → Option EscalationLayer → Escalations → Result Failure Escalations
  unfolding on_target
  on_due now down incident none s = ok s
  on_due now down incident (some layer) s =
      on_target now down incident (layer_target cfg parse_uuid incident.team_id now layer) s

  on_config :
      Time → Bool → Incident → Option EscalationConfig → Escalations → Result Failure Escalations
  unfolding on_due
  on_config now down incident none s = ok s
  on_config now down incident (some c) s =
      on_due now down incident (layer_due c incident.escalation_step incident.fired_at now) s

  on_policy :
      Time → Bool → Incident → Query EscalationPolicy → Escalations → Result Failure Escalations
  unfolding on_config
  on_policy now down incident (ok (some policy)) s = on_config now down incident policy.config s
  on_policy now down incident (ok none) s = ok s
  on_policy now down incident (err e) s = ok s

  -- `incident` is the row as the worker read it, which may have changed since.
  unfoldable pub check_escalation_for_incident :
      Time → Bool → Incident → Escalations → Result Failure Escalations
  unfolding on_policy
  check_escalation_for_incident now down incident s =
      on_policy now down incident (cfg.get_escalation_policy incident.team_id) s

  -- The loop of checkEscalations; the clock and the database's answers are given for each incident.
  -- The panic that ends it comes with the state so far.
  check_each : (Incident → Time × Bool) → Incidents → Escalations → Escalations × Option Failure
  unfolding check_escalation_for_incident
  check_each tick [] s = (s, none)
  check_each tick (incident ∷ rest) s =
      let (now, down) = tick incident in
      elim (check_escalation_for_incident now down incident s) [
        | err e ↦ (s, some e)
        | ok t ↦ check_each tick rest t
      ]

  unfoldable pub check_escalations :
      Time → (Incident → Time × Bool) → Escalations → Escalations × Option Failure
  unfolding check_each get_open_for_escalation
  check_escalations now tick s =
      check_each tick (get_open_for_escalation (now.nanos - nanos_per_minute) s.incidents) s
