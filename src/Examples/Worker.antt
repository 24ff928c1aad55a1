-- ===== src/Examples/Worker.antt =====
-- Two workers that read the same open incident, and what they notify.
use wachd.Base.{
  ℕ, ◌+◌, ◌*◌, ◌<◌, String, false, [], ◌∷◌, Option, none, some, All, ok, ◌≡◌, refl, length,
  if◌then◌else◌, ◌==◌, str_eq, Result, err,
}
use wachd.Base.Int.{pos, wrap64, ◌+ℤ◌, ◌*ℤ◌}
use wachd.GoTime.{Time, utc, nanos_per_minute, sub}
use wachd.Oncall.Types.{
  Uuid, EscalationLayer, EscalationConfig, EscalationPolicy, TeamMember, Failure,
}
use wachd.Oncall.Manager.{ConfigStore}
use wachd.Store.Incidents.{Incident, update_where, count_where, increment_escalation_step}
use wachd.Worker.Escalation.{
  Escalations, layer_due, layer_target, claim, check_escalation_for_incident,
}
use wachd.Worker.Escalation.Race.{Reach, here, next, check}
use wachd.Worker.Escalation.Race.Kept.{NoneTwice}
use wachd.Worker.Escalation.Race.Once.{Reach-NoneTwice}
use wachd.Worker.Escalation.Limit.{Reach-steps_bounded}

abbrev pub bob : TeamMember
bob = record {
  id = 5;
  source = "local";
  team_id = 1;
  name = "Bob";
  email = "bob@example.com";
  phone = none;
  role = "responder";
}

abbrev bob_after : ℕ → EscalationLayer
bob_after minutes = record {
  schedule_id = "";
  user_id = "bob";
  notify_after_minutes = pos minutes;
  layer_name = "bob";
}

abbrev twice_over : EscalationConfig
twice_over = record {
  layers = bob_after 0 ∷ bob_after 10 ∷ [];
  repeat_interval_minutes = pos 30;
  max_repeats = pos 1;
}

abbrev policy : EscalationPolicy
policy = record { team_id = 1; config = some twice_over }

abbrev pub parse : String → Option Uuid
parse text = if str_eq text "bob" then some 5 else none

abbrev pub store : ConfigStore
store = record {
  get_member_by_id = λ id. if id == 5 then ok (some bob) else ok none;
  get_schedule = λ team. ok none;
  get_schedule_by_id = λ id team. ok none;
  get_active_override_for_schedule = λ id team t. ok none;
  get_escalation_policy = λ team. if team == 1 then ok (some policy) else ok none;
}

abbrev pub outage : Incident
outage = record {
  id = 100;
  team_id = 1;
  status = "open";
  fingerprint = some "disk full";
  fired_at = 1000;
  acknowledged_at = none;
  resolved_at = none;
  snoozed_until = none;
  escalation_step = 0;
  updated_at = 1000;
  assigned_to = none;
}

abbrev pub start : Escalations
start = record { incidents = outage ∷ []; notices = [] }

abbrev minutes_later : ℕ → Time
minutes_later m = record { nanos = 1000 + m * nanos_per_minute; location = utc }

-- Both workers read the incident at step 0 and check it after eleven minutes.
abbrev or_start : Result Failure Escalations → Escalations
or_start (ok t) = t
or_start (err e) = start

abbrev first : Escalations
first = or_start (check_escalation_for_incident store parse (minutes_later 11) false outage start)

abbrev pub both : Escalations
both = or_start (check_escalation_for_incident store parse (minutes_later 11) false outage first)

pub both_reached : Reach store parse start both
unfolding check_escalation_for_incident layer_due layer_target claim increment_escalation_step
    update_where count_where sub wrap64 ◌+ℤ◌ ◌*ℤ◌
both_reached =
    next (next here (check (minutes_later 11) false outage first refl))
      (check (minutes_later 11) false outage both refl)

one_notice : length both.notices ≡ 1
unfolding check_escalation_for_incident layer_due layer_target claim increment_escalation_step
    update_where count_where sub wrap64 ◌+ℤ◌ ◌*ℤ◌
one_notice = refl

Reach-NoneTwice_example : NoneTwice both.notices
Reach-NoneTwice_example =
    Reach-NoneTwice {cfg = store} {parse_uuid = parse} (outage ∷ []) {t = both} (refl, tt)
      both_reached

Reach-steps_bounded_example : All (λ n. n.team_id ≡ 1 → n.step < 2 * 2) both.notices
Reach-steps_bounded_example =
    Reach-steps_bounded store parse 1 twice_over 0 {policy = policy} (outage ∷ []) {t = both} refl
      refl refl both_reached
