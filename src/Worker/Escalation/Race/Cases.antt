-- ===== src/Worker/Escalation/Race/Cases.antt =====
-- A check of an incident does nothing, or it claims a step.
use wachd.Base.{◌≡◌, subst, Result, String, Bool, Option, none, some, ok, err}
use wachd.GoTime.{Time}
use wachd.Oncall.Types.{
  Uuid, EscalationLayer, EscalationConfig, EscalationPolicy, TeamMember, Failure,
}
use wachd.Oncall.Manager.{ConfigStore, Query}
use wachd.Store.Incidents.{Incident}
use wachd.Worker.Escalation.{
  Escalations, layer_due, layer_target, claim, on_target, on_due, on_config, on_policy,
  check_escalation_for_incident,
}

-- The property of the state that a result gives, if it gives one.
abbrev pub Holds : (Escalations → Type 0) → Result Failure Escalations → Type 0
Holds P (ok t) = P t
Holds P (err e) = Unit

pub Holds-ok :
    (P : Escalations → Type 0) (t : Escalations) {r : Result Failure Escalations}
    → r ≡ ok t
    → Holds P r
    → P t
Holds-ok P t e h = subst (Holds P) e h

module _ (cfg : ConfigStore) (parse_uuid : String → Option Uuid) (now : Time) (down : Bool)
    (read : Incident) (s : Escalations) (P : Escalations → Type 0) (idle : P s)
    (claimed : (user : Option TeamMember) → P (claim now down read user s)) where
  on_target-cases :
      (target : Result Failure (Option TeamMember))
      → Holds P (on_target cfg parse_uuid now down read target s)
  unfolding on_target
  on_target-cases (ok user) = claimed user
  on_target-cases (err e) = tt

  on_due-cases :
      (layer : Option EscalationLayer) → Holds P (on_due cfg parse_uuid now down read layer s)
  unfolding on_due
  on_due-cases none = idle
  on_due-cases (some layer) = on_target-cases (layer_target cfg parse_uuid read.team_id now layer)

  on_config-cases :
      (config : Option EscalationConfig) → Holds P (on_config cfg parse_uuid now down read config s)
  unfolding on_config
  on_config-cases none = idle
  on_config-cases (some config) =
      on_due-cases (layer_due config read.escalation_step read.fired_at now)

  on_policy-cases :
      (q : Query EscalationPolicy) → Holds P (on_policy cfg parse_uuid now down read q s)
  unfolding on_policy
  on_policy-cases (ok (some policy)) = on_config-cases policy.config
  on_policy-cases (ok none) = idle
  on_policy-cases (err e) = idle

  pub check-cases :
      (t : Escalations) → check_escalation_for_incident cfg parse_uuid now down read s ≡ ok t → P t
  unfolding check_escalation_for_incident
  check-cases t e = Holds-ok P t e (on_policy-cases (cfg.get_escalation_policy read.team_id))
