-- ===== src/Worker/Escalation/Race.antt =====
-- Several workers and the people who handle incidents act on one table: the steps that any of them can
-- take, in any order.
pub mod Kept
pub mod Claim
pub mod Cases
pub mod Fingerprint
pub mod Index
pub mod Once
use wachd.Base.{
  ℕ, ◌+◌, ◌≤◌, String, Bool, true, false, ◌&&◌, List, [], ◌∷◌, Option, none, some, All, ◌==◌,
  if◌then◌else◌, str_eq, ok, ◌≡◌, ◌≢◌, refl, arith, Bool-cases, inl, inr, ◌∙◌,
}
use wachd.GoTime.{Time}
use wachd.Oncall.Types.{Uuid, TeamMember}
use wachd.Oncall.Manager.{ConfigStore}
use wachd.Store.Incidents.{
  Incident, Incidents, update_where, count_where, has_key, get_incident, increment_escalation_step,
  acknowledge_incident, resolve_incident, reopen_incident, snooze_incident, resolve_by_fingerprint,
  create_incident,
}
use wachd.Store.Incidents.Rows.{
  HasPrimaryKey, get_incident-update_where, update_where-HasPrimaryKey, count_where-get_incident,
}
use wachd.Worker.Escalation.{Notice, Escalations, claim, check_escalation_for_incident}

-- What can happen to the table: a worker checks an incident, by a row that may be out of date, and where the
-- check panics nothing is written, which is no step; people
-- and webhooks change incidents; a webhook adds one.
pub data Step (cfg : ConfigStore) (parse_uuid : String → Option Uuid) (s : Escalations)
    : Escalations → Type 0 where
  check :
      (now : Time) (down : Bool) (read : Incident) (t : Escalations)
      → check_escalation_for_incident cfg parse_uuid now down read s ≡ ok t
      → Step cfg parse_uuid s t
  acknowledge :
      (now : ℕ) (team_id incident_id user_id : Uuid) (rows : Incidents)
      → acknowledge_incident now team_id incident_id user_id s.incidents ≡ ok rows
      → Step cfg parse_uuid s (record s { incidents = rows })
  resolve :
      (now : ℕ) (team_id incident_id : Uuid)
      → Step cfg parse_uuid s
          (record s { incidents = resolve_incident now team_id incident_id s.incidents })
  reopen :
      (now : ℕ) (team_id incident_id : Uuid) (rows : Incidents)
      → reopen_incident now team_id incident_id s.incidents ≡ ok rows
      → Step cfg parse_uuid s (record s { incidents = rows })
  snooze :
      (now until : ℕ) (team_id incident_id : Uuid) (rows : Incidents)
      → snooze_incident now until team_id incident_id s.incidents ≡ ok rows
      → Step cfg parse_uuid s (record s { incidents = rows })
  recover :
      (now : ℕ) (team_id : Uuid) (fingerprint : String)
      → Step cfg parse_uuid s
          (record s { incidents = resolve_by_fingerprint now team_id fingerprint s.incidents })
  create :
      (now : ℕ) (new_id : Uuid) (given : Incident) (rows : Incidents)
      → create_incident now new_id given s.incidents ≡ ok rows
      → Step cfg parse_uuid s (record s { incidents = rows })

pub data Reach (cfg : ConfigStore) (parse_uuid : String → Option Uuid) (s : Escalations)
    : Escalations → Type 0 where
  here : Reach cfg parse_uuid s s
  next :
      {t u : Escalations}
      → Reach cfg parse_uuid s t
      → Step cfg parse_uuid t u
      → Reach cfg parse_uuid s u
