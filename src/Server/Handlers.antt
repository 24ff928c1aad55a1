-- ===== src/Server/Handlers.antt =====
-- The handlers of cmd/server/main.go that a person uses on an incident: handleAcknowledgeIncident,
-- handleResolveIncident, handleReopenIncident and handleSnoozeIncident. After the UPDATE each of them
-- prints the title of the incident that it looked up before, and a missing incident is a nil pointer.
pub mod Change
pub mod Done
pub mod Missing
pub mod Cancel
use wachd.Base.{
  ℕ, Bool, false, Option, none, some, if◌then◌else◌, ok, err, Result, ◌+◌, ◌*◌, ltb, ◌&&◌, leb,
}
use wachd.Base.Int.{ℤ, pos, negsuc}
use wachd.GoTime.{nanos_per_minute}
use wachd.Oncall.Types.{Uuid, TeamMember, Failure}
use wachd.Store.Incidents.{
  Incident, Incidents, StatementError, get_incident, acknowledge_incident, resolve_incident,
  reopen_incident, snooze_incident,
}
use wachd.Store.Pending.{Pending, cancel_pending_notifications}
use wachd.Server.Webhook.{resolved_job, Tables, enqueue}

-- `crashed` is the nil dereference: net/http recovers it and drops the connection.
pub data Reply : Type 0 where
  bad_request forbidden not_found failed crashed done : Reply

-- Which calls fail: the lookup, the UPDATE, the queue and the cancelling of notifications.
pub record Trouble : Type 0 where
  pub look_up : Bool
  pub update : Bool
  pub enqueue : Bool
  pub cancel : Bool

-- `allowed` is requireTeamAccess; an id is `none` where it does not parse.
pub record IncidentRequest : Type 0 where
  pub team_id : Option Uuid
  pub allowed : Bool
  pub incident_id : Option Uuid

-- The part that the handlers begin with, up to the incident's id.
unfoldable pub checked_ids :
    IncidentRequest → Tables → (Uuid → Uuid → Tables × Reply) → Tables × Reply
checked_ids request s go = elim request.team_id [
  | none ↦ (s, bad_request)
  | some team_id ↦
      if request.allowed
      then elim request.incident_id [
        | none ↦ (s, bad_request)
        | some incident_id ↦ go team_id incident_id
      ]
      else (s, forbidden)
]

-- incident.Title
unfoldable pub titled : Option Incident → Reply
titled none = crashed
titled (some incident) = done

-- The lookup, which finds a missing incident without an error.
unfoldable pub looked_up :
    Trouble → Uuid → Uuid → Tables → (Option Incident → Tables × Reply) → Tables × Reply
looked_up trouble team_id incident_id s go =
    if trouble.look_up then (s, not_found) else go (get_incident team_id incident_id s.incidents)

-- An UPDATE that may fail, or break the index, and what a success does to the pending notifications.
unfoldable pub updated :
    Trouble
    → (Pending → Pending)
    → Option Incident
    → Result StatementError Incidents
    → Tables
    → Tables × Reply
unfolding titled
updated trouble more incident (ok rows) s =
    if trouble.update
    then (s, failed)
    else (record s { incidents = rows; pending = more s.pending }, titled incident)
updated trouble more incident (err e) s = (s, failed)

unfoldable pub acknowledger : Option TeamMember → Uuid
acknowledger none = 0
acknowledger (some member) = member.id

unfoldable pub cancelled : ℕ → Trouble → Uuid → Pending → Pending
unfolding cancel_pending_notifications
cancelled now trouble incident_id pending =
    if trouble.cancel then pending else cancel_pending_notifications now incident_id pending

-- `on_call` is GetCurrentOnCall's answer for the team. A panic in it, which net/http recovers, cuts the request
-- off without a reply and without a change; `failed` stands for that, too.
unfoldable pub on_acknowledge :
    ℕ
    → Result Failure (Option TeamMember)
    → Trouble
    → Uuid
    → Uuid
    → Tables
    → Option Incident
    → Tables × Reply
unfolding updated acknowledger cancelled
on_acknowledge now (ok member) trouble team_id incident_id s incident =
    updated trouble (cancelled now trouble incident_id) incident
      (acknowledge_incident now team_id incident_id (acknowledger member) s.incidents) s
on_acknowledge now (err e) trouble team_id incident_id s incident = (s, failed)

unfoldable pub handle_acknowledge_incident :
    ℕ
    → (Uuid → Result Failure (Option TeamMember))
    → Trouble
    → IncidentRequest
    → Tables
    → Tables × Reply
unfolding checked_ids looked_up on_acknowledge
handle_acknowledge_incident now on_call trouble request s =
    checked_ids request s (λ team_id incident_id.
      looked_up trouble team_id incident_id s
        (on_acknowledge now (on_call team_id) trouble team_id incident_id s))

unfoldable pub on_resolve : ℕ → Trouble → Uuid → Uuid → Tables → Option Incident → Tables × Reply
unfolding titled enqueue
on_resolve now trouble team_id incident_id s incident = if trouble.update then (s, failed) else (
  record s {
    incidents = resolve_incident now team_id incident_id s.incidents;
    jobs = enqueue trouble.enqueue (resolved_job incident_id team_id) s.jobs;
  },
  titled incident,
)

unfoldable pub handle_resolve_incident : ℕ → Trouble → IncidentRequest → Tables → Tables × Reply
unfolding checked_ids looked_up on_resolve
handle_resolve_incident now trouble request s = checked_ids request s (λ team_id incident_id.
    looked_up trouble team_id incident_id s (on_resolve now trouble team_id incident_id s))

unfoldable pub handle_reopen_incident : ℕ → Trouble → IncidentRequest → Tables → Tables × Reply
unfolding checked_ids looked_up updated
handle_reopen_incident now trouble request s = checked_ids request s (λ team_id incident_id.
    looked_up trouble team_id incident_id s (λ incident.
      updated trouble (λ pending. pending) incident
        (reopen_incident now team_id incident_id s.incidents) s))

-- req.Minutes <= 0 || req.Minutes > 10080
unfoldable pub is_snooze : ℤ → Bool
is_snooze (pos minutes) = ltb 0 minutes && leb minutes 10080
is_snooze (negsuc minutes) = false

unfoldable pub minutes_after : ℕ → ℤ → ℕ
minutes_after now (pos minutes) = now + minutes * nanos_per_minute
minutes_after now (negsuc minutes) = now

unfoldable pub on_snooze : ℕ → Option ℤ → Trouble → Uuid → Uuid → Tables → Tables × Reply
unfolding looked_up updated is_snooze minutes_after
on_snooze now none trouble team_id incident_id s = (s, bad_request)
on_snooze now (some minutes) trouble team_id incident_id s =
    if is_snooze minutes
    then looked_up trouble team_id incident_id s (λ incident.
      updated trouble (λ pending. pending) incident
        (snooze_incident now (minutes_after now minutes) team_id incident_id s.incidents) s)
    else (s, bad_request)

-- `minutes` is `none` where the body does not decode.
unfoldable pub handle_snooze_incident :
    ℕ → Option ℤ → Trouble → IncidentRequest → Tables → Tables × Reply
unfolding checked_ids on_snooze
handle_snooze_incident now minutes trouble request s =
    checked_ids request s
      (λ team_id incident_id. on_snooze now minutes trouble team_id incident_id s)
