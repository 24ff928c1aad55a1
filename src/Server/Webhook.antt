-- ===== src/Server/Webhook.antt =====
-- handleWebhook of cmd/server/main.go. Other requests and workers may change the table between two
-- statements of the handler: `meanwhile` and `later` are what they do, and `faults` says which calls
-- of the database and of the queue fail.
pub mod Recorded
pub mod Answer
use wachd.Base.{
  ℕ, String, Bool, true, false, List, [], ◌∷◌, ◌++◌, Option, none, some, if◌then◌else◌, str_eq, ok,
  err,
}
use wachd.Oncall.Types.{Uuid}
use wachd.Oncall.Manager.{Query}
use wachd.Store.Incidents.{
  Incident, Incidents, find_open_by_fingerprint, resolve_by_fingerprint, create_incident,
}
use wachd.Store.Pending.{Pending}
use wachd.Server.Payload.{Body, Alert, parse_webhook_payload, service_of, incident_fingerprint}

-- The jobs of the queue: EnqueueAlert and EnqueueIncidentResolved.
pub data Job : Type 0 where
  alert_job resolved_job : Uuid → Uuid → Job

pub record Tables : Type 0 where
  pub incidents : Incidents
  pub jobs : List Job
  pub pending : Pending

pub record Team : Type 0 where
  pub id : Uuid
  pub webhook_secret : String

-- `allowed` is the rate limiter's answer; an id or a body is `none` where it cannot be read.
pub record WebhookRequest : Type 0 where
  pub allowed : Bool
  pub team_id : Option Uuid
  pub secret : String
  pub body : Option Body

pub data WebhookResponse : Type 0 where
  too_many_requests invalid_team_id unauthorized unreadable_body : WebhookResponse
  recovered creation_failed : WebhookResponse
  deduplicated accepted : Uuid → WebhookResponse

pub record Faults : Type 0 where
  pub find : Bool
  pub resolve : Bool
  pub create : Bool
  pub look_up : Bool
  pub enqueue : Bool

-- One run of the handler: the clock, the new incident's id, and what goes on around it.
pub record Run : Type 0 where
  pub now : ℕ
  pub new_id : Uuid
  pub faults : Faults
  pub meanwhile : Incidents → Incidents
  pub later : Incidents → Incidents

unfoldable pub enqueue : Bool → Job → List Job → List Job
enqueue true job jobs = jobs
enqueue false job jobs = jobs ++ job ∷ []

unfoldable pub found_open : Bool → Uuid → String → Incidents → Option Incident
found_open true team_id fingerprint rows = none
found_open false team_id fingerprint rows = find_open_by_fingerprint team_id fingerprint rows

-- The incident that the handler gives to CreateIncident.
abbrev pub opened : Uuid → String → Incident
opened team_id fingerprint = record {
  id = 0;
  team_id = team_id;
  status = "open";
  fingerprint = some fingerprint;
  fired_at = 0;
  acknowledged_at = none;
  resolved_at = none;
  snoozed_until = none;
  escalation_step = 0;
  updated_at = 0;
  assigned_to = none;
}

enqueue_resolved : Bool → Uuid → Option Incident → List Job → List Job
unfolding enqueue
enqueue_resolved fails team_id none jobs = jobs
enqueue_resolved fails team_id (some r) jobs = enqueue fails (resolved_job r.id team_id) jobs

-- The alert has recovered.
unfoldable pub on_recovered : Run → Uuid → String → Tables → Tables × WebhookResponse
unfolding enqueue_resolved found_open
on_recovered run team_id fingerprint s =
    let rows = run.meanwhile s.incidents in
    if run.faults.resolve then (record s { incidents = rows }, recovered) else (
      record s {
        incidents = resolve_by_fingerprint run.now team_id fingerprint rows;
        jobs =
            enqueue_resolved run.faults.enqueue team_id
              (found_open run.faults.find team_id fingerprint s.incidents) s.jobs;
      },
      recovered,
    )

-- The insert met the index: the handler looks for the incident that was faster.
unfoldable pub on_conflict : Run → Uuid → String → Tables → Tables × WebhookResponse
unfolding found_open
on_conflict run team_id fingerprint s =
    elim (found_open run.faults.look_up team_id fingerprint s.incidents) [
      | none ↦ (s, creation_failed)
      | some winner ↦ (s, deduplicated winner.id)
    ]

unfoldable pub on_new : Run → Uuid → String → Tables → Tables × WebhookResponse
unfolding on_conflict enqueue
on_new run team_id fingerprint s =
    if run.faults.create
    then (s, creation_failed)
    else elim (create_incident run.now run.new_id (opened team_id fingerprint) s.incidents) [
      | ok rows ↦ (
        record s {
          incidents = rows;
          jobs = enqueue run.faults.enqueue (alert_job run.new_id team_id) s.jobs;
        },
        accepted run.new_id,
      )
      | err e ↦ on_conflict run team_id fingerprint (record s { incidents = run.later s.incidents })
    ]

-- The alert is firing.
unfoldable pub on_firing : Run → Uuid → String → Tables → Tables × WebhookResponse
unfolding on_new found_open
on_firing run team_id fingerprint s =
    elim (found_open run.faults.find team_id fingerprint s.incidents) [
      | some existing ↦ (s, deduplicated existing.id)
      | none ↦ on_new run team_id fingerprint (record s { incidents = run.meanwhile s.incidents })
    ]

module _ (fold digest : String → String) (uuid_text : Uuid → String) where
  unfoldable pub fingerprint_of : Uuid → Body → Alert → String
  fingerprint_of team_id body alert =
      incident_fingerprint fold digest uuid_text team_id alert.source alert.title (service_of body)

  unfoldable pub on_alert : Run → Uuid → Body → Alert → Tables → Tables × WebhookResponse
  unfolding on_firing on_recovered fingerprint_of
  on_alert run team_id body alert s =
      if alert.resolved
      then on_recovered run team_id (fingerprint_of team_id body alert) s
      else on_firing run team_id (fingerprint_of team_id body alert) s

  unfoldable pub on_body : Run → Uuid → Option Body → Tables → Tables × WebhookResponse
  unfolding on_alert
  on_body run team_id none s = (s, unreadable_body)
  on_body run team_id (some body) s = on_alert run team_id body (parse_webhook_payload fold body) s

  unfoldable pub on_team :
      Run → Uuid → WebhookRequest → Query Team → Tables → Tables × WebhookResponse
  unfolding on_body
  on_team run team_id request (ok (some team)) s =
      if str_eq team.webhook_secret request.secret
      then on_body run team_id request.body s
      else (s, unauthorized)
  on_team run team_id request (ok none) s = (s, unauthorized)
  on_team run team_id request (err e) s = (s, unauthorized)

  unfoldable pub on_team_id :
      (Uuid → Query Team) → Run → WebhookRequest → Tables → Tables × WebhookResponse
  unfolding on_team
  on_team_id get_team run request s = elim request.team_id [
    | none ↦ (s, invalid_team_id)
    | some team_id ↦ on_team run team_id request (get_team team_id) s
  ]

  unfoldable pub handle_webhook :
      (Uuid → Query Team) → Run → WebhookRequest → Tables → Tables × WebhookResponse
  unfolding on_team_id
  handle_webhook get_team run request s =
      if request.allowed then on_team_id get_team run request s else (s, too_many_requests)
