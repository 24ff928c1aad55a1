-- ===== src/Examples/Server.antt =====
-- The webhook on a disk that fills up and recovers.
use wachd.Base.{
  String, true, false, [], none, some, any, ok, ◌≡◌, ◌⊎◌, refl, if◌then◌else◌, str_eq, ◌==◌,
}
use wachd.Oncall.Types.{Uuid}
use wachd.Oncall.Manager.{Query}
use wachd.Store.Incidents.{matches_fingerprint, find_open_by_fingerprint, create_incident}
use wachd.Server.Payload.{Body, parse_webhook_payload, incident_fingerprint, service_of}
use wachd.Server.Webhook.{
  Team, Tables, Run, WebhookRequest, WebhookResponse, accepted, deduplicated, handle_webhook,
  fingerprint_of, on_firing,
}
use wachd.Server.Webhook.Recorded.{Promises}
use wachd.Server.Webhook.Answer.{
  IsAuthentic, authentic, handle_webhook-IsAuthentic, handle_webhook-Promises,
  handle_webhook-resolved,
}

abbrev same : String → String
same s = s

abbrev text_of : Uuid → String
text_of id = if id == 1 then "one" else "other"

abbrev ops : Team
ops = record { id = 1; webhook_secret = "s3cret" }

abbrev teams : Uuid → Query Team
teams id = if id == 1 then ok (some ops) else ok none

abbrev disk : String → Body
disk status = record {
  datadog = none;
  raw = some (λ key.
      if str_eq key "title"
      then some "disk full"
      else if str_eq key "status"
      then some status
      else none);
  grafana = none;
}

abbrev calm : Run
calm = record {
  now = 7;
  new_id = 42;
  faults = record {
    find = false;
    resolve = false;
    create = false;
    look_up = false;
    enqueue = false;
  };
  meanwhile = λ rows. rows;
  later = λ rows. rows;
}

abbrev empty : Tables
empty = record { incidents = []; jobs = []; pending = [] }

abbrev fired : Tables × WebhookResponse
fired = handle_webhook same same text_of teams calm (authentic 1 ops (disk "firing")) empty

fired_accepted : fired.1 ≡ accepted 42
unfolding handle_webhook on_firing parse_webhook_payload find_open_by_fingerprint create_incident
    incident_fingerprint service_of
fired_accepted = refl

abbrev fired_again : Tables × WebhookResponse
fired_again = handle_webhook same same text_of teams calm (authentic 1 ops (disk "firing")) fired.0

fired_again_deduplicated : fired_again.1 ≡ deduplicated 42
unfolding handle_webhook on_firing parse_webhook_payload find_open_by_fingerprint create_incident
    incident_fingerprint service_of
fired_again_deduplicated = refl

abbrev stranger : WebhookRequest
stranger = record {
  allowed = true;
  team_id = some 1;
  secret = "guess";
  body = some (disk "firing");
}

handle_webhook-IsAuthentic_example :
    IsAuthentic teams stranger
    ⊎ ((handle_webhook same same text_of teams calm stranger empty).0 ≡ empty)
handle_webhook-IsAuthentic_example =
    handle_webhook-IsAuthentic same same text_of teams calm stranger empty

handle_webhook-Promises_example :
    Promises 1
      (fingerprint_of same same text_of 1
        (disk "firing")
        (parse_webhook_payload same (disk "firing")))
      fired.0.jobs
      fired_again
unfolding parse_webhook_payload
handle_webhook-Promises_example =
    handle_webhook-Promises same same text_of teams calm 1 ops (disk "firing") fired.0 refl refl

handle_webhook-resolved_example :
    any
      (matches_fingerprint 1 (
        fingerprint_of same same text_of 1
          (disk "resolved")
          (parse_webhook_payload same (disk "resolved"))))
      (handle_webhook same same text_of teams calm
        (authentic 1 ops (disk "resolved"))
        fired.0).0.incidents
    ≡ false
unfolding parse_webhook_payload
handle_webhook-resolved_example =
    handle_webhook-resolved same same text_of teams calm 1 ops (disk "resolved") fired.0 refl refl
      refl
