-- ===== src/Server/Payload.antt =====
-- parseWebhookPayload and incidentFingerprint of cmd/server/main.go. A body is given by what it decodes
-- to in each of the three forms that the code tries, `none` where it does not decode. `fold` is
-- strings.ToLower after strings.TrimSpace, `digest` the SHA-256 digest in hex, `uuid_text` the text of a
-- UUID.
use wachd.Base.{String, Bool, false, not, ◌||◌, Option, none, some, if◌then◌else◌, str_eq}
use wachd.Oncall.Types.{Uuid}
use Prim.Native.String.{◌++◌}

-- The fields of DatadogWebhook that the code reads.
pub record DatadogWebhook : Type 0 where
  pub title : String
  pub body : String
  pub alert_type : String
  pub alert_transition : String
  pub hostname : String
  pub has_alert_id : Bool

pub record GrafanaWebhook : Type 0 where
  pub title : String
  pub rule_name : String
  pub state : String
  pub message : String

-- `raw` gives the text under a key, where the JSON object has text there.
pub record Body : Type 0 where
  pub datadog : Option DatadogWebhook
  pub raw : Option (String → Option String)
  pub grafana : Option GrafanaWebhook

pub record Alert : Type 0 where
  pub title : String
  pub message : String
  pub severity : String
  pub source : String
  pub resolved : Bool

abbrev pub is_set : String → Bool
is_set s = not (str_eq s "")

-- `x, _ := raw[key].(string)`
abbrev pub text_at : (String → Option String) → String → String
text_at raw key = elim (raw key) [ none ↦ "" | some s ↦ s ]

abbrev pub or_text : String → String → String
or_text s other = if is_set s then s else other

datadog_severity : String → String
datadog_severity alert_type =
    if str_eq alert_type "error"
    then "critical"
    else if str_eq alert_type "warning"
    then "high"
    else if str_eq alert_type "info"
    then "low"
    else if str_eq alert_type "success"
    then "info"
    else "unknown"

grafana_severity : String → String
grafana_severity state =
    if str_eq state "alerting" then "high" else if str_eq state "ok" then "low" else "unknown"

datadog_message : DatadogWebhook → String
datadog_message dd =
    if is_set dd.hostname then dd.body ++ (" (host: " ++ (dd.hostname ++ ")")) else dd.body

is_datadog : DatadogWebhook → Bool
is_datadog dd = dd.has_alert_id || is_set dd.alert_transition

is_grafana : GrafanaWebhook → Bool
is_grafana gf = is_set gf.state || is_set gf.rule_name

-- The service that handleWebhook reads for the fingerprint.
unfoldable pub service_of : Body → String
service_of body = elim body.raw [ none ↦ "" | some raw ↦ text_at raw "service" ]

module _ (fold : String → String) where
  datadog_alert : DatadogWebhook → Alert
  unfolding datadog_severity datadog_message
  datadog_alert dd = record {
    title = or_text dd.title "Datadog alert";
    message = datadog_message dd;
    severity = datadog_severity (fold dd.alert_type);
    source = "datadog";
    resolved = str_eq (fold dd.alert_type) "success";
  }

  -- A payload that names its source.
  named_alert : (String → Option String) → Alert
  named_alert raw = record {
    title = or_text (text_at raw "title") (or_text (text_at raw "name") "Alert");
    message = text_at raw "message";
    severity = or_text (text_at raw "severity") "unknown";
    source = text_at raw "source";
    resolved = str_eq (fold (text_at raw "status")) "resolved";
  }

  grafana_alert : GrafanaWebhook → Alert
  unfolding grafana_severity
  grafana_alert gf = record {
    title = or_text gf.title gf.rule_name;
    message = gf.message;
    severity = grafana_severity (fold gf.state);
    source = "grafana";
    resolved = str_eq (fold gf.state) "ok";
  }

  generic_alert : Option (String → Option String) → Alert
  unfolding named_alert
  generic_alert none = record {
    title = "Alert";
    message = "";
    severity = "unknown";
    source = "generic";
    resolved = false;
  }
  generic_alert (some raw) = record (named_alert raw) {
    message = or_text (text_at raw "message") (text_at raw "description");
    source = "generic";
  }

  try_grafana : Body → Alert
  unfolding grafana_alert generic_alert is_grafana
  try_grafana body = elim body.grafana [
    | none ↦ generic_alert body.raw
    | some gf ↦ if is_grafana gf then grafana_alert gf else generic_alert body.raw
  ]

  try_named : Body → Alert
  unfolding named_alert try_grafana
  try_named body = elim body.raw [
    | none ↦ try_grafana body
    | some raw ↦ if is_set (text_at raw "source") then named_alert raw else try_grafana body
  ]

  unfoldable pub parse_webhook_payload : Body → Alert
  unfolding datadog_alert try_named is_datadog
  parse_webhook_payload body = elim body.datadog [
    | none ↦ try_named body
    | some dd ↦ if is_datadog dd then datadog_alert dd else try_named body
  ]

  unfoldable pub incident_fingerprint :
      (String → String) → (Uuid → String) → Uuid → String → String → String → String
  incident_fingerprint digest uuid_text team_id source title service =
      digest
        (uuid_text team_id ++ ("|" ++ (source ++ ("|" ++ (fold title ++ ("|" ++ fold service))))))
