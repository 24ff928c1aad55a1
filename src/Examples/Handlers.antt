-- ===== src/Examples/Handlers.antt =====
-- The incident handlers on a table with one incident.
use wachd.Base.{true, false, [], ◌∷◌, Option, some, ok, Result}
use wachd.Oncall.Types.{Uuid, TeamMember, Failure}
use wachd.Server.Webhook.{Tables}
use wachd.Server.Handlers.{Trouble, IncidentRequest}
use wachd.Examples.Worker.{outage, bob}

abbrev pub no_trouble : Trouble
no_trouble = record { look_up = false; update = false; enqueue = false; cancel = false }

abbrev pub for_incident : Uuid → IncidentRequest
for_incident id = record { team_id = some 1; allowed = true; incident_id = some id }

abbrev tables : Tables
tables = record { incidents = outage ∷ []; jobs = []; pending = [] }

abbrev pub bob_on_call : Uuid → Result Failure (Option TeamMember)
bob_on_call team_id = ok (some bob)
