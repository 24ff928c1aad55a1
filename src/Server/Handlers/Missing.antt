-- ===== src/Server/Handlers/Missing.antt =====
-- What the handlers do on an incident that the team does not have.
use wachd.Base.{ℕ, true, false, some, none, ◌≡◌, ◌↔◌, arith, Bool-cases, Option-cases, inl, inr}
use wachd.Oncall.Types.{Uuid}
use wachd.Store.Incidents.{get_incident}
use wachd.Server.Webhook.{Tables}
use wachd.Server.Handlers.{
  crashed, Trouble, handle_resolve_incident, checked_ids, looked_up, on_resolve, titled,
}

resolve_crashes :
    (now : ℕ) (trouble : Trouble) (team_id incident_id : Uuid) (s : Tables)
    → ((looked_up trouble team_id incident_id s (on_resolve now trouble team_id incident_id s)).1
        ≡ crashed)
      ↔ ((trouble.look_up ≡ false)
          × (trouble.update ≡ false)
          × (get_incident team_id incident_id s.incidents ≡ none))
unfolding looked_up on_resolve titled
resolve_crashes now trouble team_id incident_id s = elim (Bool-cases trouble.look_up) [
  | inl t ↦ rw t (ground arith)
  | inr f ↦ elim (Bool-cases trouble.update) [
    | inl t ↦ rw (f, t) (ground arith)
    | inr u ↦ elim (Option-cases (get_incident team_id incident_id s.incidents)) [
      | inl absent ↦ rw (f, u, absent) (ground arith)
      | inr (before, found) ↦ rw (f, u, found) (ground arith)
    ]
  ]
]

-- A permitted request to resolve an incident crashes exactly when no call fails and the team has no
-- such incident.
pub handle_resolve_incident-crashed :
    (now : ℕ) (trouble : Trouble) (team_id incident_id : Uuid) (s : Tables)
    → ((handle_resolve_incident now trouble
          (record { team_id = some team_id; allowed = true; incident_id = some incident_id })
          s).1
        ≡ crashed)
      ↔ ((trouble.look_up ≡ false)
          × (trouble.update ≡ false)
          × (get_incident team_id incident_id s.incidents ≡ none))
unfolding handle_resolve_incident checked_ids
handle_resolve_incident-crashed now trouble team_id incident_id s =
    resolve_crashes now trouble team_id incident_id s
