-- ===== src/Worker/Escalation/Race/Kept.antt =====
-- What holds of the table and the notices whatever happens, and why an update keeps it.
use wachd.Base.{◌≤◌, Bool, List, [], ◌∷◌, some, All, if◌then◌else◌, ◌≡◌, ◌≢◌, arith, ◌∙◌}
use wachd.Oncall.Types.{Uuid}
use wachd.Store.Incidents.{Incident, Incidents, update_where, has_key, get_incident}
use wachd.Store.Incidents.Rows.{
  HasPrimaryKey, get_incident-update_where, update_where-HasPrimaryKey,
}
use wachd.Worker.Escalation.{Notice, Escalations}

abbrev pub SameIncident : Notice → Notice → Type 0
SameIncident n m = (m.incident_id ≡ n.incident_id) × (m.team_id ≡ n.team_id)

-- No two notices are of the same step of the same incident.
abbrev pub NoneTwice : List Notice → Type 0
NoneTwice [] = Unit
NoneTwice (n ∷ ns) = All (λ m. SameIncident n m → m.step ≢ n.step) ns × NoneTwice ns

-- The incident of the notice is in the table, and has come as far as the notice's step.
abbrev pub IsRecorded : Incidents → Notice → Type 0
IsRecorded rows n =
    (r : Incident) × (get_incident n.team_id n.incident_id rows ≡ some r)
    × (n.step ≤ r.escalation_step)

pub record IsConsistent (s : Escalations) : Type 0 where
  pub keyed : HasPrimaryKey s.incidents
  pub recorded : All (IsRecorded s.incidents) s.notices
  pub none_twice : NoneTwice s.notices

pub All-map :
    {P Q : Notice → Type 0} (ns : List Notice) → ((n : Notice) → P n → Q n) → All P ns → All Q ns
All-map [] f h = tt
All-map (n ∷ ns) f h = (f n h.0, All-map ns f h.1)

-- A change of a row that keeps its key, and does not take its escalation back.
pub record IsForward (change : Incident → Incident) : Type 0 where
  pub id : (r : Incident) → (change r).id ≡ r.id
  pub team_id : (r : Incident) → (change r).team_id ≡ r.team_id
  pub step : (r : Incident) → r.escalation_step ≤ (change r).escalation_step

module _ (test : Incident → Bool) (change : Incident → Incident) (forward : IsForward change)
    (rows : Incidents) where
  pub has_key-change :
      (team_id incident_id : Uuid) (r : Incident)
      → has_key team_id incident_id (change r) ≡ has_key team_id incident_id r
  has_key-change team_id incident_id r = rw (forward.id r, forward.team_id r)

  update_where-IsRecorded :
      (n : Notice) → IsRecorded rows n → IsRecorded (update_where test change rows) n
  update_where-IsRecorded n (r, e, le) = (
    if test r then change r else r,
    get_incident-update_where test change n.team_id n.incident_id rows
          (has_key-change n.team_id n.incident_id)
        ∙ rw e,
    ground (arith, forward.step r),
  )

  pub update_where-IsConsistent :
      (ns : List Notice)
      → IsConsistent (record { incidents = rows; notices = ns })
      → IsConsistent (record { incidents = update_where test change rows; notices = ns })
  update_where-IsConsistent ns c = record {
    keyed = update_where-HasPrimaryKey test change rows forward.id c.keyed;
    recorded = All-map ns update_where-IsRecorded c.recorded;
    none_twice = c.none_twice;
  }
