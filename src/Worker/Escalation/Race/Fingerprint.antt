-- ===== src/Worker/Escalation/Race/Fingerprint.antt =====
-- No statement takes an incident away or gives it another fingerprint.
use wachd.Base.{
  ℕ, String, Bool, true, false, [], ◌∷◌, Option, none, some, ok, if◌then◌else◌, ◌++◌, ◌≡◌, refl,
  arith, Bool-cases, inl, inr, ◌∙◌, subst,
}
use wachd.GoTime.{Time}
use wachd.Oncall.Types.{Uuid, TeamMember}
use wachd.Oncall.Manager.{ConfigStore}
use wachd.Store.Incidents.{
  Incident, Incidents, update_where, has_key, get_incident, increment_escalation_step,
  acknowledge_incident, resolve_incident, reopen_incident, snooze_incident, resolve_by_fingerprint,
  create_incident, new_row, resolved, acknowledged, reopened, snoozed,
}
use wachd.Store.Incidents.Rows.{get_incident-update_where, get_incident-append}
use wachd.Worker.Escalation.{Escalations, claim}
use wachd.Worker.Escalation.Race.{
  Step, check, acknowledge, resolve, reopen, snooze, recover, create, Reach, here, next,
}
use wachd.Worker.Escalation.Race.Cases.{check-cases}

-- What is found under a team and an id is found there afterwards, with the same fingerprint.
abbrev pub IsKept : Incidents → Incidents → Type 0
IsKept rows after =
    (team_id incident_id : Uuid) (r : Incident)
    → get_incident team_id incident_id rows ≡ some r
    → (r' : Incident) × (get_incident team_id incident_id after ≡ some r')
      × (r'.fingerprint ≡ r.fingerprint)

-- The change leaves the key and the fingerprint.
abbrev Leaves : (Incident → Incident) → Type 0
Leaves change =
    (r : Incident)
    → ((change r).id ≡ r.id)
      × ((change r).team_id ≡ r.team_id)
      × ((change r).fingerprint ≡ r.fingerprint)

same-IsKept : (rows : Incidents) → IsKept rows rows
same-IsKept rows team_id incident_id r e = (r, e, refl)

chosen_fingerprint :
    (b : Bool) (changed r : Incident)
    → changed.fingerprint ≡ r.fingerprint
    → (if b then changed else r).fingerprint ≡ r.fingerprint
chosen_fingerprint true changed r e = e
chosen_fingerprint false changed r e = refl

update_where-IsKept :
    (test : Incident → Bool) (change : Incident → Incident) (rows : Incidents)
    → Leaves change
    → IsKept rows (update_where test change rows)
update_where-IsKept test change rows leaves team_id incident_id r e = (
  if test r then change r else r,
  get_incident-update_where test change team_id incident_id rows
        (λ x. rw ((leaves x).0, (leaves x).1) refl)
      ∙ rw e refl,
  chosen_fingerprint (test r) (change r) r (leaves r).2,
)

-- A statement that gives the updated rows.
statement-IsKept :
    (test : Incident → Bool) (change : Incident → Incident) (before : Incidents) {rows : Incidents}
    → Leaves change
    → update_where test change before ≡ rows
    → IsKept before rows
statement-IsKept test change before leaves e =
    subst (IsKept before) e (update_where-IsKept test change before leaves)

increment-IsKept :
    (now : ℕ) (team_id id : Uuid) (step : ℕ) (rows : Incidents)
    → IsKept rows (increment_escalation_step now team_id id step rows).0
unfolding increment_escalation_step
increment-IsKept now team_id id step rows = update_where-IsKept _ _ rows (λ r. (refl, refl, refl))

claim-IsKept :
    (now : Time) (down : Bool) (read : Incident) (user : Option TeamMember) (s : Escalations)
    → IsKept s.incidents (claim now down read user s).incidents
unfolding claim
claim-IsKept now true read user s = same-IsKept s.incidents
claim-IsKept now false read none s =
    increment-IsKept now.nanos read.team_id read.id read.escalation_step s.incidents
claim-IsKept now false read (some user) s =
    let kept = increment-IsKept now.nanos read.team_id read.id read.escalation_step s.incidents in
    elim (Bool-cases
      (increment_escalation_step now.nanos read.team_id read.id read.escalation_step
        s.incidents).1) [ inl e ↦ rw e kept | inr e ↦ rw e kept ]

create_incident-IsKept :
    (now : ℕ) (new_id : Uuid) (given : Incident) (before : Incidents) {rows : Incidents}
    → create_incident now new_id given before ≡ ok rows
    → IsKept before rows
unfolding create_incident
create_incident-IsKept now new_id given before {rows} e =
    let same : before ++ new_row now new_id given ∷ [] ≡ rows = ground arith in
    subst (IsKept before) same (λ team_id incident_id r found. (
      r,
      get_incident-append team_id incident_id before (new_row now new_id given ∷ []) found,
      refl,
    ))

Step-IsKept :
    {cfg : ConfigStore} {parse_uuid : String → Option Uuid} {s t : Escalations}
    → Step cfg parse_uuid s t
    → IsKept s.incidents t.incidents
unfolding acknowledge_incident resolve_incident reopen_incident snooze_incident
    resolve_by_fingerprint
Step-IsKept {cfg} {parse_uuid} {s} (check now down read t e) =
    check-cases cfg parse_uuid now down read s (λ u. IsKept s.incidents u.incidents)
      (same-IsKept s.incidents) (λ user. claim-IsKept now down read user s) t e
Step-IsKept {s} (acknowledge now team_id incident_id user_id rows e) =
    statement-IsKept (has_key team_id incident_id) (acknowledged now user_id) s.incidents
      (λ r. (refl, refl, refl)) (ground arith)
Step-IsKept {s} (resolve now team_id incident_id) =
    update_where-IsKept _ (resolved now) s.incidents (λ r. (refl, refl, refl))
Step-IsKept {s} (reopen now team_id incident_id rows e) =
    statement-IsKept (has_key team_id incident_id) (reopened now) s.incidents
      (λ r. (refl, refl, refl)) (ground arith)
Step-IsKept {s} (snooze now until team_id incident_id rows e) =
    statement-IsKept (has_key team_id incident_id) (snoozed now until) s.incidents
      (λ r. (refl, refl, refl)) (ground arith)
Step-IsKept {s} (recover now team_id fingerprint) =
    update_where-IsKept _ (resolved now) s.incidents (λ r. (refl, refl, refl))
Step-IsKept {s} (create now new_id given rows e) =
    create_incident-IsKept now new_id given s.incidents {rows = rows} e

pub Reach-IsKept :
    {cfg : ConfigStore} {parse_uuid : String → Option Uuid} {s t : Escalations}
    → Reach cfg parse_uuid s t
    → IsKept s.incidents t.incidents
Reach-IsKept here team_id incident_id x found = (x, found, refl)
Reach-IsKept (next r st) team_id incident_id x found =
    let (y, e, same) = Reach-IsKept r team_id incident_id x found in
    let (z, e', same') = Step-IsKept st team_id incident_id y e in (z, e', same' ∙ same)
