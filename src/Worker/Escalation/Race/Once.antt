-- ===== src/Worker/Escalation/Race/Once.antt =====
-- No escalation step of an incident is ever notified twice.
use wachd.Base.{
  ℕ, String, Bool, false, [], ◌∷◌, ◌++◌, Option, any, ◌==◌, ok, ◌≡◌, refl, arith, subst,
}
use wachd.Oncall.Types.{Uuid}
use wachd.Oncall.Manager.{ConfigStore}
use wachd.Store.Incidents.{
  acknowledged, resolved, reopened, snoozed, new_row, Incident, Incidents, update_where, has_key,
  acknowledge_incident, resolve_incident, reopen_incident, snooze_incident, resolve_by_fingerprint,
  create_incident, matches_fingerprint,
}
use wachd.Store.Incidents.Rows.{HasPrimaryKey, get_incident-append, append-HasPrimaryKey}
use wachd.Worker.Escalation.{Escalations}
use wachd.Worker.Escalation.Race.{
  Step, check, acknowledge, resolve, reopen, snooze, recover, create, Reach, here, next,
}
use wachd.Worker.Escalation.Race.Kept.{NoneTwice, IsConsistent, All-map, update_where-IsConsistent}
use wachd.Worker.Escalation.Race.Cases.{check-cases}
use wachd.Worker.Escalation.Race.Claim.{claim-IsConsistent}

-- A statement that leaves the escalation steps alone.
module _ (s : Escalations) (c : IsConsistent s) where
  statement-IsConsistent :
      (test : Incident → Bool) (change : Incident → Incident) {rows : Incidents}
      → ((r : Incident)
          → ((change r).id ≡ r.id)
            × ((change r).team_id ≡ r.team_id)
            × ((change r).escalation_step ≡ r.escalation_step))
      → update_where test change s.incidents ≡ rows
      → IsConsistent (record s { incidents = rows })
  statement-IsConsistent test change keeps e =
      subst (λ rows. IsConsistent (record s { incidents = rows })) e
        (update_where-IsConsistent test change
          (record {
            id = λ r. (keeps r).0;
            team_id = λ r. (keeps r).1;
            step = λ r. omega (arith, (keeps r).2);
          })
          s.incidents s.notices c)

  create-IsConsistent :
      (now : ℕ) (new_id : Uuid) (given : Incident) {rows : Incidents}
      → create_incident now new_id given s.incidents ≡ ok rows
      → IsConsistent (record s { incidents = rows })
  unfolding create_incident
  create-IsConsistent now new_id given {rows} e =
      let row : Incident = new_row now new_id given in
      let fresh : any (λ r. r.id == new_id) s.incidents ≡ false = ground arith in
      let same : s.incidents ++ row ∷ [] ≡ rows = ground arith in
      subst (λ rows. IsConsistent (record s { incidents = rows })) same
        (record {
          keyed = append-HasPrimaryKey s.incidents row fresh c.keyed;
          recorded =
              All-map s.notices
                (λ n (r, found, le).
                  (r, get_incident-append n.team_id n.incident_id s.incidents (row ∷ []) found, le))
                c.recorded;
          none_twice = c.none_twice;
        })

Step-IsConsistent :
    {cfg : ConfigStore} {parse_uuid : String → Option Uuid} {s t : Escalations}
    → Step cfg parse_uuid s t
    → IsConsistent s
    → IsConsistent t
unfolding acknowledge_incident resolve_incident reopen_incident snooze_incident
    resolve_by_fingerprint
Step-IsConsistent {cfg} {parse_uuid} {s} (check now down read t e) c =
    check-cases cfg parse_uuid now down read s IsConsistent c
      (λ user. claim-IsConsistent now down read user s c) t e
Step-IsConsistent {s} (acknowledge now team_id incident_id user_id rows e) c =
    statement-IsConsistent s c (has_key team_id incident_id) (acknowledged now user_id)
      (λ r. (refl, refl, refl)) (ground arith)
Step-IsConsistent {s} (resolve now team_id incident_id) c =
    statement-IsConsistent s c (has_key team_id incident_id) (resolved now)
      (λ r. (refl, refl, refl)) refl
Step-IsConsistent {s} (reopen now team_id incident_id rows e) c =
    statement-IsConsistent s c (has_key team_id incident_id) (reopened now)
      (λ r. (refl, refl, refl)) (ground arith)
Step-IsConsistent {s} (snooze now until team_id incident_id rows e) c =
    statement-IsConsistent s c (has_key team_id incident_id) (snoozed now until)
      (λ r. (refl, refl, refl)) (ground arith)
Step-IsConsistent {s} (recover now team_id fingerprint) c =
    statement-IsConsistent s c (matches_fingerprint team_id fingerprint) (resolved now)
      (λ r. (refl, refl, refl)) refl
Step-IsConsistent {s} (create now new_id given rows e) c =
    create-IsConsistent s c now new_id given e

Reach-IsConsistent :
    {cfg : ConfigStore} {parse_uuid : String → Option Uuid} {s t : Escalations}
    → IsConsistent s
    → Reach cfg parse_uuid s t
    → IsConsistent t
Reach-IsConsistent c here = c
Reach-IsConsistent c (next r st) = Step-IsConsistent st (Reach-IsConsistent c r)

-- Whatever workers, people and webhooks do to the table, in any order, with rows read at any time and
-- with failing updates: no two notices are ever of the same step of the same incident. It starts from a
-- table whose ids are distinct, before the first notice.
pub Reach-NoneTwice :
    {cfg : ConfigStore} {parse_uuid : String → Option Uuid} (rows : Incidents) {t : Escalations}
    → HasPrimaryKey rows
    → Reach cfg parse_uuid (record { incidents = rows; notices = [] }) t
    → NoneTwice t.notices
Reach-NoneTwice rows k r =
    (Reach-IsConsistent (record { keyed = k; recorded = tt; none_twice = tt }) r).none_twice
