-- ===== src/Server/Webhook/Recorded.antt =====
-- What the webhook's answer says of the table: a firing alert that was taken has an open incident.
use wachd.Base.{
  Result-cases, ◌⊎◌, ℕ, String, Bool, true, false, List, [], ◌∷◌, ◌++◌, some, any, ok, ◌≡◌, refl,
  arith, Bool-cases, Option-cases, inl, inr, ◌==◌, ◌&&◌, ◌||◌, eq_iff, ==_iff, ◌⊎◌,
}
use wachd.Oncall.Types.{Uuid}
use wachd.Store.Incidents.{
  Incident, Incidents, matches_fingerprint, select, latest, find_open_by_fingerprint,
  create_incident, new_row,
}
use wachd.Server.Webhook.{
  found_open, enqueue, Job, on_conflict, on_new, alert_job, accepted, deduplicated, creation_failed,
  Tables, Run, opened, WebhookResponse, on_firing,
}

-- A row with the id is active under the fingerprint.
abbrev pub is_open_under : Uuid → String → Uuid → Incidents → Bool
is_open_under team_id fingerprint id rows =
    any (λ r. r.id == id && matches_fingerprint team_id fingerprint r) rows

latest-select :
    (p q : Incident → Bool) (rows : Incidents) {r : Incident}
    → latest (select q rows) ≡ some r
    → (q r ≡ true) × (p r ≡ true → any p rows ≡ true)
unfolding latest select
latest-select p q [] e = cc
latest-select p q (x ∷ rows) {r = found} e = elim (Option-cases (latest (select q rows))) [
  | inl empty ↦ ground (arith, empty)
  | inr (s, at) ↦ ground (arith, at, latest-select p q rows {r = s} at)
]

pub find_open_by_fingerprint-is_open_under :
    (team_id : Uuid) (fingerprint : String) (rows : Incidents) {r : Incident}
    → find_open_by_fingerprint team_id fingerprint rows ≡ some r
    → is_open_under team_id fingerprint r.id rows ≡ true
unfolding find_open_by_fingerprint
find_open_by_fingerprint-is_open_under team_id fingerprint rows {r} e =
    let (matches, found) =
      latest-select (λ s. s.id == r.id && matches_fingerprint team_id fingerprint s)
        (matches_fingerprint team_id fingerprint) rows {r = r} e in
    found (rw ((==_iff r.id r.id).1 refl) matches)

pub any-append :
    (p : Incident → Bool) (rows : Incidents) (r : Incident)
    → any p (rows ++ r ∷ []) ≡ (any p rows || p r)
any-append p [] r = ground arith
any-append p (x ∷ rows) r = ground (arith, any-append p rows r)

is_new_row :
    (now : ℕ) (id team_id : Uuid) (fingerprint : String)
    → ((new_row now id (opened team_id fingerprint)).id == id
        && matches_fingerprint team_id fingerprint (new_row now id (opened team_id fingerprint)))
      ≡ true
is_new_row now id team_id fingerprint =
    rw
      (
        (==_iff id id).1 refl,
        (==_iff team_id team_id).1 refl,
        (eq_iff fingerprint fingerprint).1 refl,
      )
      refl

create_incident-is_open_under :
    (now : ℕ) (id team_id : Uuid) (fingerprint : String) (rows : Incidents) {rows' : Incidents}
    → create_incident now id (opened team_id fingerprint) rows ≡ ok rows'
    → is_open_under team_id fingerprint id rows' ≡ true
unfolding create_incident
create_incident-is_open_under now id team_id fingerprint rows e = ground (
  arith,
  any-append (λ r. r.id == id && matches_fingerprint team_id fingerprint r) rows
      (new_row now id (opened team_id fingerprint)),
  is_new_row now id team_id fingerprint,
)

-- A firing alert is answered in one of three ways, with what the answer promises.
pub Promises : Uuid → String → List Job → Tables × WebhookResponse → Type 0
Promises team_id fingerprint jobs (t, accepted id) =
    (is_open_under team_id fingerprint id t.incidents ≡ true)
    × ((t.jobs ≡ jobs) ⊎ (t.jobs ≡ jobs ++ alert_job id team_id ∷ []))
Promises team_id fingerprint jobs (t, deduplicated id) =
    (is_open_under team_id fingerprint id t.incidents ≡ true) × (t.jobs ≡ jobs)
Promises team_id fingerprint jobs (t, creation_failed) = t.jobs ≡ jobs
Promises team_id fingerprint jobs (t, _) = ⊥

found_open-is_open_under :
    (fails : Bool) (team_id : Uuid) (fingerprint : String) (rows : Incidents) {r : Incident}
    → found_open fails team_id fingerprint rows ≡ some r
    → is_open_under team_id fingerprint r.id rows ≡ true
unfolding found_open
found_open-is_open_under true team_id fingerprint rows e = cc
found_open-is_open_under false team_id fingerprint rows {r} e =
    find_open_by_fingerprint-is_open_under team_id fingerprint rows {r = r} e

enqueue-cases :
    (fails : Bool) (job : Job) (jobs : List Job)
    → (enqueue fails job jobs ≡ jobs) ⊎ (enqueue fails job jobs ≡ jobs ++ job ∷ [])
unfolding enqueue
enqueue-cases true job jobs = inl refl
enqueue-cases false job jobs = inr refl

on_conflict-Promises :
    (run : Run) (team_id : Uuid) (fingerprint : String) (s : Tables)
    → Promises team_id fingerprint s.jobs (on_conflict run team_id fingerprint s)
unfolding on_conflict Promises
on_conflict-Promises run team_id fingerprint s =
    elim (Option-cases (found_open run.faults.look_up team_id fingerprint s.incidents)) [
      | inl e ↦ rw (e, on_conflict) refl
      | inr (winner, e) ↦
          rw (e, on_conflict)
            (found_open-is_open_under _ team_id fingerprint s.incidents {r = winner} e, refl)
    ]

on_new-Promises :
    (run : Run) (team_id : Uuid) (fingerprint : String) (s : Tables)
    → Promises team_id fingerprint s.jobs (on_new run team_id fingerprint s)
unfolding on_new Promises
on_new-Promises run team_id fingerprint s = elim (Bool-cases run.faults.create) [
  | inl e ↦ rw e refl
  | inr f ↦
      elim (Result-cases
        (create_incident run.now run.new_id (opened team_id fingerprint) s.incidents)) [
          | inl (rows, e) ↦
              rw (f, e)
                (
                  create_incident-is_open_under run.now run.new_id team_id fingerprint s.incidents
                      e,
                  enqueue-cases run.faults.enqueue (alert_job run.new_id team_id) s.jobs,
                )
          | inr (failure, e) ↦
              rw (f, e)
                (on_conflict-Promises run team_id fingerprint
                  (record s { incidents = run.later s.incidents }))
        ]
]

pub on_firing-Promises :
    (run : Run) (team_id : Uuid) (fingerprint : String) (s : Tables)
    → Promises team_id fingerprint s.jobs (on_firing run team_id fingerprint s)
unfolding on_firing Promises
on_firing-Promises run team_id fingerprint s =
    elim (Option-cases (found_open run.faults.find team_id fingerprint s.incidents)) [
      | inl e ↦
          rw (e, on_firing)
            (on_new-Promises run team_id fingerprint
              (record s { incidents = run.meanwhile s.incidents }))
      | inr (existing, e) ↦
          rw (e, on_firing)
            (found_open-is_open_under _ team_id fingerprint s.incidents {r = existing} e, refl)
    ]
