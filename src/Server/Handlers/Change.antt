-- ===== src/Server/Handlers/Change.antt =====
-- What a handler's success means for the incidents.
use wachd.Base.{
  true, false, ◌&&◌, Option, none, some, ok, err, Result, ◌≡◌, refl, arith, Bool-cases,
  Option-cases, inl, inr, ◌==◌, if◌then◌else◌, ◌∙◌, ap, sym, Bool, [],
}
use wachd.Oncall.Types.{Uuid}
use wachd.Store.Incidents.{
  Incident, Incidents, StatementError, get_incident, update_where, has_key, update_indexed,
  meets_twin,
}
use wachd.Store.Incidents.Rows.{get_incident-has_key, get_incident-update_where}
use wachd.Store.Pending.{Pending}
use wachd.Server.Webhook.{Tables}
use wachd.Server.Handlers.{Reply, done, Trouble, IncidentRequest, checked_ids, looked_up, updated}

-- The request is allowed and names an incident of the team; that incident is changed as R says, and
-- every other incident stays.
abbrev pub IsChanged :
    (Uuid → Incident → Incident → Type 0) → IncidentRequest → Tables → Tables → Type 0
IsChanged R request s t =
    (team_id : Uuid) × (incident_id : Uuid) × (before : Incident) × (after : Incident)
    × (request.team_id ≡ some team_id)
    × (request.allowed ≡ true)
    × (request.incident_id ≡ some incident_id)
    × (get_incident team_id incident_id s.incidents ≡ some before)
    × R team_id before after
    × ((team id : Uuid)
        → get_incident team id t.incidents ≡ (
            if team == team_id && id == incident_id
            then some after
            else get_incident team id s.incidents))

other_key :
    (team_id incident_id team id : Uuid) (r : Incident)
    → (team == team_id && id == incident_id) ≡ false
    → has_key team id r ≡ true
    → has_key team_id incident_id r ≡ false
other_key team_id incident_id team id r other key = ground arith

pub change_row :
    (change : Incident → Incident) (team_id incident_id : Uuid) (rows : Incidents)
    {before : Incident}
    → ((r : Incident) → ((change r).id ≡ r.id) × ((change r).team_id ≡ r.team_id))
    → get_incident team_id incident_id rows ≡ some before
    → (team id : Uuid)
    → get_incident team id (update_where (has_key team_id incident_id) change rows) ≡ (
        if team == team_id && id == incident_id
        then some (change before)
        else get_incident team id rows)
change_row change team_id incident_id rows {before} keeps found team id =
    let step =
      get_incident-update_where (has_key team_id incident_id) change team id rows
        (λ r. rw ((keeps r).0, (keeps r).1) refl) in
    elim (Bool-cases (team == team_id && id == incident_id)) [
      | inl same ↦
          let team_eq : team ≡ team_id = ground arith in
          let id_eq : id ≡ incident_id = ground arith in
          let found_here : get_incident team id rows ≡ some before = rw (team_eq, id_eq) found in
          let key = get_incident-has_key team_id incident_id rows {r = before} found in
          rw same (step ∙ rw (found_here, key) refl)
      | inr other ↦ rw other (elim (Option-cases (get_incident team id rows)) [
        | inl absent ↦ step ∙ rw absent refl
        | inr (r, here) ↦
            let key = get_incident-has_key team id rows {r = r} here in
            step ∙ rw (here, other_key team_id incident_id team id r other key) refl
      ])
    ]

pub checked_ids_done :
    (request : IncidentRequest) (s : Tables) (go : Uuid → Uuid → Tables × Reply)
    → (checked_ids request s go).1 ≡ done
    → (team_id : Uuid) × (incident_id : Uuid) × (request.team_id ≡ some team_id)
      × (request.allowed ≡ true)
      × (request.incident_id ≡ some incident_id)
      × (checked_ids request s go ≡ go team_id incident_id)
unfolding checked_ids
checked_ids_done request s go e = elim (Option-cases request.team_id) [
  | inl absent ↦ absurd (ground (arith, rw absent at e))
  | inr (team_id, named) ↦ elim (Bool-cases request.allowed) [
    | inr shut ↦ absurd (ground (arith, rw (named, shut) at e))
    | inl let_in ↦ elim (Option-cases request.incident_id) [
      | inl absent ↦ absurd (ground (arith, rw (named, let_in, absent) at e))
      | inr (incident_id, which) ↦
          (team_id, incident_id, named, let_in, which, rw (named, let_in, which) refl)
    ]
  ]
]

pub looked_up_done :
    (trouble : Trouble) (team_id incident_id : Uuid) (s : Tables)
    (go : Option Incident → Tables × Reply)
    → (looked_up trouble team_id incident_id s go).1 ≡ done
    → looked_up trouble team_id incident_id s go ≡ go (get_incident team_id incident_id s.incidents)
unfolding looked_up
looked_up_done trouble team_id incident_id s go e = elim (Bool-cases trouble.look_up) [
  | inl t ↦ absurd (ground (arith, rw t at e))
  | inr f ↦ rw f refl
]

pub updated_done :
    (trouble : Trouble) (more : Pending → Pending) (incident : Option Incident)
    (result : Result StatementError Incidents) (s : Tables)
    → (updated trouble more incident result s).1 ≡ done
    → (rows : Incidents) × (before : Incident) × (result ≡ ok rows)
      × (incident ≡ some before)
      × ((updated trouble more incident result s).0
          ≡ record s { incidents = rows; pending = more s.pending })
unfolding updated
updated_done trouble more incident (err e) s d = absurd (ground arith)
updated_done trouble more none (ok rows) s d = elim (Bool-cases trouble.update) [
  | inl u ↦ absurd (ground (arith, rw u at d))
  | inr f ↦ absurd (ground (arith, rw f at d))
]
updated_done trouble more (some before) (ok rows) s d = elim (Bool-cases trouble.update) [
  | inl u ↦ absurd (ground (arith, rw u at d))
  | inr f ↦ (rows, before, refl, refl, rw f refl)
]

update_indexed_same :
    (test : Incident → Bool) (change : Incident → Incident) (rows : Incidents) {kept : Incidents}
    → update_indexed test change rows ≡ ok kept
    → kept ≡ update_where test change rows
update_indexed_same test change rows {kept} e = elim (Bool-cases (meets_twin test change [] rows)) [
  | inl u ↦ absurd (ground (arith, u))
  | inr v ↦ ground (arith, v)
]

-- A lookup and an UPDATE of the row under the key.
module _ (trouble : Trouble) (more : Pending → Pending) (change : Incident → Incident)
    (keeps : (r : Incident) → ((change r).id ≡ r.id) × ((change r).team_id ≡ r.team_id))
    (team_id incident_id : Uuid) (s : Tables) where
  abbrev LookupsAfter : Tables → Incident → Type 0
  LookupsAfter t before =
      (get_incident team_id incident_id s.incidents ≡ some before)
      × ((team id : Uuid)
          → get_incident team id t.incidents ≡ (
              if team == team_id && id == incident_id
              then some (change before)
              else get_incident team id s.incidents))

  abbrev statement : Option Incident → Tables × Reply
  statement incident =
      updated trouble more incident
        (update_indexed (has_key team_id incident_id) change s.incidents) s

  pub statement_done :
      (looked_up trouble team_id incident_id s statement).1 ≡ done
      → (before : Incident) × LookupsAfter
          (looked_up trouble team_id incident_id s statement).0
          before
  statement_done e =
      let through = looked_up_done trouble team_id incident_id s statement e in
      let (rows, before, ran, found, moved) =
        updated_done trouble more (get_incident team_id incident_id s.incidents)
          (update_indexed (has_key team_id incident_id) change s.incidents) s
          (ap (λ x. x.1) (sym through) ∙ e) in
      let result : (looked_up trouble team_id incident_id s statement).0.incidents
          ≡ update_where (has_key team_id incident_id) change s.incidents =
        ap (λ x. x.0.incidents) through
        ∙ ap (λ x. x.incidents) moved
        ∙ update_indexed_same _ _ _ ran in
      (
        before,
        (
          found,
          λ team id.
              ap (get_incident team id) result
              ∙ change_row change team_id incident_id s.incidents {before = before} keeps found team
                  id,
        ),
      )

-- The whole handler, given what its last part does.
pub checked_ids-IsChanged :
    (R : Uuid → Incident → Incident → Type 0) (request : IncidentRequest) (s : Tables)
    (go : Uuid → Uuid → Tables × Reply)
    → ((team_id incident_id : Uuid)
        → (go team_id incident_id).1 ≡ done
        → (before : Incident) × (after : Incident) × (get_incident team_id incident_id s.incidents
            ≡ some before)
          × R team_id before after
          × ((team id : Uuid)
              → get_incident team id (go team_id incident_id).0.incidents ≡ (
                  if team == team_id && id == incident_id
                  then some after
                  else get_incident team id s.incidents)))
    → (checked_ids request s go).1 ≡ done
    → IsChanged R request s (checked_ids request s go).0
checked_ids-IsChanged R request s go inner e =
    let (team_id, incident_id, named, let_in, which, through) = checked_ids_done request s go e in
    let (before, after, found, r, rows) =
      inner team_id incident_id (ap (λ x. x.1) (sym through) ∙ e) in
    (
      team_id,
      incident_id,
      before,
      after,
      named,
      let_in,
      which,
      found,
      r,
      λ team id. ap (λ x. get_incident team id x.0.incidents) through ∙ rows team id,
    )
