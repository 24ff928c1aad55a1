-- ===== src/Store/Incidents/Rows.antt =====
-- Lemmas on the rows of the incidents table, shared by the proofs about its users.
use mathlib.Core.Option
use wachd.Base.{
  ◌++◌, ◌∙◌, Bool, true, false, [], ◌∷◌, some, any, ◌==◌, if◌then◌else◌, ◌≡◌, refl, arith,
  Bool-cases, inl, inr, ◌<◌,
}
use wachd.Oncall.Types.{Uuid}
use wachd.Store.Incidents.{Incident, Incidents, update_where, count_where, has_key, get_incident}

-- An incident is found only under its own id and team.
pub get_incident-has_key :
    (team_id incident_id : Uuid) (rows : Incidents) {r : Incident}
    → get_incident team_id incident_id rows ≡ some r
    → has_key team_id incident_id r ≡ true
unfolding get_incident
get_incident-has_key team_id incident_id [] e = cc
get_incident-has_key team_id incident_id (r ∷ rows) {r = found} e =
    ground (arith, get_incident-has_key team_id incident_id rows {r = found})

-- What a lookup finds after an update that leaves the keys alone.
pub get_incident-update_where :
    (test : Incident → Bool) (change : Incident → Incident) (team_id incident_id : Uuid)
    (rows : Incidents)
    → ((r : Incident) → has_key team_id incident_id (change r) ≡ has_key team_id incident_id r)
    → get_incident team_id incident_id (update_where test change rows)
      ≡ Option.map (λ r. if test r then change r else r) (get_incident team_id incident_id rows)
unfolding get_incident update_where
get_incident-update_where test change team_id incident_id [] keeps = refl
get_incident-update_where test change team_id incident_id (r ∷ rows) keeps =
    elim (Bool-cases (test r)) [
      | inl t ↦ rw t (
          ground
            (arith, keeps r, get_incident-update_where test change team_id incident_id rows keeps))
      | inr f ↦
          rw f
            (ground (arith, get_incident-update_where test change team_id incident_id rows keeps))
    ]

-- The primary key: no two rows have the same id.
abbrev pub HasPrimaryKey : Incidents → Type 0
HasPrimaryKey [] = Unit
HasPrimaryKey (r ∷ rows) = (any (λ s. s.id == r.id) rows ≡ false) × HasPrimaryKey rows

-- An update that leaves the ids alone keeps the primary key.
any_id-update_where :
    (test : Incident → Bool) (change : Incident → Incident) (id : Uuid) (rows : Incidents)
    → ((r : Incident) → (change r).id ≡ r.id)
    → any (λ s. s.id == id) (update_where test change rows) ≡ any (λ s. s.id == id) rows
unfolding update_where
any_id-update_where test change id [] keeps = refl
any_id-update_where test change id (r ∷ rows) keeps = elim (Bool-cases (test r)) [
  | inl t ↦ rw (t, keeps r, any_id-update_where test change id rows keeps)
  | inr f ↦ rw (f, any_id-update_where test change id rows keeps)
]

pub update_where-HasPrimaryKey :
    (test : Incident → Bool) (change : Incident → Incident) (rows : Incidents)
    → ((r : Incident) → (change r).id ≡ r.id)
    → HasPrimaryKey rows
    → HasPrimaryKey (update_where test change rows)
unfolding update_where
update_where-HasPrimaryKey test change [] keeps k = tt
update_where-HasPrimaryKey test change (r ∷ rows) keeps k = elim (Bool-cases (test r)) [
  | inl t ↦
      rw (t, keeps r)
        (
          any_id-update_where test change r.id rows keeps ∙ k.0,
          update_where-HasPrimaryKey test change rows keeps k.1,
        )
  | inr f ↦ rw f (
    any_id-update_where test change r.id rows keeps ∙ k.0,
    update_where-HasPrimaryKey test change rows keeps k.1,
  )
]

get_incident_listed :
    (team_id incident_id : Uuid) (rows : Incidents) {r : Incident}
    → get_incident team_id incident_id rows ≡ some r
    → any (λ s. s.id == incident_id) rows ≡ true
unfolding get_incident
get_incident_listed team_id incident_id [] e = cc
get_incident_listed team_id incident_id (r ∷ rows) {r = found} e =
    ground (arith, get_incident_listed team_id incident_id rows {r = found})

key_is_free :
    (team_id incident_id : Uuid) (r : Incident) (rows : Incidents) {found : Incident}
    → any (λ s. s.id == r.id) rows ≡ false
    → get_incident team_id incident_id rows ≡ some found
    → has_key team_id incident_id r ≡ false
key_is_free team_id incident_id r rows {found} fresh e =
    elim (Bool-cases (has_key team_id incident_id r)) [
      | inl same ↦
          let id_eq : r.id ≡ incident_id = ground arith in
          cc (rw id_eq at fresh, get_incident_listed team_id incident_id rows {r = found} e)
      | inr other ↦ other
    ]

-- A row that a test finds at all is the one under its key.
pub count_where-get_incident :
    (test : Incident → Bool) (team_id incident_id : Uuid) (rows : Incidents)
    → ((r : Incident) → test r ≡ true → has_key team_id incident_id r ≡ true)
    → HasPrimaryKey rows
    → 0 < count_where test rows
    → (r : Incident) × (get_incident team_id incident_id rows ≡ some r) × (test r ≡ true)
unfolding count_where get_incident
count_where-get_incident test team_id incident_id [] keyed k h = absurd (omega arith)
count_where-get_incident test team_id incident_id (r ∷ rows) keyed k h =
    elim (Bool-cases (test r)) [
      | inl t ↦ (r, rw (keyed r t), t)
      | inr f ↦
          let (found, e, t) =
            count_where-get_incident test team_id incident_id rows keyed k.1 (rw f at h) in
          (found, rw (key_is_free team_id incident_id r rows k.0 e) e, t)
    ]

pub get_incident-append :
    (team_id incident_id : Uuid) (rows more : Incidents) {r : Incident}
    → get_incident team_id incident_id rows ≡ some r
    → get_incident team_id incident_id (rows ++ more) ≡ some r
unfolding get_incident
get_incident-append team_id incident_id [] more e = cc
get_incident-append team_id incident_id (x ∷ rows) more {r} e =
    ground (arith, get_incident-append team_id incident_id rows more {r = r})

any_id-append :
    (id : Uuid) (rows : Incidents) (x : Incident)
    → any (λ s. s.id == id) rows ≡ false
    → (x.id == id) ≡ false
    → any (λ s. s.id == id) (rows ++ x ∷ []) ≡ false
any_id-append id [] x h k = rw k
any_id-append id (r ∷ rows) x h k = ground (arith, any_id-append id rows x)

-- A row with a fresh id keeps the primary key.
pub append-HasPrimaryKey :
    (rows : Incidents) (x : Incident)
    → any (λ s. s.id == x.id) rows ≡ false
    → HasPrimaryKey rows
    → HasPrimaryKey (rows ++ x ∷ [])
append-HasPrimaryKey [] x fresh k = (refl, tt)
append-HasPrimaryKey (r ∷ rows) x fresh k =
    (any_id-append r.id rows x k.0 (ground arith), append-HasPrimaryKey rows x (ground arith) k.1)
