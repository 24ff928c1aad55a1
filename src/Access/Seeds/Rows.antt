-- ===== src/Access/Seeds/Rows.antt =====
-- What one iteration leaves in the tables.
use wachd.Base.{
  ◌==◌, ◌&&◌, eq_iff, ◌≡◌, refl, String, Bool, true, false, List, [], ◌∷◌, ◌++◌, some, Result, err,
  ok, Option-cases, Bool-cases, inl, inr, arith, any, any-append, str_eq, ◌>>=◌,
}
use wachd.Oncall.Types.{Uuid}
use wachd.Access.Groups.{NamedTeam}
use wachd.Access.Sso.{GroupMapping}
use wachd.Access.Seeds.{
  Setting, SeedFaults, SeedError, Seeded, seed, is_named, is_mapping, or_text,
  get_or_create_team_by_name, create_team, find_team, ensure_group_mapping_bootstrap, with_mapping,
}

abbrev pub is_team : Uuid → String → NamedTeam → Bool
is_team id name t = t.id == id && is_named name t

-- The group has a role in a team of that name.
abbrev pub IsMapped : Setting → Seeded → Type 0
IsMapped v s =
    (id : Uuid) × (any (is_team id v.team_name) s.teams ≡ true)
    × (any (is_mapping (or_text "entra" v.provider) v.group_id id) s.mappings ≡ true)

-- What is in the first list is in the second.
abbrev pub IsIn {ℓ} : {A : Type ℓ} → List A → List A → Type ℓ
IsIn {A = A} l m = (p : A → Bool) → any p l ≡ true → any p m ≡ true

str_refl : (s : String) → str_eq s s ≡ true
str_refl s = (eq_iff s s).1 refl

appended {ℓ} : {A : Type ℓ} (l : List A) (x : A) → IsIn l (l ++ x ∷ [])
appended l x p h = ground (arith, any-append p l (x ∷ []))

added {ℓ} :
    {A : Type ℓ} (l : List A) (x : A) (p : A → Bool) → p x ≡ true → any p (l ++ x ∷ []) ≡ true
added l x p h = ground (arith, any-append p l (x ∷ []))

-- A team of that name, and no team lost.
IsGot : String → List NamedTeam → Result SeedError (Uuid × List NamedTeam) → Type 0
IsGot name teams (err e) = Unit
IsGot name teams (ok found) = (any (is_team found.0 name) found.1 ≡ true) × IsIn teams found.1

find_team-found :
    (name : String) (teams : List NamedTeam) (id : Uuid)
    → find_team name teams ≡ some id
    → any (is_team id name) teams ≡ true
find_team-found name [] id e = cc
find_team-found name (t ∷ teams) id e = elim (Bool-cases (is_named name t)) [
  | inl b ↦ ground (arith, b, e)
  | inr b ↦ ground (arith, find_team-found name teams id (ground (arith, b, e)))
]

create_team-IsGot :
    (faults : SeedFaults) (new_id : Uuid) (name : String) (teams : List NamedTeam)
    → IsGot name teams (create_team faults new_id name teams)
unfolding IsGot
create_team-IsGot faults new_id name teams = elim (Bool-cases faults.secret) [
  | inl b ↦ rw b tt
  | inr b ↦ rw b (elim (Bool-cases faults.create) [
    | inl c ↦ rw c tt
    | inr c ↦
        rw c (added teams _ (is_team new_id name) (ground (arith, str_refl name)), appended teams _)
  ])
]

get_or_create_team_by_name-IsGot :
    (faults : SeedFaults) (new_id : Uuid) (name : String) (teams : List NamedTeam)
    → IsGot name teams (get_or_create_team_by_name faults new_id name teams)
unfolding IsGot get_or_create_team_by_name
get_or_create_team_by_name-IsGot faults new_id name teams = elim (Bool-cases faults.lookup) [
  | inl b ↦ rw b (create_team-IsGot faults new_id name teams)
  | inr b ↦ rw b (elim (Option-cases (find_team name teams)) [
    | inr (id, e) ↦ rw e (find_team-found name teams id e, λ p h. h)
    | inl e ↦ rw e (create_team-IsGot faults new_id name teams)
  ])
]

ensure-IsIn :
    (provider group_id : String) (team_id : Uuid) (role : String) (rows : List GroupMapping)
    → (any
          (is_mapping provider group_id team_id)
          (ensure_group_mapping_bootstrap provider group_id team_id role rows)
        ≡ true)
      × IsIn rows (ensure_group_mapping_bootstrap provider group_id team_id role rows)
unfolding ensure_group_mapping_bootstrap
ensure-IsIn provider group_id team_id role rows =
    elim (Bool-cases (any (is_mapping provider group_id team_id) rows)) [
      | inl b ↦ rw b (b, λ p h. h)
      | inr b ↦ rw b (
        added rows _ (is_mapping provider group_id team_id)
            (ground (arith, str_refl provider, str_refl group_id)),
        appended rows _,
      )
    ]

unfoldable pub IsSeeded : Setting → Seeded → Result SeedError Seeded → Type 0
IsSeeded v s (err e) = Unit
IsSeeded v s (ok next) =
    IsIn s.teams next.teams
    × IsIn s.mappings next.mappings
    × (str_eq v.team_name "" ≡ false → IsMapped v next)

with_mapping-IsSeeded :
    (faults : SeedFaults) (v : Setting) (s : Seeded) (r : Result SeedError (Uuid × List NamedTeam))
    → IsGot v.team_name s.teams r
    → IsSeeded v s (r >>= with_mapping faults v s.mappings)
unfolding IsGot IsSeeded
with_mapping-IsSeeded faults v s (err e) got = tt
with_mapping-IsSeeded faults v s (ok found) got = elim (Bool-cases faults.insert) [
  | inl b ↦ rw b tt
  | inr b ↦
      let e =
        ensure-IsIn (or_text "entra" v.provider) v.group_id found.0 (or_text "viewer" v.role)
          s.mappings in
      rw b (got.1, e.1, λ set. (found.0, got.0, e.0))
]

pub seed-IsSeeded :
    (faults : SeedFaults) (new_id : Uuid) (v : Setting) (s : Seeded)
    → IsSeeded v s (seed faults new_id v s)
unfolding IsSeeded seed
seed-IsSeeded faults new_id v s = elim (Bool-cases (str_eq v.team_name "")) [
  | inl b ↦ rw b (λ p h. h, λ p h. h, λ set. ground arith)
  | inr b ↦ rw b (
      with_mapping-IsSeeded faults v s _
        (get_or_create_team_by_name-IsGot faults new_id v.team_name s.teams))
]
