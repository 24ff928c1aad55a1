-- ===== src/Access/Sso/Rows.antt =====
-- What the statements of SyncTeamAccess in internal/store/auth.go do to the role of an identity in a team.
use wachd.Base.{
  String, Bool, true, false, not, ◌&&◌, List, [], ◌∷◌, Option, none, some, any, ◌==◌, if◌then◌else◌,
  ◌≡◌, refl, arith, Bool-cases, inl, inr, ◌∙◌, ap, subst, ==_iff,
}
use wachd.Oncall.Types.{Uuid}
use wachd.Access.Groups.{without}
use wachd.Access.Sso.{
  GroupMapping, Rows, TeamRole, SyncFaults, is_access, matches_mapping, grants_of, upsert_access,
  upsert_all, to_revoke, revoke_each,
}

-- The role of an identity in a team, if it has any.
unfoldable pub role_in : Uuid → Uuid → Rows → Option String
role_in identity_id team_id [] = none
role_in identity_id team_id (a ∷ rows) =
    if is_access identity_id team_id a then some a.role else role_in identity_id team_id rows

-- The role that a list of grants comes to for a team: the last one counts.
unfoldable pub last_role : Uuid → List TeamRole → Option String → Option String
last_role team_id [] before = before
last_role team_id (g ∷ grants) before =
    last_role team_id grants (if g.team_id == team_id then some g.role else before)

role_in-upsert_access :
    (identity_id other team_id : Uuid) (g : TeamRole) (rows : Rows)
    → role_in other team_id (upsert_access identity_id g rows) ≡ (
        if identity_id == other && g.team_id == team_id
        then some g.role
        else role_in other team_id rows)
unfolding role_in upsert_access
role_in-upsert_access identity_id other team_id g [] = ground arith
role_in-upsert_access identity_id other team_id g (a ∷ rows) =
    ground (arith, role_in-upsert_access identity_id other team_id g rows)

role_in-without :
    (identity_id other team_id t : Uuid) (rows : Rows)
    → role_in other team_id (without (is_access identity_id t) rows)
      ≡ (if identity_id == other && t == team_id then none else role_in other team_id rows)
unfolding role_in without
role_in-without identity_id other team_id t [] = ground arith
role_in-without identity_id other team_id t (a ∷ rows) =
    ground (arith, role_in-without identity_id other team_id t rows)

pub role_in-without_all :
    (identity_id other team_id : Uuid) (rows : Rows)
    → role_in other team_id (without (λ a. a.identity_id == identity_id) rows)
      ≡ (if identity_id == other then none else role_in other team_id rows)
unfolding role_in without
role_in-without_all identity_id other team_id [] = ground arith
role_in-without_all identity_id other team_id (a ∷ rows) =
    ground (arith, role_in-without_all identity_id other team_id rows)

pub role_in-upsert_all :
    (faults : SyncFaults) (identity_id other team_id : Uuid) (grants : List TeamRole) (rows : Rows)
    → (upsert_all faults identity_id grants rows).1 ≡ true
    → role_in other team_id (upsert_all faults identity_id grants rows).0 ≡ (
        if identity_id == other
        then last_role team_id grants (role_in other team_id rows)
        else role_in other team_id rows)
unfolding upsert_all last_role
role_in-upsert_all faults identity_id other team_id [] rows done = ground arith
role_in-upsert_all faults identity_id other team_id (g ∷ grants) rows done =
    elim (Bool-cases (faults.upsert g.team_id)) [
      | inl fails ↦ absurd (ground arith)
      | inr works ↦
          let next = upsert_access identity_id g rows in
          let placed = role_in-upsert_access identity_id other team_id g rows in
          let ih =
            role_in-upsert_all faults identity_id other team_id grants next (rw works at done) in
          rw works (elim (Bool-cases (identity_id == other)) [
            | inl own ↦ rw own ((rw own at ih) ∙ ap (last_role team_id grants) (rw own at placed))
            | inr foreign ↦ rw foreign ((rw foreign at ih) ∙ (rw foreign at placed))
          ])
    ]

pub role_in-revoke_each :
    (faults : SyncFaults) (identity_id other team_id : Uuid) (teams : List Uuid) (rows : Rows)
    → (revoke_each faults identity_id teams rows).1 ≡ true
    → role_in other team_id (revoke_each faults identity_id teams rows).0 ≡ (
        if identity_id == other && any (λ t. t == team_id) teams
        then none
        else role_in other team_id rows)
unfolding revoke_each
role_in-revoke_each faults identity_id other team_id [] rows done = ground arith
role_in-revoke_each faults identity_id other team_id (t ∷ teams) rows done =
    elim (Bool-cases (faults.revoke t)) [
      | inl fails ↦ absurd (ground arith)
      | inr works ↦ ground (
        arith,
        role_in-revoke_each faults identity_id other team_id teams
            (without (is_access identity_id t) rows),
        role_in-without identity_id other team_id t rows,
      )
    ]

-- A team that no grant names keeps what it had, and another's role does not depend on that.
pub last_role-ungranted :
    (team_id : Uuid) (grants : List TeamRole) (before : Option String)
    → any (λ g. g.team_id == team_id) grants ≡ false
    → last_role team_id grants before ≡ before
unfolding last_role
last_role-ungranted team_id [] before h = refl
last_role-ungranted team_id (g ∷ grants) before h =
    ground (arith, last_role-ungranted team_id grants before)

pub last_role-granted :
    (team_id : Uuid) (grants : List TeamRole) (before : Option String)
    → any (λ g. g.team_id == team_id) grants ≡ true
    → last_role team_id grants before ≡ last_role team_id grants none
unfolding last_role
last_role-granted team_id [] before h = cc
last_role-granted team_id (g ∷ grants) before h = elim (Bool-cases (g.team_id == team_id)) [
  | inl same ↦ rw same refl
  | inr other ↦ rw other (last_role-granted team_id grants before (ground arith))
]

abbrev pub is_granted : List TeamRole → Uuid → Bool
is_granted grants team_id = any (λ g. g.team_id == team_id) grants

abbrev pub is_some {ℓ} : {A : Type ℓ} → Option A → Bool
is_some none = false
is_some (some a) = true

pub any-to_revoke :
    (identity_id team_id : Uuid) (grants : List TeamRole) (rows : Rows)
    → any (λ t. t == team_id) (to_revoke identity_id grants rows)
      ≡ (is_some (role_in identity_id team_id rows) && not (is_granted grants team_id))
unfolding to_revoke role_in
any-to_revoke identity_id team_id grants [] = refl
any-to_revoke identity_id team_id grants (a ∷ rows) = elim (Bool-cases (a.team_id == team_id)) [
  | inl same ↦
      subst
        (λ t.
          any (λ x. x == t) (to_revoke identity_id grants (a ∷ rows))
          ≡ (is_some (role_in identity_id t (a ∷ rows)) && not (is_granted grants t)))
        ((==_iff a.team_id team_id).0 same)
        (ground (arith, any-to_revoke identity_id a.team_id grants rows))
  | inr other ↦ ground (arith, any-to_revoke identity_id team_id grants rows)
]

-- The role of the last mapping of one of the groups to the team.
unfoldable pub mapped_role :
    Uuid → List String → Uuid → List GroupMapping → Option String → Option String
mapped_role provider_id group_ids team_id [] before = before
mapped_role provider_id group_ids team_id (m ∷ mappings) before =
    mapped_role provider_id group_ids team_id mappings (
      if matches_mapping provider_id group_ids m && m.team_id == team_id
      then some m.role
      else before)

pub last_role-grants_of :
    (provider_id : Uuid) (group_ids : List String) (team_id : Uuid) (mappings : List GroupMapping)
    (before : Option String)
    → last_role team_id (grants_of provider_id group_ids mappings) before
      ≡ mapped_role provider_id group_ids team_id mappings before
unfolding last_role grants_of mapped_role
last_role-grants_of provider_id group_ids team_id [] before = refl
last_role-grants_of provider_id group_ids team_id (m ∷ mappings) before =
    elim (Bool-cases (matches_mapping provider_id group_ids m)) [
      | inl fits ↦ rw fits (last_role-grants_of provider_id group_ids team_id mappings _)
      | inr other ↦ rw other (last_role-grants_of provider_id group_ids team_id mappings before)
    ]
