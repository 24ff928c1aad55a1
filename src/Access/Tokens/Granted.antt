-- ===== src/Access/Tokens/Granted.antt =====
-- What the rows of GetLocalUserTeams and the gates of the team handlers go back to: the grants of the groups
-- that a user is in.
use wachd.Base.{
  any-append, String, Bool, true, false, ◌&&◌, ◌||◌, List, [], ◌∷◌, some, any, ◌==◌, if◌then◌else◌,
  str_eq, ◌≡◌, inl, inr, refl, arith, Bool-cases,
}
use wachd.Access.{
  Session, TeamAccess, Roles, Caller, put, role_of, roles_from, team_ids_of, require_team_access,
  require_team_admin, require_team_responder, Uuid,
}
use wachd.Access.Groups.{
  Groups, Membership, Grant, NamedTeam, rows_by_team, rows_by_grant, rows_by_member,
}

abbrev pub is_row : Uuid → (String → Bool) → TeamAccess → Bool
is_row team_id test ta = ta.team_id == team_id && test ta.role

-- The user is in a group with a grant to the team whose role passes the test.
unfoldable pub is_granted : Groups → Uuid → Uuid → (String → Bool) → Bool
is_granted g user_id team_id test =
    any
      (λ m.
        m.user_id == user_id
        && any (λ gr. gr.group_id == m.group_id && gr.team_id == team_id && test gr.role) g.grants)
      g.members

-- A row of the joins goes back to a grant.
rows_by_team-granted :
    (team_id : Uuid) (test : String → Bool) (g : Grant) (teams : List NamedTeam)
    → any (is_row team_id test) (rows_by_team g teams) ≡ true
    → (g.team_id == team_id && test g.role) ≡ true
unfolding rows_by_team
rows_by_team-granted team_id test g [] h = cc
rows_by_team-granted team_id test g (t ∷ teams) h =
    ground (arith, rows_by_team-granted team_id test g teams)

rows_by_grant-granted :
    (team_id : Uuid) (test : String → Bool) (teams : List NamedTeam) (m : Membership)
    (grants : List Grant)
    → any (is_row team_id test) (rows_by_grant teams m grants) ≡ true
    → any (λ gr. gr.group_id == m.group_id && gr.team_id == team_id && test gr.role) grants ≡ true
unfolding rows_by_grant
rows_by_grant-granted team_id test teams m [] h = cc
rows_by_grant-granted team_id test teams m (g ∷ grants) h =
    elim (Bool-cases (g.group_id == m.group_id)) [
      | inr other ↦ rw other (rows_by_grant-granted team_id test teams m grants (rw other at h))
      | inl same ↦ ground (
        arith,
        any-append (is_row team_id test) (rows_by_team g teams) (rows_by_grant teams m grants),
        rows_by_team-granted team_id test g teams,
        rows_by_grant-granted team_id test teams m grants,
      )
    ]

pub rows_by_member-granted :
    (team_id user_id : Uuid) (test : String → Bool) (g : Groups) (members : List Membership)
    → any (is_row team_id test) (rows_by_member g user_id members) ≡ true
    → any
        (λ m.
          m.user_id == user_id
          && any
              (λ gr. gr.group_id == m.group_id && gr.team_id == team_id && test gr.role)
              g.grants)
        members
      ≡ true
unfolding rows_by_member
rows_by_member-granted team_id user_id test g [] h = cc
rows_by_member-granted team_id user_id test g (m ∷ members) h =
    elim (Bool-cases (m.user_id == user_id)) [
      | inr other ↦ rw other (rows_by_member-granted team_id user_id test g members (rw other at h))
      | inl same ↦ ground (
        arith,
        any-append (is_row team_id test) (rows_by_grant g.teams m g.grants)
            (rows_by_member g user_id members),
        rows_by_grant-granted team_id test g.teams m g.grants,
        rows_by_member-granted team_id user_id test g members,
      )
    ]

role_of-put :
    (team other : Uuid) (role : String) (roles : Roles)
    → role_of (put team role roles) other ≡ (if team == other then role else role_of roles other)
unfolding role_of put
role_of-put team other role [] = refl
role_of-put team other role ((t, r) ∷ roles) = ground (arith, role_of-put team other role roles)

-- The role in the session is that of a row, or was there before.
pub role_of-roles_from :
    (team_id : Uuid) (test : String → Bool) (rows : List TeamAccess) (roles : Roles)
    → test (role_of (roles_from rows roles) team_id) ≡ true
    → (any (is_row team_id test) rows || test (role_of roles team_id)) ≡ true
unfolding roles_from
role_of-roles_from team_id test [] roles h = h
role_of-roles_from team_id test (ta ∷ rows) roles h = ground (
  arith,
  role_of-roles_from team_id test rows (put ta.team_id ta.role roles),
  role_of-put ta.team_id team_id ta.role roles,
)

pub any-team_ids_of :
    (team_id : Uuid) (rows : List TeamAccess)
    → any (λ t. t == team_id) (team_ids_of rows) ≡ any (is_row team_id (λ _. true)) rows
unfolding team_ids_of
any-team_ids_of team_id [] = refl
any-team_ids_of team_id (ta ∷ rows) = ground (arith, any-team_ids_of team_id rows)

-- The gates of the team handlers.
pub data Gate : Type 0 where
  access responder admin : Gate

abbrev pub passes : Gate → Caller → Uuid → Bool
passes access caller team_id = require_team_access caller team_id
passes responder caller team_id = require_team_responder caller team_id
passes admin caller team_id = require_team_admin caller team_id

-- The roles that open a gate.
abbrev pub opens : Gate → String → Bool
opens access role = true
opens responder role = str_eq role "responder" || str_eq role "admin"
opens admin role = str_eq role "admin"

abbrev pub signed_in : Session → Caller
signed_in sess = record { auth_disabled = false; session = some sess }
