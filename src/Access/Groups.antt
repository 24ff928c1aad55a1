-- ===== src/Access/Groups.antt =====
-- Local groups: the statements of internal/store/local_groups.go on memberships and grants, and the handlers
-- of internal/auth/admin_handler.go that change them. ORDER BY is a parameter, `order`, since it leaves
-- open how rows with the same name stand.
use wachd.Base.{
  String, Bool, ◌&&◌, ◌||◌, List, [], ◌∷◌, ◌++◌, Option, none, some, any, ◌==◌, if◌then◌else◌,
  str_eq, ok, err,
}
use wachd.Oncall.Types.{Uuid}
use wachd.Oncall.Manager.{Query}
use wachd.Access.{TeamAccess}

pub record Membership : Type 0 where
  pub group_id : Uuid
  pub user_id : Uuid

pub record Grant : Type 0 where
  pub group_id : Uuid
  pub team_id : Uuid
  pub role : String

pub record NamedTeam : Type 0 where
  pub id : Uuid
  pub name : String

pub record Groups : Type 0 where
  pub members : List Membership
  pub grants : List Grant
  pub teams : List NamedTeam

abbrev pub is_membership : Uuid → Uuid → Membership → Bool
is_membership group_id user_id m = m.group_id == group_id && m.user_id == user_id

abbrev pub is_grant : Uuid → Uuid → Grant → Bool
is_grant group_id team_id g = g.group_id == group_id && g.team_id == team_id

-- DELETE … WHERE test
unfoldable pub without {ℓ} : {A : Type ℓ} → (A → Bool) → List A → List A
without test [] = []
without test (a ∷ rows) = let rest = without test rows in if test a then rest else a ∷ rest

unfoldable pub add_group_member : Uuid → Uuid → Groups → Groups
add_group_member group_id user_id g =
    if any (is_membership group_id user_id) g.members
    then g
    else record g { members = g.members ++ record { group_id = group_id; user_id = user_id } ∷ [] }

-- Says whether there was a row to delete.
unfoldable pub remove_group_member : Uuid → Uuid → Groups → Groups × Bool
unfolding without
remove_group_member group_id user_id g = (
  record g { members = without (is_membership group_id user_id) g.members },
  any (is_membership group_id user_id) g.members,
)

unfoldable pub set_role : Uuid → Uuid → String → List Grant → List Grant
set_role group_id team_id role [] = []
set_role group_id team_id role (g ∷ grants) =
    (if is_grant group_id team_id g then record g { role = role } else g)
    ∷ set_role group_id team_id role grants

-- INSERT … ON CONFLICT (group_id, team_id) DO UPDATE SET role = EXCLUDED.role
unfoldable pub grant_group_access : Uuid → Uuid → String → Groups → Groups
unfolding set_role
grant_group_access group_id team_id role g =
    if any (is_grant group_id team_id) g.grants
    then record g { grants = set_role group_id team_id role g.grants }
    else record g {
      grants = g.grants ++ record { group_id = group_id; team_id = team_id; role = role } ∷ [];
    }

unfoldable pub revoke_group_access : Uuid → Uuid → Groups → Groups × Bool
unfolding without
revoke_group_access group_id team_id g = (
  record g { grants = without (is_grant group_id team_id) g.grants },
  any (is_grant group_id team_id) g.grants,
)

-- The rows that the joins of GetLocalUserTeams give for one membership, one grant.
unfoldable pub rows_by_team : Grant → List NamedTeam → List TeamAccess
rows_by_team g [] = []
rows_by_team g (t ∷ teams) =
    let rest = rows_by_team g teams in
    if t.id == g.team_id
    then record { team_id = g.team_id; team_name = t.name; role = g.role } ∷ rest
    else rest

unfoldable pub rows_by_grant : List NamedTeam → Membership → List Grant → List TeamAccess
unfolding rows_by_team
rows_by_grant teams m [] = []
rows_by_grant teams m (g ∷ grants) =
    let rest = rows_by_grant teams m grants in
    if g.group_id == m.group_id then rows_by_team g teams ++ rest else rest

unfoldable pub rows_by_member : Groups → Uuid → List Membership → List TeamAccess
unfolding rows_by_grant
rows_by_member g user_id [] = []
rows_by_member g user_id (m ∷ members) =
    let rest = rows_by_member g user_id members in
    if m.user_id == user_id then rows_by_grant g.teams m g.grants ++ rest else rest

unfoldable pub get_local_user_teams :
    (List TeamAccess → List TeamAccess) → Uuid → Groups → List TeamAccess
unfolding rows_by_member
get_local_user_teams order user_id g = order (rows_by_member g user_id g.members)

pub data GrantReply : Type 0 where
  team_id_required invalid_team_id invalid_role internal_error team_not_found granted : GrantReply

-- The parsed body: `none` is a body that is no JSON, or one without a team.
pub record GrantRequest : Type 0 where
  pub team_id : Option (Option Uuid)
  pub role : String

abbrev pub is_role : String → Bool
is_role role = str_eq role "viewer" || str_eq role "responder" || str_eq role "admin"

abbrev pub role_or_viewer : String → String
role_or_viewer role = if str_eq role "" then "viewer" else role

-- `fails` is whether the INSERT fails.
grant_on_team : Query NamedTeam → Bool → Uuid → Uuid → String → Groups → Groups × GrantReply
unfolding grant_group_access
grant_on_team (err e) fails group_id team_id role g = (g, internal_error)
grant_on_team (ok none) fails group_id team_id role g = (g, team_not_found)
grant_on_team (ok (some team)) fails group_id team_id role g =
    if fails then (g, internal_error) else (grant_group_access group_id team_id role g, granted)

unfoldable pub handle_grant_group_access :
    (Uuid → Query NamedTeam) → Bool → Uuid → GrantRequest → Groups → Groups × GrantReply
unfolding grant_on_team
handle_grant_group_access get_team fails group_id request g = elim request.team_id [
  | none ↦ (g, team_id_required)
  | some parsed ↦ elim parsed [
    | none ↦ (g, invalid_team_id)
    | some team_id ↦
        if is_role (role_or_viewer request.role)
        then grant_on_team (get_team team_id) fails group_id team_id (role_or_viewer request.role) g
        else (g, invalid_role)
  ]
]
