-- ===== src/Access/Sso.antt =====
-- Team access of SSO users: SyncTeamAccess of internal/store/auth.go, with the statements on
-- group_mappings and sso_team_access, and the part of HandleCallback in internal/auth/handler.go that
-- follows the verified token. `trim` is strings.TrimSpace.
pub mod Rows
pub mod Synced
use wachd.Base.{
  ℕ, String, Bool, true, false, not, ◌&&◌, ◌||◌, List, [], ◌∷◌, ◌++◌, Option, none, some, any,
  is_nil, ◌==◌, if◌then◌else◌, str_eq,
}
use wachd.Oncall.Types.{Uuid, uuid_nil}
use wachd.Access.{Session, TeamAccess, team_ids_of, roles_from}
use wachd.Access.Groups.{NamedTeam, without}

pub record GroupMapping : Type 0 where
  pub provider : String
  pub sso_provider_id : Option Uuid
  pub group_id : String
  pub team_id : Uuid
  pub role : String

pub record SsoTeamAccess : Type 0 where
  pub identity_id : Uuid
  pub team_id : Uuid
  pub role : String

abbrev pub Rows : Type 0
Rows = List SsoTeamAccess

abbrev pub is_access : Uuid → Uuid → SsoTeamAccess → Bool
is_access identity_id team_id a = a.identity_id == identity_id && a.team_id == team_id

abbrev pub is_provider : Uuid → GroupMapping → Bool
is_provider provider_id m = elim m.sso_provider_id [
  | some id ↦ id == provider_id && not (provider_id == uuid_nil)
  | none ↦ str_eq m.provider "entra"
]

-- The WHERE clause of the query for the grants.
abbrev pub matches_mapping : Uuid → List String → GroupMapping → Bool
matches_mapping provider_id group_ids m =
    any (λ g. str_eq m.group_id g) group_ids && is_provider provider_id m

pub record TeamRole : Type 0 where
  pub team_id : Uuid
  pub role : String

unfoldable pub grants_of : Uuid → List String → List GroupMapping → List TeamRole
grants_of provider_id group_ids [] = []
grants_of provider_id group_ids (m ∷ mappings) =
    let rest = grants_of provider_id group_ids mappings in
    if matches_mapping provider_id group_ids m
    then record { team_id = m.team_id; role = m.role } ∷ rest
    else rest

-- INSERT … ON CONFLICT (identity_id, team_id) DO UPDATE SET role = EXCLUDED.role
unfoldable pub upsert_access : Uuid → TeamRole → Rows → Rows
upsert_access identity_id g [] =
    record { identity_id = identity_id; team_id = g.team_id; role = g.role } ∷ []
upsert_access identity_id g (a ∷ rows) =
    if is_access identity_id g.team_id a
    then record a { role = g.role } ∷ rows
    else a ∷ upsert_access identity_id g rows

-- Which statements of a run fail: the read of the mappings and of the rows, the INSERT for a team and the
-- DELETE of a team.
pub record SyncFaults : Type 0 where
  pub mappings : Bool
  pub existing : Bool
  pub upsert : Uuid → Bool
  pub revoke : Uuid → Bool
  pub revoke_all : Bool

-- The rows after a loop that stops at the first statement which fails, and whether it came to its end.
unfoldable pub upsert_all : SyncFaults → Uuid → List TeamRole → Rows → Rows × Bool
unfolding upsert_access
upsert_all faults identity_id [] rows = (rows, true)
upsert_all faults identity_id (g ∷ grants) rows =
    let rest = upsert_all faults identity_id grants (upsert_access identity_id g rows) in
    if faults.upsert g.team_id then (rows, false) else rest

-- The teams of the identity's rows that no grant keeps.
unfoldable pub to_revoke : Uuid → List TeamRole → Rows → List Uuid
to_revoke identity_id grants [] = []
to_revoke identity_id grants (a ∷ rows) =
    let rest = to_revoke identity_id grants rows in
    if a.identity_id == identity_id && not (any (λ g. g.team_id == a.team_id) grants)
    then a.team_id ∷ rest
    else rest

unfoldable pub revoke_each : SyncFaults → Uuid → List Uuid → Rows → Rows × Bool
unfolding without
revoke_each faults identity_id [] rows = (rows, true)
revoke_each faults identity_id (t ∷ teams) rows =
    let rest = revoke_each faults identity_id teams (without (is_access identity_id t) rows) in
    if faults.revoke t then (rows, false) else rest

revoke_others : SyncFaults → Uuid → List TeamRole → Rows × Bool → Rows × Bool
unfolding revoke_each to_revoke
revoke_others faults identity_id grants (rows, false) = (rows, false)
revoke_others faults identity_id grants (rows, true) =
    if faults.existing
    then (rows, false)
    else revoke_each faults identity_id (to_revoke identity_id grants rows) rows

module _ (trim : String → String) where
  unfoldable pub trimmed : List String → List String
  trimmed [] = []
  trimmed (g ∷ groups) = trim g ∷ trimmed groups

  -- The rows after the run, and whether it returned no error.
  unfoldable pub sync_team_access :
      SyncFaults → List GroupMapping → Uuid → List String → Uuid → Rows → Rows × Bool
  unfolding revoke_others upsert_all grants_of trimmed
  sync_team_access faults mappings identity_id group_ids provider_id rows =
      if is_nil group_ids
      then (if faults.revoke_all
          then (rows, false)
          else (without (λ a. a.identity_id == identity_id) rows, true))
      else if faults.mappings
      then (rows, false)
      else let grants = grants_of provider_id (trimmed group_ids) mappings in
        revoke_others faults identity_id grants (upsert_all faults identity_id grants rows)

-- The joined rows of an identity; `order` is ORDER BY t.name.
unfoldable pub access_by_team : SsoTeamAccess → List NamedTeam → List TeamAccess
access_by_team a [] = []
access_by_team a (t ∷ teams) =
    let rest = access_by_team a teams in
    if t.id == a.team_id
    then record { team_id = a.team_id; team_name = t.name; role = a.role } ∷ rest
    else rest

unfoldable pub access_rows : List NamedTeam → Uuid → Rows → List TeamAccess
unfolding access_by_team
access_rows teams identity_id [] = []
access_rows teams identity_id (a ∷ rows) =
    let rest = access_rows teams identity_id rows in
    if a.identity_id == identity_id then access_by_team a teams ++ rest else rest

unfoldable pub get_identity_teams :
    (List TeamAccess → List TeamAccess) → List NamedTeam → Uuid → Rows → List TeamAccess
unfolding access_rows
get_identity_teams order teams identity_id rows = order (access_rows teams identity_id rows)

-- How the callback ends, for an identity that is stored.
pub data CallbackReply : Type 0 where
  internal_error no_access : CallbackReply
  signed_in : Session → CallbackReply

-- The groups: those of the ID token or, if it has none, those that Microsoft Graph gives.
unfoldable pub groups_of : List String → Option (List String) → List String
groups_of claims graph =
    if is_nil claims then elim graph [ none ↦ [] | some groups ↦ groups ] else claims

sso_session : Uuid → List TeamAccess → Session
unfolding team_ids_of roles_from
sso_session identity_id rows = record {
  identity_id = some identity_id;
  local_user_id = none;
  team_ids = team_ids_of rows;
  roles = roles_from rows [];
  auth_type = "sso";
  is_superadmin = false;
  force_password_change = false;
}

-- The lookup of the teams and the storing of the session may fail.
pub record CallbackFaults : Type 0 where
  pub sync : SyncFaults
  pub teams : Bool
  pub session : Bool

module _ (trim : String → String) (order : List TeamAccess → List TeamAccess) where
  on_access : CallbackFaults → Uuid → List TeamAccess → CallbackReply
  unfolding sso_session
  on_access faults identity_id access =
      if is_nil access
      then no_access
      else if faults.session
      then internal_error
      else signed_in (sso_session identity_id access)

  unfoldable pub handle_callback :
      CallbackFaults
      → List GroupMapping
      → List NamedTeam
      → Uuid
      → Uuid
      → List String
      → Option (List String)
      → Rows
      → Rows × CallbackReply
  unfolding on_access sync_team_access get_identity_teams groups_of
  handle_callback faults mappings teams provider_id identity_id claims graph rows =
      let (synced, done) =
        sync_team_access trim faults.sync mappings identity_id (groups_of claims graph) provider_id
          rows in
      if not done
      then (synced, internal_error)
      else if faults.teams
      then (synced, internal_error)
      else (
        synced,
        on_access faults identity_id (get_identity_teams order teams identity_id synced),
      )
