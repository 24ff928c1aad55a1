-- ===== src/Access.antt =====
-- Who may do what: the session of internal/auth/session.go with its tests in internal/auth/middleware.go, and
-- the gates of the team handlers in cmd/server/main.go. Of a session the fields that a test reads are kept.
pub mod Groups
pub mod Tokens
pub mod Seeds
pub mod Sso
use wachd.Base.{
  ℕ, String, Bool, true, false, ◌&&◌, ◌||◌, List, [], ◌∷◌, Option, none, some, any, ◌==◌,
  if◌then◌else◌, str_eq,
}
use wachd.Oncall.Types.{Uuid, uuid_nil}

-- The map from a team to the role in it, with one entry for each team.
abbrev pub Roles : Type 0
Roles = List (Uuid × String)

unfoldable pub put : Uuid → String → Roles → Roles
put team role [] = (team, role) ∷ []
put team role ((t, r) ∷ roles) =
    if t == team then (team, role) ∷ roles else (t, r) ∷ put team role roles

-- roles[team], which is "" for a missing key.
unfoldable pub role_of : Roles → Uuid → String
role_of [] team = ""
role_of ((t, r) ∷ roles) team = if t == team then r else role_of roles team

pub record Session : Type 0 where
  pub identity_id : Option Uuid
  pub local_user_id : Option Uuid
  pub team_ids : List Uuid
  pub roles : Roles
  pub auth_type : String
  pub is_superadmin : Bool
  pub force_password_change : Bool

unfoldable pub has_team_access : Session → Uuid → Bool
has_team_access sess team_id = sess.is_superadmin || any (λ t. t == team_id) sess.team_ids

unfoldable pub has_admin_role : Session → Bool
has_admin_role sess =
    sess.is_superadmin || any (λ (p : Uuid × String). str_eq p.1 "admin") sess.roles

-- A team's row of GetLocalUserTeams and of GetIdentityTeams.
pub record TeamAccess : Type 0 where
  pub team_id : Uuid
  pub team_name : String
  pub role : String

-- The two loops that make the session's teams and roles from the rows.
unfoldable pub team_ids_of : List TeamAccess → List Uuid
team_ids_of [] = []
team_ids_of (ta ∷ rows) = ta.team_id ∷ team_ids_of rows

unfoldable pub roles_from : List TeamAccess → Roles → Roles
unfolding put
roles_from [] roles = roles
roles_from (ta ∷ rows) roles = roles_from rows (put ta.team_id ta.role roles)

-- AUTH_DISABLED, and the session in the request's context.
pub record Caller : Type 0 where
  pub auth_disabled : Bool
  pub session : Option Session

unfoldable pub require_team_access : Caller → Uuid → Bool
unfolding has_team_access
require_team_access caller team_id =
    if caller.auth_disabled
    then true
    else elim caller.session [ none ↦ false | some sess ↦ has_team_access sess team_id ]

unfoldable pub require_team_admin : Caller → Uuid → Bool
unfolding role_of
require_team_admin caller team_id = if caller.auth_disabled then true else elim caller.session [
  | none ↦ false
  | some sess ↦ if sess.is_superadmin then true else str_eq (role_of sess.roles team_id) "admin"
]

unfoldable pub require_team_responder : Caller → Uuid → Bool
unfolding role_of
require_team_responder caller team_id = if caller.auth_disabled then true else elim caller.session [
  | none ↦ false
  | some sess ↦
      if sess.is_superadmin
      then true
      else let role = role_of sess.roles team_id in str_eq role "responder" || str_eq role "admin"
]

-- `*id`, and what stands for a nil pointer.
abbrev pub id_or : Option Uuid → Uuid → Uuid
id_or none other = other
id_or (some id) other = id

unfoldable pub caller_id : Caller → Uuid
caller_id caller = if caller.auth_disabled then uuid_nil else elim caller.session [
  | none ↦ uuid_nil
  | some sess ↦ id_or sess.local_user_id (id_or sess.identity_id uuid_nil)
]

unfoldable pub session_identity : Session → Uuid × String
session_identity sess = elim sess.local_user_id [
  | some id ↦ (id, "local")
  | none ↦ elim sess.identity_id [ some id ↦ (id, "sso") | none ↦ (uuid_nil, "local") ]
]

-- What a middleware answers instead of the handler.
pub data Refusal : Type 0 where
  unauthenticated forbidden password_change_required : Refusal

-- The middlewares, on the session that the one before them put into the context: `none` hands the request
-- on.
unfoldable pub require_admin : Option Session → Option Refusal
unfolding has_admin_role
require_admin none = some unauthenticated
require_admin (some sess) = if has_admin_role sess then none else some forbidden

unfoldable pub require_super_admin : Option Session → Option Refusal
require_super_admin none = some unauthenticated
require_super_admin (some sess) = if sess.is_superadmin then none else some forbidden

unfoldable pub require_no_force_change : Option Session → Option Refusal
require_no_force_change none = some unauthenticated
require_no_force_change (some sess) =
    if sess.force_password_change then some password_change_required else none
