-- ===== src/Access/Tokens.antt =====
-- Which session a request has: BearerOrCookie of internal/auth/middleware.go, with the API tokens of
-- internal/store/api_tokens.go and the superadmin's handlers for them in internal/auth/admin_handler.go.
-- `digest` is the SHA-256 digest in hex, `get_session` is SessionStore.Get; times are instants in
-- nanoseconds. The time of a token's last use is left out.
pub mod Granted
pub mod Admitted
use wachd.Base.{
  ℕ, ◌+◌, String, Bool, true, false, not, ◌&&◌, ◌||◌, List, [], ◌∷◌, ◌++◌, Option, none, some, any,
  ◌==◌, if◌then◌else◌, str_eq, Result, ok, err, ◌>>=◌, ltb,
}
use wachd.Oncall.Types.{Uuid}
use wachd.Oncall.Manager.{Query, QueryError, query_failed}
use wachd.Access.{
  Session, TeamAccess, Roles, Refusal, unauthenticated, team_ids_of, roles_from,
  require_no_force_change, require_super_admin,
}
use wachd.Access.Groups.{Groups, get_local_user_teams, without}
use text.Mathlib.Text.{starts_with}
use Prim.Native.String.{len, slice}

pub record ApiToken : Type 0 where
  pub id : Uuid
  pub user_id : Uuid
  pub token_hash : String
  pub expires_at : Option ℕ

-- The columns of a local user that the session takes.
pub record TokenOwner : Type 0 where
  pub id : Uuid
  pub is_superadmin : Bool
  pub is_active : Bool

pub record Accounts : Type 0 where
  pub tokens : List ApiToken
  pub users : List TokenOwner
  pub groups : Groups

abbrev pub is_unexpired : ℕ → ApiToken → Bool
is_unexpired now t = elim t.expires_at [ none ↦ true | some end ↦ ltb now end ]

find_owner : Uuid → List TokenOwner → Option TokenOwner
find_owner user_id [] = none
find_owner user_id (u ∷ users) =
    if u.id == user_id && u.is_active then some u else find_owner user_id users

row_or :
    Option (ApiToken × TokenOwner) → Option (ApiToken × TokenOwner) → Option (ApiToken × TokenOwner)
row_or none other = other
row_or (some found) other = some found

with_owner : ApiToken → Option TokenOwner → Option (ApiToken × TokenOwner)
with_owner t none = none
with_owner t (some u) = some (t, u)

-- The first row of the join.
unfoldable pub get_api_token_with_user :
    ℕ → String → List TokenOwner → List ApiToken → Option (ApiToken × TokenOwner)
unfolding find_owner row_or with_owner
get_api_token_with_user now hash users [] = none
get_api_token_with_user now hash users (t ∷ tokens) =
    let rest = get_api_token_with_user now hash users tokens in
    if str_eq t.token_hash hash && is_unexpired now t
    then row_or (with_owner t (find_owner t.user_id users)) rest
    else rest

unfoldable pub create_api_token : Uuid → Uuid → String → Option ℕ → List ApiToken → List ApiToken
create_api_token new_id user_id hash expires_at tokens =
    tokens
    ++ record { id = new_id; user_id = user_id; token_hash = hash; expires_at = expires_at } ∷ []

abbrev pub is_token_of : Uuid → Uuid → ApiToken → Bool
is_token_of id user_id t = t.id == id && t.user_id == user_id

unfoldable pub delete_api_token : Uuid → Uuid → List ApiToken → List ApiToken × Bool
unfolding without
delete_api_token id user_id tokens =
    (without (is_token_of id user_id) tokens, any (is_token_of id user_id) tokens)

unfoldable pub session_of_owner : TokenOwner → List TeamAccess → Session
unfolding team_ids_of roles_from
session_of_owner user rows = record {
  identity_id = none;
  local_user_id = some user.id;
  team_ids = team_ids_of rows;
  roles = roles_from rows [];
  auth_type = "token";
  is_superadmin = user.is_superadmin;
  force_password_change = false;
}

-- The headers of a request, "" for a missing one, and the lookups of it that fail.
pub record Request : Type 0 where
  pub authorization : String
  pub cookie : String

pub record Faults : Type 0 where
  pub token_lookup : Bool
  pub team_lookup : Bool

-- A session that was found; a failed lookup counts as none.
abbrev pub or_unauthenticated : Query Session → Result Refusal Session
or_unauthenticated (err e) = err unauthenticated
or_unauthenticated (ok none) = err unauthenticated
or_unauthenticated (ok (some sess)) = ok sess

abbrev pub bearer_prefix : String
bearer_prefix = "Bearer "

-- strings.TrimPrefix(header, "Bearer "), of a header that has the prefix
abbrev pub bearer_of : String → String
bearer_of header = slice header (len bearer_prefix) (len header)

pub refuse : Session → Option Refusal → Result Refusal Session
refuse sess none = ok sess
refuse sess (some refusal) = err refusal

module _ (digest : String → String) (get_session : String → Query Session)
    (order : List TeamAccess → List TeamAccess) where
  unfoldable pub on_token :
      Faults → Accounts → String → Option (ApiToken × TokenOwner) → Result Refusal Session
  unfolding session_of_owner
  on_token faults db raw none = or_unauthenticated (get_session raw)
  on_token faults db raw (some (t, user)) =
      if str_eq t.token_hash (digest raw)
      then ok (
          session_of_owner user
            (if faults.team_lookup then [] else get_local_user_teams order user.id db.groups))
      else err unauthenticated

  unfoldable pub bearer_or_cookie : ℕ → Faults → Accounts → Request → Result Refusal Session
  unfolding on_token get_api_token_with_user
  bearer_or_cookie now faults db request =
      if starts_with request.authorization bearer_prefix
      then (let raw = bearer_of request.authorization in
          if faults.token_lookup
          then err unauthenticated
          else on_token faults db raw (get_api_token_with_user now (digest raw) db.users db.tokens))
      else if str_eq request.cookie ""
      then err unauthenticated
      else or_unauthenticated (get_session request.cookie)

  -- RequireAuth takes the cookie alone.
  unfoldable pub require_auth : Request → Result Refusal Session
  require_auth request =
      if str_eq request.cookie ""
      then err unauthenticated
      else or_unauthenticated (get_session request.cookie)

  -- The middlewares of the routes below /api/v1/teams, and those of the routes below /api/v1/admin.
  unfoldable pub team_route : ℕ → Faults → Accounts → Request → Result Refusal Session
  unfolding refuse
  team_route now faults db request = do
    sess ← bearer_or_cookie now faults db request
    refuse sess (require_no_force_change (some sess))

  unfoldable pub admin_route : ℕ → Faults → Accounts → Request → Result Refusal Session
  unfolding refuse
  admin_route now faults db request = do
    sess ← bearer_or_cookie now faults db request
    calm ← refuse sess (require_no_force_change (some sess))
    refuse calm (require_super_admin (some calm))
