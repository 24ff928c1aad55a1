-- ===== src/Accounts.antt =====
-- Local accounts: the handlers of internal/auth/admin_handler.go for users, HandleChangePassword of
-- internal/auth/handler.go, and bootstrapAdmin of cmd/server/main.go. `hash` and `check` are bcrypt, `down` says that the database fails on
-- the statement that writes.
pub mod Reset
pub mod Bootstrap
pub mod Changed
pub mod Unique
use wachd.Base.{
  ℕ, String, Bool, true, false, not, ◌&&◌, ◌||◌, List, [], ◌∷◌, ◌++◌, any, is_nil, Option, none,
  some, ◌==◌, if◌then◌else◌, str_eq, Result, ok, err,
}
use wachd.Oncall.Types.{Uuid}
use wachd.Oncall.Manager.{QueryError}
use wachd.Store.Profile.{DbError, no_rows, failed}
use wachd.Login.{LocalUser}
use wachd.Access.{Session}
use wachd.Store.Accounts.{
  Account, AccountUpdate, NewAccount, create_local_user, update_local_user, delete_local_user,
  update_password_hash, get_local_user_by_id,
}
use wachd.Password.{
  codes, Classes, PasswordRules, Rejection, validate_policy, validate_default_policy, RandFailure,
}

pub data Reply : Type 0 where
  invalid_id invalid_json fields_required new_password_required : Reply
  internal_error already_in_use not_found unauthorized wrong_password crashed : Reply
  rejected : Rejection → Reply
  created updated deleted password_reset password_changed : Reply

pub record CreateBody : Type 0 where
  pub username : String
  pub email : String
  pub name : String
  pub password : String
  pub is_superadmin : Bool

pub record ChangeBody : Type 0 where
  pub current_password : String
  pub new_password : String

after_create : List Account → Result DbError (List Account) → List Account × Reply
after_create rows (ok rows') = (rows', created)
after_create rows (err e) = (rows, already_in_use)

after_update : List Account → Result DbError (List Account × Option Account) → List Account × Reply
after_update rows (ok (rows', none)) = (rows', crashed)
after_update rows (ok (rows', some a)) = (rows', updated)
after_update rows (err e) = (rows, internal_error)

unfoldable pub handle_update_user :
    Bool → Option Uuid → Option AccountUpdate → List Account → List Account × Reply
unfolding update_local_user after_update
handle_update_user down none body rows = (rows, invalid_id)
handle_update_user down (some id) none rows = (rows, invalid_json)
handle_update_user down (some id) (some u) rows =
    if down then (rows, internal_error) else after_update rows (update_local_user id u rows)

after_delete : List Account → Result DbError (List Account) → List Account × Reply
after_delete rows (ok rows') = (rows', deleted)
after_delete rows (err no_rows) = (rows, not_found)
after_delete rows (err failed) = (rows, internal_error)

unfoldable pub handle_delete_user : Bool → Option Uuid → List Account → List Account × Reply
unfolding delete_local_user after_delete
handle_delete_user down none rows = (rows, invalid_id)
handle_delete_user down (some id) rows =
    if down then (rows, internal_error) else after_delete rows (delete_local_user id rows)

-- The requests that change accounts.
pub data Request : Type 0 where
  add_user : Bool → Uuid → Result QueryError PasswordRules → Option CreateBody → Request
  edit_user : Bool → Option Uuid → Option AccountUpdate → Request
  remove_user : Bool → Option Uuid → Request
  reset_password : Bool → Option Uuid → Result QueryError PasswordRules → Option String → Request
  change_password :
      Bool → Bool → Result QueryError PasswordRules → Option Session → Option ChangeBody → Request

-- The password's rejection, and the hash if bcrypt makes one.
abbrev pub checked_hash : Option Rejection → Option String → Result Reply String
checked_hash (some rejection) hashed = err (rejected rejection)
checked_hash none none = err internal_error
checked_hash none (some h) = ok h

module _ (hash : List ℕ → Option String) (u : Classes) where
  -- GetPasswordPolicy, ValidatePolicy and HashPassword, which stand before each change of a password: the hash, or
  -- the reply.
  unfoldable pub new_hash : Result QueryError PasswordRules → String → Result Reply String
  new_hash (err e) password = err internal_error
  new_hash (ok rules) password =
      checked_hash (validate_policy u (codes password) rules) (hash (codes password))

  create_hashed :
      Bool → Uuid → CreateBody → Result Reply String → List Account → List Account × Reply
  unfolding create_local_user after_create
  create_hashed down new_id body (err reply) rows = (rows, reply)
  create_hashed down new_id body (ok h) rows =
      if down
      then (rows, already_in_use)
      else after_create rows (
          create_local_user new_id
            (record {
              username = body.username;
              email = body.email;
              name = body.name;
              password_hash = h;
              is_superadmin = body.is_superadmin;
              force_password_change = true;
            })
            rows)

  unfoldable pub handle_create_user :
      Bool
      → Uuid
      → Result QueryError PasswordRules
      → Option CreateBody
      → List Account
      → List Account × Reply
  unfolding create_hashed new_hash
  handle_create_user down new_id policy none rows = (rows, invalid_json)
  handle_create_user down new_id policy (some body) rows =
      if str_eq body.username ""
        || str_eq body.email ""
        || str_eq body.name ""
        || str_eq body.password ""
      then (rows, fields_required)
      else create_hashed down new_id body (new_hash policy body.password) rows

  reset_hashed : Bool → Uuid → Result Reply String → List Account → List Account × Reply
  unfolding update_password_hash
  reset_hashed down id (err reply) rows = (rows, reply)
  reset_hashed down id (ok h) rows =
      if down then (rows, internal_error) else (update_password_hash id h true rows, password_reset)

  -- A body that is no JSON, and one without a password, are both `none`.
  unfoldable pub handle_reset_password :
      Bool
      → Option Uuid
      → Result QueryError PasswordRules
      → Option String
      → List Account
      → List Account × Reply
  unfolding reset_hashed new_hash
  handle_reset_password down none policy body rows = (rows, invalid_id)
  handle_reset_password down (some id) policy none rows = (rows, new_password_required)
  handle_reset_password down (some id) policy (some password) rows =
      if str_eq password ""
      then (rows, new_password_required)
      else reset_hashed down id (new_hash policy password) rows

  module _ (check : String → List ℕ → Bool) where
    change_hashed : Bool → Uuid → Result Reply String → List Account → List Account × Reply
    unfolding update_password_hash
    change_hashed down id (err reply) rows = (rows, reply)
    change_hashed down id (ok h) rows =
        if down
        then (rows, internal_error)
        else (update_password_hash id h false rows, password_changed)

    change_of :
        Bool
        → Result QueryError PasswordRules
        → ChangeBody
        → Option Account
        → List Account
        → List Account × Reply
    unfolding change_hashed new_hash
    change_of down policy body none rows = (rows, unauthorized)
    change_of down policy body (some user) rows =
        if check user.login.password_hash (codes body.current_password)
        then change_hashed down user.login.id (new_hash policy body.new_password) rows
        else (rows, wrong_password)

    on_change_body :
        Bool
        → Bool
        → Result QueryError PasswordRules
        → Uuid
        → Option ChangeBody
        → List Account
        → List Account × Reply
    unfolding change_of get_local_user_by_id
    on_change_body read_down down policy id none rows = (rows, invalid_json)
    on_change_body read_down down policy id (some body) rows =
        if str_eq body.current_password "" || str_eq body.new_password ""
        then (rows, fields_required)
        else if read_down
        then (rows, unauthorized)
        else change_of down policy body (get_local_user_by_id id rows) rows

    -- The session in the request's context; `read_down` is the failure of the lookup of the user.
    unfoldable pub handle_change_password :
        Bool
        → Bool
        → Result QueryError PasswordRules
        → Option Session
        → Option ChangeBody
        → List Account
        → List Account × Reply
    unfolding on_change_body
    handle_change_password read_down down policy none body rows = (rows, unauthorized)
    handle_change_password read_down down policy (some sess) body rows = elim sess.local_user_id [
      | none ↦ (rows, unauthorized)
      | some id ↦ on_change_body read_down down policy id body rows
    ]

    unfoldable pub handle : Request → List Account → List Account × Reply
    unfolding handle_create_user handle_update_user handle_delete_user handle_reset_password
        handle_change_password
    handle (add_user down new_id policy body) rows = handle_create_user down new_id policy body rows
    handle (edit_user down id body) rows = handle_update_user down id body rows
    handle (remove_user down id) rows = handle_delete_user down id rows
    handle (reset_password down id policy body) rows =
        handle_reset_password down id policy body rows
    handle (change_password read_down down policy sess body) rows =
        handle_change_password read_down down policy sess body rows

    -- Requests one after the other.
    unfoldable pub handle_all : List Request → List Account → List Account
    unfolding handle
    handle_all [] rows = rows
    handle_all (request ∷ requests) rows = handle_all requests (handle request rows).0

-- The session that is stored under the request's cookie, if there is one, after the handler's reply.
unfoldable pub refresh_after : Bool → Reply → Option Session → Option Session
refresh_after fails password_changed (some sess) =
    if fails then some sess else some (record sess { force_password_change = false })
refresh_after fails reply stored = stored
