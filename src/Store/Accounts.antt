-- ===== src/Store/Accounts.antt =====
-- The table of local accounts: internal/store/local_users.go. A statement that would break a unique key fails
-- and changes nothing. The phone and the times of creation and change are left out.
use wachd.Base.{
  String, Bool, true, false, not, ◌&&◌, ◌||◌, List, [], ◌∷◌, ◌++◌, any, Option, none, some, ◌==◌,
  if◌then◌else◌, str_eq, Result, ok, err,
}
use wachd.Oncall.Types.{Uuid}
use wachd.Store.Profile.{DbError, no_rows, failed}
use wachd.Login.{LocalUser}
use wachd.Access.Groups.{without}

-- A row, with what a login reads and changes of it in `login`.
pub record Account : Type 0 where
  pub username : String
  pub email : String
  pub name : String
  pub is_superadmin : Bool
  pub force_password_change : Bool
  pub login : LocalUser

abbrev pub has_id : Uuid → Account → Bool
has_id id a = a.login.id == id

pub record NewAccount : Type 0 where
  pub username : String
  pub email : String
  pub name : String
  pub password_hash : String
  pub is_superadmin : Bool
  pub force_password_change : Bool

-- Whether an insert meets a unique key: the id, the username or the email.
abbrev pub is_taken : Uuid → NewAccount → Account → Bool
is_taken new_id n a = has_id new_id a || str_eq a.username n.username || str_eq a.email n.email

unfoldable pub account_of : Uuid → NewAccount → Account
account_of id n = record {
  username = n.username;
  email = n.email;
  name = n.name;
  is_superadmin = n.is_superadmin;
  force_password_change = n.force_password_change;
  login = record {
    id = id;
    password_hash = n.password_hash;
    is_active = true;
    failed_login_attempts = 0;
    locked_until = none;
    last_login_at = none;
  };
}

unfoldable pub create_local_user : Uuid → NewAccount → List Account → Result DbError (List Account)
unfolding account_of
create_local_user new_id n rows =
    if any (is_taken new_id n) rows then err failed else ok (rows ++ account_of new_id n ∷ [])

unfoldable pub get_local_user_by_id : Uuid → List Account → Option Account
get_local_user_by_id id [] = none
get_local_user_by_id id (a ∷ rows) = if has_id id a then some a else get_local_user_by_id id rows

pub record AccountUpdate : Type 0 where
  pub email : Option String
  pub name : Option String
  pub is_active : Option Bool

abbrev pub or_else {ℓ} : {A : Type ℓ} → Option A → A → A
or_else none a = a
or_else (some b) a = b

abbrev pub changes {ℓ} : {A : Type ℓ} → Option A → Bool
changes none = false
changes (some a) = true

unfoldable pub apply_update : AccountUpdate → Account → Account
apply_update u a = record a {
  email = or_else u.email a.email;
  name = or_else u.name a.name;
  login = record a.login { is_active = or_else u.is_active a.login.is_active };
}

-- UPDATE … WHERE id = $1
unfoldable pub update_row : Uuid → (Account → Account) → List Account → List Account
update_row id change [] = []
update_row id change (a ∷ rows) = (if has_id id a then change a else a) ∷ update_row id change rows

-- Another row has the new email.
abbrev pub has_email : Uuid → Option String → Account → Bool
has_email id none a = false
has_email id (some email) a = not (has_id id a) && str_eq a.email email

unfoldable pub update_found :
    Uuid
    → AccountUpdate
    → List Account
    → Option Account
    → Result DbError (List Account × Option Account)
unfolding update_row apply_update
update_found id u rows none = err no_rows
update_found id u rows (some a) =
    if any (has_email id u.email) rows
    then err failed
    else ok (update_row id (apply_update u) rows, some (apply_update u a))

-- The rows afterwards and the row that is returned.
unfoldable pub update_local_user :
    Uuid → AccountUpdate → List Account → Result DbError (List Account × Option Account)
unfolding update_found get_local_user_by_id
update_local_user id u rows =
    if not (changes u.email) && not (changes u.name) && not (changes u.is_active)
    then ok (rows, get_local_user_by_id id rows)
    else update_found id u rows (get_local_user_by_id id rows)

unfoldable pub delete_local_user : Uuid → List Account → Result DbError (List Account)
unfolding without
delete_local_user id rows =
    if any (has_id id) rows then ok (without (has_id id) rows) else err no_rows

unfoldable pub with_password : String → Bool → Account → Account
with_password hash force_change a = record a {
  force_password_change = force_change;
  login = record a.login { password_hash = hash; failed_login_attempts = 0; locked_until = none };
}

-- No error if there is no such row.
unfoldable pub update_password_hash : Uuid → String → Bool → List Account → List Account
unfolding update_row with_password
update_password_hash id hash force_change rows =
    update_row id (with_password hash force_change) rows
