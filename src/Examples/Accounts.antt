-- ===== src/Examples/Accounts.antt =====
-- Two local accounts, one of which is locked, and the passwords of ASCII.
use wachd.Base.{
  ℕ, String, Bool, true, false, ◌&&◌, List, [], ◌∷◌, length, Option, none, some, if◌then◌else◌, ltb,
  leb, Result, ok, ◌≡◌, ◌≢◌, ◌⊎◌, refl, arith, inl, inr, str_eq, Bool-cases, subst,
}
use text.Mathlib.TextPositions.{eq_refl}
use wachd.Base.Int.{pos}
use wachd.Oncall.Types.{Uuid}
use wachd.Oncall.Manager.{QueryError}
use wachd.Login.{authenticate_local, logged_in}
use wachd.Login.Lockout.{no_faults}
use wachd.Access.{Session}
use wachd.Password.{
  codes, Classes, PasswordRules, validate_policy, validate_default_policy, Random,
  generate_admin_password,
}
use wachd.Password.Accepted.{Disjoint}
use wachd.Password.Generated.{generate_admin_password-IsAccepted}
use wachd.Password.Generated.Swaps.{InRange, Drawn}
use wachd.Store.Accounts.{Account, get_local_user_by_id, account_of}
use wachd.Accounts.{
  Request, add_user, remove_user, handle_all, CreateBody, ChangeBody, handle_update_user,
  handle_reset_password, password_reset, handle_change_password, password_changed, crashed,
}
use wachd.Accounts.Changed.{Outcome, handle_change_password-Outcome}
use wachd.Accounts.Reset.{check_text, handle_reset_password-logged_in}

abbrev between : ℕ → ℕ → ℕ → Bool
between a b r = leb a r && leb r b

abbrev ascii : Classes
ascii = record {
  is_upper = between b'A' b'Z';
  is_lower = between b'a' b'z';
  is_digit = between b'0' b'9';
  is_punct = between b'!' b'/';
  is_symbol = between b'{' b'~';
}

ascii-Disjoint : Disjoint ascii
ascii-Disjoint = (
  λ r. ground arith,
  λ r. ground arith,
  λ r. ground arith,
  λ r. ground arith,
  λ r. ground arith,
  λ r. ground arith,
)

abbrev strict : PasswordRules
strict = record {
  min_length = pos 8;
  require_uppercase = true;
  require_lowercase = true;
  require_number = true;
  require_special = true;
}

abbrev good : List ℕ
good = codes "Pa55word!"

-- Every draw is the least.
abbrev least : Random
least k n = if ltb 0 n then some 0 else none

least-InRange : InRange least
least-InRange k n i e = ground arith

generate_admin_password-IsAccepted_example :
    Drawn least
      (λ w. (length w ≡ 16) × (validate_default_policy w ≡ none))
      (generate_admin_password least)
generate_admin_password-IsAccepted_example = generate_admin_password-IsAccepted least least-InRange

abbrev policy : Result QueryError PasswordRules
policy = ok strict

abbrev no_accounts : List Account
no_accounts = []

-- Not a hash: the number of code points decides.
abbrev toy_hash : List ℕ → Option String
toy_hash w = if leb (length w) 72 then some (if leb (length w) 9 then "short" else "long") else none

abbrev toy_check : String → List ℕ → Bool
toy_check h w = leb (length w) 72 && str_eq h (if leb (length w) 9 then "short" else "long")

abbrev user_of : Uuid → String → Option ℕ → Account
user_of id name locked = record {
  username = name;
  email = name;
  name = name;
  is_superadmin = false;
  force_password_change = false;
  login = record {
    id = id;
    password_hash = "long";
    is_active = true;
    failed_login_attempts = 5;
    locked_until = locked;
    last_login_at = none;
  };
}

abbrev two : List Account
two = user_of 1 "ann" none ∷ user_of 2 "bea" (some 900) ∷ []

-- bcrypt accepts what it has hashed.
toy_hash-toy_check : (w : List ℕ) (h : String) → toy_hash w ≡ some h → toy_check h w ≡ true
toy_hash-toy_check w h e = elim (Bool-cases (leb (length w) 72)) [
  | inl fits ↦
      let same : (if leb (length w) 9 then "short" else "long") ≡ h = ground arith in
      subst (λ h. toy_check h w ≡ true) same
        (rw (fits, eq_refl (if leb (length w) 9 then "short" else "long")) refl)
  | inr long ↦ ground arith
]

handle_reset_password-logged_in_example :
    (a' : Account) × (get_local_user_by_id 2
        (handle_reset_password toy_hash ascii false (some 2) policy (some "Pa55word!") two).0
      ≡ some a')
    × (a'.force_password_change ≡ true)
    × ((rules : PasswordRules) × (policy ≡ ok rules)
        × (validate_policy ascii (codes "Pa55word!") rules ≡ none))
    × ((authenticate_local
          (check_text toy_hash ascii toy_check)
          100
          no_faults
          (ok (some a'.login))
          (ok (record { max_failed_attempts = 5; lockout_duration_minutes = 30 }))
          "Pa55word!"
          a'.login).1
        ≡ logged_in)
unfolding get_local_user_by_id handle_reset_password validate_policy
handle_reset_password-logged_in_example =
    handle_reset_password-logged_in toy_hash ascii toy_check 100
      (record { max_failed_attempts = 5; lockout_duration_minutes = 30 }) false 2 policy "Pa55word!"
      two (user_of 2 "bea" (some 900)) toy_hash-toy_check refl refl refl

abbrev ann_session : Session
ann_session = record {
  identity_id = none;
  local_user_id = some 1;
  team_ids = [];
  roles = [];
  auth_type = "local";
  is_superadmin = false;
  force_password_change = true;
}

abbrev wish : ChangeBody
wish = record { current_password = "a password of ann"; new_password = "Pa55word!" }

handle_change_password-Outcome_example :
    ((s : Session) × (id : Uuid) × (given : ChangeBody) × (some ann_session ≡ some s)
      × (s.local_user_id ≡ some id)
      × (some wish ≡ some given)
      × Outcome toy_hash ascii toy_check policy id given two (
          handle_change_password toy_hash ascii toy_check false false policy
            (some ann_session)
            (some wish)
            two))
    ⊎ (((handle_change_password toy_hash ascii toy_check false false policy
            (some ann_session)
            (some wish)
            two).1
          ≢ password_changed)
        × ((handle_change_password toy_hash ascii toy_check false false policy
              (some ann_session)
              (some wish)
              two).0
            ≡ two))
handle_change_password-Outcome_example =
    handle_change_password-Outcome toy_hash ascii toy_check false false policy (some ann_session)
      (some wish) two

wish_is_granted :
    (handle_change_password toy_hash ascii toy_check false false policy
      (some ann_session)
      (some wish)
      two).1
    ≡ password_changed
unfolding handle_change_password validate_policy
wish_is_granted = refl

abbrev cat : CreateBody
cat = record {
  username = "cat";
  email = "ann";
  name = "Cat";
  password = "Pa55word!";
  is_superadmin = false;
}

abbrev three_requests : List Request
three_requests =
    add_user false 3 policy (some cat)
    ∷ remove_user false (some 1)
    ∷ add_user false 3 policy (some cat)
    ∷ []

-- Her email is free only after the account that had it is gone.
cat_is_second :
    get_local_user_by_id 3 (handle_all toy_hash ascii toy_check three_requests two)
    ≡ some (
        account_of 3 (record {
          username = "cat";
          email = "ann";
          name = "Cat";
          password_hash = "short";
          is_superadmin = false;
          force_password_change = true;
        }))
unfolding get_local_user_by_id handle_all validate_policy
cat_is_second = refl

-- An empty change of an account that is not there: the row that is nil is read.
nil_is_read :
    (handle_update_user false
      (some 7)
      (some (record { email = none; name = none; is_active = none }))
      two).1
    ≡ crashed
unfolding handle_update_user
nil_is_read = refl

-- A reset for an account that is not there is answered as done.
nobody_is_reset :
    handle_reset_password toy_hash ascii false (some 7) policy (some "Pa55word!") two
    ≡ (two, password_reset)
unfolding handle_reset_password validate_policy
nobody_is_reset = refl

-- Three code points of four bytes are long enough for twelve.
three_are_twelve :
    validate_policy ascii (0x1F600 ∷ 0x1F600 ∷ 0x1F600 ∷ []) (record {
      min_length = pos 12;
      require_uppercase = false;
      require_lowercase = false;
      require_number = false;
      require_special = false;
    })
    ≡ none
unfolding validate_policy
three_are_twelve = refl
