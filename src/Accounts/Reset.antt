-- ===== src/Accounts/Reset.antt =====
-- A password that was reset, and the login after it.
use wachd.Base.{
  ℕ, String, Bool, true, List, [], ◌∷◌, Option, none, some, ◌==◌, Result, Result-cases, ok, err,
  ◌≡◌, refl, ap, ◌∙◌, arith, inl, inr, Bool-cases, ◌≢◌,
}
use wachd.Oncall.Types.{Uuid}
use wachd.Oncall.Manager.{QueryError}
use wachd.Login.{LocalUser, PasswordPolicy, authenticate_local, on_user, is_locked, logged_in}
use wachd.Login.Lockout.{no_faults}
use wachd.Password.{codes, Classes, PasswordRules, Rejection, validate_policy}
use wachd.Store.Accounts.{
  Account, has_id, get_local_user_by_id, update_row, with_password, update_password_hash,
}
use wachd.Accounts.{
  Reply, password_reset, new_hash, reset_hashed, handle_reset_password, checked_hash,
  password_changed,
}

pub get-update_row :
    (id : Uuid) (change : Account → Account) (rows : List Account) (a : Account)
    → ((b : Account) → (change b).login.id ≡ b.login.id)
    → get_local_user_by_id id rows ≡ some a
    → get_local_user_by_id id (update_row id change rows) ≡ some (change a)
unfolding get_local_user_by_id update_row
get-update_row id change [] a same e = cc
get-update_row id change (b ∷ rows) a same e = elim (Bool-cases (has_id id b)) [
  | inl hit ↦
      let eq : b ≡ a = ground arith in
      let hit' : has_id id (change b) ≡ true = ap (λ i. i == id) (same b) ∙ hit in
      rw (hit, hit') (ap (λ c. some (change c)) eq)
  | inr miss ↦ ground (arith, get-update_row id change rows a same)
]

checked_hash-ok :
    (rejection : Option Rejection) (hashed : Option String) (h : String)
    → checked_hash rejection hashed ≡ ok h
    → (rejection ≡ none) × (hashed ≡ some h)
checked_hash-ok (some r) hashed h e = cc
checked_hash-ok none none h e = cc
checked_hash-ok none (some h') h e = (refl, cc)

checked_hash-err :
    (rejection : Option Rejection) (hashed : Option String) (reply : Reply)
    → checked_hash rejection hashed ≡ err reply
    → (reply ≢ password_reset) × (reply ≢ password_changed)
checked_hash-err (some r) hashed reply e = (λ same. cc, λ same. cc)
checked_hash-err none none reply e = (λ same. cc, λ same. cc)
checked_hash-err none (some h) reply e = cc

module _ (hash : List ℕ → Option String) (u : Classes) where
  -- The steps before a change went through.
  pub new_hash-ok :
      (policy : Result QueryError PasswordRules) (password h : String)
      → new_hash hash u policy password ≡ ok h
      → (rules : PasswordRules) × (policy ≡ ok rules)
        × (validate_policy u (codes password) rules ≡ none)
        × (hash (codes password) ≡ some h)
  unfolding new_hash
  new_hash-ok (err e) password h is_ok = cc
  new_hash-ok (ok rules) password h is_ok =
      let (accepted, hashed) =
        checked_hash-ok (validate_policy u (codes password) rules) (hash (codes password)) h
          is_ok in
      (rules, refl, accepted, hashed)

  pub new_hash-err :
      (policy : Result QueryError PasswordRules) (password : String) (reply : Reply)
      → new_hash hash u policy password ≡ err reply
      → (reply ≢ password_reset) × (reply ≢ password_changed)
  unfolding new_hash
  new_hash-err (err e) password reply refused = (λ same. cc, λ same. cc)
  new_hash-err (ok rules) password reply refused =
      checked_hash-err (validate_policy u (codes password) rules) (hash (codes password)) reply
        refused

  -- A reset that went through.
  handle_reset_password-inv :
      (down : Bool) (id : Uuid) (policy : Result QueryError PasswordRules) (password : String)
      (rows : List Account)
      → (handle_reset_password hash u down (some id) policy (some password) rows).1 ≡ password_reset
      → (h : String) × (new_hash hash u policy password ≡ ok h)
        × ((handle_reset_password hash u down (some id) policy (some password) rows).0
            ≡ update_password_hash id h true rows)
  unfolding handle_reset_password reset_hashed
  handle_reset_password-inv down id policy password rows done =
      elim (Result-cases (new_hash hash u policy password)) [
        | inl (h, e) ↦ (h, e, ground arith)
        | inr (reply, e) ↦ absurd ((new_hash-err policy password reply e).0 (ground arith))
      ]

  module _ (check : String → List ℕ → Bool) where
    -- The check of a login, whose password is a text.
    abbrev pub check_text : String → String → Bool
    check_text h password = check h (codes password)

    login_lem :
        (now : ℕ) (lockout : PasswordPolicy) (password : String) (user : LocalUser)
        → user.is_active ≡ true
        → user.locked_until ≡ none
        → check_text user.password_hash password ≡ true
        → (authenticate_local check_text now no_faults
            (ok (some user))
            (ok lockout)
            password
            user).1
          ≡ logged_in
    unfolding authenticate_local on_user is_locked
    login_lem now lockout password user active free matches = ground arith

    -- After a reset that is answered as done, on the account of an active user, locked or not, the account must
    -- change its password, the new password was accepted by the policy, and a login with it succeeds at any
    -- time; provided that bcrypt accepts a password for its own hash.
    pub handle_reset_password-logged_in :
        (now : ℕ) (lockout : PasswordPolicy) (down : Bool) (id : Uuid)
        (policy : Result QueryError PasswordRules) (password : String) (rows : List Account)
        (a : Account)
        → ((w : List ℕ) (h : String) → hash w ≡ some h → check h w ≡ true)
        → get_local_user_by_id id rows ≡ some a
        → a.login.is_active ≡ true
        → (handle_reset_password hash u down (some id) policy (some password) rows).1
          ≡ password_reset
        → (a' : Account) × (get_local_user_by_id id
              (handle_reset_password hash u down (some id) policy (some password) rows).0
            ≡ some a')
          × (a'.force_password_change ≡ true)
          × ((rules : PasswordRules) × (policy ≡ ok rules)
              × (validate_policy u (codes password) rules ≡ none))
          × ((authenticate_local check_text now no_faults
                (ok (some a'.login))
                (ok lockout)
                password
                a'.login).1
              ≡ logged_in)
    unfolding with_password update_password_hash
    handle_reset_password-logged_in now lockout down id policy password rows a bcrypt found active
          done =
        let (h, hashed, written) = handle_reset_password-inv down id policy password rows done in
        let (rules, e, accepted, made) = new_hash-ok policy password h hashed in
        let a' = with_password h true a in
        (
          a',
          ap (get_local_user_by_id id) written
              ∙ get-update_row id (with_password h true) rows a (λ b. refl) found,
          refl,
          (rules, e, accepted),
          login_lem now lockout password a'.login active refl (bcrypt (codes password) h made),
        )
