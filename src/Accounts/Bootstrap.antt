-- ===== src/Accounts/Bootstrap.antt =====
-- The first admin: bootstrapAdmin of cmd/server/main.go. `injected` is WACHD_INITIAL_ADMIN_PASSWORD, which is
-- the empty text if it is not set.
use wachd.Base.{
  ℕ, String, Bool, true, false, not, List, [], ◌∷◌, is_nil, Option, Option-cases, none, some,
  if◌then◌else◌, str_eq, Result, ok, err, ◌≡◌, refl, sym, ap, subst, ◌∙◌, arith, inl, inr,
  Bool-cases, Result-cases,
}
use wachd.Oncall.Types.{Uuid}
use wachd.Store.Profile.{DbError}
use wachd.Password.{
  codes, Rejection, validate_default_policy, Random, RandFailure, generate_admin_password,
}
use wachd.Password.Generated.{generate_admin_password-IsAccepted}
use wachd.Password.Generated.Swaps.{InRange, Drawn}
use wachd.Store.Accounts.{Account, NewAccount, create_local_user, account_of}

-- Why no account was created; an earlier bootstrap is no error in the code.
pub data BootError : Type 0 where
  count_failed already_bootstrapped hash_failed create_failed : BootError
  injected_rejected : Rejection → BootError
  not_generated : RandFailure → BootError

-- The password, and whether it must be changed.
unfoldable pub initial_password : String → Random → Result BootError (List ℕ × Bool)
initial_password injected rand =
    if str_eq injected ""
    then elim (generate_admin_password rand) [
      | err e ↦ err (not_generated e)
      | ok password ↦ ok (password, true)
    ]
    else elim (validate_default_policy (codes injected)) [
      | some rejection ↦ err (injected_rejected rejection)
      | none ↦ ok (codes injected, false)
    ]

abbrev pub admin_with : String → Bool → NewAccount
admin_with hash force_change = record {
  username = "wachd_admin";
  email = "admin@wachd.local";
  name = "Wachd Admin";
  password_hash = hash;
  is_superadmin = true;
  force_password_change = force_change;
}

after_insert :
    List ℕ → List Account → Result DbError (List Account) → List Account × Result BootError (List ℕ)
after_insert password rows (ok rows') = (rows', ok password)
after_insert password rows (err e) = (rows, err create_failed)

module _ (hash : List ℕ → Option String) where
  insert_admin :
      Bool
      → Uuid
      → Result BootError (List ℕ × Bool)
      → List Account
      → List Account × Result BootError (List ℕ)
  unfolding create_local_user after_insert
  insert_admin down new_id (err e) rows = (rows, err e)
  insert_admin down new_id (ok (password, force_change)) rows = elim (hash password) [
    | none ↦ (rows, err hash_failed)
    | some h ↦
        if down
        then (rows, err create_failed)
        else after_insert password rows (create_local_user new_id (admin_with h force_change) rows)
  ]

  -- The rows afterwards, and the password of the account if one was created.
  unfoldable pub bootstrap_admin :
      Bool → Bool → String → Random → Uuid → List Account → List Account × Result BootError (List ℕ)
  unfolding insert_admin initial_password
  bootstrap_admin count_down down injected rand new_id rows =
      if count_down
      then (rows, err count_failed)
      else if not (is_nil rows)
      then (rows, err already_bootstrapped)
      else insert_admin down new_id (initial_password injected rand) rows

  initial_password-IsAccepted :
      (injected : String) (rand : Random)
      → InRange rand
      → (password : List ℕ) (force : Bool) → initial_password injected rand ≡ ok (password, force)
      → (validate_default_policy password ≡ none) × (force ≡ str_eq injected "")
  unfolding initial_password
  initial_password-IsAccepted injected rand fair password force made =
      elim (Bool-cases (str_eq injected "")) [
        | inl drawn ↦ elim (Result-cases (generate_admin_password rand)) [
          | inl (w, e) ↦
              let good = subst (Drawn rand _) e (generate_admin_password-IsAccepted rand fair) in
              let same : w ≡ password = ground arith in
              let forced : true ≡ force = ground arith in
              (subst (λ w. validate_default_policy w ≡ none) same good.1, sym forced ∙ sym drawn)
          | inr (f, e) ↦ ground arith
        ]
        | inr given ↦ elim (Option-cases (validate_default_policy (codes injected))) [
          | inl accepted ↦
              let same : codes injected ≡ password = ground arith in
              let unforced : false ≡ force = ground arith in
              (
                subst (λ w. validate_default_policy w ≡ none) same accepted,
                sym unforced ∙ sym given,
              )
          | inr (r, e) ↦ ground arith
        ]
      ]

  insert_admin-inv :
      (down : Bool) (new_id : Uuid) (initial : Result BootError (List ℕ × Bool)) (password : List ℕ)
      → (insert_admin down new_id initial []).1 ≡ ok password
      → (force : Bool) × (h : String) × (initial ≡ ok (password, force))
        × (hash password ≡ some h)
        × ((insert_admin down new_id initial []).0 ≡ account_of new_id (admin_with h force) ∷ [])
  unfolding insert_admin create_local_user after_insert
  insert_admin-inv down new_id (err e) password done = cc
  insert_admin-inv true new_id (ok (w, force)) password done = elim (Option-cases (hash w)) [
    | inl fails ↦ ground arith
    | inr (h, e) ↦ ground arith
  ]
  insert_admin-inv false new_id (ok (w, force)) password done = elim (Option-cases (hash w)) [
    | inl fails ↦ ground arith
    | inr (h, e) ↦
        let same : w ≡ password = ground arith in
        (force, h, ap (λ w. ok (w, force)) same, ap hash (sym same) ∙ e, rw (insert_admin, e) refl)
  ]

  -- If the bootstrap creates an account and every draw lies in the range asked for, then there was none before,
  -- the password meets the default policy, and the only row is the admin's with its hash; a password change is
  -- forced exactly if none was injected.
  pub bootstrap_admin-IsAccepted :
      (count_down down : Bool) (injected : String) (rand : Random) (new_id : Uuid)
      (rows : List Account) (password : List ℕ)
      → InRange rand
      → (bootstrap_admin count_down down injected rand new_id rows).1 ≡ ok password
      → (rows ≡ [])
        × (validate_default_policy password ≡ none)
        × ((h : String) × (hash password ≡ some h)
            × ((bootstrap_admin count_down down injected rand new_id rows).0
                ≡ account_of new_id (admin_with h (str_eq injected "")) ∷ []))
  unfolding bootstrap_admin
  bootstrap_admin-IsAccepted true down injected rand new_id rows password fair done = cc
  bootstrap_admin-IsAccepted false down injected rand new_id (a ∷ rows) password fair done = cc
  bootstrap_admin-IsAccepted false down injected rand new_id [] password fair done =
      let (force, h, made, hashed, written) =
        insert_admin-inv down new_id (initial_password injected rand) password done in
      let (accepted, same) = initial_password-IsAccepted injected rand fair password force made in
      (
        refl,
        accepted,
        (h, hashed, written ∙ ap (λ force. account_of new_id (admin_with h force) ∷ []) same),
      )
