-- ===== src/Accounts/Unique/Kept.antt =====
-- The handlers keep the accounts unique.
use wachd.Base.{
  ℕ, String, Bool, true, false, not, ◌&&◌, ◌||◌, List, [], ◌∷◌, any, Option, none, some, str_eq,
  Result, ok, err, inl, inr, Bool-cases, Option-cases, subst, sym,
}
use wachd.Oncall.Types.{Uuid}
use wachd.Oncall.Manager.{QueryError}
use wachd.Access.{Session}
use wachd.Password.{Classes, PasswordRules}
use wachd.Store.Accounts.{
  Account, has_id, get_local_user_by_id, NewAccount, is_taken, create_local_user, AccountUpdate,
  has_email, update_local_user, update_found, delete_local_user, changes,
}
use wachd.Accounts.{
  Request, add_user, edit_user, remove_user, reset_password, change_password, handle, handle_all,
  Reply, CreateBody, ChangeBody, create_hashed, new_hash, handle_create_user, handle_update_user,
  handle_delete_user, handle_reset_password, handle_change_password, reset_hashed, after_create,
  after_update, after_delete,
}
use wachd.Accounts.Unique.{
  IsUnique, appended-IsUnique, without-IsUnique, with_password-IsUnique, apply_update-IsUnique,
}
use wachd.Accounts.Changed.{handle_change_password-Outcome}

update_local_user-IsUnique :
    (id : Uuid) (u : AccountUpdate) (rows : List Account)
    → IsUnique rows
    → IsUnique (after_update rows (update_local_user id u rows)).0
unfolding after_update update_local_user update_found
update_local_user-IsUnique id u rows unique =
    elim (Bool-cases (not (changes u.email) && not (changes u.name) && not (changes u.is_active))) [
      | inl nothing ↦ elim (Option-cases (get_local_user_by_id id rows)) [
        | inl missing ↦ rw (nothing, missing) unique
        | inr (a, found) ↦ rw (nothing, found) unique
      ]
      | inr something ↦ elim (Option-cases (get_local_user_by_id id rows)) [
        | inl missing ↦ rw (something, missing) unique
        | inr (a, found) ↦ elim (Bool-cases (any (has_email id u.email) rows)) [
          | inl clash ↦ rw (something, found, clash) unique
          | inr free ↦ rw (something, found, free) (apply_update-IsUnique id u rows free unique)
        ]
      ]
    ]

handle_update_user-IsUnique :
    (down : Bool) (id : Option Uuid) (body : Option AccountUpdate) (rows : List Account)
    → IsUnique rows
    → IsUnique (handle_update_user down id body rows).0
unfolding handle_update_user
handle_update_user-IsUnique down none body rows unique = unique
handle_update_user-IsUnique down (some id) none rows unique = unique
handle_update_user-IsUnique true (some id) (some u) rows unique = unique
handle_update_user-IsUnique false (some id) (some u) rows unique =
    update_local_user-IsUnique id u rows unique

handle_delete_user-IsUnique :
    (down : Bool) (id : Option Uuid) (rows : List Account)
    → IsUnique rows
    → IsUnique (handle_delete_user down id rows).0
unfolding handle_delete_user delete_local_user after_delete
handle_delete_user-IsUnique down none rows unique = unique
handle_delete_user-IsUnique true (some id) rows unique = unique
handle_delete_user-IsUnique false (some id) rows unique = elim (Bool-cases (any (has_id id) rows)) [
  | inl there ↦ rw there (without-IsUnique (has_id id) rows unique)
  | inr missing ↦ rw missing unique
]

create_local_user-IsUnique :
    (new_id : Uuid) (n : NewAccount) (rows : List Account)
    → IsUnique rows
    → IsUnique (after_create rows (create_local_user new_id n rows)).0
unfolding create_local_user after_create
create_local_user-IsUnique new_id n rows unique = elim (Bool-cases (any (is_taken new_id n) rows)) [
  | inl taken ↦ rw taken unique
  | inr free ↦ rw free (appended-IsUnique new_id n rows free unique)
]

module _ (hash : List ℕ → Option String) (u : Classes) where
  create_hashed-IsUnique :
      (down : Bool) (new_id : Uuid) (body : CreateBody) (h : Result Reply String)
      (rows : List Account)
      → IsUnique rows
      → IsUnique (create_hashed hash u down new_id body h rows).0
  unfolding create_hashed
  create_hashed-IsUnique down new_id body (err reply) rows unique = unique
  create_hashed-IsUnique true new_id body (ok h) rows unique = unique
  create_hashed-IsUnique false new_id body (ok h) rows unique =
      create_local_user-IsUnique new_id _ rows unique

  handle_create_user-IsUnique :
      (down : Bool) (new_id : Uuid) (policy : Result QueryError PasswordRules)
      (body : Option CreateBody) (rows : List Account)
      → IsUnique rows
      → IsUnique (handle_create_user hash u down new_id policy body rows).0
  unfolding handle_create_user
  handle_create_user-IsUnique down new_id policy none rows unique = unique
  handle_create_user-IsUnique down new_id policy (some body) rows unique =
      elim (Bool-cases (
        str_eq body.username ""
        || str_eq body.email ""
        || str_eq body.name ""
        || str_eq body.password "")) [
          | inl lacking ↦ rw lacking unique
          | inr given ↦ rw given (
              create_hashed-IsUnique down new_id body (new_hash hash u policy body.password) rows
                unique)
        ]

  reset_hashed-IsUnique :
      (down : Bool) (id : Uuid) (h : Result Reply String) (rows : List Account)
      → IsUnique rows
      → IsUnique (reset_hashed hash u down id h rows).0
  unfolding reset_hashed
  reset_hashed-IsUnique down id (err reply) rows unique = unique
  reset_hashed-IsUnique true id (ok h) rows unique = unique
  reset_hashed-IsUnique false id (ok h) rows unique = with_password-IsUnique id h true rows unique

  handle_reset_password-IsUnique :
      (down : Bool) (id : Option Uuid) (policy : Result QueryError PasswordRules)
      (body : Option String) (rows : List Account)
      → IsUnique rows
      → IsUnique (handle_reset_password hash u down id policy body rows).0
  unfolding handle_reset_password
  handle_reset_password-IsUnique down none policy body rows unique = unique
  handle_reset_password-IsUnique down (some id) policy none rows unique = unique
  handle_reset_password-IsUnique down (some id) policy (some password) rows unique =
      elim (Bool-cases (str_eq password "")) [
        | inl lacking ↦ rw lacking unique
        | inr given ↦
            rw given (reset_hashed-IsUnique down id (new_hash hash u policy password) rows unique)
      ]

  module _ (check : String → List ℕ → Bool) where
    handle_change_password-IsUnique :
        (read_down down : Bool) (policy : Result QueryError PasswordRules) (sess : Option Session)
        (body : Option ChangeBody) (rows : List Account)
        → IsUnique rows
        → IsUnique (handle_change_password hash u check read_down down policy sess body rows).0
    handle_change_password-IsUnique read_down down policy sess body rows unique =
        elim (handle_change_password-Outcome hash u check read_down down policy sess body rows) [
          | inr (refused, same) ↦ subst IsUnique (sym same) unique
          | inl (s, id, given, e, e', e'', outcome) ↦ elim outcome [
            | inr (refused, same) ↦ subst IsUnique (sym same) unique
            | inl (done, (user, rules, h, a, b, c, d, f, kept, written)) ↦
                subst IsUnique (sym written) (with_password-IsUnique id h false rows unique)
          ]
        ]

    handle-IsUnique :
        (request : Request) (rows : List Account)
        → IsUnique rows
        → IsUnique (handle hash u check request rows).0
    unfolding handle
    handle-IsUnique (add_user down new_id policy body) rows =
        handle_create_user-IsUnique down new_id policy body rows
    handle-IsUnique (edit_user down id body) rows = handle_update_user-IsUnique down id body rows
    handle-IsUnique (remove_user down id) rows = handle_delete_user-IsUnique down id rows
    handle-IsUnique (reset_password down id policy body) rows =
        handle_reset_password-IsUnique down id policy body rows
    handle-IsUnique (change_password read_down down policy sess body) rows =
        handle_change_password-IsUnique read_down down policy sess body rows

    -- If no two accounts share an id, a username or an email, then this is so after any sequence of the requests
    -- that create, change and remove accounts and passwords, whatever fails.
    pub handle_all-IsUnique :
        (requests : List Request) (rows : List Account)
        → IsUnique rows
        → IsUnique (handle_all hash u check requests rows)
    unfolding handle_all
    handle_all-IsUnique [] rows unique = unique
    handle_all-IsUnique (request ∷ requests) rows unique =
        handle_all-IsUnique requests (handle hash u check request rows).0
          (handle-IsUnique request rows unique)
