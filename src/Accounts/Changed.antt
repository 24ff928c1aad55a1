-- ===== src/Accounts/Changed.antt =====
-- Who can change a password, and of which account.
use wachd.Base.{
  ℕ, String, Bool, true, false, ◌||◌, ◌==◌, List, [], ◌∷◌, Option, none, some, ==_iff,
  if◌then◌else◌, str_eq, Result, Result-cases, ok, ◌≡◌, ◌≢◌, ◌⊎◌, refl, sym, ap, ◌∙◌, arith, inl,
  inr, Bool-cases, Option-cases, subst,
}
use wachd.Oncall.Types.{Uuid}
use wachd.Oncall.Manager.{QueryError}
use wachd.Access.{Session}
use wachd.Password.{codes, Classes, PasswordRules, validate_policy}
use wachd.Store.Accounts.{
  Account, has_id, get_local_user_by_id, update_password_hash, update_row, with_password,
}
use wachd.Accounts.{
  Reply, password_changed, new_hash, ChangeBody, change_hashed, change_of, on_change_body,
  handle_change_password, unauthorized,
}
use wachd.Accounts.Reset.{new_hash-ok, new_hash-err, get-update_row}

get-id :
    (id : Uuid) (rows : List Account) (a : Account)
    → get_local_user_by_id id rows ≡ some a
    → a.login.id ≡ id
unfolding get_local_user_by_id
get-id id [] a e = cc
get-id id (b ∷ rows) a e = elim (Bool-cases (has_id id b)) [
  | inl hit ↦
      let eq : b ≡ a = ground arith in ap (λ c. c.login.id) (sym eq) ∙ (==_iff b.login.id id).0 hit
  | inr miss ↦ get-id id rows a (ground arith)
]

get-update_row_other :
    (id other : Uuid) (change : Account → Account) (rows : List Account)
    → ((b : Account) → (change b).login.id ≡ b.login.id)
    → other ≢ id
    → get_local_user_by_id other (update_row id change rows) ≡ get_local_user_by_id other rows
unfolding get_local_user_by_id update_row
get-update_row_other id other change [] same apart = refl
get-update_row_other id other change (b ∷ rows) same apart = elim (Bool-cases (has_id id b)) [
  | inl hit ↦
      let before : has_id other b ≡ false = ground (arith, apart) in
      let after : has_id other (change b) ≡ false = ap (λ i. i == other) (same b) ∙ before in
      rw (hit, before, after) (get-update_row_other id other change rows same apart)
  | inr miss ↦ rw miss (elim (Bool-cases (has_id other b)) [
    | inl found ↦ rw found refl
    | inr none_here ↦ rw none_here (get-update_row_other id other change rows same apart)
  ])
]

-- The row of this id has the new hash, no failures, no lock and no duty to change the password, and is
-- otherwise as it was; and the row of any other id is as it was.
abbrev pub IsWritten : Uuid → Account → String → List Account → List Account → Type 0
IsWritten id user h rows rows' =
    (get_local_user_by_id id rows'
      ≡ some (record user {
        force_password_change = false;
        login = record user.login {
          password_hash = h;
          failed_login_attempts = 0;
          locked_until = none;
        };
      }))
    × ((other : Uuid)
        → other ≢ id
        → get_local_user_by_id other rows' ≡ get_local_user_by_id other rows)

update_password_hash-IsWritten :
    (id : Uuid) (user : Account) (h : String) (rows : List Account)
    → get_local_user_by_id id rows ≡ some user
    → IsWritten id user h rows (update_password_hash id h false rows)
unfolding update_password_hash with_password
update_password_hash-IsWritten id user h rows found = (
  get-update_row id (with_password h false) rows user (λ b. refl) found,
  λ other apart. get-update_row_other id other (with_password h false) rows (λ b. refl) apart,
)

module _ (hash : List ℕ → Option String) (u : Classes) (check : String → List ℕ → Bool) where
  -- The new hash is written to one account: the caller gave its current password, and the policy accepts the
  -- new one.
  abbrev pub IsAllowed :
      Result QueryError PasswordRules → Uuid → ChangeBody → List Account → List Account → Type 0
  IsAllowed policy id body rows rows' =
      (user : Account) × (rules : PasswordRules) × (h : String) × (get_local_user_by_id id rows
        ≡ some user)
      × (check user.login.password_hash (codes body.current_password) ≡ true)
      × (policy ≡ ok rules)
      × (validate_policy u (codes body.new_password) rules ≡ none)
      × (hash (codes body.new_password) ≡ some h)
      × IsWritten id user h rows rows'
      × (rows' ≡ update_password_hash id h false rows)

  -- Changed as allowed, or refused and nothing is changed.
  abbrev pub Outcome :
      Result QueryError PasswordRules
      → Uuid
      → ChangeBody
      → List Account
      → List Account × Reply
      → Type 0
  Outcome policy id body rows (rows', reply) =
      ((reply ≡ password_changed) × IsAllowed policy id body rows rows')
      ⊎ ((reply ≢ password_changed) × (rows' ≡ rows))

  change_of-Outcome :
      (down : Bool) (policy : Result QueryError PasswordRules) (id : Uuid) (body : ChangeBody)
      (user : Account) (rows : List Account)
      → get_local_user_by_id id rows ≡ some user
      → Outcome policy id body rows (change_of hash u check down policy body (some user) rows)
  unfolding change_of change_hashed
  change_of-Outcome down policy id body user rows found =
      elim (Bool-cases (check user.login.password_hash (codes body.current_password))) [
        | inr wrong ↦ rw wrong (inr (λ same. cc, refl))
        | inl right ↦ elim (Result-cases (new_hash hash u policy body.new_password)) [
          | inr (reply, refused) ↦
              rw (right, refused)
                (inr ((new_hash-err hash u policy body.new_password reply refused).1, refl))
          | inl (h, hashed) ↦ rw (right, hashed) (written down h hashed right)
        ]
      ]
    where
      written :
          (down : Bool) (h : String)
          → new_hash hash u policy body.new_password ≡ ok h
          → check user.login.password_hash (codes body.current_password) ≡ true
          → Outcome policy id body rows (change_hashed hash u check down user.login.id (ok h) rows)
      written true h hashed right = inr (λ same. cc, refl)
      written false h hashed right =
          let (rules, e, accepted, made) = new_hash-ok hash u policy body.new_password h hashed in
          inl (
            refl,
            (
              user,
              rules,
              h,
              found,
              right,
              e,
              accepted,
              made,
              subst (λ i. IsWritten id user h rows (update_password_hash i h false rows))
                  (sym (get-id id rows user found))
                  (update_password_hash-IsWritten id user h rows found),
              ap (λ i. update_password_hash i h false rows) (get-id id rows user found),
            ),
          )

  on_change_body-Outcome :
      (read_down down : Bool) (policy : Result QueryError PasswordRules) (id : Uuid)
      (body : ChangeBody) (rows : List Account)
      → Outcome policy id body rows
          (on_change_body hash u check read_down down policy id (some body) rows)
  unfolding on_change_body change_of
  on_change_body-Outcome read_down down policy id body rows =
      elim (Bool-cases (str_eq body.current_password "" || str_eq body.new_password "")) [
        | inl lacking ↦ rw lacking (inr (λ same. cc, refl))
        | inr given ↦ rw given (looked_up read_down)
      ]
    where
      -- The row is looked for, and may be missing.
      on_row :
          (o : Option Account)
          → get_local_user_by_id id rows ≡ o
          → Outcome policy id body rows (change_of hash u check down policy body o rows)
      on_row none missing = inr (λ same. cc, refl)
      on_row (some user) found = change_of-Outcome down policy id body user rows found

      looked_up :
          (read_down : Bool)
          → Outcome policy id body rows (
              if read_down
              then (rows, unauthorized)
              else change_of hash u check down policy body (get_local_user_by_id id rows) rows)
      looked_up true = inr (λ same. cc, refl)
      looked_up false = on_row (get_local_user_by_id id rows) refl

  -- A change of a password that is answered as done was asked by the session of a local user: the current
  -- password was right for this user's row, and the policy accepts the new one. The row found under the user's
  -- id then has the hash of the new password, no failed attempts, no lock and a cleared flag, and is otherwise
  -- as it was; and what is found under any other id is as it was. With any other answer no row has changed.
  pub handle_change_password-Outcome :
      (read_down down : Bool) (policy : Result QueryError PasswordRules) (sess : Option Session)
      (body : Option ChangeBody) (rows : List Account)
      → ((s : Session) × (id : Uuid) × (given : ChangeBody) × (sess ≡ some s)
          × (s.local_user_id ≡ some id)
          × (body ≡ some given)
          × Outcome policy id given rows
              (handle_change_password hash u check read_down down policy sess body rows))
        ⊎ (((handle_change_password hash u check read_down down policy sess body rows).1
              ≢ password_changed)
            × ((handle_change_password hash u check read_down down policy sess body rows).0 ≡ rows))
  unfolding handle_change_password on_change_body
  handle_change_password-Outcome read_down down policy none body rows = inr (λ same. cc, refl)
  handle_change_password-Outcome read_down down policy (some s) none rows =
      elim (Option-cases s.local_user_id) [
        | inl nobody ↦ rw nobody (inr (λ same. cc, refl))
        | inr (id, local) ↦ rw local (inr (λ same. cc, refl))
      ]
  handle_change_password-Outcome read_down down policy (some s) (some body) rows =
      elim (Option-cases s.local_user_id) [
        | inl nobody ↦ rw nobody (inr (λ same. cc, refl))
        | inr (id, local) ↦ inl (
          s,
          id,
          body,
          refl,
          local,
          refl,
          rw local (on_change_body-Outcome read_down down policy id body rows),
        )
      ]
