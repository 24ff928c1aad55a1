-- ===== src/Accounts/Unique.antt =====
-- No two accounts share an id, a username or an email: the statements on the table keep it so.
pub mod Kept
use wachd.Base.{
  String, Bool, true, false, not, ◌||◌, List, [], ◌∷◌, ◌++◌, any, all, Option, none, some, ◌==◌,
  ==_iff, str_eq, eq_iff, ◌≡◌, refl, arith, inl, inr, Bool-cases,
}
use wachd.Oncall.Types.{Uuid}
use wachd.Access.Groups.{without}
use wachd.Store.Accounts.{
  Account, has_id, update_password_hash, NewAccount, is_taken, account_of, AccountUpdate, has_email,
  apply_update, update_row, with_password, or_else,
}

-- No unique column of the two is the same.
abbrev pub apart : Account → Account → Bool
apart a b = not (a.login.id == b.login.id || str_eq a.username b.username || str_eq a.email b.email)

abbrev pub IsUnique : List Account → Type 0
IsUnique [] = Unit
IsUnique (a ∷ rows) = (all (apart a) rows ≡ true) × IsUnique rows

module _ {ℓ} {A : Type ℓ} where
  all_append :
      (p : A → Bool) (xs : List A) (x : A)
      → all p xs ≡ true
      → p x ≡ true
      → all p (xs ++ x ∷ []) ≡ true
  all_append p [] x h k = ground arith
  all_append p (y ∷ xs) x h k = ground (arith, all_append p xs x)

  all-without : (p test : A → Bool) (xs : List A) → all p xs ≡ true → all p (without test xs) ≡ true
  unfolding without
  all-without p test [] h = refl
  all-without p test (y ∷ xs) h = ground (arith, all-without p test xs)

apart-account_of :
    (new_id : Uuid) (n : NewAccount) (a : Account)
    → is_taken new_id n a ≡ false
    → apart a (account_of new_id n) ≡ true
unfolding account_of
apart-account_of new_id n a free = ground arith

pub appended-IsUnique :
    (new_id : Uuid) (n : NewAccount) (rows : List Account)
    → any (is_taken new_id n) rows ≡ false
    → IsUnique rows
    → IsUnique (rows ++ account_of new_id n ∷ [])
appended-IsUnique new_id n [] free unique = (refl, tt)
appended-IsUnique new_id n (a ∷ rows) free (away, unique) =
    let free' : is_taken new_id n a ≡ false = ground arith in
    (
      all_append (apart a) rows (account_of new_id n) away (apart-account_of new_id n a free'),
      appended-IsUnique new_id n rows (ground arith) unique,
    )

pub without-IsUnique :
    (test : Account → Bool) (rows : List Account) → IsUnique rows → IsUnique (without test rows)
unfolding without
without-IsUnique test [] unique = tt
without-IsUnique test (a ∷ rows) (away, unique) = elim (Bool-cases (test a)) [
  | inl gone ↦ rw gone (without-IsUnique test rows unique)
  | inr stays ↦ rw stays (all-without (apart a) test rows away, without-IsUnique test rows unique)
]

-- A change of the rows with an id that keeps them apart from the rows that are `fit`.
module _ (id : Uuid) (change : Account → Account) (fit : Account → Bool)
    (own : (a b : Account)
      → has_id id a ≡ true
      → apart a b ≡ true
      → fit b ≡ true
      → apart (change a) b ≡ true)
    (others : (a b : Account)
      → has_id id b ≡ true
      → apart a b ≡ true
      → fit a ≡ true
      → apart a (change b) ≡ true) where
  own_row :
      (a : Account) (rows : List Account)
      → has_id id a ≡ true
      → all (apart a) rows ≡ true
      → all fit rows ≡ true
      → all (apart (change a)) (update_row id change rows) ≡ true
  unfolding update_row
  own_row a [] mine away fits = refl
  own_row a (b ∷ rows) mine away fits =
      let other : has_id id b ≡ false =
        ground (arith, ==_iff a.login.id id, ==_iff b.login.id id, ==_iff a.login.id b.login.id) in
      let head : apart (change a) b ≡ true = own a b mine (ground arith) (ground arith) in
      let rest = own_row a rows mine (ground arith) (ground arith) in rw (other, head) rest

  other_row :
      (a : Account) (rows : List Account)
      → has_id id a ≡ false
      → fit a ≡ true
      → all (apart a) rows ≡ true
      → all (apart a) (update_row id change rows) ≡ true
  unfolding update_row
  other_row a [] other fits away = refl
  other_row a (b ∷ rows) other fits away =
      let rest = other_row a rows other fits (ground arith) in
      let near : apart a b ≡ true = ground arith in
      elim (Bool-cases (has_id id b)) [
        | inl mine ↦ rw (mine, others a b mine near fits) rest
        | inr not_mine ↦ rw (not_mine, near) rest
      ]

  update_row-IsUnique :
      (rows : List Account)
      → all fit rows ≡ true
      → IsUnique rows
      → IsUnique (update_row id change rows)
  unfolding update_row
  update_row-IsUnique [] fits unique = tt
  update_row-IsUnique (a ∷ rows) fits (away, unique) =
      let rest = update_row-IsUnique rows (ground arith) unique in
      elim (Bool-cases (has_id id a)) [
        | inl mine ↦ rw mine (own_row a rows mine away (ground arith), rest)
        | inr other ↦ rw other (other_row a rows other (ground arith) away, rest)
      ]

pub with_password-IsUnique :
    (id : Uuid) (h : String) (force : Bool) (rows : List Account)
    → IsUnique rows
    → IsUnique (update_password_hash id h force rows)
unfolding update_password_hash with_password
with_password-IsUnique id h force rows =
    update_row-IsUnique id (with_password h force) (λ a. true) (λ a b mine near fits. near)
      (λ a b mine near fits. near) rows (all_true rows)
  where
    all_true : (rows : List Account) → all (λ a. true) rows ≡ true
    all_true [] = refl
    all_true (a ∷ rows) = all_true rows

pub apply_update-IsUnique :
    (id : Uuid) (u : AccountUpdate) (rows : List Account)
    → any (has_email id u.email) rows ≡ false
    → IsUnique rows
    → IsUnique (update_row id (apply_update u) rows)
unfolding apply_update
apply_update-IsUnique id u rows free =
    update_row-IsUnique id (apply_update u) (λ a. not (has_email id u.email a)) (own u.email)
      (others u.email) rows (all_not rows free)
  where
    all_not :
        (rows : List Account)
        → any (has_email id u.email) rows ≡ false
        → all (λ a. not (has_email id u.email a)) rows ≡ true
    all_not [] free = refl
    all_not (a ∷ rows) free = ground (arith, all_not rows)

    own :
        (email : Option String) (a b : Account)
        → has_id id a ≡ true
        → apart a b ≡ true
        → not (has_email id email b) ≡ true
        → apart (record a { email = or_else email a.email }) b ≡ true
    own none a b mine near fits = near
    own (some e) a b mine near fits = ground (
      arith,
      ==_iff a.login.id id,
      ==_iff b.login.id id,
      ==_iff a.login.id b.login.id,
      eq_iff e b.email,
      eq_iff b.email e,
    )

    others :
        (email : Option String) (a b : Account)
        → has_id id b ≡ true
        → apart a b ≡ true
        → not (has_email id email a) ≡ true
        → apart a (record b { email = or_else email b.email }) ≡ true
    others none a b mine near fits = near
    others (some e) a b mine near fits = ground (
      arith,
      ==_iff a.login.id id,
      ==_iff b.login.id id,
      ==_iff a.login.id b.login.id,
      eq_iff e a.email,
      eq_iff a.email e,
    )
