-- ===== src/Login/Lockout.antt =====
-- How many passwords can be tried.
use wachd.Base.{
  ap, ◌∙◌, lt→ltb, ℕ, ◌+◌, ◌*◌, ◌^◌, ◌≤◌, ◌<◌, String, Bool, true, false, not, List, [], ◌∷◌, none,
  some, All, ok, ◌≡◌, refl, arith, Bool-cases, inl, inr, if◌then◌else◌, ltb, leb, ◌&&◌, lt→ltb,
}
use wachd.Base.Int.{◌+ℤ◌, wrap64-pos}
use wachd.GoTime.{nanos_per_minute}
use wachd.Login.{
  LocalUser, PasswordPolicy, LoginFaults, LoginReply, account_locked, invalid_credentials,
  is_locked, lock_end, lock_until, on_user, authenticate_local, increment_failed_attempts,
}

abbrev pub no_faults : LoginFaults
no_faults = record { increment = false; reset = false; record_login = false; session = false }

-- The reply says that the password was looked at.
abbrev is_tried : LoginReply → ℕ
is_tried account_locked = 0
is_tried _ = 1

if_then : {A : Type 0} (b : Bool) (x y : A) → b ≡ true → (if b then x else y) ≡ x
if_then true x y e = refl
if_then false x y e = cc

if_else : {A : Type 0} (b : Bool) (x y : A) → b ≡ false → (if b then x else y) ≡ y
if_else true x y e = cc
if_else false x y e = refl

is_locked-some :
    (now u : ℕ) (row : LocalUser)
    → row.locked_until ≡ some u
    → ltb now u ≡ true
    → is_locked now row ≡ true
unfolding is_locked
is_locked-some now u row locked early =
    ap (λ o. elim o [ none ↦ false | some t ↦ ltb now t ]) locked ∙ early

is_locked-none : (now : ℕ) (row : LocalUser) → row.locked_until ≡ none → is_locked now row ≡ false
unfolding is_locked
is_locked-none now row free = ap (λ o. elim o [ none ↦ false | some t ↦ ltb now t ]) free

module _ (check : String → String → Bool) (policy : PasswordPolicy) where
  abbrev pub log_in : ℕ → String → LocalUser → LocalUser × LoginReply
  log_in now password row =
      authenticate_local check now no_faults (ok (some row)) (ok policy) password row

  -- Attempts one after the other, each at its time: how many passwords were looked at.
  pub tried : List (ℕ × String) → LocalUser → ℕ
  tried [] row = 0
  tried ((now, password) ∷ attempts) row =
      let (row', reply) = log_in now password row in is_tried reply + tried attempts row'

  abbrev lockout : ℕ
  lockout = policy.lockout_duration_minutes * nanos_per_minute

  lock_end_lem : (now : ℕ) → lockout < 2 ^ 63 → lock_end now policy ≡ now + lockout
  unfolding lock_end ◌+ℤ◌
  lock_end_lem now fits = rw (wrap64-pos lockout fits) (ground arith)

  -- A wrong password, tried within the duration of a lock from t on.
  abbrev pub IsGuess : ℕ → LocalUser → ℕ × String → Type 0
  IsGuess t row (now, password) =
      (t ≤ now) × (now < t + lockout) × (check row.password_hash password ≡ false)

  on_user_locked :
      (now : ℕ) (password : String) (row : LocalUser)
      → row.is_active ≡ true
      → is_locked now row ≡ true
      → log_in now password row ≡ (row, account_locked)
  unfolding authenticate_local on_user
  on_user_locked now password row active locked =
      if_else (not row.is_active) _ _ (ground (arith, active))
      ∙ if_then (is_locked now row) _ _ locked

  on_user_wrong :
      (now : ℕ) (password : String) (row : LocalUser)
      → row.is_active ≡ true
      → is_locked now row ≡ false
      → check row.password_hash password ≡ false
      → log_in now password row
        ≡ (increment_failed_attempts (lock_until now policy row) row, invalid_credentials)
  unfolding authenticate_local on_user
  on_user_wrong now password row active free wrong =
      if_else (not row.is_active) _ _ (ground (arith, active))
      ∙ if_else (is_locked now row) _ _ free
      ∙ if_else (check row.password_hash password) _ _ wrong

  abbrev after : List (ℕ × String) → LocalUser × LoginReply → ℕ
  after attempts (row, reply) = is_tried reply + tried attempts row

  tried_locked :
      (t : ℕ) (attempts : List (ℕ × String)) (row : LocalUser) (u : ℕ)
      → row.is_active ≡ true
      → row.locked_until ≡ some u
      → t + lockout ≤ u
      → All (IsGuess t row) attempts
      → tried attempts row ≡ 0
  unfolding tried
  tried_locked t [] row u active locked far guesses = refl
  tried_locked t ((now, password) ∷ attempts) row u active locked far guesses =
      let early = lt→ltb now u (omega (arith, guesses.0.1)) in
      let step =
        ap (after attempts)
          (on_user_locked now password row active (is_locked-some now u row locked early)) in
      step ∙ omega (arith, tried_locked t attempts row u active locked far guesses.1)

  tried_open :
      (t : ℕ) (attempts : List (ℕ × String)) (row : LocalUser)
      → row.is_active ≡ true
      → row.locked_until ≡ none
      → row.failed_login_attempts < policy.max_failed_attempts
      → lockout < 2 ^ 63
      → All (IsGuess t row) attempts
      → tried attempts row + row.failed_login_attempts ≤ policy.max_failed_attempts
  unfolding tried lock_until
  tried_open t [] row active free below fits guesses = omega arith
  tried_open t ((now, password) ∷ attempts) row active free below fits guesses =
      let (started, late, wrong) = guesses.0 in
      let row' : LocalUser = increment_failed_attempts (lock_until now policy row) row in
      let step =
        ap (after attempts)
          (on_user_wrong now password row active (is_locked-none now row free) wrong) in
      elim (Bool-cases (
        ltb 0 policy.max_failed_attempts
        && leb policy.max_failed_attempts (row.failed_login_attempts + 1))) [
          | inl reached ↦
              let none_left =
                tried_locked t attempts row' (lock_end now policy) active (if_then _ _ _ reached)
                  (omega (arith, started, lock_end_lem now fits)) guesses.1 in
              omega (arith, step, none_left)
          | inr room ↦
              let rest =
                tried_open t attempts row' active (if_else _ _ _ room) (ground arith) fits
                  guesses.1 in
              omega (arith, step, rest)
        ]

  -- Somebody who guesses wrong passwords one after the other, against an active user without a lock and
  -- without failures so far and within the duration of one lock, has at most as many of them looked at as
  -- the policy allows. No statement fails, the policy has a limit, and its duration in nanoseconds fits an
  -- int64.
  pub tried_bounded :
      (t : ℕ) (attempts : List (ℕ × String)) (row : LocalUser)
      → row.is_active ≡ true
      → row.locked_until ≡ none
      → row.failed_login_attempts ≡ 0
      → 0 < policy.max_failed_attempts
      → lockout < 2 ^ 63
      → All (IsGuess t row) attempts
      → tried attempts row ≤ policy.max_failed_attempts
  tried_bounded t attempts row active free fresh limit fits guesses =
      let bound = tried_open t attempts row active free (omega (arith, fresh)) fits guesses in
      omega (arith, bound)
