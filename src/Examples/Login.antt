-- ===== src/Examples/Login.antt =====
-- Three guesses against a user of a policy that allows two.
use wachd.Base.{ℕ, ◌≤◌, String, Bool, true, List, [], ◌∷◌, none, some, ok, ◌≡◌, refl, arith, str_eq}
use wachd.Login.{LocalUser, PasswordPolicy, authenticate_local, on_user, is_locked, lock_until}
use wachd.Login.Lockout.{no_faults, tried, tried_bounded}

abbrev matches : String → String → Bool
matches hash password = str_eq hash password

abbrev two_then_lock : PasswordPolicy
two_then_lock = record { max_failed_attempts = 2; lockout_duration_minutes = 15 }

abbrev eve_target : LocalUser
eve_target = record {
  id = 3;
  password_hash = "right";
  is_active = true;
  failed_login_attempts = 0;
  locked_until = none;
  last_login_at = none;
}

abbrev guesses : List (ℕ × String)
guesses = (100, "a") ∷ (101, "b") ∷ (102, "c") ∷ []

tried_bounded_example : tried matches two_then_lock guesses eve_target ≤ 2
tried_bounded_example =
    tried_bounded matches two_then_lock 100 guesses eve_target refl refl refl (omega arith)
      (omega arith)
      (
        (omega arith, omega arith, refl),
        ((omega arith, omega arith, refl), ((omega arith, omega arith, refl), tt)),
      )

-- A request that read the row before it was locked: its failure takes the lock away.
stale_failure_unlocks :
    (authenticate_local matches 100 no_faults
      (ok (some eve_target))
      (ok two_then_lock)
      "a"
      (record eve_target { failed_login_attempts = 2; locked_until = some 900 })).0.locked_until
    ≡ none
unfolding authenticate_local on_user is_locked lock_until
stale_failure_unlocks = refl
