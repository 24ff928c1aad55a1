-- ===== src/Login.antt =====
-- Password logins: authenticateLocal of internal/auth/handler.go up to the session, and the statements of
-- internal/store/local_users.go on the user's row. `check` is the bcrypt check; times are instants in
-- nanoseconds, and the policy's numbers are not negative.
pub mod Lockout
use wachd.Base.{
  ℕ, ◌+◌, ◌*◌, String, Bool, true, false, not, ◌&&◌, List, [], ◌∷◌, Option, none, some, Result, ok,
  err, ltb, leb, if◌then◌else◌,
}
use wachd.Base.Int.{pos, pos_part, ◌+ℤ◌, wrap64}
use wachd.GoTime.{nanos_per_minute}
use wachd.Oncall.Types.{Uuid}
use wachd.Oncall.Manager.{Query, QueryError}

pub record LocalUser : Type 0 where
  pub id : Uuid
  pub password_hash : String
  pub is_active : Bool
  pub failed_login_attempts : ℕ
  pub locked_until : Option ℕ
  pub last_login_at : Option ℕ

pub record PasswordPolicy : Type 0 where
  pub max_failed_attempts : ℕ
  pub lockout_duration_minutes : ℕ

pub data LoginReply : Type 0 where
  internal_error invalid_credentials account_locked logged_in : LoginReply

-- Which of the later calls fail: the UPDATEs of the row and the session's creation.
pub record LoginFaults : Type 0 where
  pub increment : Bool
  pub reset : Bool
  pub record_login : Bool
  pub session : Bool

unfoldable pub is_locked : ℕ → LocalUser → Bool
is_locked now user = elim user.locked_until [ none ↦ false | some t ↦ ltb now t ]

-- time.Now().Add(time.Duration(minutes) * time.Minute): the product wraps around at 64 bits, so the end may
-- lie in the past, and is 0 where it lies before the epoch.
unfoldable pub lock_end : ℕ → PasswordPolicy → ℕ
unfolding ◌+ℤ◌ wrap64
lock_end now policy =
    pos_part (pos now +ℤ wrap64 (pos (policy.lockout_duration_minutes * nanos_per_minute)))

-- The new end of the lock, if this failure reaches the limit.
unfoldable pub lock_until : ℕ → PasswordPolicy → LocalUser → Option ℕ
unfolding lock_end
lock_until now policy user =
    if ltb 0 policy.max_failed_attempts
      && leb policy.max_failed_attempts (user.failed_login_attempts + 1)
    then some (lock_end now policy)
    else none

-- IncrementFailedAttempts sets locked_until to what it is given, also to NULL.
abbrev pub increment_failed_attempts : Option ℕ → LocalUser → LocalUser
increment_failed_attempts lock row = record row {
  failed_login_attempts = row.failed_login_attempts + 1;
  locked_until = lock;
}

abbrev pub reset_failed_attempts : LocalUser → LocalUser
reset_failed_attempts row = record row { failed_login_attempts = 0; locked_until = none }

abbrev pub record_local_login : ℕ → LocalUser → LocalUser
record_local_login now row = record row { last_login_at = some now }

abbrev pub unless_failed : Bool → (LocalUser → LocalUser) → LocalUser → LocalUser
unless_failed failed change row = if failed then row else change row

module _ (check : String → String → Bool) where
  -- `user` is the row as it was read, `row` as it stands when it is changed.
  unfoldable pub on_user :
      ℕ → LoginFaults → PasswordPolicy → LocalUser → String → LocalUser → LocalUser × LoginReply
  unfolding is_locked lock_until
  on_user now faults policy user password row =
      if not user.is_active
      then (row, invalid_credentials)
      else if is_locked now user
      then (row, account_locked)
      else if check user.password_hash password
      then (
        unless_failed faults.record_login (record_local_login now)
            (unless_failed faults.reset reset_failed_attempts row),
        (if faults.session then internal_error else logged_in),
      )
      else (
        unless_failed faults.increment (increment_failed_attempts (lock_until now policy user)) row,
        invalid_credentials,
      )

  unfoldable pub authenticate_local :
      ℕ
      → LoginFaults
      → Query LocalUser
      → Result QueryError PasswordPolicy
      → String
      → LocalUser
      → LocalUser × LoginReply
  unfolding on_user
  authenticate_local now faults (err e) policy password row = (row, internal_error)
  authenticate_local now faults (ok user) (err e) password row = (row, internal_error)
  authenticate_local now faults (ok none) (ok policy) password row = (row, invalid_credentials)
  authenticate_local now faults (ok (some user)) (ok policy) password row =
      on_user now faults policy user password row
