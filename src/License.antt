-- ===== src/License.antt =====
-- Licence keys: internal/license/license.go. The decoding of base64, of hexadecimal keys and of JSON, and
-- the Ed25519 check are parameters. A token is given by its parts between the dots; times are in
-- nanoseconds from the Unix epoch, and `exp` in seconds.
pub mod Genuine
pub mod Revocation
use wachd.Base.{
  ℕ, ◌*◌, ◌^◌, String, Bool, true, false, not, ◌&&◌, ◌||◌, List, [], ◌∷◌, Option, none, some,
  Result, ok, err, if◌then◌else◌, str_eq, ◌>>=◌,
}
use wachd.Base.Int.{ℤ, pos, ◌+ℤ◌, ◌-ℤ◌, ◌*ℤ◌, wrap64, leb_ℤ, ltb_ℤ}
use Prim.Native.String.{◌++◌}

pub record License : Type 0 where
  pub tier : String
  pub max_teams : ℤ
  pub max_users : ℤ
  pub max_alerts_month : ℤ
  pub customer_name : String
  pub jti : String
  pub expires_at : Option ℤ
  pub is_grace_period : Bool

pub record JwtClaims : Type 0 where
  pub issuer : String
  pub jti : String
  pub expires_at : ℤ
  pub tier : String
  pub max_teams : ℤ
  pub max_users : ℤ
  pub max_alerts : ℤ
  pub customer_name : String

pub data LicenseError : Type 0 where
  malformed bad_header missing_kid unknown_key bad_public_key bad_signature_text : LicenseError
  verification_failed bad_payload bad_claims invalid_issuer : LicenseError
  expired unknown_tier bad_limits missing_jti : LicenseError

-- OSS(): its ExpiresAt is the zero time.
abbrev pub oss : License
oss = record {
  tier = "opensource";
  max_teams = pos 1;
  max_users = pos 5;
  max_alerts_month = pos 1000;
  customer_name = "";
  jti = "";
  expires_at = none;
  is_grace_period = false;
}

-- What the packages of the standard library answer.
pub record Codec (Key : Type 0) : Type 0 where
  pub decode_base64 : String → Option String
  pub kid_of : String → Option String
  pub claims_of : String → Option JwtClaims
  pub public_key : String → Option Key
  pub verify : Key → String → String → Bool

abbrev pub second : ℕ
second = 10 ^ 9

-- 7 days
abbrev pub grace_period : ℕ
grace_period = 7 * 24 * 3600 * second

abbrev pub is_after : ℤ → ℤ → Bool
is_after t u = ltb_ℤ u t

or_fail {ℓ} : {A : Type ℓ} → LicenseError → Option A → Result LicenseError A
or_fail e none = err e
or_fail e (some a) = ok a

require : Bool → LicenseError → Result LicenseError (Unit {0})
require true e = ok tt
require false e = err e

module _ {Key : Type 0} (codec : Codec Key) (keys : String → Option String) where
  verify_parts : String → String → String → Result LicenseError JwtClaims
  unfolding or_fail require
  verify_parts header payload signature =
      or_fail bad_header (codec.decode_base64 header) >>= λ raw_header.
      or_fail bad_header (codec.kid_of raw_header) >>= λ kid.
      require (not (str_eq kid "")) missing_kid >>= λ _. or_fail unknown_key (keys kid) >>= λ hex.
      or_fail bad_public_key (codec.public_key hex) >>= λ key.
      or_fail bad_signature_text (codec.decode_base64 signature) >>= λ sig.
      require (codec.verify key (header ++ ("." ++ payload)) sig) verification_failed >>= λ _.
      or_fail bad_payload (codec.decode_base64 payload) >>= λ raw_payload.
      or_fail bad_claims (codec.claims_of raw_payload) >>= λ c.
      require (str_eq c.issuer "wachd-license") invalid_issuer >>= λ _. ok c

  unfoldable pub verify_and_decode : List String → Result LicenseError JwtClaims
  unfolding verify_parts
  verify_and_decode (header ∷ payload ∷ signature ∷ []) = verify_parts header payload signature
  verify_and_decode _ = err malformed

-- The seconds from the zero time to the Unix epoch.
abbrev pub unix_to_internal : ℕ
unix_to_internal = 62135596800

-- time.Unix counts from the zero time, in an int64 that wraps around: a number close to the greatest one is
-- a time in the distant past.
abbrev pub expiry : JwtClaims → ℤ
expiry c = (wrap64 (c.expires_at +ℤ pos unix_to_internal) -ℤ pos unix_to_internal) *ℤ pos second

abbrev pub is_paid_tier : String → Bool
is_paid_tier tier = str_eq tier "smb" || str_eq tier "enterprise"

-- License.IsPaid
abbrev pub is_paid : License → Bool
is_paid l = is_paid_tier l.tier

abbrev pub has_bad_limit : JwtClaims → Bool
has_bad_limit c =
    leb_ℤ c.max_teams (pos 0) || leb_ℤ c.max_users (pos 0) || leb_ℤ c.max_alerts (pos 0)

abbrev pub license_of : ℕ → JwtClaims → License
license_of now c = record {
  tier = c.tier;
  max_teams = c.max_teams;
  max_users = c.max_users;
  max_alerts_month = c.max_alerts;
  customer_name = c.customer_name;
  jti = c.jti;
  expires_at = some (expiry c);
  is_grace_period = is_after (pos now) (expiry c);
}

-- The checks of the claims, each with the open-source licence where it fails. Where the sum with the grace
-- period leaves the int64, Add stops at the greatest time, which is as far from now.
unfoldable pub from_claims : ℕ → JwtClaims → License × Option LicenseError
from_claims now c =
    if is_after (pos now) (expiry c) && is_after (pos now) (expiry c +ℤ pos grace_period)
    then (oss, some expired)
    else if not (is_paid_tier c.tier)
    then (oss, some unknown_tier)
    else if has_bad_limit c
    then (oss, some bad_limits)
    else if str_eq c.jti ""
    then (oss, some missing_jti)
    else (license_of now c, none)

unfoldable pub from_verified : ℕ → Result LicenseError JwtClaims → License × Option LicenseError
unfolding from_claims
from_verified now (ok c) = from_claims now c
from_verified now (err e) = (oss, some e)

-- `blank` says whether the key is white space alone.
unfoldable pub load_with_keys :
    {Key : Type 0}
    → Codec Key
    → (String → Option String)
    → ℕ
    → Bool
    → List String
    → License × Option LicenseError
unfolding from_verified
load_with_keys codec keys now blank parts =
    if blank then (oss, none) else from_verified now (verify_and_decode codec keys parts)
