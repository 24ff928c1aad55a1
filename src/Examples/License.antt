-- ===== src/Examples/License.antt =====
-- A licence that is three days past its expiry, and a list that revokes it. Keys and texts are plain.
use wachd.Base.{
  ℕ, ◌+◌, ◌*◌, String, true, false, List, [], ◌∷◌, Option, none, some, ◌≡◌, ◌↔◌, ◌⊎◌, refl, str_eq,
  if◌then◌else◌,
}
use wachd.Base.Int.{ℤ, pos, ◌+ℤ◌, ◌-ℤ◌, wrap64, ◌*ℤ◌}
use wachd.License.{
  JwtClaims, Codec, oss, second, is_paid, license_of, load_with_keys, verify_and_decode,
}
use wachd.License.Genuine.{IsSigned, IsEntitled, load_with_keys-IsGenuine}
use wachd.License.Revocation.{Reply, revoked_license, check_revocation}

abbrev claims : JwtClaims
claims = record {
  issuer = "wachd-license";
  jti = "lic-1";
  expires_at = pos 1000;
  tier = "smb";
  max_teams = pos 5;
  max_users = pos 50;
  max_alerts = pos 20000;
  customer_name = "Acme";
}

-- The signature of a message is the message itself.
abbrev plain : Codec String
plain = record {
  decode_base64 = λ text. some text;
  kid_of = λ text. if str_eq text "header" then some "v1" else none;
  claims_of = λ text. if str_eq text "payload" then some claims else none;
  public_key = λ hex. some hex;
  verify = λ key message sig. str_eq message sig;
}

abbrev keys : String → Option String
keys kid = if str_eq kid "v1" then some "key" else none

abbrev token : List String
token = "header" ∷ "payload" ∷ "header.payload" ∷ []

abbrev three_days_late : ℕ
three_days_late = (1000 + 3 * 24 * 3600) * second

load_with_keys-IsGenuine_example :
    ((is_paid (load_with_keys plain keys three_days_late false token).0 ≡ true)
      ↔ ((c : JwtClaims) × IsSigned plain keys token c × IsEntitled three_days_late c))
    × (((load_with_keys plain keys three_days_late false token).0 ≡ oss)
        ⊎ ((c : JwtClaims) × IsSigned plain keys token c
            × ((load_with_keys plain keys three_days_late false token).0
                ≡ license_of three_days_late c)))
load_with_keys-IsGenuine_example = load_with_keys-IsGenuine plain keys three_days_late token

late_but_paid : is_paid (load_with_keys plain keys three_days_late false token).0 ≡ true
unfolding load_with_keys verify_and_decode ◌*ℤ◌ ◌+ℤ◌ ◌-ℤ◌ wrap64
late_but_paid = refl

abbrev marshal : List String → ℤ → String
marshal revoked issued_at = "list"

abbrev answer : Reply
answer = record {
  is_ok = true;
  body =
      some (record { revoked = some ("lic-1" ∷ []); issued_at = pos 0; kid = "v1"; sig = "list" });
}

revoked_by_answer : check_revocation plain keys marshal "lic-1" (some answer) ≡ revoked_license
unfolding check_revocation
revoked_by_answer = refl
