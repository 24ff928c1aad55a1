-- ===== src/License/Genuine.antt =====
-- Who gets a paid licence.
use wachd.Base.{
  ap, subst, ◌∙◌, ℕ, String, Bool, true, false, not, ◌&&◌, List, [], ◌∷◌, Option, none, some, ok,
  ◌≡◌, ◌↔◌, refl, arith, str_eq, eq_iff, if◌then◌else◌, >>=-eq-ok, ◌⊎◌, inl, inr, Result-cases,
}
use wachd.Base.Int.{pos, ◌+ℤ◌}
use Prim.Native.String.{◌++◌}
use wachd.License.{
  is_paid, bad_header, missing_kid, unknown_key, bad_public_key, bad_signature_text,
  verification_failed, bad_payload, bad_claims, invalid_issuer, expired, unknown_tier, bad_limits,
  missing_jti, License, JwtClaims, LicenseError, Codec, oss, grace_period, expiry, is_after,
  is_paid_tier, has_bad_limit, license_of, from_claims, verify_parts, or_fail, require,
  verify_and_decode, load_with_keys, from_verified,
}

-- Seven days past the expiry, as time.Unix reads it, at most, a paid tier, limits above zero and an id.
abbrev pub IsEntitled : ℕ → JwtClaims → Type 0
IsEntitled now c =
    (is_after (pos now) (expiry c) && is_after (pos now) (expiry c +ℤ pos grace_period) ≡ false)
    × (is_paid_tier c.tier ≡ true)
    × (has_bad_limit c ≡ false)
    × (str_eq c.jti "" ≡ false)

abbrev Loaded : Type 0
Loaded = License × Option LicenseError

-- The four checks, one after the other.
all_checks :
    (late paid low nameless : Bool) (given : License)
    → let loaded : Loaded =
        if late
        then (oss, some expired)
        else if not paid
        then (oss, some unknown_tier)
        else if low
        then (oss, some bad_limits)
        else if nameless
        then (oss, some missing_jti)
        else (given, none) in
      (loaded.0 ≡ oss)
      ⊎ (((late ≡ false) × (paid ≡ true) × (low ≡ false) × (nameless ≡ false)) × (loaded.0 ≡ given))
all_checks true paid low nameless given = inl refl
all_checks false false low nameless given = inl refl
all_checks false true true nameless given = inl refl
all_checks false true false true given = inl refl
all_checks false true false false given = inr ((refl, refl, refl, refl), refl)

from_claims-cases :
    (now : ℕ) (c : JwtClaims)
    → ((from_claims now c).0 ≡ oss)
      ⊎ (IsEntitled now c × ((from_claims now c).0 ≡ license_of now c))
unfolding from_claims
from_claims-cases now c =
    all_checks (is_after (pos now) (expiry c) && is_after (pos now) (expiry c +ℤ pos grace_period))
      (is_paid_tier c.tier) (has_bad_limit c) (str_eq c.jti "") (license_of now c)

from_claims-IsEntitled :
    (now : ℕ) (c : JwtClaims) → IsEntitled now c → (from_claims now c).0 ≡ license_of now c
unfolding from_claims
from_claims-IsEntitled now c (late, paid, low, nameless) = rw (late, paid, low, nameless) refl

module _ {Key : Type 0} (codec : Codec Key) (keys : String → Option String) where
  -- The token has three parts; its header names a known key, under which the signature of header and
  -- payload verifies; the payload decodes to the claims, which are by the right issuer.
  abbrev pub IsSigned : List String → JwtClaims → Type 0
  IsSigned parts c =
      (header : String) × (payload : String) × (signature : String) × (raw_header : String)
      × (kid : String) × (hex : String) × (key : Key) × (sig : String) × (raw_payload : String)
      × (parts ≡ header ∷ payload ∷ signature ∷ [])
      × (codec.decode_base64 header ≡ some raw_header)
      × (codec.kid_of raw_header ≡ some kid)
      × (str_eq kid "" ≡ false)
      × (keys kid ≡ some hex)
      × (codec.public_key hex ≡ some key)
      × (codec.decode_base64 signature ≡ some sig)
      × (codec.verify key (header ++ ("." ++ payload)) sig ≡ true)
      × (codec.decode_base64 payload ≡ some raw_payload)
      × (codec.claims_of raw_payload ≡ some c)
      × (c.issuer ≡ "wachd-license")

  or_fail-eq-ok :
      {A : Type 0} (e : LicenseError) (o : Option A) {a : A} → or_fail e o ≡ ok a → o ≡ some a
  unfolding or_fail
  or_fail-eq-ok e none h = cc
  or_fail-eq-ok e (some a) h = ground arith

  require-eq-ok : (b : Bool) (e : LicenseError) {u : Unit {0}} → require b e ≡ ok u → b ≡ true
  unfolding require
  require-eq-ok true e h = refl
  require-eq-ok false e h = cc

  verify_parts-IsSigned :
      (header payload signature : String) {c : JwtClaims}
      → verify_parts codec keys header payload signature ≡ ok c
      → IsSigned (header ∷ payload ∷ signature ∷ []) c
  unfolding verify_parts
  verify_parts-IsSigned header payload signature {c} h =
      let (raw_header, e1, h1) = >>=-eq-ok (or_fail bad_header (codec.decode_base64 header)) _ h in
      let (kid, e2, h2) = >>=-eq-ok (or_fail bad_header (codec.kid_of raw_header)) _ h1 in
      let (u3, e3, h3) = >>=-eq-ok (require (not (str_eq kid "")) missing_kid) _ h2 in
      let (hex, e4, h4) = >>=-eq-ok (or_fail unknown_key (keys kid)) _ h3 in
      let (key, e5, h5) = >>=-eq-ok (or_fail bad_public_key (codec.public_key hex)) _ h4 in
      let (sig, e6, h6) =
        >>=-eq-ok (or_fail bad_signature_text (codec.decode_base64 signature)) _ h5 in
      let (u7, e7, h7) =
        >>=-eq-ok (require (codec.verify key (header ++ ("." ++ payload)) sig) verification_failed)
          _ h6 in
      let (raw_payload, e8, h8) =
        >>=-eq-ok (or_fail bad_payload (codec.decode_base64 payload)) _ h7 in
      let (claims, e9, h9) = >>=-eq-ok (or_fail bad_claims (codec.claims_of raw_payload)) _ h8 in
      let (u10, e10, h10) =
        >>=-eq-ok (require (str_eq claims.issuer "wachd-license") invalid_issuer) _ h9 in
      let same : claims ≡ c = ground arith in
      (
        header,
        payload,
        signature,
        raw_header,
        kid,
        hex,
        key,
        sig,
        raw_payload,
        refl,
        or_fail-eq-ok _ _ e1,
        or_fail-eq-ok _ _ e2,
        ground (arith, require-eq-ok (not (str_eq kid "")) missing_kid e3),
        or_fail-eq-ok _ _ e4,
        or_fail-eq-ok _ _ e5,
        or_fail-eq-ok _ _ e6,
        require-eq-ok _ _ e7,
        or_fail-eq-ok _ _ e8,
        or_fail-eq-ok _ _ e9 ∙ ap some same,
        subst (λ x. x.issuer ≡ "wachd-license") same ((eq_iff _ _).0 (require-eq-ok _ _ e10)),
      )

  verify_and_decode-IsSigned :
      (parts : List String) {c : JwtClaims}
      → verify_and_decode codec keys parts ≡ ok c
      → IsSigned parts c
  unfolding verify_and_decode
  verify_and_decode-IsSigned [] h = cc
  verify_and_decode-IsSigned (a ∷ []) h = cc
  verify_and_decode-IsSigned (a ∷ b ∷ []) h = cc
  verify_and_decode-IsSigned (a ∷ b ∷ s ∷ []) h = verify_parts-IsSigned a b s h
  verify_and_decode-IsSigned (a ∷ b ∷ s ∷ d ∷ more) h = cc

  IsSigned-verify_and_decode :
      (parts : List String) (c : JwtClaims)
      → IsSigned parts c
      → verify_and_decode codec keys parts ≡ ok c
  unfolding verify_and_decode verify_parts or_fail require
  IsSigned-verify_and_decode parts c
        (
          header, payload, signature, raw_header, kid, hex, key, sig, raw_payload, whole, e1, e2,
          e3, e4, e5, e6, e7, e8, e9, e10,
        ) =
      rw (whole, e1, e2, e3, e4, e5, e6, e7, e8, e9, e10) refl

  loaded_genuine :
      (now : ℕ) (parts : List String)
      → ((load_with_keys codec keys now false parts).0 ≡ oss)
        ⊎ ((c : JwtClaims) × IsSigned parts c
            × IsEntitled now c
            × ((load_with_keys codec keys now false parts).0 ≡ license_of now c))
  unfolding load_with_keys from_verified
  loaded_genuine now parts = elim (Result-cases (verify_and_decode codec keys parts)) [
    | inr (failure, f) ↦ inl (rw f refl)
    | inl (c, v) ↦ elim (from_claims-cases now c) [
      | inl same ↦ inl (rw v same)
      | inr (entitled, same) ↦ inr (c, verify_and_decode-IsSigned parts v, entitled, rw v same)
    ]
  ]

  -- A key that is not blank gives a paid licence exactly when it is properly signed and its claims are entitled
  -- to one: at most seven days past the expiry, of a paid tier, with limits above zero and with an id. The
  -- expiry is the time that time.Unix makes of the claim, which wraps around near the greatest int64. The
  -- licence is the open-source one or has the limits of such claims.
  pub load_with_keys-IsGenuine :
      (now : ℕ) (parts : List String)
      → ((is_paid (load_with_keys codec keys now false parts).0 ≡ true)
          ↔ ((c : JwtClaims) × IsSigned parts c × IsEntitled now c))
        × (((load_with_keys codec keys now false parts).0 ≡ oss)
            ⊎ ((c : JwtClaims) × IsSigned parts c
                × ((load_with_keys codec keys now false parts).0 ≡ license_of now c)))
  unfolding load_with_keys from_verified
  load_with_keys-IsGenuine now parts = (
    (
      λ h. elim (loaded_genuine now parts) [
        | inl same ↦ absurd (ground (arith, rw same at h))
        | inr (c, signed, entitled, same) ↦ (c, signed, entitled)
      ],
      λ (c, signed, entitled).
          rw (IsSigned-verify_and_decode parts c signed, from_claims-IsEntitled now c entitled)
            entitled.1,
    ),
    elim (loaded_genuine now parts) [
      | inl same ↦ inl same
      | inr (c, signed, entitled, same) ↦ inr (c, signed, same)
    ],
  )
