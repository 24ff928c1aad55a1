-- ===== src/License/Revocation.antt =====
-- checkRevocation of internal/license/revocation.go. The reply of the endpoint is `none` where it cannot
-- be reached; `marshal` is json.Marshal of the signed payload.
use wachd.Base.{
  String, Bool, true, not, List, [], Option, none, some, any, ◌≡◌, ◌↔◌, refl, arith, Bool-cases,
  Option-cases, inl, inr, str_eq, if◌then◌else◌, ◌∙◌, ap,
}
use wachd.Base.Int.{ℤ}
use wachd.License.{Codec}

pub record RevocationResponse : Type 0 where
  pub revoked : Option (List String)
  pub issued_at : ℤ
  pub kid : String
  pub sig : String

-- Status 200, and the body as it decodes: `none` for an unreadable, empty or malformed one.
pub record Reply : Type 0 where
  pub is_ok : Bool
  pub body : Option RevocationResponse

-- `proceed` is nil; `inconclusive` is any error but ErrRevoked.
pub data Verdict : Type 0 where
  proceed revoked_license inconclusive : Verdict

abbrev pub revoked_list : RevocationResponse → List String
revoked_list rev = elim rev.revoked [ none ↦ [] | some l ↦ l ]

module _ {Key : Type 0} (codec : Codec Key) (keys : String → Option String)
    (marshal : List String → ℤ → String) (jti : String) where
  listed : List String → Verdict
  listed revoked = if any (λ r. str_eq r jti) revoked then revoked_license else proceed

  check_signature : RevocationResponse → Key → Option String → Verdict
  unfolding listed
  check_signature rev key none = inconclusive
  check_signature rev key (some sig) =
      if codec.verify key (marshal (revoked_list rev) rev.issued_at) sig
      then listed (revoked_list rev)
      else inconclusive

  check_key : RevocationResponse → Option Key → Verdict
  unfolding check_signature
  check_key rev none = inconclusive
  check_key rev (some key) = check_signature rev key (codec.decode_base64 rev.sig)

  check_list : RevocationResponse → Option String → Verdict
  unfolding check_key
  check_list rev none = inconclusive
  check_list rev (some hex) = check_key rev (codec.public_key hex)

  unfoldable pub check_revocation : Option Reply → Verdict
  unfolding check_list
  check_revocation none = proceed
  check_revocation (some reply) =
      if not reply.is_ok
      then proceed
      else elim reply.body [ none ↦ proceed | some rev ↦ check_list rev (keys rev.kid) ]

  -- The list names a known key, under which its signature verifies, and has the licence's id.
  abbrev pub IsRevokedBy : RevocationResponse → Type 0
  IsRevokedBy rev =
      (hex : String) × (key : Key) × (sig : String) × (keys rev.kid ≡ some hex)
      × (codec.public_key hex ≡ some key)
      × (codec.decode_base64 rev.sig ≡ some sig)
      × (codec.verify key (marshal (revoked_list rev) rev.issued_at) sig ≡ true)
      × (any (λ r. str_eq r jti) (revoked_list rev) ≡ true)

  check_list-IsRevokedBy :
      (rev : RevocationResponse) → check_list rev (keys rev.kid) ≡ revoked_license → IsRevokedBy rev
  unfolding check_list check_key check_signature listed
  check_list-IsRevokedBy rev e = elim (Option-cases (keys rev.kid)) [
    | inl absent ↦ absurd (ground (arith, rw absent at e))
    | inr (hex, k) ↦ elim (Option-cases (codec.public_key hex)) [
      | inl absent ↦ absurd (ground (arith, rw (k, absent) at e))
      | inr (key, p) ↦ elim (Option-cases (codec.decode_base64 rev.sig)) [
        | inl absent ↦ absurd (ground (arith, rw (k, p, absent) at e))
        | inr (sig, d) ↦
            let left = rw (k, p, d) at e in
            elim (Bool-cases (codec.verify key (marshal (revoked_list rev) rev.issued_at) sig)) [
              | inr bad ↦ absurd (ground (arith, rw bad at left))
              | inl good ↦ elim (Bool-cases (any (λ r. str_eq r jti) (revoked_list rev))) [
                | inl member ↦ (hex, key, sig, k, p, d, good, member)
                | inr other ↦ absurd (ground (arith, rw (good, other) at left))
              ]
            ]
      ]
    ]
  ]

  -- A licence is taken for revoked exactly when the endpoint answers with a list that is signed under a
  -- known key and has the licence's id; so nobody without such a key can revoke one, and nobody is
  -- stopped by an endpoint that cannot be reached or answers nonsense.
  pub check_revocation-IsRevokedBy :
      (reply : Option Reply)
      → (check_revocation reply ≡ revoked_license) ↔ (
          (r : Reply) × (rev : RevocationResponse) × (reply ≡ some r)
          × (r.is_ok ≡ true)
          × (r.body ≡ some rev)
          × IsRevokedBy rev)
  unfolding check_revocation check_list check_key check_signature listed
  check_revocation-IsRevokedBy none =
      (λ e. absurd (ground arith), λ (r, rev, e, fine, b, by). absurd (ground (arith, e)))
  check_revocation-IsRevokedBy (some reply) = (
    λ e. elim (Bool-cases reply.is_ok) [
      | inr bad ↦ absurd (ground (arith, rw bad at e))
      | inl fine ↦ elim (Option-cases reply.body) [
        | inl absent ↦ absurd (ground (arith, rw (fine, absent) at e))
        | inr (rev, b) ↦ (reply, rev, refl, fine, b, check_list-IsRevokedBy rev (rw (fine, b) at e))
      ]
    ],
    λ (r, rev, e, fine, b, (hex, key, sig, k, p, d, good, member)).
        ap check_revocation e ∙ rw (fine, b, k, p, d, good, member) refl,
  )
