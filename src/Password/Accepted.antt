-- ===== src/Password/Accepted.antt =====
-- What an accepted password looks like.
use wachd.Base.{
  ℕ, Bool, true, false, ◌&&◌, ◌||◌, List, [], ◌∷◌, any, none, ◌≡◌, refl, arith, ◌∙◌, ◌↔◌,
}
use wachd.Base.Int.{pos, ◌≤ℤ◌}
use wachd.Password.{
  Classes, PasswordRules, Class, upper, lower, digit, special, other, Seen, none_seen, see,
  class_of, scan, byte_len, validate_policy, first_missing,
}

-- The classes do not overlap, as Unicode's general categories do not.
abbrev Excludes : (ℕ → Bool) → (ℕ → Bool) → Type 0
Excludes p q = (r : ℕ) → (p r && q r) ≡ false

abbrev pub is_special : Classes → ℕ → Bool
is_special u r = u.is_punct r || u.is_symbol r

abbrev pub Disjoint : Classes → Type 0
Disjoint u =
    Excludes u.is_upper u.is_lower
    × Excludes u.is_upper u.is_digit
    × Excludes u.is_upper (is_special u)
    × Excludes u.is_lower u.is_digit
    × Excludes u.is_lower (is_special u)
    × Excludes u.is_digit (is_special u)

-- Long enough, and with a code point of each class that is required.
abbrev pub IsStrong : Classes → PasswordRules → List ℕ → Type 0
IsStrong u p password =
    (p.min_length ≤ℤ pos (byte_len password))
    × (p.require_uppercase ≡ true → any u.is_upper password ≡ true)
    × (p.require_lowercase ≡ true → any u.is_lower password ≡ true)
    × (p.require_number ≡ true → any u.is_digit password ≡ true)
    × (p.require_special ≡ true → any (is_special u) password ≡ true)

abbrev pub same : Class → Class → Bool
same upper upper = true
same lower lower = true
same digit digit = true
same special special = true
same _ _ = false

-- Whether a class was seen; `other` counts as seen.
abbrev pub seen : Class → Seen → Bool
seen upper s = s.has_upper
seen lower s = s.has_lower
seen digit s = s.has_digit
seen special s = s.has_special
seen other s = true

seen-see : (k c : Class) (s : Seen) → seen k (see c s) ≡ (seen k s || same k c)
seen-see upper c s = ground arith
seen-see lower c s = ground arith
seen-see digit c s = ground arith
seen-see special c s = ground arith
seen-see other c s = ground arith

pub scan-any :
    (class : ℕ → Class) (k : Class) (w : List ℕ) (s : Seen)
    → seen k (scan class w s) ≡ (seen k s || any (λ r. same k (class r)) w)
unfolding scan
scan-any class k [] s = ground arith
scan-any class k (r ∷ w) s =
    ground (arith, scan-any class k w (see (class r) s), seen-see k (class r) s)

pub any-cong : (p q : ℕ → Bool) (w : List ℕ) → ((r : ℕ) → p r ≡ q r) → any p w ≡ any q w
any-cong p q [] e = refl
any-cong p q (r ∷ w) e = rw (e r, any-cong p q w e) refl

module _ (u : Classes) (apart : Disjoint u) where
  scan-upper : (w : List ℕ) → (scan (class_of u) w none_seen).has_upper ≡ any u.is_upper w
  unfolding class_of
  scan-upper w =
      scan-any (class_of u) upper w none_seen
      ∙ any-cong (λ r. same upper (class_of u r)) u.is_upper w (λ r. ground arith)

  scan-lower : (w : List ℕ) → (scan (class_of u) w none_seen).has_lower ≡ any u.is_lower w
  unfolding class_of
  scan-lower w =
      scan-any (class_of u) lower w none_seen
      ∙ any-cong (λ r. same lower (class_of u r)) u.is_lower w (λ r. ground (arith, apart.0 r))

  scan-digit : (w : List ℕ) → (scan (class_of u) w none_seen).has_digit ≡ any u.is_digit w
  unfolding class_of
  scan-digit w =
      scan-any (class_of u) digit w none_seen
      ∙ any-cong (λ r. same digit (class_of u r)) u.is_digit w
          (λ r. ground (arith, apart.1 r, apart.3 r))

  scan-special : (w : List ℕ) → (scan (class_of u) w none_seen).has_special ≡ any (is_special u) w
  unfolding class_of
  scan-special w =
      scan-any (class_of u) special w none_seen
      ∙ any-cong (λ r. same special (class_of u r)) (is_special u) w
          (λ r. ground (arith, apart.2 r, apart.4 r, apart.5 r))

  -- A password is accepted exactly if it has at least min_length bytes and, for each class that the policy
  -- requires, a code point of this class; provided that no code point is in two classes.
  pub validate_policy-IsStrong :
      (p : PasswordRules) (w : List ℕ) → (validate_policy u w p ≡ none) ↔ IsStrong u p w
  unfolding validate_policy first_missing
  validate_policy-IsStrong p w = (
    λ e. ground (arith, scan-upper w, scan-lower w, scan-digit w, scan-special w),
    λ strong. ground (arith, scan-upper w, scan-lower w, scan-digit w, scan-special w),
  )
