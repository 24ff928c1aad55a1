-- ===== src/Password.antt =====
-- Which passwords are accepted: ValidatePolicy of internal/auth/password.go, validateDefaultPolicy and
-- generateAdminPassword of cmd/server/main.go. A password is the list of its code points, which are its
-- bytes if it is ASCII. `Classes` stands for the tables of Go's package unicode, and `Random` for
-- rand.Int(rand.Reader, max): the answer to each call, by its number.
pub mod Accepted
pub mod Generated
use wachd.Base.{
  ℕ, zero, String, List, if◌then◌else◌, Bool, false, true, Option, Result, [], ltb, ◌∷◌, ◌||◌, not,
  ◌&&◌, leb, ◌++◌, get_elem?, length, ok, ◌>>=◌, ◌+◌, some, suc, none, err,
}
use wachd.Base.Int.{ℤ, ltb_ℤ, pos}
use Prim.Native.Char.{code}

abbrev pub codes : String → List ℕ
codes String.[] = []
codes (String.◌∷◌ c s) = code c ∷ codes s

-- The bytes of a code point in UTF-8.
abbrev pub rune_len : ℕ → ℕ
rune_len r = if ltb r 128 then 1 else if ltb r 2048 then 2 else if ltb r 65536 then 3 else 4

unfoldable pub byte_len : List ℕ → ℕ
byte_len [] = 0
byte_len (r ∷ rs) = rune_len r + byte_len rs

pub record Classes : Type 0 where
  pub is_upper : ℕ → Bool
  pub is_lower : ℕ → Bool
  pub is_digit : ℕ → Bool
  pub is_punct : ℕ → Bool
  pub is_symbol : ℕ → Bool

-- The fields of PasswordPolicy that ValidatePolicy reads.
pub record PasswordRules : Type 0 where
  pub min_length : ℤ
  pub require_uppercase : Bool
  pub require_lowercase : Bool
  pub require_number : Bool
  pub require_special : Bool

-- The branch of the loop's switch that a code point takes.
pub data Class : Type 0 where
  upper lower digit special other : Class

pub record Seen : Type 0 where
  pub has_upper : Bool
  pub has_lower : Bool
  pub has_digit : Bool
  pub has_special : Bool

abbrev pub none_seen : Seen
none_seen = record { has_upper = false; has_lower = false; has_digit = false; has_special = false }

abbrev pub see : Class → Seen → Seen
see upper s = record s { has_upper = true }
see lower s = record s { has_lower = true }
see digit s = record s { has_digit = true }
see special s = record s { has_special = true }
see other s = s

unfoldable pub class_of : Classes → ℕ → Class
class_of u r =
    if u.is_upper r
    then upper
    else if u.is_lower r
    then lower
    else if u.is_digit r
    then digit
    else if u.is_punct r || u.is_symbol r
    then special
    else other

unfoldable pub scan : (ℕ → Class) → List ℕ → Seen → Seen
scan class [] s = s
scan class (r ∷ rs) s = scan class rs (see (class r) s)

pub data Rejection : Type 0 where
  too_short lacks_upper lacks_lower lacks_digit lacks_special : Rejection

abbrev pub has_no_rules : PasswordRules → Bool
has_no_rules p =
    not p.require_uppercase
    && not p.require_lowercase
    && not p.require_number
    && not p.require_special

unfoldable pub first_missing : PasswordRules → Seen → Option Rejection
first_missing p s =
    if p.require_uppercase && not s.has_upper
    then some lacks_upper
    else if p.require_lowercase && not s.has_lower
    then some lacks_lower
    else if p.require_number && not s.has_digit
    then some lacks_digit
    else if p.require_special && not s.has_special
    then some lacks_special
    else none

-- The first rule that the password violates.
unfoldable pub validate_policy : Classes → List ℕ → PasswordRules → Option Rejection
unfolding byte_len scan class_of first_missing
validate_policy u password p =
    if ltb_ℤ (pos (byte_len password)) p.min_length
    then some too_short
    else if has_no_rules p
    then none
    else first_missing p (scan (class_of u) password none_seen)

abbrev pub default_class : ℕ → Class
default_class c =
    if leb b'A' c && leb c b'Z'
    then upper
    else if leb b'a' c && leb c b'z'
    then lower
    else if leb b'0' c && leb c b'9'
    then digit
    else special

unfoldable pub default_missing : Seen → Option Rejection
default_missing s =
    if not s.has_upper
    then some lacks_upper
    else if not s.has_lower
    then some lacks_lower
    else if not s.has_digit
    then some lacks_digit
    else if not s.has_special
    then some lacks_special
    else none

unfoldable pub validate_default_policy : List ℕ → Option Rejection
unfolding byte_len scan default_missing
validate_default_policy pw =
    if ltb (byte_len pw) 12
    then some too_short
    else default_missing (scan default_class pw none_seen)

abbrev pub Random : Type 0
Random = ℕ → ℕ → Option ℕ

pub data RandFailure : Type 0 where
  rand_failed index_out_of_range : RandFailure

abbrev pub upper_charset : List ℕ
upper_charset = codes "ABCDEFGHJKLMNPQRSTUVWXYZ"

abbrev pub lower_charset : List ℕ
lower_charset = codes "abcdefghjkmnpqrstuvwxyz"

abbrev pub digit_charset : List ℕ
digit_charset = codes "23456789"

abbrev pub special_charset : List ℕ
special_charset = codes "!@#$%^&*"

abbrev pub all_charset : List ℕ
all_charset = upper_charset ++ lower_charset ++ digit_charset ++ special_charset

-- An index expression, which panics out of range.
unfoldable pub index : List ℕ → ℕ → Result RandFailure ℕ
index buf i = elim (get_elem? buf i) [ none ↦ err index_out_of_range | some b ↦ ok b ]

-- Call k of rand.Int(rand.Reader, n).
unfoldable pub draw : Random → ℕ → ℕ → Result RandFailure ℕ
draw rand k n = elim (rand k n) [ none ↦ err rand_failed | some i ↦ ok i ]

unfoldable pub pick : Random → ℕ → List ℕ → Result RandFailure ℕ
unfolding draw index
pick rand k charset = draw rand k (length charset) >>= index charset

-- One byte of each set, from call k on.
unfoldable pub picks : Random → ℕ → List (List ℕ) → Result RandFailure (List ℕ)
unfolding pick
picks rand k [] = ok []
picks rand k (charset ∷ charsets) =
    pick rand k charset >>= λ b. picks rand (k + 1) charsets >>= λ bs. ok (b ∷ bs)

abbrev pub repeat {ℓ} : {A : Type ℓ} → ℕ → A → List A
repeat zero a = []
repeat (suc n) a = a ∷ repeat n a

-- The sets of the two loops: one of each class, and twelve of all.
abbrev pub charsets : List (List ℕ)
charsets = upper_charset ∷ lower_charset ∷ digit_charset ∷ special_charset ∷ repeat 12 all_charset

unfoldable pub assign : ℕ → ℕ → List ℕ → List ℕ
assign i b [] = []
assign zero b (c ∷ cs) = b ∷ cs
assign (suc i) b (c ∷ cs) = c ∷ assign i b cs

unfoldable pub swap : ℕ → ℕ → List ℕ → Result RandFailure (List ℕ)
unfolding index assign
swap i j buf = index buf j >>= λ b. index buf i >>= λ a. ok (assign j a (assign i b buf))

-- The Fisher-Yates loop from index i down to 1, from call k on.
unfoldable pub shuffle : Random → ℕ → ℕ → List ℕ → Result RandFailure (List ℕ)
unfolding draw swap
shuffle rand k zero buf = ok buf
shuffle rand k (suc i) buf = draw rand k (suc i + 1) >>= λ j.
    swap (suc i) j buf >>= λ swapped. shuffle rand (k + 1) i swapped

unfoldable pub generate_admin_password : Random → Result RandFailure (List ℕ)
unfolding picks shuffle
generate_admin_password rand = picks rand 0 charsets >>= λ buf. shuffle rand 16 15 buf
