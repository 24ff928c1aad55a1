-- ===== src/Notify/Text.antt =====
-- Texts of notifications as lists of runes: strings.TrimSpace, and truncateRunes of
-- internal/notify/similar_incident.go.
use wachd.Base.{
  ℕ, ◌-◌, ◌≤◌, Bool, ◌&&◌, ◌||◌, List, [], ◌∷◌, ◌++◌, length, length-append, length-take, take,
  is_nil, ◌==◌, leb, if◌then◌else◌, arith,
}
use wachd.Password.{codes}

-- unicode.IsSpace
abbrev pub is_space : ℕ → Bool
is_space r =
    leb 9 r && leb r 13
    || r == 0x20
    || r == 0x85
    || r == 0xA0
    || r == 0x1680
    || leb 0x2000 r && leb r 0x200A
    || r == 0x2028
    || r == 0x2029
    || r == 0x202F
    || r == 0x205F
    || r == 0x3000

unfoldable pub trim_left : List ℕ → List ℕ
trim_left [] = []
trim_left (r ∷ rs) = let rest = trim_left rs in if is_space r then rest else r ∷ rs

unfoldable pub trim_right : List ℕ → List ℕ
trim_right [] = []
trim_right (r ∷ rs) = let rest = trim_right rs in if is_nil rest && is_space r then [] else r ∷ rest

unfoldable pub trim_space : List ℕ → List ℕ
unfolding trim_left trim_right
trim_space rs = trim_right (trim_left rs)

abbrev pub dots : List ℕ
dots = codes "..."

-- `max` is positive wherever it is called, or tested to be.
unfoldable pub truncate_runes : List ℕ → ℕ → List ℕ
unfolding trim_space
truncate_runes value max =
    if max == 0
    then []
    else if leb (length (trim_space value)) max
    then trim_space value
    else if leb max 3
    then take max (trim_space value)
    else trim_space (take (max - 3) (trim_space value)) ++ dots

length-trim_left : (rs : List ℕ) → length (trim_left rs) ≤ length rs
unfolding trim_left
length-trim_left [] = omega arith
length-trim_left (r ∷ rs) = ground (arith, length-trim_left rs)

length-trim_right : (rs : List ℕ) → length (trim_right rs) ≤ length rs
unfolding trim_right
length-trim_right [] = omega arith
length-trim_right (r ∷ rs) = ground (arith, length-trim_right rs)

pub length-trim_space : (rs : List ℕ) → length (trim_space rs) ≤ length rs
unfolding trim_space
length-trim_space rs = omega (arith, length-trim_right (trim_left rs), length-trim_left rs)

-- The result has at most max runes.
pub length-truncate_runes : (value : List ℕ) (max : ℕ) → length (truncate_runes value max) ≤ max
unfolding truncate_runes
length-truncate_runes value max =
    let v = trim_space value in
    ground (
      arith,
      length-take max v,
      length-take (max - 3) v,
      length-trim_space (take (max - 3) v),
      length-append (trim_space (take (max - 3) v)) dots,
    )
