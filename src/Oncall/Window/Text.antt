-- ===== src/Oncall/Window/Text.antt =====
-- parseHHMM of internal/oncall/schedule.go: fmt.Sscanf(s, "%d:%d", &h, &m) over the bytes of s.
use wachd.Base.{
  ℕ, ◌+◌, ◌-◌, ◌*◌, ◌/◌, ◌%◌, ◌^◌, ◌<◌, ◌≡◌, Bool, true, false, not, ◌&&◌, ◌||◌, List, [], ◌∷◌,
  Option, none, some, length, ltb, leb, ◌==◌, if◌then◌else◌, arith,
}
use wachd.Base.Int.{ℤ, pos, negsuc, ◌+ℤ◌, ◌*ℤ◌, wrap64, wrap64-pos}

is_digit : ℕ → Bool
is_digit c = leb b'0' c && leb c b'9'

-- White space inside a line; a newline stops the scan.
is_space : ℕ → Bool
is_space c = (leb 9 c && leb c 13 && not (c == 10)) || c == 32

-- The white space of Unicode that UTF-8 writes in two bytes: U+0085 and U+00A0.
is_space_of_two : ℕ → ℕ → Bool
is_space_of_two c d = c == 0xC2 && (d == 0x85 || d == 0xA0)

-- And in three: U+1680, U+2000 to U+200A, U+2028, U+2029, U+202F, U+205F and U+3000.
is_space_of_three : ℕ → ℕ → ℕ → Bool
is_space_of_three c d e =
    c == 0xE1 && d == 0x9A && e == 0x80
    || c == 0xE2 && d == 0x80 && (leb 0x80 e && leb e 0x8A || e == 0xA8 || e == 0xA9 || e == 0xAF)
    || c == 0xE2 && d == 0x81 && e == 0x9F
    || c == 0xE3 && d == 0x80 && e == 0x80

skip_space : List ℕ → List ℕ
skip_space [] = []
skip_space (c ∷ []) = if is_space c then [] else c ∷ []
skip_space (c ∷ d ∷ []) =
    let rest = skip_space (d ∷ []) in
    if is_space c then rest else if is_space_of_two c d then [] else c ∷ d ∷ []
skip_space (c ∷ d ∷ e ∷ cs) = elim (is_space c) [
  | true ↦ skip_space (d ∷ e ∷ cs)
  | false ↦ elim (is_space_of_two c d) [
    | true ↦ skip_space (e ∷ cs)
    | false ↦ elim (is_space_of_three c d e) [ true ↦ skip_space cs | false ↦ c ∷ d ∷ e ∷ cs ]
  ]
]

scan_digits : ℕ → List ℕ → ℕ × List ℕ
scan_digits acc [] = (acc, [])
scan_digits acc (c ∷ cs) =
    let rest = scan_digits (acc * 10 + (c - b'0')) cs in if is_digit c then rest else (acc, c ∷ cs)

-- strconv.ParseInt refuses what does not fit an int64.
fit : Bool → ℕ × List ℕ → Option (ℤ × List ℕ)
fit false (n, rest) = if ltb n (2 ^ 63) then some (pos n, rest) else none
fit true (n, rest) =
    if n == 0
    then some (pos 0, rest)
    else if leb n (2 ^ 63)
    then some (negsuc (n - 1), rest)
    else none

scan_number : Bool → List ℕ → Option (ℤ × List ℕ)
scan_number negative [] = none
scan_number negative (c ∷ cs) = if is_digit c then fit negative (scan_digits 0 (c ∷ cs)) else none

scan_sign : List ℕ → Option (ℤ × List ℕ)
scan_sign [] = none
scan_sign (c ∷ cs) =
    if c == b'+'
    then scan_number false cs
    else if c == b'-'
    then scan_number true cs
    else scan_number false (c ∷ cs)

-- The verb %d.
scan_int : List ℕ → Option (ℤ × List ℕ)
scan_int s = scan_sign (skip_space s)

minutes_or_zero : Option (ℤ × List ℕ) → ℤ
minutes_or_zero none = pos 0
minutes_or_zero (some (m, _)) = m

-- What follows the hours: a scan that stops early leaves m at 0.
after_hours : List ℕ → ℤ
after_hours [] = pos 0
after_hours (c ∷ cs) = if c == b':' then minutes_or_zero (scan_int cs) else pos 0

scan_hhmm : Option (ℤ × List ℕ) → ℤ
scan_hhmm none = pos 0
scan_hhmm (some (h, rest)) = wrap64 (h *ℤ pos 60 +ℤ after_hours rest)

unfoldable pub parse_hhmm : List ℕ → ℤ
unfolding scan_hhmm after_hours minutes_or_zero scan_int scan_sign scan_number fit scan_digits
    skip_space is_space is_space_of_two is_space_of_three is_digit
parse_hhmm s = if ltb (length s) 5 then pos 0 else scan_hhmm (scan_int s)

-- "HH:MM"
abbrev pub clock_text : ℕ → ℕ → List ℕ
clock_text h m = (b'0' + h / 10) ∷ (b'0' + h % 10) ∷ b':' ∷ (b'0' + m / 10) ∷ (b'0' + m % 10) ∷ []

-- A time of day that is written as two digits, a colon and two digits is parsed to its minutes. The
-- hours and the minutes may be any number below 100.
pub parse_hhmm-clock_text :
    (h m : ℕ) → h < 100 → m < 100 → parse_hhmm (clock_text h m) ≡ pos (h * 60 + m)
unfolding parse_hhmm ◌+ℤ◌ ◌*ℤ◌
parse_hhmm-clock_text h m p q = ground (arith, wrap64-pos (h * 60 + m))
