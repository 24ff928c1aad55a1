-- ===== src/Graph/Float.antt =====
-- The float64 arithmetic of internal/graph/similarity.go, and of the rotation interval in
-- internal/oncall/schedule.go, on values that are finite and not negative: such
-- a value is a whole number of units of 2^-1074, and each operation rounds its exact result to 53 bits,
-- to the nearest value and on a tie to the even one. No value of the scorer comes near 2^1024. A product and a
-- sum round one after the other, as on amd64; where Go fuses them, the last bits may differ.
pub mod Exact
use wachd.Base.{ℕ, zero, suc, ◌+◌, ◌*◌, true, false, ◌==◌, ltb, if◌then◌else◌, ◌^◌, ◌%◌, ◌/◌}

abbrev pub one : ℕ
one = 2 ^ 1074

abbrev rounded_up : ℕ → ℕ → ℕ → ℕ
rounded_up q twice d =
    if ltb twice d then q else if ltb d twice then suc q else if q % 2 == 0 then q else suc q

-- n / d as a whole number of units.
abbrev pub to_nearest : ℕ → ℕ → ℕ
to_nearest n d = rounded_up (n / d) (2 * (n % d)) d

-- The last place of the result is doubled until the result has 53 bits. The fuel 2100 is more than the
-- 2098 bits of the largest float64.
unfoldable pub to_53_bits : ℕ → ℕ → ℕ → ℕ
to_53_bits zero n d = to_nearest n d
to_53_bits (suc fuel) n d = elim (ltb (n / d) (2 ^ 53)) [
  | true ↦ to_nearest n d
  | false ↦ 2 * to_53_bits fuel n (2 * d)
]

unfoldable pub add_float : ℕ → ℕ → ℕ
unfolding to_53_bits
add_float a b = to_53_bits 2100 (a + b) 1

unfoldable pub mul_float : ℕ → ℕ → ℕ
unfolding to_53_bits
mul_float a b = to_53_bits 2100 (a * b) one

unfoldable pub div_float : ℕ → ℕ → ℕ
unfolding to_53_bits
div_float a b = to_53_bits 2100 (a * one) b

-- float64(n), for n below 2^53.
abbrev pub float : ℕ → ℕ
float n = n * one

-- A constant with two digits behind the point.
unfoldable pub hundredths : ℕ → ℕ
unfolding div_float
hundredths n = div_float (float n) (float 100)

-- math.Round: halves go up.
abbrev pub round_float : ℕ → ℕ
round_float a = (2 * a + one) / (2 * one) * one
