-- ===== src/Oncall/Rotation/Label.antt =====
-- fmt.Sprintf("Layer %d", order): an int64 has at most 19 digits.
use Prim.Native.String.{◌++◌}
use wachd.Base.{ℕ, zero, suc, ◌/◌, ◌%◌, String, ◌==◌, if◌then◌else◌}
use wachd.Base.Int.{ℤ, pos, negsuc}

digit_text : ℕ → String
digit_text zero = "0"
digit_text (suc zero) = "1"
digit_text (suc (suc zero)) = "2"
digit_text (suc (suc (suc zero))) = "3"
digit_text (suc (suc (suc (suc zero)))) = "4"
digit_text (suc (suc (suc (suc (suc zero))))) = "5"
digit_text (suc (suc (suc (suc (suc (suc zero)))))) = "6"
digit_text (suc (suc (suc (suc (suc (suc (suc zero))))))) = "7"
digit_text (suc (suc (suc (suc (suc (suc (suc (suc zero)))))))) = "8"
digit_text _ = "9"

decimal : ℕ → ℕ → String → String
decimal zero n shown = shown
decimal (suc digits) n shown =
    let longer = decimal digits (n / 10) (digit_text (n % 10) ++ shown) in
    if n / 10 == 0 then digit_text (n % 10) ++ shown else longer

itoa : ℤ → String
unfolding decimal digit_text
itoa (pos n) = decimal 20 n ""
itoa (negsuc n) = "-" ++ decimal 20 (suc n) ""

unfoldable pub layer_label : ℤ → String
unfolding itoa
layer_label order = "Layer " ++ itoa order
