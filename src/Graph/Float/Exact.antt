-- ===== src/Graph/Float/Exact.antt =====
-- Quotients of equal values are 1, and sums of values that are not 0 are not 0.
use native.Mathlib.Omega.{div_any}
use native.Mathlib.Nat.{
  le-div_iff_mul-le, mul-add, mul-lt-mul_of_pos_left, mul-le-mul_left, mul-div-mul_left, mul_assoc,
  mul_comm,
}
use wachd.Base.{
  ℕ, zero, suc, ◌*◌, ◌+◌, ◌/◌, ◌%◌, ◌≡◌, ◌<◌, ◌≤◌, ◌^◌, refl, ap, sym, ◌∙◌, true, false, Bool-cases,
  inl, inr, arith, ltb, lt→ltb, ltb→lt,
}
use wachd.Graph.Float.{one, to_nearest, rounded_up, to_53_bits, add_float, div_float}

swap : (a b c : ℕ) → a * (b * c) ≡ b * (a * c)
swap a b c = sym (mul_assoc a b c) ∙ ap (λ x. x * c) (mul_comm a b) ∙ mul_assoc b a c

remainders : (a b m r p : ℕ) → a + m ≡ p → b + r ≡ p → a ≡ b → m ≡ r
remainders a b m r p e f g = omega arith

mul_mod_mul : (c n d : ℕ) → zero < c → (c * n) % (c * d) ≡ c * (n % d)
mul_mod_mul c n d h =
    remainders (c * d * (c * n / (c * d))) (c * (d * (n / d))) _ _ (c * n) (div_any (c * n) (c * d))
      (sym (mul-add c (d * (n / d)) (n % d)) ∙ ap (λ x. c * x) (div_any n d))
      (ap (λ x. c * d * x) (mul-div-mul_left n d h) ∙ mul_assoc c d (n / d))

ltb_scaled : (c a b : ℕ) → zero < c → ltb (c * a) (c * b) ≡ ltb a b
ltb_scaled c a b h = elim (Bool-cases (ltb a b)) [
  | inl e ↦ lt→ltb (c * a) (c * b) (mul-lt-mul_of_pos_left (ltb→lt a b e) h) ∙ sym e
  | inr e ↦ not_ltb (c * a) (c * b) (mul-le-mul_left c (le_of_ltb a b e)) ∙ sym e
]
  where
    le_of_ltb : (x y : ℕ) → ltb x y ≡ false → y ≤ x
    le_of_ltb x y e = ground arith

    not_ltb : (x y : ℕ) → y ≤ x → ltb x y ≡ false
    not_ltb x y k = ground arith

to_nearest_scaled : (c n d : ℕ) → zero < c → to_nearest (c * n) (c * d) ≡ to_nearest n d
to_nearest_scaled c n d h =
    rw
      (
        mul-div-mul_left n d h,
        mul_mod_mul c n d h,
        swap 2 c (n % d),
        ltb_scaled c (2 * (n % d)) d h,
        ltb_scaled c d (2 * (n % d)) h,
      )
      refl

one_fits : to_53_bits 2100 one 1 ≡ one
unfolding to_53_bits
one_fits = refl

-- The two cases of a step.
fits : (fuel n d : ℕ) → ltb (n / d) (2 ^ 53) ≡ true → to_53_bits (suc fuel) n d ≡ to_nearest n d
unfolding to_53_bits
fits fuel n d b = rw (to_53_bits, b) refl

wide :
    (fuel n d : ℕ)
    → ltb (n / d) (2 ^ 53) ≡ false
    → to_53_bits (suc fuel) n d ≡ 2 * to_53_bits fuel n (2 * d)
unfolding to_53_bits
wide fuel n d b = rw (to_53_bits, b) refl

to_53_bits_scaled :
    (c fuel n d : ℕ) → zero < c → to_53_bits fuel (c * n) (c * d) ≡ to_53_bits fuel n d
unfolding to_53_bits
to_53_bits_scaled c zero n d h = to_nearest_scaled c n d h
to_53_bits_scaled c (suc fuel) n d h = elim (Bool-cases (ltb (n / d) (2 ^ 53))) [
  | inl b ↦
      fits fuel (c * n) (c * d) (rw (mul-div-mul_left n d h) b)
      ∙ to_nearest_scaled c n d h
      ∙ sym (fits fuel n d b)
  | inr b ↦
      wide fuel (c * n) (c * d) (rw (mul-div-mul_left n d h) b)
      ∙ ap (λ x. 2 * to_53_bits fuel (c * n) x) (swap 2 c d)
      ∙ ap (λ x. 2 * x) (to_53_bits_scaled c fuel n (2 * d) h)
      ∙ sym (wide fuel n d b)
]

quotient : (x n d : ℕ) → zero < d → x * d ≤ n → x ≤ n / d
quotient x n d h k = (le-div_iff_mul-le h).1 k

at_least : (n d : ℕ) → zero < d → d ≤ n → zero < to_nearest n d
at_least n d h k = positive (n / d) (2 * (n % d)) (quotient 1 n d h (omega arith))
  where
    positive : (q r : ℕ) → zero < q → zero < rounded_up q r d
    positive q r p = ground arith

to_53_bits_pos : (fuel n d : ℕ) → zero < d → d ≤ n → zero < to_53_bits fuel n d
unfolding to_53_bits
to_53_bits_pos zero n d h k = at_least n d h k
to_53_bits_pos (suc fuel) n d h k = elim (Bool-cases (ltb (n / d) (2 ^ 53))) [
  | inl b ↦ rw (fits fuel n d b) (at_least n d h k)
  | inr b ↦ rw (wide fuel n d b) (
      doubled _ (
        to_53_bits_pos fuel n (2 * d) (omega arith)
          ((le-div_iff_mul-le h).0 (two_at_least (n / d) b))))
]
  where
    two_at_least : (q : ℕ) → ltb q (2 ^ 53) ≡ false → 2 ≤ q
    two_at_least q e = ground arith

    doubled : (x : ℕ) → zero < x → zero < 2 * x
    doubled x p = omega arith

-- The quotient of a value by itself is 1.
pub div_float_self : (x : ℕ) → zero < x → div_float x x ≡ one
unfolding div_float
div_float_self x h =
    ap (λ y. to_53_bits 2100 (x * one) y) (omega arith)
    ∙ to_53_bits_scaled x 2100 one 1 h
    ∙ one_fits

pub add_float_pos : (a b : ℕ) → zero < a + b → zero < add_float a b
unfolding add_float
add_float_pos a b h = to_53_bits_pos 2100 (a + b) 1 (omega arith) h
