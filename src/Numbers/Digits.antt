-- ===== src/Numbers/Digits.antt =====
-- The digits of a number have its value.
use rellaf.Prelude.{
  ℕ, zero, suc, ◌+◌, ◌-◌, ◌*◌, ◌/◌, ◌%◌, ◌^◌, ◌<◌, [], ◌∷◌, ◌++◌, true, false, Bytes, ltb, ◌≡◌,
  refl, ◌∙◌, arith, All, All-append, inl, inr, Bool-cases,
}
use rellaf.Prelude.Ints.{ℤ, pos, negsuc}
use rellaf.Numbers.{
  magnitude, digits, to_string, is_digit, digits_value, skip_spaces, signed_value, clamp_signed,
  clamp_unsigned, strtol, strtoul,
}

abbrev pub IsDigit : ℕ → Type 0
IsDigit c = is_digit c ≡ true

pub digits-IsDigit : (f n : ℕ) → All IsDigit (digits f n)
unfolding digits
digits-IsDigit zero n = tt
digits-IsDigit (suc f) n = elim (Bool-cases (ltb n 10)) [
  | inl e ↦ rw e (ground arith, tt)
  | inr e ↦
      rw e (All-append IsDigit (digits f (n / 10)) _ (digits-IsDigit f (n / 10)) (ground arith, tt))
]

digits_value-append :
    (acc : ℕ) (s t : Bytes)
    → All IsDigit s
    → digits_value acc (s ++ t) ≡ digits_value (digits_value acc s) t
unfolding digits_value
digits_value-append acc [] t h = refl
digits_value-append acc (c ∷ s) t h = rw h.0 (digits_value-append (acc * 10 + (c - b'0')) s t h.1)

-- 10 ^ `f`
abbrev power_of_ten : ℕ → ℕ
power_of_ten zero = 1
power_of_ten (suc f) = 10 * power_of_ten f

pub digits_value-digits : (f n : ℕ) → n < power_of_ten f → digits_value 0 (digits f n) ≡ n
unfolding digits digits_value
digits_value-digits zero n h = omega arith
digits_value-digits (suc f) n h = elim (Bool-cases (ltb n 10)) [
  | inl e ↦ rw e (ground arith)
  | inr e ↦
      rw
        (
          e,
          digits_value-append 0 (digits f (n / 10)) ((n % 10 + b'0') ∷ [])
              (digits-IsDigit f (n / 10)),
          digits_value-digits f (n / 10) (omega arith),
        )
        (ground arith)
]

skip_spaces-digits : (s : Bytes) → All IsDigit s → skip_spaces s ≡ s
unfolding skip_spaces
skip_spaces-digits [] h = refl
skip_spaces-digits (c ∷ s) h = ground (arith, h.0)

signed_value-digits : (s : Bytes) → All IsDigit s → signed_value s ≡ (false, digits_value 0 s)
unfolding digits_value
signed_value-digits [] h = refl
signed_value-digits (c ∷ s) h = ground (arith, h.0)

module _ (f n : ℕ) (fits : n < power_of_ten f) where
  pub strtol-digits : strtol (digits f n) ≡ clamp_signed false n
  unfolding strtol
  strtol-digits =
      rw
        (
          skip_spaces-digits (digits f n) (digits-IsDigit f n),
          signed_value-digits (digits f n) (digits-IsDigit f n),
          digits_value-digits f n fits,
        )
        refl

  pub strtol-minus : strtol (b'-' ∷ digits f n) ≡ clamp_signed true n
  unfolding strtol
  strtol-minus = rw (digits_value-digits f n fits) refl

  pub strtoul-digits : strtoul (digits f n) ≡ clamp_unsigned false n
  unfolding strtoul
  strtoul-digits =
      rw
        (
          skip_spaces-digits (digits f n) (digits-IsDigit f n),
          signed_value-digits (digits f n) (digits-IsDigit f n),
          digits_value-digits f n fits,
        )
        refl

-- `to_string` and then `strtol` give back every number of 64 bits.
pub strtol-to_string : (z : ℤ) → magnitude z < 2 ^ 63 → strtol (to_string z) ≡ z
unfolding to_string
strtol-to_string (pos n) h = strtol-digits 20 n (omega arith) ∙ ground (arith, h)
strtol-to_string (negsuc n) h = strtol-minus 20 (n + 1) (omega arith) ∙ ground (arith, h)

pub strtoul-to_string : (n : ℕ) → n < 2 ^ 64 → strtoul (to_string (pos n)) ≡ n
unfolding to_string
strtoul-to_string n h = strtoul-digits 20 n (omega arith) ∙ ground (arith, h)
