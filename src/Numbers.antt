-- ===== src/Numbers.antt =====
-- `std::to_string` on integers and the `strtol` family at base 10, of the C and C++ libraries.
pub mod Digits
mod Tests
use rellaf.Prelude.{
  ℕ, zero, suc, ◌+◌, ◌-◌, ◌*◌, ◌/◌, ◌%◌, ◌^◌, List, [], ◌∷◌, ◌++◌, Bool, true, false, ◌&&◌, ◌||◌,
  Bytes, ◌==◌, ltb, leb, if◌then◌else◌,
}
use rellaf.Prelude.Ints.{ℤ, pos, negsuc}

-- The decimal digits, for numbers below 10 ^ `places`.
unfoldable pub digits : ℕ → ℕ → Bytes
digits zero n = []
digits (suc places) n =
    if ltb n 10 then (n + b'0') ∷ [] else digits places (n / 10) ++ (n % 10 + b'0') ∷ []

-- `std::to_string` on integers of at most 64 bits, which have at most 20 digits.
unfoldable pub to_string : ℤ → Bytes
to_string (pos n) = digits 20 n
to_string (negsuc n) = b'-' ∷ digits 20 (n + 1)

abbrev pub is_digit : ℕ → Bool
is_digit c = leb b'0' c && leb c b'9'

-- `isspace`
abbrev pub is_space : ℕ → Bool
is_space c = c == b' ' || (leb 9 c && leb c 13)

-- The number that the digits at the front have.
unfoldable pub digits_value : ℕ → Bytes → ℕ
digits_value acc [] = acc
digits_value acc (c ∷ s) =
    let rest = digits_value (acc * 10 + (c - b'0')) s in if is_digit c then rest else acc

pub skip_spaces : Bytes → Bytes
skip_spaces [] = []
skip_spaces (c ∷ s) = let rest = skip_spaces s in if is_space c then rest else c ∷ s

-- A sign and the digits behind it: whether it is `-`, and the number.
abbrev pub signed_value : Bytes → Bool × ℕ
signed_value [] = (false, 0)
signed_value (c ∷ s) =
    if c == b'-'
    then (true, digits_value 0 s)
    else if c == b'+'
    then (false, digits_value 0 s)
    else (false, digits_value 0 (c ∷ s))

abbrev pub negate : ℕ → ℤ
negate zero = pos 0
negate (suc n) = negsuc n

-- `n` for `n` and for -(n + 1).
abbrev pub magnitude : ℤ → ℕ
magnitude (pos n) = n
magnitude (negsuc n) = n

-- The result is cut off at the bounds of the type.
abbrev pub clamp_signed : Bool → ℕ → ℤ
clamp_signed false n = if ltb n (2 ^ 63) then pos n else pos (2 ^ 63 - 1)
clamp_signed true n = if leb n (2 ^ 63) then negate n else negsuc (2 ^ 63 - 1)

abbrev pub clamp_unsigned : Bool → ℕ → ℕ
clamp_unsigned false n = if ltb n (2 ^ 64) then n else 2 ^ 64 - 1
clamp_unsigned true n = if ltb n (2 ^ 64) then (2 ^ 64 - n) % 2 ^ 64 else 2 ^ 64 - 1

-- `strtol` and `strtoll` with a `long` of 64 bits.
unfoldable pub strtol : Bytes → ℤ
unfolding skip_spaces digits_value
strtol s = let (minus, n) = signed_value (skip_spaces s) in clamp_signed minus n

-- `strtoul` and `strtoull`.
unfoldable pub strtoul : Bytes → ℕ
unfolding skip_spaces digits_value
strtoul s = let (minus, n) = signed_value (skip_spaces s) in clamp_unsigned minus n

-- A conversion to an unsigned type and to a signed type of `m` values.
abbrev pub wrap_unsigned : ℕ → ℤ → ℕ
wrap_unsigned m (pos n) = n % m
wrap_unsigned m (negsuc n) = m - 1 - n % m

abbrev pub as_signed : ℕ → ℕ → ℤ
as_signed m n = if ltb n (m / 2) then pos n else negsuc (m - 1 - n)

abbrev pub wrap_signed : ℕ → ℤ → ℤ
wrap_signed m z = as_signed m (wrap_unsigned m z)
