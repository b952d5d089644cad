-- ===== src/Cast/Values.antt =====
-- The values of each type, that `cast` stays among them, and what it makes of a printed value.
use rellaf.Prelude.{ℕ, zero, suc, ◌^◌, ◌<◌, [], ◌∷◌, Bool, true, false, Bytes, All, ◌≡◌, arith}
use rellaf.Prelude.Ints.{ℤ, pos, negsuc}
use rellaf.Numbers.{
  magnitude, strtol, strtoul, wrap_signed, wrap_unsigned, as_signed, clamp_signed, clamp_unsigned,
  signed_value, skip_spaces,
}
use rellaf.Cast.{
  Kind, char, int16, int, int64, uint16, uint32, uint64, bool, float, double, str, Val, byte,
  number, truth, real, text, Reals, cast,
}

pub data Fits : Kind → Val → Type 0 where
  char_fits : (c : ℕ) → c < 256 → Fits char (byte c)
  int16_fits : (z : ℤ) → magnitude z < 2 ^ 15 → Fits int16 (number z)
  int_fits : (z : ℤ) → magnitude z < 2 ^ 31 → Fits int (number z)
  int64_fits : (z : ℤ) → magnitude z < 2 ^ 63 → Fits int64 (number z)
  uint16_fits : (n : ℕ) → n < 2 ^ 16 → Fits uint16 (number (pos n))
  uint32_fits : (n : ℕ) → n < 2 ^ 32 → Fits uint32 (number (pos n))
  uint64_fits : (n : ℕ) → n < 2 ^ 64 → Fits uint64 (number (pos n))
  bool_fits : (b : Bool) → Fits bool (truth b)
  float_fits : (x : ℕ) → Fits float (real x)
  double_fits : (x : ℕ) → Fits double (real x)
  str_fits : (s : Bytes) → Fits str (text s)

clamp_signed_bounds : (minus : Bool) (n : ℕ) → magnitude (clamp_signed minus n) < 2 ^ 63
clamp_signed_bounds false n = ground arith
clamp_signed_bounds true zero = omega arith
clamp_signed_bounds true (suc n) = ground arith

strtol_bounds : (s : Bytes) → magnitude (strtol s) < 2 ^ 63
unfolding strtol
strtol_bounds s =
    clamp_signed_bounds (signed_value (skip_spaces s)).0 (signed_value (skip_spaces s)).1

clamp_unsigned_bounds : (minus : Bool) (n : ℕ) → clamp_unsigned minus n < 2 ^ 64
clamp_unsigned_bounds false n = ground arith
clamp_unsigned_bounds true n = ground arith

strtoul_bounds : (s : Bytes) → strtoul s < 2 ^ 64
unfolding strtoul
strtoul_bounds s =
    clamp_unsigned_bounds (signed_value (skip_spaces s)).0 (signed_value (skip_spaces s)).1

wrap_16 : (z : ℤ) → magnitude (wrap_signed (2 ^ 16) z) < 2 ^ 15
wrap_16 (pos n) = ground arith
wrap_16 (negsuc n) = ground arith

wrap_32 : (z : ℤ) → magnitude (wrap_signed (2 ^ 32) z) < 2 ^ 31
wrap_32 (pos n) = ground arith
wrap_32 (negsuc n) = ground arith

pub wrap_16_self : (z : ℤ) → magnitude z < 2 ^ 15 → wrap_signed (2 ^ 16) z ≡ z
wrap_16_self (pos n) h = ground arith
wrap_16_self (negsuc n) h = ground arith

pub wrap_32_self : (z : ℤ) → magnitude z < 2 ^ 31 → wrap_signed (2 ^ 32) z ≡ z
wrap_32_self (pos n) h = ground arith
wrap_32_self (negsuc n) h = ground arith

pub wrap_64_self : (n : ℕ) → n < 2 ^ 64 → wrap_unsigned (2 ^ 64) (as_signed (2 ^ 64) n) ≡ n
wrap_64_self n h = ground arith

cast_char_bounds : (r : Reals) (s : Bytes) → All (λ c. c < 256) s → Fits char (cast r char s)
unfolding cast
cast_char_bounds r [] h = char_fits 0 (omega arith)
cast_char_bounds r (c ∷ s) h = char_fits c h.0

-- Whatever text it is given, `cast` returns a value that fits its type.
pub cast-Fits : (r : Reals) (k : Kind) (s : Bytes) → All (λ c. c < 256) s → Fits k (cast r k s)
unfolding cast
cast-Fits r char s h = cast_char_bounds r s h
cast-Fits r int16 s h = int16_fits _ (wrap_16 (strtol s))
cast-Fits r int s h = int_fits _ (wrap_32 (strtol s))
cast-Fits r int64 s h = int64_fits _ (strtol_bounds s)
cast-Fits r uint16 s h = uint16_fits _ (omega arith)
cast-Fits r uint32 s h = uint32_fits _ (omega arith)
cast-Fits r uint64 s h =
    uint64_fits _ (rw (wrap_64_self (strtoul s) (strtoul_bounds s)) (strtoul_bounds s))
cast-Fits r bool s h = bool_fits _
cast-Fits r float s h = float_fits _
cast-Fits r double s h = double_fits _
cast-Fits r str s h = str_fits s
