-- ===== src/Cast.antt =====
-- `Caster` and `cast` of include/cast.hpp. A float or a double is its bit pattern; what the C library
-- does with these is the parameter `Reals`.
pub mod Values
pub mod Sample
use rellaf.Prelude.{ℕ, ◌%◌, ◌^◌, [], ◌∷◌, Bool, true, false, not, ◌||◌, Bytes, ◌==◌}
use rellaf.Prelude.Ints.{ℤ, pos}
use rellaf.Numbers.{strtol, strtoul, wrap_signed, wrap_unsigned, as_signed}

-- The type parameter `T`.
pub data Kind : Type 0 where
  char int16 int int64 uint16 uint32 uint64 bool float double str : Kind

-- A value of the type `T`.
pub data Val : Type 0 where
  byte : ℕ → Val
  number : ℤ → Val
  truth : Bool → Val
  real : ℕ → Val
  text : Bytes → Val

-- `strtof`, `strtod`, `std::to_string` and `==` on floats and doubles.
pub record Reals : Type 0 where
  pub strtof : Bytes → ℕ
  pub strtod : Bytes → ℕ
  pub float_str : ℕ → Bytes
  pub double_str : ℕ → Bytes
  pub float_eq : ℕ → ℕ → Bool
  pub double_eq : ℕ → ℕ → Bool

abbrev cast_char : Bytes → ℕ
cast_char [] = 0
cast_char (c ∷ s) = c

abbrev pub cast_bool : Bytes → Bool
cast_bool [] = false
cast_bool (c ∷ s) = not (c == b'0') || cast_bool s

-- The overload of `Caster::cast` for the type.
unfoldable pub cast : Reals → Kind → Bytes → Val
unfolding strtol strtoul
cast r char val = byte (cast_char val)
cast r int16 val = number (wrap_signed (2 ^ 16) (strtol val))
cast r int val = number (wrap_signed (2 ^ 32) (strtol val))
cast r int64 val = number (strtol val)
cast r uint16 val = number (pos (strtoul val % 2 ^ 16))
cast r uint32 val = number (pos (strtoul val % 2 ^ 32))
cast r uint64 val = number (pos (wrap_unsigned (2 ^ 64) (as_signed (2 ^ 64) (strtoul val))))
cast r bool val = truth (cast_bool val)
cast r float val = real (r.strtof val)
cast r double val = real (r.strtod val)
cast r str val = text val
