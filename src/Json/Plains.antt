-- ===== src/Json/Plains.antt =====
-- A plain value that is printed to Json is read back, and a double is not.
use rellaf.Prelude.{ℕ, ◌%◌, ◌^◌, ◌<◌, ◌≡◌, refl, ap, arith}
use rellaf.Prelude.Ints.{ℤ, pos}
use rellaf.Numbers.{magnitude, wrap_unsigned, as_signed}
use rellaf.Cast.{Kind, uint16, double, Val, number, real, Reals}
use rellaf.Cast.Values.{
  Fits, char_fits, int16_fits, int_fits, int64_fits, uint16_fits, uint32_fits, uint64_fits,
  bool_fits, float_fits, double_fits, str_fits, wrap_16_self,
}
use rellaf.Plain.RoundTrip.{IsExact}
use rellaf.Plain.{plain}
use rellaf.Outcome.{returned, fault}
use rellaf.Json.{JsonCpp, plain_json, json_to_kind, json_to_plain}
use rellaf.Json.Laws.{IsJsonCpp}

module _ {ℓ} {J : Type ℓ} {api : JsonCpp J} (laws : IsJsonCpp api) (r : Reals) where
  signed_byte : (c : ℕ) → c < 256 → magnitude (as_signed (2 ^ 8) c) < 2 ^ 31
  signed_byte c h = ground arith

  byte_self : (c : ℕ) → c < 256 → wrap_unsigned (2 ^ 8) (as_signed (2 ^ 8) c) ≡ c
  byte_self c h = ground arith

  small_16 : (z : ℤ) → magnitude z < 2 ^ 15 → magnitude z < 2 ^ 31
  small_16 z h = omega (arith, h)

  mod_16_self : (n : ℕ) → n < 2 ^ 16 → n % 2 ^ 16 ≡ n
  mod_16_self n h = omega (arith, h)

  -- A plain of any type but the two real ones that is converted to Json and read into another plain of
  -- its type gives that one its value.
  pub json_to_plain-plain_json :
      (k : Kind) (v w : Val)
      → IsExact k
      → Fits k v
      → json_to_plain api (plain_json api (plain r k v)) (plain r k w) ≡ returned (plain r k v)
  unfolding json_to_plain plain_json json_to_kind
  json_to_plain-plain_json _ _ w x (char_fits c h) =
      rw
        (
          laws.int_set (as_signed (2 ^ 8) c),
          laws.int_numeric (as_signed (2 ^ 8) c),
          laws.as_int_int (as_signed (2 ^ 8) c) (signed_byte c h),
          byte_self c h,
        )
        refl
  json_to_plain-plain_json _ _ w x (int16_fits z h) =
      rw (laws.int_set z, laws.int_numeric z, laws.as_int_int z (small_16 z h), wrap_16_self z h)
        refl
  json_to_plain-plain_json _ _ w x (int_fits z h) =
      rw (laws.int_set z, laws.int_numeric z, laws.as_int_int z h) refl
  json_to_plain-plain_json _ _ w x (int64_fits z h) =
      rw (laws.int_set z, laws.int_numeric z, laws.as_int64_int z h) refl
  json_to_plain-plain_json _ _ w x (uint16_fits n h) =
      rw (laws.uint_set n, laws.uint_numeric n, laws.as_uint_uint n (omega (arith, h)))
        (ap (λ i. returned (plain r uint16 (number (pos i)))) (mod_16_self n h))
  json_to_plain-plain_json _ _ w x (uint32_fits n h) =
      rw (laws.uint_set n, laws.uint_numeric n, laws.as_uint_uint n h) refl
  json_to_plain-plain_json _ _ w x (uint64_fits n h) =
      rw (laws.uint_set n, laws.uint_numeric n, laws.as_uint64_uint n h) refl
  json_to_plain-plain_json _ _ w x (bool_fits b) =
      rw (laws.bool_set b, laws.bool_bool b, laws.as_bool_bool b) refl
  json_to_plain-plain_json _ _ w x (str_fits s) =
      rw (laws.string_set s, laws.string_string s, laws.as_string_string s) refl
  json_to_plain-plain_json _ _ w x (float_fits y) = absurd x
  json_to_plain-plain_json _ _ w x (double_fits y) = absurd x

  -- A double that is converted to Json and read into a double is written through a pointer to a float.
  pub json_to_plain-double :
      (x : ℕ) (w : Val)
      → json_to_plain api (plain_json api (plain r double (real x))) (plain r double w) ≡ fault
  unfolding json_to_plain plain_json json_to_kind
  json_to_plain-double x w = rw (laws.double_set x, laws.double_double x) refl
