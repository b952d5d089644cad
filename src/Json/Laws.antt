-- ===== src/Json/Laws.antt =====
-- What the conversions rely on of JsonCpp: a value that was made of a number, a Boolean or a text is
-- told by its tests, and is read back in the bounds of the type that is asked for.
use rellaf.Prelude.{ℕ, ◌^◌, ◌<◌, Bool, true, false, some, Bytes, ◌≡◌}
use rellaf.Prelude.Ints.{ℤ}
use rellaf.Numbers.{magnitude}
use rellaf.Json.{JsonCpp}

pub record IsJsonCpp {ℓ} {J : Type ℓ} (api : JsonCpp J) : Type ℓ where
  pub int_set : (z : ℤ) → api.is_null (api.of_int z) ≡ false
  pub uint_set : (n : ℕ) → api.is_null (api.of_uint n) ≡ false
  pub bool_set : (b : Bool) → api.is_null (api.of_bool b) ≡ false
  pub string_set : (s : Bytes) → api.is_null (api.of_string s) ≡ false
  pub double_set : (x : ℕ) → api.is_null (api.of_double x) ≡ false
  pub int_numeric : (z : ℤ) → api.is_numeric (api.of_int z) ≡ true
  pub uint_numeric : (n : ℕ) → api.is_numeric (api.of_uint n) ≡ true
  pub bool_bool : (b : Bool) → api.is_bool (api.of_bool b) ≡ true
  pub double_double : (x : ℕ) → api.is_double (api.of_double x) ≡ true
  pub string_string : (s : Bytes) → api.is_string (api.of_string s) ≡ true
  pub as_int_int : (z : ℤ) → magnitude z < 2 ^ 31 → api.as_int (api.of_int z) ≡ some z
  pub as_int64_int : (z : ℤ) → magnitude z < 2 ^ 63 → api.as_int64 (api.of_int z) ≡ some z
  pub as_uint_uint : (n : ℕ) → n < 2 ^ 32 → api.as_uint (api.of_uint n) ≡ some n
  pub as_uint64_uint : (n : ℕ) → n < 2 ^ 64 → api.as_uint64 (api.of_uint n) ≡ some n
  pub as_bool_bool : (b : Bool) → api.as_bool (api.of_bool b) ≡ some b
  pub as_string_string : (s : Bytes) → api.as_string (api.of_string s) ≡ some s
