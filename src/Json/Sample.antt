-- ===== src/Json/Sample.antt =====
-- A small Json library: data for tests.
use rellaf.Prelude.{
  ℕ, suc, List, [], ◌∷◌, if◌then◌else◌, Bool, true, false, Option, none, some, Bytes, ◌==◌,
}
use rellaf.Prelude.Maps.{same}
use rellaf.Prelude.Ints.{ℤ, pos}
use rellaf.Json.{JsonCpp}

pub data Value : Type 0 where
  null_value : Value
  int_value : ℤ → Value
  uint_value : ℕ → Value
  bool_value : Bool → Value
  double_value : ℕ → Value
  string_value : Bytes → Value
  array_end : Value
  array_item : Value → Value → Value
  object_end : Value
  object_item : Value → Bytes → Value → Value

abbrev pub small_null : Value → Bool
small_null null_value = true
small_null _ = false

abbrev pub small_numeric : Value → Bool
small_numeric (int_value z) = true
small_numeric (uint_value n) = true
small_numeric (double_value x) = true
small_numeric _ = false

abbrev pub small_bool : Value → Bool
small_bool (bool_value b) = true
small_bool _ = false

abbrev pub small_double : Value → Bool
small_double (double_value x) = true
small_double _ = false

abbrev pub small_string : Value → Bool
small_string (string_value s) = true
small_string _ = false

abbrev pub read_int : Value → Option ℤ
read_int (int_value z) = some z
read_int _ = none

abbrev pub read_uint : Value → Option ℕ
read_uint (uint_value n) = some n
read_uint _ = none

abbrev pub read_bool : Value → Option Bool
read_bool (bool_value b) = some b
read_bool _ = none

abbrev pub read_float : Value → Option ℕ
read_float (double_value x) = some x
read_float _ = none

abbrev pub read_string : Value → Option Bytes
read_string (string_value s) = some s
read_string _ = none

abbrev pub small_array : Value → Bool
small_array array_end = true
small_array (array_item xs x) = true
small_array _ = false

abbrev pub small_object : Value → Bool
small_object object_end = true
small_object (object_item o k x) = true
small_object _ = false

abbrev pub array_size : Value → ℕ
array_size (array_item xs x) = suc (array_size xs)
array_size _ = 0

abbrev pub small_index : Value → ℕ → Value
small_index (array_item xs x) i = if i == array_size xs then x else small_index xs i
small_index _ i = null_value

abbrev pub small_member : Value → Bytes → Value
small_member (object_item o k x) key = if same k key then x else small_member o key
small_member _ key = null_value

abbrev pub small_names : Value → List Bytes
small_names (object_item o k x) = k ∷ small_names o
small_names _ = []

abbrev pub small_json : JsonCpp Value
small_json = record {
  null_value = null_value;
  of_int = int_value;
  of_uint = uint_value;
  of_bool = bool_value;
  of_float = double_value;
  of_double = double_value;
  of_string = string_value;
  array_value = array_end;
  append = array_item;
  object_value = object_end;
  set_member = object_item;
  is_null = small_null;
  is_numeric = small_numeric;
  is_bool = small_bool;
  is_double = small_double;
  is_string = small_string;
  as_int = read_int;
  as_int64 = read_int;
  as_uint = read_uint;
  as_uint64 = read_uint;
  as_bool = read_bool;
  as_float = read_float;
  as_string = read_string;
  is_array = small_array;
  is_object = small_object;
  at_index = small_index;
  member = small_member;
  get_member_names = small_names;
  parse = λ s. some (array_item (array_item array_end null_value) (int_value (pos 9)));
  write_string = λ b json. [];
}
