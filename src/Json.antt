-- ===== src/Json.antt =====
-- `model_to_json` and the plain values of `json_to_model_inner`, of src/json/json_to_model.cpp.
-- JsonCpp is the parameter `JsonCpp`, whose values are a type `J`.
pub mod Laws
pub mod Reading
pub mod Shape
pub mod Sample
pub mod Plains
mod Tests
use rellaf.Prelude.{
  ℕ, ◌%◌, ◌^◌, List, [], ◌∷◌, Bool, true, false, Option, none, some, Bytes, ◌==◌, if◌then◌else◌,
}
use rellaf.Prelude.Ints.{ℤ, pos, negsuc}
use rellaf.Numbers.{wrap_signed, wrap_unsigned, as_signed}
use rellaf.Cast.{
  Kind, char, int16, int, int64, uint16, uint32, uint64, bool, float, double, str, Val, byte,
  number, truth, real, text,
}
use rellaf.Plain.{Plain}
use rellaf.Model.{
  Model, void, of_plain, of_list, object, Items, no_items, null, item, Lists, no_lists, list_entry,
  Objects, no_objects, null_entry, object_entry,
}
use rellaf.Outcome.{Outcome, returned, refused, fault}

-- The constructors of a `Json::Value`, its tests, and its reads, which throw an exception (`none`) if
-- the value does not fit.
pub record JsonCpp {ℓ} (J : Type ℓ) : Type ℓ where
  pub null_value : J
  pub of_int : ℤ → J
  pub of_uint : ℕ → J
  pub of_bool : Bool → J
  pub of_float : ℕ → J
  pub of_double : ℕ → J
  pub of_string : Bytes → J
  pub array_value : J
  pub append : J → J → J
  pub object_value : J
  pub set_member : J → Bytes → J → J
  pub is_null : J → Bool
  pub is_numeric : J → Bool
  pub is_bool : J → Bool
  pub is_double : J → Bool
  pub is_string : J → Bool
  pub as_int : J → Option ℤ
  pub as_int64 : J → Option ℤ
  pub as_uint : J → Option ℕ
  pub as_uint64 : J → Option ℕ
  pub as_bool : J → Option Bool
  pub as_float : J → Option ℕ
  pub as_string : J → Option Bytes
  pub is_array : J → Bool
  pub is_object : J → Bool
  -- the elements of an array and the members of an object, null values where there are none
  pub at_index : J → ℕ → J
  pub member : J → Bytes → J
  pub get_member_names : J → List Bytes
  -- the reader, and the writer with and without an indentation
  pub parse : Bytes → Option J
  pub write_string : Bool → J → Bytes

-- The cases of the `switch` on the code of the type.
abbrev pub kind_of_code : ℤ → Option Kind
kind_of_code (pos n) =
    if n == 1
    then some char
    else if n == 2
    then some int16
    else if n == 3
    then some int
    else if n == 4
    then some int64
    else if n == 5
    then some uint16
    else if n == 6
    then some uint32
    else if n == 7
    then some uint64
    else if n == 8
    then some bool
    else if n == 9
    then some float
    else if n == 10
    then some double
    else if n == 11
    then some str
    else none
kind_of_code (negsuc n) = none

module _ {ℓ} {J : Type ℓ} (api : JsonCpp J) where
  -- The value of a case; a value is never of another type than its code says.
  abbrev pub value_json : Kind → Val → J
  value_json float (real x) = api.of_float x
  value_json k (real x) = api.of_double x
  value_json k (byte c) = api.of_int (as_signed (2 ^ 8) c)
  value_json uint16 (number (pos n)) = api.of_uint n
  value_json uint32 (number (pos n)) = api.of_uint n
  value_json uint64 (number (pos n)) = api.of_uint n
  value_json k (number z) = api.of_int z
  value_json k (truth b) = api.of_bool b
  value_json k (text s) = api.of_string s

  unfoldable pub plain_json : Plain → J
  plain_json p = elim (kind_of_code p.type.code) [
    | none ↦ api.null_value
    | some k ↦ value_json k p.val
  ]

  abbrev plains_json : List (Bytes × Plain) → J → J
  plains_json [] json = json
  plains_json ((key, p) ∷ ps) json = plains_json ps (api.set_member json key (plain_json p))

  unfoldable mutual
    pub model_to_json_inner : Model → J
    model_to_json_inner void = api.null_value
    model_to_json_inner (of_plain p) = plain_json p
    model_to_json_inner (of_list xs) = items_json xs api.array_value
    model_to_json_inner (object c ps ls os) =
        objects_json os (lists_json ls (plains_json ps api.object_value))

    pub items_json : Items → J → J
    items_json no_items json = json
    items_json (null xs) json = items_json xs (api.append json api.null_value)
    items_json (item m xs) json = items_json xs (api.append json (model_to_json_inner m))

    pub lists_json : Lists → J → J
    lists_json no_lists json = json
    lists_json (list_entry n xs ls) json =
        lists_json ls (api.set_member json n (items_json xs api.array_value))

    pub objects_json : Objects → J → J
    objects_json no_objects json = json
    objects_json (null_entry n os) json = objects_json os (api.set_member json n api.null_value)
    objects_json (object_entry n m os) json =
        objects_json os (api.set_member json n (model_to_json_inner m))

  unfoldable pub model_to_json : Bool → Model → Bytes
  unfolding model_to_json_inner
  model_to_json is_format m = api.write_string is_format (model_to_json_inner m)

  -- `set` of a value that was read, or the exception (`refused`).
  abbrev pub set_val : Plain → Option Val → Outcome Plain
  set_val p none = refused
  set_val p (some v) = returned (record p { val = v })

  abbrev pub map_val {κ} : {A : Type κ} → (A → Val) → Option A → Option Val
  map_val f none = none
  map_val f (some a) = some (f a)

  -- A case of the `switch` of `json_to_model_inner`. A double is written through a pointer to a
  -- `Plain<float>`, which it is not.
  unfoldable pub json_to_kind : Kind → J → Plain → Outcome Plain
  json_to_kind char json p =
      if api.is_numeric json
      then set_val p (map_val (λ z. byte (wrap_unsigned (2 ^ 8) z)) (api.as_int json))
      else returned p
  json_to_kind int16 json p =
      if api.is_numeric json
      then set_val p (map_val (λ z. number (wrap_signed (2 ^ 16) z)) (api.as_int json))
      else returned p
  json_to_kind int json p =
      if api.is_numeric json then set_val p (map_val number (api.as_int json)) else returned p
  json_to_kind int64 json p =
      if api.is_numeric json then set_val p (map_val number (api.as_int64 json)) else returned p
  json_to_kind uint16 json p =
      if api.is_numeric json
      then set_val p (map_val (λ n. number (pos (n % 2 ^ 16))) (api.as_uint json))
      else returned p
  json_to_kind uint32 json p =
      if api.is_numeric json
      then set_val p (map_val (λ n. number (pos n)) (api.as_uint json))
      else returned p
  json_to_kind uint64 json p =
      if api.is_numeric json
      then set_val p (map_val (λ n. number (pos n)) (api.as_uint64 json))
      else returned p
  json_to_kind bool json p =
      if api.is_bool json then set_val p (map_val truth (api.as_bool json)) else returned p
  json_to_kind float json p =
      if api.is_double json then set_val p (map_val real (api.as_float json)) else returned p
  json_to_kind double json p = if api.is_double json then fault else returned p
  json_to_kind str json p =
      if api.is_string json then set_val p (map_val text (api.as_string json)) else returned p

  -- A plain with a code of its own kind.
  unfoldable pub json_to_plain : J → Plain → Outcome Plain
  unfolding json_to_kind
  json_to_plain json p =
      if api.is_null json
      then returned p
      else elim (kind_of_code p.type.code) [ none ↦ returned p | some k ↦ json_to_kind k json p ]
