-- ===== src/Plain.antt =====
-- `Plain<T>` of include/model.h: a value with its type, a parser, a printer and the `_tag` of its model.
pub mod RoundTrip
pub mod Clone
mod Tests
use rellaf.Prelude.{
  ℕ, [], ◌∷◌, Bool, true, false, Option, none, some, Bytes, codes, ◌==◌, same_bool, if◌then◌else◌,
}
use rellaf.Prelude.Maps.{same}
use rellaf.Prelude.Ints.{pos, same_int}
use rellaf.Numbers.{to_string}
use rellaf.Enum.{EnumItem, item_eq}
use rellaf.Cast.{
  Kind, char, int16, int, int64, uint16, uint32, uint64, bool, float, double, str, Val, byte,
  number, truth, real, text, Reals, cast,
}

pub record Plain : Type 0 where
  pub type : EnumItem
  pub kind : Kind
  pub val : Val
  pub parse_func : Option (Bytes → Val)
  pub str_func : Option (Val → Bytes)
  pub tag : Bytes

-- The type that the overload of `TypeDetect` sets.
abbrev pub type_of : Kind → EnumItem
type_of char = record { code = pos 1; name = codes "CHAR" }
type_of int16 = record { code = pos 2; name = codes "INT16" }
type_of int = record { code = pos 3; name = codes "INT" }
type_of int64 = record { code = pos 4; name = codes "INT64" }
type_of uint16 = record { code = pos 5; name = codes "UINT16" }
type_of uint32 = record { code = pos 6; name = codes "UINT32" }
type_of uint64 = record { code = pos 7; name = codes "UINT64" }
type_of bool = record { code = pos 8; name = codes "BOOL" }
type_of float = record { code = pos 9; name = codes "FLOAT" }
type_of double = record { code = pos 10; name = codes "DOUBLE" }
type_of str = record { code = pos 11; name = codes "STR" }

abbrev pub no_type : EnumItem
no_type = record { code = pos 0; name = codes "no" }

-- `==` of the type; values of two types are never compared.
abbrev pub same_val : Reals → Kind → Val → Val → Bool
same_val r k (byte a) (byte b) = a == b
same_val r k (number a) (number b) = same_int a b
same_val r k (truth a) (truth b) = same_bool a b
same_val r float (real a) (real b) = r.float_eq a b
same_val r k (real a) (real b) = r.double_eq a b
same_val r k (text a) (text b) = same a b
same_val r k _ _ = false

-- The printer that the overload of `TypeDetect` sets.
unfoldable pub type_str : Reals → Kind → Val → Bytes
unfolding to_string
type_str r k (byte c) = c ∷ []
type_str r k (number z) = to_string z
type_str r k (truth b) = if b then b'1' ∷ [] else b'0' ∷ []
type_str r float (real x) = r.float_str x
type_str r k (real x) = r.double_str x
type_str r k (text s) = s

module _ (r : Reals) where
  abbrev pub type_detect : Plain → Plain
  type_detect p = record p { type = type_of p.kind; str_func = some (type_str r p.kind) }

  -- `Plain(const T& val)`; `Plain()` leaves a value that is not set.
  abbrev pub plain : Kind → Val → Plain
  plain k v =
      type_detect
        (record { type = no_type; kind = k; val = v; parse_func = none; str_func = none; tag = [] })

  -- `Plain(parse_func, str_func)`.
  abbrev pub plain_of_funcs : Kind → Val → Option (Bytes → Val) → Option (Val → Bytes) → Plain
  plain_of_funcs k unset parse_func str_func = record {
    type = no_type;
    kind = k;
    val = unset;
    parse_func = parse_func;
    str_func = str_func;
    tag = [];
  }

  -- The tag of `this` stays.
  unfoldable pub assign_plain : Plain → Plain → Plain
  assign_plain p o =
      if item_eq p.type o.type
      then record p { val = o.val; parse_func = o.parse_func; str_func = o.str_func }
      else p

  -- `create` and the assignment of `clone`; `unset` is the value that `create` leaves.
  unfoldable pub clone_plain : Val → Plain → Plain
  unfolding assign_plain item_eq
  clone_plain unset o = assign_plain (type_detect (plain o.kind unset)) o

  unfoldable pub set_parse : Bytes → Plain → Bool × Plain
  unfolding cast
  set_parse val_str p = elim p.parse_func [
    | some parse ↦ (true, record p { val = parse val_str })
    | none ↦ (true, record p { val = cast r p.kind val_str })
  ]

  unfoldable pub equal_parse : Bytes → Plain → Bool
  unfolding cast
  equal_parse val_str p = elim p.parse_func [
    | some parse ↦ same_val r p.kind p.val (parse val_str)
    | none ↦ same_val r p.kind p.val (cast r p.kind val_str)
  ]

unfoldable pub plain_str : Plain → Bytes
plain_str p = elim p.str_func [ some f ↦ f p.val | none ↦ [] ]
