-- ===== src/Model.antt =====
-- `Model` and its classes `Void`, `Plain`, `List` and `Object` of include/model.h and src/model.cpp, as
-- values: a list and an object own what they point to. A null pointer is `null` or `null_entry`.
pub mod Copy
pub mod Whole
pub mod Moved
pub mod Sequence
pub mod Pushed
mod Tests
use rellaf.Prelude.{
  ℕ, zero, suc, List, [], ◌∷◌, ◌++◌, Bool, true, false, ◌&&◌, Option, none, some, Bytes, codes,
  ◌==◌, if◌then◌else◌,
}
use rellaf.Prelude.Maps.{find, emplace, same, bytes_eq}
use rellaf.Prelude.Ints.{pos}
use rellaf.Enum.{EnumItem, item_eq, item_ne}
use rellaf.Cast.{Reals}
use rellaf.Plain.{Plain, plain, no_type, plain_str, set_parse, equal_parse}

-- What `rellaf_model_dcl` and the member macros declare for a class: its name, and `_s_plain_names`
-- with the default values, `_s_list_names` and `_s_object_names`.
pub record Class : Type 0 where
  pub name : Bytes
  pub plain_names : List (Bytes × Plain)
  pub list_names : List Bytes
  pub object_names : List Bytes

mutual
  pub data Model : Type 0 where
    void : Model
    of_plain : Plain → Model
    of_list : Items → Model
    object : Class → List (Bytes × Plain) → Lists → Objects → Model

  -- `List::_items`
  pub data Items : Type 0 where
    no_items : Items
    null : Items → Items
    item : Model → Items → Items

  -- `Object::_lists`
  pub data Lists : Type 0 where
    no_lists : Lists
    list_entry : Bytes → Items → Lists → Lists

  -- `Object::_objects`
  pub data Objects : Type 0 where
    no_objects : Objects
    null_entry : Bytes → Objects → Objects
    object_entry : Bytes → Model → Objects → Objects

abbrev pub object_type : EnumItem
object_type = record { code = pos 100; name = codes "OBJECT" }

abbrev pub list_type : EnumItem
list_type = record { code = pos 101; name = codes "LIST" }

abbrev pub rellaf_type : Model → EnumItem
rellaf_type void = no_type
rellaf_type (of_plain p) = p.type
rellaf_type (of_list xs) = list_type
rellaf_type (object c ps ls os) = object_type

unfoldable pub is_plain : Model → Bool
unfolding item_eq item_ne
is_plain m =
    item_ne (rellaf_type m) no_type
    && (item_ne (rellaf_type m) object_type && item_ne (rellaf_type m) list_type)

unfoldable pub is_list : Model → Bool
unfolding item_eq
is_list m = item_eq (rellaf_type m) list_type

unfoldable pub is_object : Model → Bool
unfolding item_eq
is_object m = item_eq (rellaf_type m) object_type

-- `List::size`
unfoldable pub size : Items → ℕ
size no_items = 0
size (null xs) = suc (size xs)
size (item m xs) = suc (size xs)

-- `List::at`: null out of the range too.
unfoldable pub at : Items → ℕ → Option Model
at no_items idx = none
at (null xs) zero = none
at (null xs) (suc idx) = at xs idx
at (item m xs) zero = some m
at (item m xs) (suc idx) = at xs idx

-- `_lists.find` and `_objects.find`; the inner `none` is a null pointer.
unfoldable pub find_list : Bytes → Lists → Option Items
find_list name no_lists = none
find_list name (list_entry n xs ls) = if same n name then some xs else find_list name ls

unfoldable pub find_object : Bytes → Objects → Option (Option Model)
find_object name no_objects = none
find_object name (null_entry n os) = if same n name then some none else find_object name os
find_object name (object_entry n m os) = if same n name then some (some m) else find_object name os

-- `plain_concern`
unfoldable pub is_plain_member : Class → Bytes → Bool
is_plain_member c key = elim (find key c.plain_names) [ none ↦ false | some p ↦ true ]

-- Whether the text is that of the default value.
unfoldable pub is_plain_default : Reals → Class → Bytes → Bytes → Bool
unfolding equal_parse
is_plain_default r c key val = elim (find key c.plain_names) [
  | none ↦ false
  | some dft ↦ equal_parse r val dft
]

-- `set_plain`: whether the key is a member, and the plains with the value that was read.
unfoldable pub replace : Bytes → Plain → List (Bytes × Plain) → List (Bytes × Plain)
replace key p [] = []
replace key p ((k, q) ∷ ps) = if same k key then (k, p) ∷ ps else (k, q) ∷ replace key p ps

unfoldable pub set_plain :
    Reals → Class → Bytes → Bytes → List (Bytes × Plain) → Bool × List (Bytes × Plain)
unfolding replace
set_plain r c key val_str plains = elim (find key c.plain_names) [
  | none ↦ (false, plains)
  | some dft ↦ elim (find key plains) [
    | some p ↦ (true, replace key (set_parse r val_str p).1 plains)
    | none ↦ (true, emplace key (set_parse r val_str (plain r dft.kind dft.val)).1 plains)
  ]
]

-- `if (buf.back() == ' ') { buf.pop_back(); buf.back() = c; } else { buf += c; }`
abbrev close_with : ℕ → Bytes → Bytes
close_with c [] = c ∷ []
close_with c (a ∷ []) = if a == b' ' then c ∷ [] else a ∷ c ∷ []
close_with c (a ∷ b ∷ []) = if b == b' ' then c ∷ [] else a ∷ b ∷ c ∷ []
close_with c (a ∷ b ∷ d ∷ s) = a ∷ close_with c (b ∷ d ∷ s)

abbrev plains_str : List (Bytes × Plain) → Bytes
plains_str [] = []
plains_str ((key, p) ∷ ps) = key ++ codes ": " ++ plain_str p ++ codes ", " ++ plains_str ps

unfoldable mutual
  pub debug_str : Model → Bytes
  debug_str void = []
  debug_str (of_plain p) = plain_str p
  debug_str (of_list xs) = close_with b']' (b'[' ∷ items_str xs)
  debug_str (object c ps ls os) =
      close_with b'}' (b'{' ∷ (plains_str ps ++ (lists_str ls ++ objects_str os)))

  pub items_str : Items → Bytes
  items_str no_items = []
  items_str (null xs) = codes "NULL, " ++ items_str xs
  items_str (item m xs) = debug_str m ++ (codes ", " ++ items_str xs)

  pub lists_str : Lists → Bytes
  lists_str no_lists = []
  lists_str (list_entry n xs ls) =
      n ++ (codes ": " ++ (close_with b']' (b'[' ∷ items_str xs) ++ (codes ", " ++ lists_str ls)))

  pub objects_str : Objects → Bytes
  objects_str no_objects = []
  objects_str (null_entry n os) = n ++ (codes ": NULL, " ++ objects_str os)
  objects_str (object_entry n m os) =
      n ++ (codes ": " ++ (debug_str m ++ (codes ", " ++ objects_str os)))
