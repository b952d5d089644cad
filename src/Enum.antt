-- ===== src/Enum.antt =====
-- `Enum` and `EnumItem` of include/enum.h and src/enum.cpp, with the registration that the macros
-- `rellaf_enum_dcl`, `rellaf_enum_def` and `rellaf_enum_item_def` write out, and `ModelTypeEnum` of
-- include/model_type.h.
pub mod Lookup
pub mod Distinct
mod Tests
use rellaf.Prelude.{
  ℕ, List, [], ◌∷◌, Bool, true, false, not, Option, none, some, Bytes, codes, is_empty,
}
use rellaf.Prelude.Maps.{find, emplace, bytes_eq}
use rellaf.Prelude.Ints.{ℤ, pos, negsuc, same_int, ltb_int, int_eq}

pub record EnumItem : Type 0 where
  pub code : ℤ
  pub name : Bytes

-- `EnumItem()`.
abbrev pub no_item : EnumItem
no_item = record { code = pos 0; name = [] }

unfoldable pub available : EnumItem → Bool
available item = not (is_empty item.name)

-- `operator==`, `operator!=` and `operator<`, which compare the codes.
unfoldable pub item_eq : EnumItem → EnumItem → Bool
item_eq lhs rhs = same_int lhs.code rhs.code

unfoldable pub item_ne : EnumItem → EnumItem → Bool
item_ne lhs rhs = not (item_eq rhs lhs)

unfoldable pub item_lt : EnumItem → EnumItem → Bool
item_lt lhs rhs = ltb_int lhs.code rhs.code

-- `_name_refs` and `_code_refs`.
pub record EnumRefs : Type 0 where
  pub names : List (Bytes × ℤ)
  pub codes : List (ℤ × Bytes)

-- `Reg(inst, c, n)`.
unfoldable pub reg : EnumItem → EnumRefs → EnumRefs
reg item inst = record {
  names = emplace item.name item.code inst.names;
  codes = emplace item.code item.name inst.codes;
}

-- The constructor of the enum: the members `_reg_...` in the order of their declaration.
unfoldable pub reg_all : List EnumItem → EnumRefs → EnumRefs
reg_all [] inst = inst
reg_all (item ∷ items) inst = reg_all items (reg item inst)

unfoldable pub e : List EnumItem → EnumRefs
e items = reg_all items (record { names = []; codes = [] })

unfoldable pub get_by_name : EnumRefs → Bytes → EnumItem
get_by_name inst name = elim (find name inst.names) [
  | none ↦ no_item
  | some code ↦ record { code = code; name = name }
]

unfoldable pub get_by_code : EnumRefs → ℤ → EnumItem
get_by_code inst code = elim (find code inst.codes) [
  | none ↦ no_item
  | some name ↦ record { code = code; name = name }
]

unfoldable pub exist_name : EnumRefs → Bytes → Bool
exist_name inst name = elim (find name inst.names) [ none ↦ false | some code ↦ true ]

unfoldable pub exist_code : EnumRefs → ℤ → Bool
exist_code inst code = elim (find code inst.codes) [ none ↦ false | some name ↦ true ]

abbrev item : ℕ → Bytes → EnumItem
item code name = record { code = pos code; name = name }

-- The items of `ModelTypeEnum`.
abbrev pub model_types : List EnumItem
model_types =
    item 0 (codes "no")
    ∷ item 1 (codes "CHAR")
    ∷ item 2 (codes "INT16")
    ∷ item 3 (codes "INT")
    ∷ item 4 (codes "INT64")
    ∷ item 5 (codes "UINT16")
    ∷ item 6 (codes "UINT32")
    ∷ item 7 (codes "UINT64")
    ∷ item 8 (codes "BOOL")
    ∷ item 9 (codes "FLOAT")
    ∷ item 10 (codes "DOUBLE")
    ∷ item 11 (codes "STR")
    ∷ item 100 (codes "OBJECT")
    ∷ item 101 (codes "LIST")
    ∷ []
