-- ===== src/SqlBuilder/Tests.antt =====
-- Statements of a small class, and instances of the theorems.
use rellaf.Prelude.{
  ℕ, List, [], ◌∷◌, ◌++◌, true, false, none, some, Bytes, codes, ◌==◌, if◌then◌else◌, ◌≡◌, ◌≢◌, ◌⊎◌,
  refl, inl, arith,
}
use rellaf.Prelude.Maps.{find, same, bytes_eq}
use rellaf.Prelude.Ints.{pos}
use rellaf.Numbers.{digits}
use rellaf.Cast.Sample.{no_reals}
use rellaf.Cast.{int64, number}
use rellaf.Cast.Values.{int64_fits}
use rellaf.Plain.{Plain, plain, type_str, plain_str}
use rellaf.Model.{
  is_plain_member, find_list, find_object, Model, of_plain, of_list, object, Class, Items, no_items,
  item, no_lists, list_entry, no_objects, null_entry,
}
use rellaf.SqlPattern.{Stub, literal, field, list}
use rellaf.MysqlEscape.{utf8}
use rellaf.MysqlEscape.Charsets.{utf8-IsCharset}
use rellaf.MysqlEscape.Literal.{read}
use rellaf.Str.Sections.{sections}
use rellaf.Outcome.{returned, refused, fault}
use rellaf.SqlBuilder.{
  model_arg, collect_models, prepare_statement, append_stub, member, get_plain_val,
  get_plain_val_str, get_list_val, SqlVal, split_section, pick, append_sql,
}
use rellaf.SqlBuilder.Sections.{split_section-sections}
use rellaf.SqlBuilder.Statement.{statement, at_place, prepare_statement-statement}
use rellaf.SqlBuilder.Values.{append_sql-read, get_plain_val_str-IsNumeric, IsNumeric}
use rellaf.SqlBuilder.Faults.{append_stub-empty_list, get_list_val-nested}

abbrev id_plain : Plain
id_plain = plain no_reals int64 (number (pos 42))

abbrev user : Class
user = record {
  name = codes "User";
  plain_names = (codes "id", id_plain) ∷ [];
  list_names = codes "ids" ∷ codes "tags" ∷ [];
  object_names = codes "boss" ∷ [];
}

-- A user with the list `ids`, the empty list `tags`, and the object `boss` that is not set.
abbrev ann : Model
ann =
    object user ((codes "id", id_plain) ∷ [])
      (list_entry (codes "ids") (item (of_plain id_plain) no_items)
        (list_entry (codes "tags") no_items no_lists))
      (null_entry (codes "boss") no_objects)

abbrev by_id : List Stub
by_id =
    record { type = literal; value = codes "id=" }
    ∷ record { type = field; value = codes "id" }
    ∷ []

prepare_by_id :
    prepare_statement utf8 true ((codes "get", by_id) ∷ []) (codes "get") (model_arg [] ann ∷ [])
    ≡ returned (codes "id=42")
unfolding prepare_statement same plain_str type_str digits is_plain_member
prepare_by_id = refl

two_sections : split_section (codes "a..b.") ≡ some (sections b'.' [] (codes "a..b."))
two_sections = split_section-sections (codes "a..b.") (omega arith)

abbrev in_ids : List Stub
in_ids =
    record { type = literal; value = codes "id in (" }
    ∷ record { type = list; value = codes "ids" }
    ∷ record { type = literal; value = codes ")" }
    ∷ []

ids_values :
    at_place utf8 true false ((codes "", ann) ∷ []) (codes "ids") (λ m s. get_list_val m s)
    ≢ returned []
unfolding split_section pick get_list_val is_plain_member find_list same find
ids_values e = cc e

prepare_statement-statement_example :
    prepare_statement utf8 true ((codes "get", in_ids) ∷ []) (codes "get") (model_arg [] ann ∷ [])
    ≡ statement utf8 true false (collect_models (model_arg [] ann ∷ []) []) in_ids
unfolding find same collect_models
prepare_statement-statement_example =
    prepare_statement-statement utf8 true ((codes "get", in_ids) ∷ []) (codes "get")
      (model_arg [] ann ∷ []) in_ids refl (tt, (ids_values, (tt, tt)))

-- A key that is no member, and a section of a list that has no brackets.
not_found :
    (get_list_val ann (codes "none" ∷ []) ≡ refused)
    × (get_list_val ann (codes "none" ∷ codes "ids" ∷ []) ≡ get_list_val ann (codes "ids" ∷ []))
    × (get_list_val (of_list (item (of_plain id_plain) no_items)) (codes "0" ∷ []) ≡ refused)
unfolding get_list_val is_plain_member find_list find_object same find
not_found = (refl, refl, refl)

append_sql-read_example :
    (t u : Bytes) × (append_sql utf8 true
        (record { val = codes "O'\\x"; need_quote = true; need_escape = true })
        (codes "name=")
      ≡ returned t)
    × (t ++ codes ";" ≡ codes "name=" ++ b'\'' ∷ u)
    × (read utf8 0 u ≡ some (codes "O'\\x", codes ";"))
append_sql-read_example =
    append_sql-read utf8-IsCharset true (codes "O'\\x") (codes "name=") (codes ";")
      (inl (omega arith)) (omega arith)

get_plain_val_str-IsNumeric_example :
    (s : SqlVal) × (get_plain_val_str id_plain ≡ returned s)
    × (((s.need_quote ≡ true) × (s.need_escape ≡ true))
        ⊎ ((s.need_quote ≡ false) × IsNumeric s.val))
get_plain_val_str-IsNumeric_example =
    get_plain_val_str-IsNumeric no_reals int64 (number (pos 42)) tt
      (int64_fits (pos 42) (omega arith))

empty_list_filled :
    (append_stub utf8 true false
        ((codes "", ann) ∷ [])
        (record { type = list; value = codes "tags" })
        []
      ≡ fault)
    × ((sql : Bytes) (c : ℕ)
        → append_stub utf8 true false
            ((codes "", ann) ∷ [])
            (record { type = list; value = codes "tags" })
            (sql ++ c ∷ [])
          ≡ returned (if c == b',' then sql else sql ++ c ∷ []))
unfolding split_section pick get_list_val is_plain_member find_list same find
empty_list_filled =
    append_stub-empty_list utf8 true false ((codes "", ann) ∷ []) (codes "tags") refl

get_list_val-nested_example :
    ((xs : Items)
      → member (codes "boss") ann ≡ returned (some (of_list xs))
      → get_list_val ann (codes "boss" ∷ codes "ids" ∷ []) ≡ fault)
    × (member (codes "boss") ann ≡ returned none
        → (get_list_val ann (codes "boss" ∷ codes "ids" ∷ []) ≡ fault)
          × (get_plain_val ann (codes "boss" ∷ codes "ids" ∷ []) ≡ fault))
get_list_val-nested_example =
    get_list_val-nested user ((codes "id", id_plain) ∷ [])
      (list_entry (codes "ids") (item (of_plain id_plain) no_items)
        (list_entry (codes "tags") no_items no_lists))
      (null_entry (codes "boss") no_objects) (codes "boss") (codes "ids") []
