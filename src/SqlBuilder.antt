-- ===== src/SqlBuilder.antt =====
-- `SqlBuilder` of include/sql_builder.h and src/sql_builder.cpp: a statement from the pieces of a
-- pattern and the arguments of a method.
mod Travel
pub mod Sections
pub mod Values
pub mod Faults
pub mod Statement
pub mod Execute
pub mod Rows
mod Tests
unfoldable pub use Travel.*
use rellaf.Prelude.{
  ◌+◌, List, [], ◌∷◌, ◌++◌, Bool, true, false, not, Option, none, some, Bytes, codes, ◌==◌, ltb,
  if◌then◌else◌, length,
}
use rellaf.Prelude.Maps.{find, emplace, bytes_eq}
use rellaf.Outcome.{Outcome, returned, refused, fault, ◌>>=◌}
use rellaf.Model.{Model}
use rellaf.SqlPattern.{Stub, StubType, literal, field, list, explode}
use rellaf.Prelude.Ints.{pos}
use rellaf.Enum.{EnumItem}
use rellaf.MysqlEscape.{Charset, escape_field}
use rellaf.MysqlEscape.Instance.{instance_of}

-- The items of `SqlBuilder::Charset`, and the character set that is used for `_charset`, which
-- `set_charset` sets: what `SqlEscape::instance` returns for its name, given its static variable.
abbrev pub utf8_charset : EnumItem
utf8_charset = record { code = pos 1; name = codes "UTF8" }

abbrev pub gbk_charset : EnumItem
gbk_charset = record { code = pos 2; name = codes "GBK" }

unfoldable pub used_charset : Option Charset → EnumItem → Option Charset
unfolding instance_of
used_charset made charset = instance_of made charset.name

-- `append_sql` in a character set; `allocated` says whether `malloc` succeeds.
abbrev quote : Bool → Bytes
quote true = b'\'' ∷ []
quote false = []

unfoldable pub append_sql : Charset → Bool → SqlVal → Bytes → Outcome Bytes
append_sql cs allocated v sql =
    if v.need_escape
    then elim (escape_field cs allocated v.val) [
      | none ↦ fault
      | some e ↦
          if e.ret
          then returned (sql ++ quote v.need_quote ++ e.out ++ quote v.need_quote)
          else refused
    ]
    else returned (sql ++ quote v.need_quote ++ v.val ++ quote v.need_quote)

-- An argument of a method: a model with its tag, or a value of another type, which is passed over.
pub data Arg : Type 0 where
  model_arg : Bytes → Model → Arg
  other_arg : Arg

abbrev pub Models : Type 0
Models = List (Bytes × Model)

unfoldable pub collect_models : List Arg → Models → Models
unfolding emplace
collect_models [] models = models
collect_models (model_arg tag m ∷ args) models = collect_models args (emplace tag m models)
collect_models (other_arg ∷ args) models = collect_models args models

-- The model of a place and the sections that are left. One argument is taken whatever its tag; of
-- several, the first section is the tag.
unfoldable pub pick : Bool → Models → List Bytes → Outcome (Model × List Bytes)
unfolding find
pick multi models [] = refused
pick multi [] (s ∷ sections) = refused
pick false ((tag, m) ∷ models) (s ∷ sections) = returned (m, s ∷ sections)
pick true (entry ∷ models) (s ∷ sections) = elim (find s (entry ∷ models)) [
  | none ↦ refused
  | some m ↦ returned (m, sections)
]

unfoldable pub append_list : Charset → Bool → List Bytes → Bytes → Outcome Bytes
unfolding append_sql
append_list cs allocated [] sql = returned sql
append_list cs allocated (val ∷ vals) sql =
    append_sql cs allocated (record { val = val; need_quote = true; need_escape = true }) sql
    >>= λ sql'. append_list cs allocated vals (sql' ++ b',' ∷ [])

-- `if (sql.back() == ',') sql.pop_back();`, where an empty text has no last byte.
unfoldable pub drop_comma : Bytes → Outcome Bytes
drop_comma [] = fault
drop_comma (c ∷ []) = returned (if c == b',' then [] else c ∷ [])
drop_comma (c ∷ c' ∷ s) = drop_comma (c' ∷ s) >>= λ t. returned (c ∷ t)

-- A place of the pattern.
unfoldable pub fill : Charset → Bool → StubType → Model → List Bytes → Bytes → Outcome Bytes
unfolding get_plain_val get_list_val append_sql append_list drop_comma
fill cs allocated literal m sections sql = returned sql
fill cs allocated field m sections sql =
    get_plain_val m sections >>= λ v. append_sql cs allocated v sql
fill cs allocated list m sections sql =
    (get_list_val m sections >>= λ vals. append_list cs allocated vals sql) >>= λ sql'.
    drop_comma sql'

-- `split_section` always returns.
abbrev split_value : Bytes → Outcome (List Bytes)
split_value value = elim (split_section value) [ none ↦ fault | some sections ↦ returned sections ]

unfoldable pub append_stub : Charset → Bool → Bool → Models → Stub → Bytes → Outcome Bytes
unfolding split_section pick fill
append_stub cs allocated multi models stub sql = elim stub.type [
  | literal ↦ returned (sql ++ stub.value)
  | other ↦ split_value stub.value >>= λ sections.
      pick multi models sections >>= λ (m, sections'). fill cs allocated other m sections' sql
]

unfoldable pub append_stubs : Charset → Bool → Bool → Models → List Stub → Bytes → Outcome Bytes
unfolding append_stub
append_stubs cs allocated multi models [] sql = returned sql
append_stubs cs allocated multi models (stub ∷ stubs) sql =
    append_stub cs allocated multi models stub sql >>= λ sql'.
    append_stubs cs allocated multi models stubs sql'

-- `Reg`: the pieces of a method; a pattern that is not well formed ends the program.
pub data Registered : Type 0 where
  registered : List (Bytes × List Stub) → Registered
  exits : Registered

unfoldable pub reg_sql : Bytes → Bytes → List (Bytes × List Stub) → Option Registered
unfolding explode emplace
reg_sql method pattern pices = elim (explode pattern) [
  | none ↦ none
  | some r ↦ some (if r.ret then registered (emplace method r.pieces pices) else exits)
]

unfoldable pub prepare_statement :
    Charset → Bool → List (Bytes × List Stub) → Bytes → List Arg → Outcome Bytes
unfolding find collect_models append_stubs
prepare_statement cs allocated pices method args = elim (find method pices) [
  | none ↦ refused
  | some stubs ↦ append_stubs cs allocated (ltb 1 (length args)) (collect_models args []) stubs []
]
