-- ===== src/MyResult.antt =====
-- `MyResult` of src/mysql/mysql_simple_result.h and .cpp: a result set of the MySQL client, whose
-- functions are the parameter `Client`.
pub mod Rows
pub mod Null
mod Tests
use rellaf.Prelude.{
  ℕ, suc, ◌+◌, ◌%◌, ◌^◌, List, [], ◌∷◌, Bool, true, false, Option, none, some, Bytes, length, ◌==◌,
  leb, ltb, if◌then◌else◌,
}
use rellaf.Cast.{Reals}
use rellaf.Plain.{Plain, set_parse}
use rellaf.Model.{Model, void, of_plain, of_list, object, Class, set_plain, is_plain}
use rellaf.Outcome.{Outcome, returned, refused, fault, ◌>>=◌}
use rellaf.SqlExecutor.{SqlResult}

-- A column that is NULL is a null pointer.
abbrev pub Row : Type 0
Row = List (Option Bytes)

-- `mysql_fetch_row`, `mysql_fetch_fields` with `mysql_num_fields`, and `mysql_num_rows`.
pub record Client {ℓ} (R : Type ℓ) : Type ℓ where
  pub fetch_row : R → Option Row × R
  pub fetch_fields : R → Option (List Bytes)
  pub num_rows : R → ℕ

pub record MyResult {ℓ} (R : Type ℓ) : Type ℓ where
  pub index : ℕ
  pub res : Option R
  pub row : Option Row
  pub fields : List Bytes

module _ (r : Reals) where
  -- The loop over the fields of an object. A column that is NULL, or not there, has no text. The
  -- `return -1` for a field that is no member is true.
  unfoldable pub set_fields :
      Class → List Bytes → Row → List (Bytes × Plain) → Outcome (List (Bytes × Plain))
  unfolding set_plain
  set_fields c [] row plains = returned plains
  set_fields c (key ∷ keys) [] plains = fault
  set_fields c (key ∷ keys) (none ∷ row) plains = fault
  set_fields c (key ∷ keys) (some val ∷ row) plains =
      let (known, plains') = set_plain r c key val plains in
      let rest = set_fields c keys row plains' in if known then rest else returned plains'

  unfoldable pub parse_first : Row → Plain → Outcome Model
  unfolding set_parse
  parse_first [] p = fault
  parse_first (none ∷ row) p = fault
  parse_first (some val ∷ row) p = returned (of_plain (set_parse r val p).1)

  unfoldable pub row_model : List Bytes → Row → Model → Outcome Model
  unfolding set_fields parse_first is_plain
  row_model fields row (object c ps ls os) =
      set_fields c fields row ps >>= λ ps'. returned (object c ps' ls os)
  row_model fields row (of_plain p) =
      if is_plain (of_plain p) then parse_first row p else returned (of_plain p)
  row_model fields row void = returned void
  row_model fields row (of_list xs) = returned (of_list xs)

module _ {ℓ} {R : Type ℓ} where
  abbrev pub new_result : MyResult R
  new_result = record { index = 0; res = none; row = none; fields = [] }

  -- `mysql_free_result` frees `_res`.
  abbrev pub reset : MyResult R → MyResult R
  reset s = record { index = 0; res = none; row = none; fields = [] }

  unfoldable pub assign_res : Option R → MyResult R → MyResult R
  assign_res res s = record (reset s) { res = res }

  abbrev pub field_count : MyResult R → ℕ
  field_count s = length s.fields

  -- The row that `mysql_fetch_row` returned.
  abbrev pub with_row : MyResult R → Option Row × R → Bool × MyResult R
  with_row s (none, res) = (false, reset s)
  with_row s (some row, res) = (true, record s { res = some res; row = some row })

  unfoldable pub to_model : Reals → MyResult R → Model → Outcome (Bool × Model)
  unfolding row_model
  to_model r s m =
      if field_count s == 0
      then returned (true, m)
      else (elim s.row [ none ↦ fault | some row ↦ row_model r s.fields row m ] >>= λ m'.
          returned (true, m'))

module _ {ℓ} {R : Type ℓ} (client : Client R) where
  unfoldable pub init : Option R → MyResult R → Bool × MyResult R
  init none s = (false, record s { res = none })
  init (some res) s = elim (client.fetch_fields res) [
    | none ↦ (false, record s { res = some res })
    | some names ↦ (true, record s { res = some res; fields = names })
  ]

  unfoldable pub row_count : MyResult R → ℕ
  row_count s = elim s.res [ none ↦ 0 | some res ↦ client.num_rows res ]

  unfoldable pub next : MyResult R → Outcome (Bool × MyResult R)
  next s = if leb (field_count s) s.index then returned (false, s) else elim s.res [
    | none ↦ fault
    | some res ↦ returned (
        with_row (record s { index = if s.index == 0 then 0 else (s.index + 1) % 2 ^ 32 })
          (client.fetch_row res))
  ]

  abbrev pub my_api : Reals → SqlResult (MyResult R)
  my_api r = record { next = next; to_model = to_model r }
