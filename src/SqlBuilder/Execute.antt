-- ===== src/SqlBuilder/Execute.antt =====
-- `select_impl`, `select_list_impl` and `execute_impl` of include/sql_builder.h, with the executor as a
-- parameter.
use rellaf.Prelude.{
  ℕ, zero, suc, ◌^◌, List, [], ◌∷◌, ◌++◌, Bool, true, false, Option, none, some, Bytes, length,
  if◌then◌else◌,
}
use rellaf.Prelude.Ints.{ℤ, pos, negsuc}
use rellaf.Numbers.{wrap_signed}
use rellaf.Model.{Model}
use rellaf.Outcome.{Outcome, returned, refused, fault, ◌>>=◌}
use rellaf.SqlExecutor.{SqlResult, SqlExecutor}

abbrev pub refused_code : ℤ
refused_code = negsuc 0

module _ {ℓ} {R : Type ℓ} (api : SqlResult R) where
  -- The first row is read into `ret`.
  unfoldable pub first_row : R → Model → Outcome (ℤ × Model)
  first_row res ret = api.next res >>= λ (more, res').
      if more
      then (api.to_model res' ret >>= λ (ok, ret').
          returned (if ok then pos 1 else refused_code, ret'))
      else returned (pos 1, ret)

  -- Behind `prepare_statement`; `given` says whether the caller asks for the text of the statement.
  unfoldable pub select_impl :
      Outcome Bytes → Bool → Option (SqlExecutor R) → Model → Outcome (ℤ × Model)
  unfolding first_row
  select_impl fault given executor ret = fault
  select_impl refused given executor ret = returned (refused_code, ret)
  select_impl (returned sql) true executor ret = returned (pos 0, ret)
  select_impl (returned sql) false none ret = returned (pos 0, ret)
  select_impl (returned sql) false (some ex) ret = elim (ex.select sql) [
    | none ↦ returned (refused_code, ret)
    | some res ↦ first_row res ret
  ]

module _ {ℓ κ} {R : Type ℓ} {B : Type κ} (api : SqlResult R) where
  -- A row that was read: whether the list goes on. `out` is what `emplace_back` makes of the object; a
  -- copy that follows a null pointer is `none`.
  abbrev pub add_row : (Model → Option B) → List B → Bool × Model → Outcome (Bool × List B)
  add_row out ret_list (true, m) = elim (out m) [
    | none ↦ fault
    | some b ↦ returned (true, ret_list ++ b ∷ [])
  ]
  add_row out ret_list (false, m) = returned (false, ret_list)

  -- One round of `while (res->next())`: `none` behind the last row. `fresh` is the new `ret`.
  unfoldable pub row_round :
      Model → (Model → Option B) → R → List B → Outcome (Option (R × (Bool × List B)))
  row_round fresh out res ret_list = api.next res >>= λ (more, res').
      if more
      then (api.to_model res' fresh >>= λ read.
          add_row out ret_list read >>= λ added. returned (some (res', added)))
      else returned none

  unfoldable pub rows_loop :
      ℕ → Model → (Model → Option B) → R → List B → Option (Outcome (ℤ × List B))
  unfolding row_round
  rows_loop zero fresh out res ret_list = none
  rows_loop (suc fuel) fresh out res ret_list = elim (row_round fresh out res ret_list) [
    | fault ↦ some fault
    | refused ↦ some refused
    | returned none ↦ some (returned (wrap_signed (2 ^ 32) (pos (length ret_list)), ret_list))
    | returned (some (res', (true, ret_list'))) ↦ rows_loop fuel fresh out res' ret_list'
    | returned (some (res', (false, ret_list'))) ↦ some (returned (refused_code, ret_list'))
  ]

  unfoldable pub select_list_impl :
      ℕ
      → Outcome Bytes
      → Option (SqlExecutor R)
      → Model
      → (Model → Option B)
      → List B
      → Option (Outcome (ℤ × List B))
  unfolding rows_loop
  select_list_impl fuel fault executor fresh out ret_list = some fault
  select_list_impl fuel refused executor fresh out ret_list =
      some (returned (refused_code, ret_list))
  select_list_impl fuel (returned sql) none fresh out ret_list = some (returned (pos 0, ret_list))
  select_list_impl fuel (returned sql) (some ex) fresh out ret_list = elim (ex.select sql) [
    | none ↦ some (returned (refused_code, ret_list))
    | some res ↦ rows_loop fuel fresh out res ret_list
  ]

-- The result is the return value and the key.
unfoldable pub execute_impl {ℓ} :
    {R : Type ℓ} → Outcome Bytes → Bool → Option (SqlExecutor R) → ℕ → Outcome (ℤ × ℕ)
execute_impl fault given executor key_id = fault
execute_impl refused given executor key_id = returned (refused_code, key_id)
execute_impl (returned sql) true executor key_id = returned (pos 0, key_id)
execute_impl (returned sql) false none key_id = returned (pos 0, key_id)
execute_impl (returned sql) false (some ex) key_id = returned (ex.execute sql)
