-- ===== src/MyResult/Tests.antt =====
-- A result set of two rows, whose second field is no member of the class.
use rellaf.Prelude.{List, [], ◌∷◌, map, Option, none, some, Bytes, codes, length, ◌≡◌, refl, arith}
use rellaf.Prelude.Maps.{find, same, bytes_eq}
use rellaf.Prelude.Ints.{pos}
use rellaf.Cast.Sample.{no_reals}
use rellaf.Cast.{Kind, Val, int, number}
use rellaf.Plain.{Plain, plain, set_parse}
use rellaf.Model.{Model, object, Class, no_lists, no_objects, is_plain_member, set_plain}
use rellaf.Model.Copy.{copied}
use rellaf.Model.Whole.{IsWhole, PlainsOf}
use rellaf.Outcome.{returned, fault}
use rellaf.SqlBuilder.Execute.{select_list_impl}
use rellaf.SqlExecutor.{SqlExecutor}
use rellaf.MyResult.{Row, Client, MyResult, my_api, init, new_result, to_model}
use rellaf.MyResult.Null.{to_model-null}
use rellaf.MyResult.Rows.{drained, fetched, at_result, row_object, select_list_impl-rows}

abbrev next_row : List Row → Option Row × List Row
next_row [] = (none, [])
next_row (row ∷ rows) = (some row, rows)

abbrev names : List Bytes
names = codes "id" ∷ codes "age" ∷ []

abbrev listed : Client (List Row)
listed = record { fetch_row = next_row; fetch_fields = λ rows. some names; num_rows = length }

abbrev first_user : List Bytes
first_user = codes "7" ∷ codes "30" ∷ []

abbrev second_user : List Bytes
second_user = codes "8" ∷ codes "40" ∷ []

abbrev stored : List Row
stored = map some first_user ∷ map some second_user ∷ []

abbrev user : Class
user = record {
  name = codes "User";
  plain_names = (codes "id", plain no_reals int (number (pos 0))) ∷ [];
  list_names = [];
  object_names = [];
}

abbrev executor : SqlExecutor (MyResult (List Row))
executor = record {
  select = λ sql. some (init listed (some stored) new_result).1;
  execute = λ sql. (pos 0, 0);
}

abbrev unset : Kind → Val
unset k = number (pos 0)

abbrev user_plains : List (Bytes × Plain)
user_plains = (codes "id", plain no_reals int (number (pos 0))) ∷ []

-- The object of a row.
abbrev user_of : List Bytes → Model
user_of row = row_object no_reals user user_plains no_lists no_objects names row

users-IsWhole : IsWhole (user_of first_user) × IsWhole (user_of second_user)
unfolding IsWhole PlainsOf find same is_plain_member set_plain set_parse
users-IsWhole = (
  (refl, refl, (refl, (refl, refl, refl), refl, tt), refl),
  (refl, refl, (refl, (refl, refl, refl), refl, tt), refl),
)

select_list_impl-rows_example :
    select_list_impl
      (my_api listed no_reals)
      3
      (returned (codes "SELECT"))
      (some executor)
      (object user user_plains no_lists no_objects)
      (copied no_reals unset)
      []
    ≡ some (returned (pos 2, user_of first_user ∷ user_of second_user ∷ []))
select_list_impl-rows_example =
    select_list_impl-rows listed no_reals unset names (first_user ∷ second_user ∷ []) user
      user_plains no_lists no_objects 3 (codes "SELECT") executor stored (omega arith) (omega arith)
      (omega arith) (refl, (refl, tt)) (users-IsWhole.0, (users-IsWhole.1, tt))
      (fetched _ _ first_user _ refl (fetched _ _ second_user _ refl (drained _ _ refl))) refl refl

-- The second column of a user's row is NULL.
null_column_followed :
    to_model no_reals
      (at_result names stored (some (some (codes "7") ∷ none ∷ [])))
      (object user [] no_lists no_objects)
    ≡ fault
unfolding is_plain_member find same
null_column_followed =
    to_model-null stored no_reals user (codes "age") (codes "id" ∷ []) [] (codes "7" ∷ []) [] []
      no_lists no_objects refl (refl, tt)
