-- ===== src/Json/Tests.antt =====
-- Runs of the conversions, and instances of the theorems.
use rellaf.Prelude.{codes, ◌≡◌, refl, arith}
use rellaf.Prelude.Ints.{pos}
use rellaf.Cast.Sample.{no_reals}
use rellaf.Cast.{int, double, number, real}
use rellaf.Cast.Values.{int_fits}
use rellaf.Plain.{plain}
use rellaf.Model.{Model, of_plain, of_list, no_items, null, item}
use rellaf.Outcome.{returned, fault}
use rellaf.Json.{plain_json, json_to_plain, json_to_kind, model_to_json_inner}
use rellaf.Json.Reading.{json_to_model, json_to_model_inner, json_to_case, json_to_items, done}
use rellaf.Json.Sample.{null_value, int_value, array_end, array_item, small_json}
use rellaf.Json.Laws.{IsJsonCpp}
use rellaf.Json.Shape.{Shaped, IsReadable, depth}
use rellaf.Json.Shape.Ends.{Ends}
use rellaf.Json.Shape.Kept.{json_to_model-Shaped}
use rellaf.Json.Plains.{json_to_plain-plain_json, json_to_plain-double}

small_json-IsJsonCpp : IsJsonCpp small_json
small_json-IsJsonCpp = record {
  int_set = λ z. refl;
  uint_set = λ n. refl;
  bool_set = λ b. refl;
  string_set = λ s. refl;
  double_set = λ x. refl;
  int_numeric = λ z. refl;
  uint_numeric = λ n. refl;
  bool_bool = λ b. refl;
  double_double = λ x. refl;
  string_string = λ s. refl;
  as_int_int = λ z h. refl;
  as_int64_int = λ z h. refl;
  as_uint_uint = λ n h. refl;
  as_uint64_uint = λ n h. refl;
  as_bool_bool = λ b. refl;
  as_string_string = λ s. refl;
}

-- A list of a number and a null pointer.
list_json :
    model_to_json_inner small_json
      (of_list (item (of_plain (plain no_reals int (number (pos 3)))) (null no_items)))
    ≡ array_item (array_item array_end (int_value (pos 3))) null_value
unfolding model_to_json_inner plain_json
list_json = refl

number_read :
    json_to_plain small_json
      (plain_json small_json (plain no_reals int (number (pos 42))))
      (plain no_reals int (number (pos 0)))
    ≡ returned (plain no_reals int (number (pos 42)))
number_read =
    json_to_plain-plain_json small_json-IsJsonCpp no_reals int (number (pos 42)) (number (pos 0)) tt
      (int_fits (pos 42) (omega arith))

lost_double :
    json_to_plain small_json
      (plain_json small_json (plain no_reals double (real 5)))
      (plain no_reals double (real 0))
    ≡ fault
lost_double = json_to_plain-double small_json-IsJsonCpp no_reals 5 (real 0)

-- A list of two numbers, into which a Json array of a null value and a number is read.
abbrev two_numbers : Model
two_numbers = of_list (
    item (of_plain (plain no_reals int (number (pos 1))))
      (item (of_plain (plain no_reals int (number (pos 2)))) no_items))

array_read :
    json_to_model_inner small_json 2
      (array_item (array_item array_end null_value) (int_value (pos 9)))
      two_numbers
    ≡ done (of_list (null (item (of_plain (plain no_reals int (number (pos 9)))) no_items)))
unfolding json_to_model_inner json_to_case json_to_items json_to_plain json_to_kind
array_read = refl

two_numbers-IsReadable : IsReadable two_numbers
unfolding IsReadable
two_numbers-IsReadable = ((λ e. cc), ((λ e. cc), tt))

json_to_model-Shaped_example :
    Ends
      (λ (b, n). Shaped two_numbers n)
      (json_to_model small_json 2 (codes "[null, 9]") two_numbers)
json_to_model-Shaped_example =
    json_to_model-Shaped small_json 2 (codes "[null, 9]") two_numbers (unfold depth in omega arith)
      two_numbers-IsReadable
