-- ===== src/PrepareArgs/Tests.antt =====
-- The arguments of a handler: a list in the body, and a number that is a path variable.
use rellaf.Prelude.{◌≡◌, refl, [], ◌∷◌, true, codes, arith}
use rellaf.Prelude.Maps.{same}
use rellaf.Prelude.Ints.{pos}
use rellaf.Cast.Sample.{no_reals}
use rellaf.Cast.{int, number, cast}
use rellaf.Plain.{plain, set_parse, plain_str, type_str}
use rellaf.Numbers.{to_string, digits}
use rellaf.Model.{Model, of_plain, of_list, no_items, null, item, is_plain, is_object}
use rellaf.Json.Reading.{done, json_to_model, json_to_model_inner, json_to_case, json_to_items}
use rellaf.Json.Sample.{small_json}
use rellaf.Json.Shape.{depth, IsReadable}
use rellaf.Json.Shape.Ends.{Ends}
use rellaf.PrepareArgs.{HttpContext, Args, req_body, path_var, prepare_arg, prepare_args, handle}
use rellaf.PrepareArgs.Kept.{ShapedArgs, prepare_args-Shaped}

abbrev one_var : HttpContext
one_var = record { query = []; path_vars = (codes "id", codes "7") ∷ [] }

abbrev number_model : Model
number_model = of_plain (plain no_reals int (number (pos 1)))

abbrev two_args : Args
two_args = (path_var, number_model) ∷ (req_body, of_list (item number_model no_items)) ∷ []

-- The number is read from the path, and the item of the list is null in the body.
args_filled :
    prepare_args no_reals small_json 2 one_var (codes "[null, 9]") two_args
    ≡ done (
      true,
      (path_var, of_plain (plain no_reals int (number (pos 7))))
          ∷ (req_body, of_list (null no_items))
          ∷ [],
    )
unfolding prepare_args prepare_arg same is_plain is_object set_parse json_to_model
    json_to_model_inner json_to_case json_to_items cast
args_filled = refl

-- The handler that returns the number.
number_returned :
    handle no_reals small_json 2 one_var (codes "[null, 9]") (λ args. number_model) two_args
    ≡ done (pos 0, codes "1")
unfolding handle prepare_args prepare_arg same is_plain is_object set_parse json_to_model
    json_to_model_inner json_to_case json_to_items cast plain_str type_str to_string digits
number_returned = refl

prepare_args-Shaped_example :
    Ends
      (λ (s, args). ShapedArgs two_args args)
      (prepare_args no_reals small_json 2 one_var (codes "[9]") two_args)
prepare_args-Shaped_example =
    prepare_args-Shaped no_reals small_json 2 one_var (codes "[9]") two_args (
      (unfold depth in omega arith, unfold IsReadable in λ e. cc),
      ((unfold depth in omega arith, unfold IsReadable in ((λ e. cc), tt)), tt),
    )
