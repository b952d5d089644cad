-- ===== src/PrepareArgs.antt =====
-- `prepare_args` of include/brpc/brpc_service.h, which fills the arguments of a handler from a request,
-- and the tags of include/brpc/http_arg_type.h.
pub mod Kept
mod Tests
use rellaf.Prelude.{ℕ, List, [], ◌∷◌, Bool, true, false, Bytes, codes, if◌then◌else◌}
use rellaf.Prelude.Maps.{same}
use rellaf.Prelude.Ints.{ℤ, pos, negsuc}
use rellaf.Cast.{Reals}
use rellaf.Plain.{Plain, set_parse, plain_str}
use rellaf.Model.{Class, Model, void, of_plain, of_list, object, is_plain, is_object, set_plain}
use rellaf.Json.{JsonCpp, model_to_json}
use rellaf.Json.Reading.{Reading, done, ◌>>=◌, json_to_model}

abbrev pub req_param : Bytes
req_param = codes "REQ_PARAM"

abbrev pub path_var : Bytes
path_var = codes "PATH_VAR"

abbrev pub req_body : Bytes
req_body = codes "REQ_BODY"

-- What is read of an `HttpContext`: the query of the URI and the path variables, in the order in which
-- they are listed.
pub record HttpContext : Type 0 where
  pub query : List (Bytes × Bytes)
  pub path_vars : List (Bytes × Bytes)

-- The arguments of which `flatten_args` takes the address, with their tags.
abbrev pub Args : Type 0
Args = List (Bytes × Model)

module _ (r : Reals) where
  -- The loops that call `set_plain`.
  abbrev pub set_entries :
      Class → List (Bytes × Bytes) → List (Bytes × Plain) → List (Bytes × Plain)
  set_entries c [] ps = ps
  set_entries c ((key, val) ∷ entries) ps = set_entries c entries (set_plain r c key val ps).1

  -- `set_parse` of the class of the model, and its result.
  abbrev pub parse_into : Bytes → Model → Bool × Model
  parse_into val (of_plain p) = let (s, q) = set_parse r val p in (s, of_plain q)
  parse_into val void = (true, void)
  parse_into val (of_list xs) = (false, of_list xs)
  parse_into val (object c ps ls os) = (false, object c ps ls os)

  abbrev pub entries_into : List (Bytes × Bytes) → Model → Model
  entries_into entries (object c ps ls os) = object c (set_entries c entries ps) ls os
  entries_into entries m = m

  -- The first path variable of a plain argument.
  abbrev pub first_into : List (Bytes × Bytes) → Model → Model
  first_into [] m = m
  first_into ((key, val) ∷ entries) m = if is_plain m then (parse_into val m).1 else m

  abbrev pub vars_into : List (Bytes × Bytes) → Model → Model
  vars_into vars m = if is_object m then entries_into vars m else first_into vars m

  module _ {ℓ} {J : Type ℓ} (api : JsonCpp J) (fuel : ℕ) (ctx : HttpContext) (body : Bytes) where
    -- The body of the loop: whether it goes on, and the argument.
    unfoldable pub prepare_arg : Bytes → Model → Reading (Bool × Model)
    unfolding same is_plain is_object set_plain set_parse json_to_model
    prepare_arg tag m =
        if same tag req_body
        then (if is_plain m then done (parse_into body m) else json_to_model api fuel body m)
        else if same tag req_param
        then done (true, (if is_object m then entries_into ctx.query m else m))
        else if same tag path_var
        then done (true, vars_into ctx.path_vars m)
        else done (true, m)

    abbrev pub keep_arg : Bytes → Model → Bool × Args → Bool × Args
    keep_arg tag m (s, args) = (s, (tag, m) ∷ args)

    unfoldable pub prepare_args : Args → Reading (Bool × Args)
    unfolding prepare_arg
    prepare_args [] = done (true, [])
    prepare_args ((tag, m) ∷ args) =
        let rest = prepare_args args in
        prepare_arg tag m >>= λ (s, m').
        if s then (rest >>= λ t. done (keep_arg tag m' t)) else done (false, (tag, m') ∷ args)

    abbrev str_of : Model → Bytes
    str_of (of_plain p) = plain_str p
    str_of m = []

    -- The handler that `rellaf_brpc_http_def_api` makes of a function `func` of the user: the status
    -- that it returns, and `ret_body`.
    unfoldable pub handle : (Args → Model) → Args → Reading (ℤ × Bytes)
    unfolding prepare_args is_plain plain_str model_to_json
    handle func args = prepare_args args >>= λ (s, args').
        let ret = func args' in
        if s
        then done (pos 0, (if is_plain ret then str_of ret else model_to_json api false ret))
        else done (negsuc 0, [])
