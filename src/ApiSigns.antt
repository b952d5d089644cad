-- ===== src/ApiSigns.antt =====
-- The paths of a `BrpcService`, of include/brpc/brpc_service.h and src/brpc/brpc_service.cpp
-- (`bind_api_sign`): brpc gets them to send requests to `entry`.
pub mod Faults
mod Tests
use rellaf.Prelude.{
  Bool, false, ◌||◌, ◌++◌, List, [], ◌∷◌, Option, none, some, Bytes, ◌==◌, if◌then◌else◌,
}
use rellaf.Prelude.Maps.{same, emplace, bytes_eq}
use rellaf.Outcome.{Outcome, returned, refused, fault, ◌>>=◌}
use rellaf.UrlPattern.{fetch_path_vars_prefix}
use rellaf.FunctionMapper.{with_slash}

-- `_api_sign_mapper` and `_api_path_var_sign_mapper`: the methods of the paths.
pub record ApiSigns : Type 0 where
  pub signs : List (Bytes × Bytes)
  pub path_var_signs : List (Bytes × Bytes)

abbrev pub no_signs : ApiSigns
no_signs = record { signs = []; path_var_signs = [] }

-- `if (path_in.back() == '/') { path_in.pop_back(); }`; an empty text has no back.
unfoldable pub without_slash : Bytes → Outcome Bytes
without_slash [] = fault
without_slash (c ∷ []) = returned (if c == b'/' then [] else c ∷ [])
without_slash (c ∷ d ∷ s) = without_slash (d ∷ s) >>= λ t. returned (c ∷ t)

unfoldable pub bound_path : Bytes → Outcome Bytes
unfolding without_slash
bound_path path_in = without_slash path_in >>= with_slash

unfoldable pub bind_api_sign : Bytes → Bytes → ApiSigns → Outcome ApiSigns
unfolding fetch_path_vars_prefix bound_path emplace
bind_api_sign sign [] m = returned m
bind_api_sign sign (c ∷ s) m = elim (fetch_path_vars_prefix (c ∷ s)) [
  | some path_in ↦ bound_path path_in >>= λ path.
      returned (record m { path_var_signs = emplace path sign m.path_var_signs })
  | none ↦ bound_path (c ∷ s) >>= λ path. returned (record m { signs = emplace path sign m.signs })
]

abbrev any_same : Bytes → List Bytes → Bool
any_same name [] = false
any_same name (e ∷ es) = same e name || any_same name es

-- The calls that the members `Reg` of a service make, with their methods and paths.
unfoldable pub bind_all : List (Bytes × Bytes) → ApiSigns → Outcome ApiSigns
unfolding bind_api_sign
bind_all [] m = returned m
bind_all ((sign, api) ∷ apis) m = bind_api_sign sign api m >>= bind_all apis

-- `bind_pb_serivce`: the names of the methods of the protobuf service are added to `_sign_entrys`,
-- which nothing reads.
unfoldable pub bind_pb_service : List Bytes → List Bytes → List Bytes
bind_pb_service [] entries = entries
bind_pb_service (name ∷ names) entries =
    bind_pb_service names (if any_same name entries then entries else entries ++ name ∷ [])
