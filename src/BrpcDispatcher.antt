-- ===== src/BrpcDispatcher.antt =====
-- `BrpcDispatcher` of include/brpc/brpc_dispatcher.h and src/brpc/brpc_dispatcher.cpp: the services and
-- their registration with the server of brpc, which is the parameter `Server`.
pub mod Refused
mod Tests
use rellaf.Prelude.{
  ℕ, ◌-◌, List, [], ◌∷◌, ◌++◌, Bool, true, false, Option, none, some, Bytes, codes, is_empty,
  length, take, if◌then◌else◌,
}
use rellaf.Prelude.Maps.{emplace, find, bytes_eq}
use rellaf.Prelude.Ints.{ℤ, pos, negsuc}
use rellaf.ApiSigns.{ApiSigns}

-- `AddService` of the service of a name, with the text of its paths: whether it returns 0.
pub record Server {ℓ} (S : Type ℓ) : Type ℓ where
  pub add_service : Bytes → Bytes → S → Bool × S
  pub clear_services : S → S

-- `_services` in the order in which the map lists them; `none` is a null pointer.
abbrev pub Services : Type 0
Services = List (Bytes × Option ApiSigns)

-- `Reg`: `made` is the service that `new` gives. The result is `none` if the program ends.
unfoldable pub reg_service : Bytes → Option ApiSigns → Services → Option Services
unfolding find emplace
reg_service service_name made services = elim (find service_name services) [
  | some s ↦ some services
  | none ↦ elim made [
    | none ↦ none
    | some signs ↦ some (emplace service_name (some signs) services)
  ]
]

-- The entries of a map, in the order in which it lists them.
abbrev pub api_lines : Bytes → List (Bytes × Bytes) → Bytes
api_lines arrow [] = []
api_lines arrow ((path, sign) ∷ entries) =
    path ++ arrow ++ sign ++ codes ",\n" ++ api_lines arrow entries

-- The two calls of `pop_back`.
unfoldable pub api_str : ApiSigns → Bytes
api_str m =
    let text = api_lines (codes " => ") m.signs ++ api_lines (codes "/* => ") m.path_var_signs in
    if is_empty text then text else take (length text - 2) text

module _ {ℓ} {S : Type ℓ} (api : Server S) where
  unfoldable pub reg_loop : Services → S → ℤ × S
  unfolding api_str
  reg_loop [] server = (pos 0, server)
  reg_loop ((name, none) ∷ services) server = (negsuc 0, server)
  reg_loop ((name, some m) ∷ services) server =
      let (added, server') = api.add_service name (api_str m) server in
      let rest = reg_loop services server' in
      if is_empty m.signs then (negsuc 0, server) else if added then rest else (negsuc 0, server')

  unfoldable pub reg_http_services : Services → S → ℤ × S
  unfolding reg_loop
  reg_http_services [] server = (negsuc 0, server)
  reg_http_services (entry ∷ services) server = reg_loop (entry ∷ services) server

  abbrev pub reset : S → S
  reset server = api.clear_services server
