-- ===== src/BrpcDispatcher/Tests.antt =====
-- Two services with a server that takes all services, and the theorem at one that it refuses.
use rellaf.Prelude.{ℕ, suc, [], ◌∷◌, ◌++◌, true, some, codes, ◌≡◌, refl}
use rellaf.Prelude.Maps.{emplace}
use rellaf.Prelude.Ints.{pos, negsuc}
use rellaf.UrlPattern.{fetch_path_vars_prefix}
use rellaf.ApiSigns.{ApiSigns, without_slash, bound_path, bind_api_sign, bind_all}
use rellaf.BrpcDispatcher.{Server, api_str, reg_loop, reg_http_services}
use rellaf.BrpcDispatcher.Refused.{reg_http_services-path_vars}

-- A server that counts its services.
abbrev counting : Server ℕ
counting = record { add_service = λ name text n. (true, suc n); clear_services = λ n. 0 }

abbrev list_service : ApiSigns
list_service = record {
  signs = (codes "/list", codes "list") ∷ (codes "/all", codes "all") ∷ [];
  path_var_signs = (codes "/item", codes "item") ∷ [];
}

list_text : api_str list_service ≡ codes "/list => list,\n/all => all,\n/item/* => item"
unfolding api_str
list_text = refl

list_added : reg_http_services counting ((codes "list", some list_service) ∷ []) 0 ≡ (pos 0, 1)
unfolding reg_http_services reg_loop
list_added = refl

abbrev item_service : ApiSigns
item_service = record { signs = []; path_var_signs = (codes "/item", codes "item") ∷ [] }

reg_http_services-path_vars_example :
    (reg_http_services counting
      (((codes "list", some list_service) ∷ []) ++ (codes "item", some item_service) ∷ [])
      0).0
    ≡ negsuc 0
reg_http_services-path_vars_example =
    reg_http_services-path_vars counting ((codes "list", some list_service) ∷ []) [] (codes "item")
      ((codes "item", codes "/item/{id}") ∷ []) item_service 0
      ((unfold fetch_path_vars_prefix in λ e. cc), tt)
      (unfold bind_all bind_api_sign bound_path without_slash fetch_path_vars_prefix emplace in
        refl)
