-- ===== src/ApiSigns/Tests.antt =====
-- A path with variables that is bound, and the paths that are not.
use rellaf.Prelude.{[], ◌∷◌, codes, ◌≡◌, refl}
use rellaf.Prelude.Maps.{emplace}
use rellaf.Outcome.{returned, fault}
use rellaf.UrlPattern.{fetch_path_vars_prefix}
use rellaf.ApiSigns.{no_signs, without_slash, bound_path, bind_api_sign}
use rellaf.ApiSigns.Faults.{Binds, bind_api_sign-Binds}

bind_item :
    bind_api_sign (codes "sign") (codes "item/{id}") no_signs
    ≡ returned (record { signs = []; path_var_signs = (codes "/item", codes "sign") ∷ [] })
unfolding bind_api_sign bound_path without_slash fetch_path_vars_prefix emplace
bind_item = refl

bind_root : bind_api_sign (codes "sign") (codes "/{id}") no_signs ≡ fault
unfolding bind_api_sign bound_path without_slash fetch_path_vars_prefix
bind_root = refl

bind_api_sign-Binds_example :
    Binds
      (codes "sign")
      (codes "/{id}")
      no_signs
      (bind_api_sign (codes "sign") (codes "/{id}") no_signs)
bind_api_sign-Binds_example = bind_api_sign-Binds (codes "sign") (codes "/{id}") no_signs
