-- ===== src/BrpcDispatcher/Refused.antt =====
-- When `reg_http_serivces` fails.
use rellaf.Prelude.{
  List, [], ◌∷◌, ◌++◌, Bool, true, false, none, some, Bytes, is_empty, All, if◌then◌else◌, ◌≡◌, ◌≢◌,
  refl, sym, ◌∙◌, ap,
}
use rellaf.Prelude.Ints.{ℤ, negsuc}
use rellaf.Outcome.{Outcome, returned, refused, fault, ◌>>=◌}
use rellaf.UrlPattern.{fetch_path_vars_prefix}
use rellaf.ApiSigns.{ApiSigns, no_signs, bind_api_sign, bind_all}
use rellaf.ApiSigns.Faults.{Binds, ignored, unread, of_path, of_prefix, bind_api_sign-Binds}
use rellaf.BrpcDispatcher.{Server, Services, api_str, reg_loop, reg_http_services}

-- The paths of the service all have variables.
abbrev pub AllVars : List (Bytes × Bytes) → Type 0
AllVars = All (λ (sign, api). fetch_path_vars_prefix api ≢ none)

abbrev signs_of : Outcome ApiSigns → List (Bytes × Bytes)
signs_of (returned m) = m.signs
signs_of _ = []

-- A path with a variable is not bound in the map that the registration looks at.
Binds-signs :
    (sign api : Bytes) (m : ApiSigns) (r : Outcome ApiSigns)
    → Binds sign api m r
    → fetch_path_vars_prefix api ≢ none
    → (m' : ApiSigns) → r ≡ returned m'
    → m'.signs ≡ m.signs
Binds-signs sign api m _ (ignored e) h m' q = sym (ap signs_of q)
Binds-signs sign api m _ (unread _ _) h m' q = absurd cc
Binds-signs sign api m _ (of_path t b e) h m' q = absurd (h e)
Binds-signs sign api m _ (of_prefix p t b e) h m' q = sym (ap signs_of q)

bind_all-signs :
    (apis : List (Bytes × Bytes)) (m m' : ApiSigns)
    → AllVars apis
    → bind_all apis m ≡ returned m'
    → m'.signs ≡ m.signs
unfolding bind_all
bind_all-signs [] m m' h q = sym (ap signs_of q)
bind_all-signs ((sign, api) ∷ apis) m m' (v, h) q =
    go (bind_api_sign sign api m) (Binds-signs sign api m _ (bind_api_sign-Binds sign api m) v)
      (λ n. bind_all-signs apis n m' h) q
  where
    go :
        (r : Outcome ApiSigns)
        → ((n : ApiSigns) → r ≡ returned n → n.signs ≡ m.signs)
        → ((n : ApiSigns) → bind_all apis n ≡ returned m' → m'.signs ≡ n.signs)
        → (r >>= bind_all apis) ≡ returned m'
        → m'.signs ≡ m.signs
    go (returned n) same rest i = rest n i ∙ same n refl
    go refused same rest i = absurd cc
    go fault same rest i = absurd cc

module _ {ℓ} {S : Type ℓ} (api : Server S) where
  picked :
      (b a : Bool) (r : ℤ × S) (s t : S)
      → r.0 ≡ negsuc 0
      → (if b then (negsuc 0, s) else if a then r else (negsuc 0, t)).0 ≡ negsuc 0
  picked true a r s t h = refl
  picked false true r s t h = h
  picked false false r s t h = refl

  reg_loop-refused :
      (before after : Services) (name : Bytes) (m : ApiSigns) (server : S)
      → m.signs ≡ []
      → (reg_loop api (before ++ (name, some m) ∷ after) server).0 ≡ negsuc 0
  unfolding reg_loop
  reg_loop-refused [] after name m server h = rw h refl
  reg_loop-refused ((n, none) ∷ before) after name m server h = refl
  reg_loop-refused ((n, some k) ∷ before) after name m server h =
      picked (is_empty k.signs) (api.add_service n (api_str k) server).0 _ server _
        (reg_loop-refused before after name m (api.add_service n (api_str k) server).1 h)

  -- If all paths of a service have variables, reg_http_services returns -1, whatever the other
  -- services are and wherever the map lists it.
  pub reg_http_services-path_vars :
      (before after : Services) (name : Bytes) (apis : List (Bytes × Bytes)) (m : ApiSigns)
      (server : S)
      → AllVars apis
      → bind_all apis no_signs ≡ returned m
      → (reg_http_services api (before ++ (name, some m) ∷ after) server).0 ≡ negsuc 0
  unfolding reg_http_services
  reg_http_services-path_vars [] after name apis m server h q =
      reg_loop-refused [] after name m server (bind_all-signs apis no_signs m h q)
  reg_http_services-path_vars (entry ∷ before) after name apis m server h q =
      reg_loop-refused (entry ∷ before) after name m server (bind_all-signs apis no_signs m h q)
