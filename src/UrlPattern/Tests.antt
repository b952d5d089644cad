-- ===== src/UrlPattern/Tests.antt =====
-- Runs of `UrlPattern` and instances of its theorems.
use rellaf.Prelude.{ℕ, ◌≡◌, refl, arith, List, [], ◌∷◌, some, true, false, Bytes, All, codes}
use rellaf.SqlPattern.{ok, ill_end}
use rellaf.UrlPattern.{Exploded, explode_path_vars, fetch_path_vars, fetch_path_vars_prefix}
use rellaf.UrlPattern.Explode.{text, place, IsSection, render, collect, explode_path_vars-render}
use rellaf.UrlPattern.Fetch.{bind_all, fetch_path_vars-sections}
use rellaf.UrlPattern.RoundTrip.{
  Filled, IsFilled, pattern_of, path_of, bindings, fetch_path_vars-explode_path_vars,
}
use rellaf.UrlPattern.Totality.{explode_path_vars_total, IsResult}
use rellaf.UrlPattern.Prefix.{First, fetch_path_vars_prefix-First}
use rellaf.Str.Sections.{sections}

explode_a :
    explode_path_vars (codes "/a/{b}")
    ≡ some (record { ret = true; vars = (1, codes "b") ∷ []; err = ok })
unfolding explode_path_vars
explode_a = refl

explode_open :
    explode_path_vars (codes "/{b") ≡ some (record { ret = false; vars = []; err = ill_end })
unfolding explode_path_vars
explode_open = refl

fetch_a :
    fetch_path_vars (codes "/a//x/") ((1, codes "b") ∷ []) ≡ some ((codes "b", codes "x") ∷ [])
unfolding fetch_path_vars
fetch_a = refl

fetch_prefix : fetch_path_vars_prefix (codes "/a/{b}/{c}") ≡ some (codes "/a")
unfolding fetch_path_vars_prefix
fetch_prefix = refl

abbrev user : List Filled
user =
    record { section = text (codes "user"); value = codes "user" }
    ∷ record { section = place (codes "id"); value = codes "42" }
    ∷ []

user-IsFilled : All IsFilled user
user-IsFilled = (
  record {
    section = record { filled = cc; plain = omega arith };
    not_empty = cc;
    no_slash = omega arith;
  },
  (
    record {
      section = record { filled = cc; plain = omega arith };
      not_empty = cc;
      no_slash = omega arith;
    },
    tt,
  ),
)

user-IsSection : All IsSection (pattern_of user)
user-IsSection = (user-IsFilled.0.section, (user-IsFilled.1.0.section, tt))

users_pattern :
    explode_path_vars (render (pattern_of user))
    ≡ some (record { ret = true; vars = collect 0 (pattern_of user) []; err = ok })
users_pattern = explode_path_vars-render (pattern_of user) user-IsSection

fetch_path_vars-explode_path_vars_example :
    (vars : List (ℕ × Bytes)) × (explode_path_vars (render (pattern_of user))
      ≡ some (record { ret = true; vars = vars; err = ok }))
    × (fetch_path_vars (path_of user) vars ≡ some (bindings user []))
fetch_path_vars-explode_path_vars_example =
    fetch_path_vars-explode_path_vars user user-IsFilled (omega arith)

fetch_path_vars-sections_example :
    fetch_path_vars (codes "/a//x/") ((1, codes "b") ∷ [])
    ≡ some (bind_all ((1, codes "b") ∷ []) 0 (sections b'/' [] (codes "/a//x/")) [])
fetch_path_vars-sections_example = fetch_path_vars-sections (codes "/a//x/") ((1, codes "b") ∷ [])

empty_name_returns : (out : Exploded) × (explode_path_vars (codes "/{}") ≡ some out) × IsResult out
empty_name_returns = explode_path_vars_total (codes "/{}")

short_prefix : First (codes "/a/{b}") (fetch_path_vars_prefix (codes "/a/{b}"))
short_prefix = fetch_path_vars_prefix-First (codes "/a/{b}")
