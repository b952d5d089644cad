-- ===== src/UrlTrie/Tests.antt =====
-- Runs of `put` and `fetch_vars`.
use rellaf.Prelude.{
  not, is_empty, if◌then◌else◌, List, [], ◌∷◌, true, false, Option, none, some, map, ◌≡◌, refl,
  codes,
}
use rellaf.UrlTrie.{
  UrlTrieNode, node, nullptr, no_more, new_node, put, put_at, is_var, update_next, find_next,
  fetch_vars, fetch_at, Put, Fetched,
}
use rellaf.Str.{split}
use rellaf.Str.Sections.{sections}
use rellaf.UrlTrie.Routes.{Key, lit, var, key_of, route, same_keys}
use rellaf.UrlTrie.Fetch.{Walk, here, literal, variable, Finds, emplace_all}
use rellaf.UrlTrie.Paths.{
  path_sections, put-route, fetch_vars-Finds, fetch_vars-Walk, put-fetch_vars, variable_of,
  variable_of-put,
}
use rellaf.Prelude.Maps.{same, emplace}
use rellaf.Prelude.{◌+◌}
use rellaf.UrlTrie.{VarNode, entry, to}
use rellaf.UrlTrie.Clear.{clear_node, nodes_lost, nodes_below, clear_node-lost}

abbrev after : Option Put → UrlTrieNode
after none = new_node
after (some p) = p.entrys

abbrev two_routes : UrlTrieNode
unfolding put put_at is_var update_next split same
two_routes = after (
    put (after (put new_node (codes "/aa/{x}/dd") (codes "one"))) (codes "/{y}/bb/cc")
      (codes "two"))

fetch_one :
    fetch_vars two_routes (codes "/aa/1/dd") [] []
    ≡ some (record { ret = true; name = codes "one"; vals = (codes "x", codes "1") ∷ [] })
unfolding fetch_vars fetch_at find_next emplace two_routes put put_at is_var update_next split same
fetch_one = refl

-- The search does not go back: `/aa` is taken, and then `/cc` is missing.
fetch_no_backtrack :
    fetch_vars two_routes (codes "/aa/bb/cc") [] []
    ≡ some (record { ret = false; name = []; vals = (codes "x", codes "bb") ∷ [] })
unfolding fetch_vars fetch_at find_next emplace two_routes put put_at is_var update_next split same
fetch_no_backtrack = refl

abbrev after_one : Put
unfolding put put_at is_var update_next split same
after_one = record { ret = true; entrys = after (put new_node (codes "/aa/bb") (codes "one")) }

put_one : put new_node (codes "/aa/bb") (codes "one") ≡ some after_one
unfolding after_one put put_at is_var update_next split same
put_one = refl

-- The theorems at these trees.
put-route_example :
    (p : Put) × (put two_routes (codes "/aa") (codes "three") ≡ some p)
    × (p.ret ≡ not (is_empty (path_sections (codes "/aa"))))
    × ((ks : List Key)
        → route ks p.entrys ≡ (
            if same_keys (map key_of (path_sections (codes "/aa"))) ks
            then some (codes "three")
            else route ks two_routes))
put-route_example = put-route two_routes (codes "/aa") (codes "three")

literal_path_fetched :
    fetch_vars after_one.entrys (codes "/aa/bb") [] []
    ≡ some (record { ret = true; name = codes "one"; vals = [] })
unfolding is_var sections
literal_path_fetched =
    put-fetch_vars new_node (codes "/aa/bb") (codes "one") [] [] after_one put_one
      (refl, (refl, tt))

abbrev found_one : Fetched
found_one = record { ret = true; name = codes "one"; vals = (codes "x", codes "1") ∷ [] }

fetch_vars-Finds_example :
    (f : Finds (path_sections (codes "/aa/1/dd")) two_routes [] found_one) × (route f.keys
        two_routes
      ≡ some (codes "one"))
fetch_vars-Finds_example =
    fetch_vars-Finds two_routes (codes "/aa/1/dd") [] [] found_one fetch_one refl

Walk-one :
    Walk
      (lit (codes "aa") ∷ var ∷ lit (codes "dd") ∷ [])
      (path_sections (codes "/aa/1/dd"))
      two_routes
      ((codes "x", codes "1") ∷ [])
      (node no_more [] nullptr true (codes "one"))
unfolding two_routes put put_at is_var update_next find_next split same sections
Walk-one = literal refl (variable refl (literal refl here))

fetch_vars-Walk_example :
    fetch_vars two_routes (codes "/aa/1/dd") [] []
    ≡ some (record {
      ret = true;
      name = codes "one";
      vals = emplace_all ((codes "x", codes "1") ∷ []) [];
    })
fetch_vars-Walk_example =
    fetch_vars-Walk two_routes (codes "/aa/1/dd") [] []
      (lit (codes "aa") ∷ var ∷ lit (codes "dd") ∷ []) ((codes "x", codes "1") ∷ [])
      (node no_more [] nullptr true (codes "one")) Walk-one refl

abbrev renamed : Put
unfolding put put_at is_var update_next split same two_routes
renamed = record { ret = true; entrys = after (put two_routes (codes "/{z}") (codes "three")) }

put-renamed : put two_routes (codes "/{z}") (codes "three") ≡ some renamed
unfolding renamed
put-renamed = refl

root_variable : variable_of two_routes ≡ some (codes "y")
unfolding variable_of two_routes
root_variable = refl

kept_name : variable_of renamed.entrys ≡ some (codes "y")
kept_name =
    variable_of-put two_routes (codes "/{z}") (codes "three") (codes "y") renamed put-renamed
      root_variable

-- The tree of the route `/{x}/b`.
abbrev below_x : VarNode
below_x = to (node (entry (codes "b") new_node no_more) [] nullptr false [])

lost_below_variable :
    ((clear_node (node no_more (codes "x") below_x false [])).0 ≡ new_node)
    × ((clear_node (node no_more (codes "x") below_x false [])).1
          + nodes_lost (node no_more (codes "x") below_x false [])
        ≡ nodes_below (node no_more (codes "x") below_x false []))
lost_below_variable = clear_node-lost no_more (codes "x") below_x false []
