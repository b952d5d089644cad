-- ===== src/UrlTrie/Paths.antt =====
-- `put` and `fetch_vars` on paths.
use rellaf.Prelude.{
  List, [], ◌∷◌, map, true, false, not, Bool-cases, Option-cases, inl, inr, Option, none, some,
  Bytes, All, if◌then◌else◌, ◌≡◌, refl, sym, ◌∙◌, ap, subst, arith, is_empty,
}
use rellaf.Prelude.Maps.{bytes_eq}
use rellaf.Str.Sections.{sections, split-sections}
use rellaf.UrlTrie.{
  UrlTrieNode, node, find_next, nullptr, to, is_var, put_at, put, Put, Fetched, fetch_at,
  fetch_vars,
}
use rellaf.UrlTrie.Routes.{Key, lit, key_of, same_keys, same_keys_refl, route, route-put_at}
use rellaf.UrlTrie.Fetch.{
  Walk, here, literal, variable, emplace_all, is_end, own_name, Finds, Finds-fetch_at,
  fetch_at-Walk,
}

abbrev pub path_sections : Bytes → List Bytes
path_sections path = sections b'/' [] path

pub put-sections :
    (n : UrlTrieNode) (path name : Bytes)
    → put n path name
      ≡ some (record {
        ret = not (is_empty (path_sections path));
        entrys = put_at (path_sections path) name n;
      })
unfolding put
put-sections n path name = rw (split-sections path b'/', put)

pub fetch_vars-sections :
    (n : UrlTrieNode) (path name : Bytes) (vals : List (Bytes × Bytes))
    → fetch_vars n path name vals ≡ some (fetch_at (path_sections path) n name vals)
unfolding fetch_vars
fetch_vars-sections n path name vals = rw (split-sections path b'/', fetch_vars)

-- `put` always returns, with true exactly if the path has a section. Afterwards the route of the
-- path has the name, and every other route has the name that it had.
pub put-route :
    (n : UrlTrieNode) (path name : Bytes)
    → (p : Put) × (put n path name ≡ some p)
      × (p.ret ≡ not (is_empty (path_sections path)))
      × ((ks : List Key)
          → route ks p.entrys
            ≡ (if same_keys (map key_of (path_sections path)) ks then some name else route ks n))
put-route n path name =
    (_, put-sections n path name, refl, λ ks. route-put_at ks (path_sections path) name n)

-- A walk leads to a stored route.
Walk-route :
    {ks : List Key} {ts : List Bytes} {n o : UrlTrieNode} {b : List (Bytes × Bytes)}
    → Walk ks ts n b o
    → is_end o ≡ true
    → route ks n ≡ some (own_name o)
unfolding route
Walk-route (here {n = n}) e = at_end n e
  where
    at_end : (n : UrlTrieNode) → is_end n ≡ true → route [] n ≡ some (own_name n)
    at_end (node nexts v vn end own) e = rw e
Walk-route (literal f w) e = rw (f, route) (Walk-route w e)
Walk-route (variable f w) e = Walk-route w e

-- If `fetch_vars` returns true, then the name is that of a stored route whose sections the walk
-- matches, and `vals` has the variables of the walk on top of what it had.
pub fetch_vars-Finds :
    (n : UrlTrieNode) (path name : Bytes) (vals : List (Bytes × Bytes)) (r : Fetched)
    → fetch_vars n path name vals ≡ some r
    → r.ret ≡ true
    → (f : Finds (path_sections path) n vals r) × (route f.keys n ≡ some r.name)
fetch_vars-Finds n path name vals r e h =
    let q : fetch_at (path_sections path) n name vals ≡ r =
      cc (fetch_vars-sections n path name vals) in
    let f =
      subst (λ x. Finds (path_sections path) n vals x) q
        (Finds-fetch_at (path_sections path) n name vals (rw q h)) in
    (f, Walk-route f.walk f.ends ∙ ap some (sym f.name))

-- If the walk over the sections leads to the end of a route, `fetch_vars` finds that route.
pub fetch_vars-Walk :
    (n : UrlTrieNode) (path name : Bytes) (vals : List (Bytes × Bytes)) (ks : List Key)
    (b : List (Bytes × Bytes)) (o : UrlTrieNode)
    → Walk ks (path_sections path) n b o
    → is_end o ≡ true
    → fetch_vars n path name vals
      ≡ some (record { ret = true; name = own_name o; vals = emplace_all b vals })
fetch_vars-Walk n path name vals ks b o w e =
    fetch_vars-sections n path name vals ∙ ap some (fetch_at-Walk name vals w e)

-- The walk along the literal keys of a stored route.
Walk-literal :
    (ts : List Bytes) (n : UrlTrieNode) (name : Bytes)
    → route (map lit ts) n ≡ some name
    → (o : UrlTrieNode) × Walk (map lit ts) ts n [] o × (is_end o ≡ true) × (own_name o ≡ name)
unfolding route
Walk-literal [] (node nexts v vn true own) name h = (_, here, refl, ground arith)
Walk-literal [] (node nexts v vn false own) name h = cc
Walk-literal (t ∷ ts) (node nexts v vn end own) name h = elim (Option-cases (find_next t nexts)) [
  | inl e ↦ cc (rw (e, route) at h)
  | inr (m, e) ↦
      let (o, w, d, q) = Walk-literal ts m name (rw (e, route) at h) in (o, literal e w, d, q)
]

map-key_of : (ts : List Bytes) → All (λ s. is_var s ≡ false) ts → map key_of ts ≡ map lit ts
map-key_of [] h = refl
map-key_of (t ∷ ts) h = rw (h.0, map-key_of ts h.1)

-- The path that was put is found, whatever the tree held, if none of its sections is a variable:
-- `fetch_vars` returns true and the name, and leaves `vals` as it was.
pub put-fetch_vars :
    (n : UrlTrieNode) (path name before : Bytes) (vals : List (Bytes × Bytes)) (p : Put)
    → put n path name ≡ some p
    → All (λ s. is_var s ≡ false) (path_sections path)
    → fetch_vars p.entrys path before vals ≡ some (record { ret = true; name = name; vals = vals })
unfolding emplace_all
put-fetch_vars n path name before vals p e h =
    let ts = path_sections path in
    let q : p.entrys ≡ put_at ts name n = cc (put-sections n path name) in
    let stored : route (map lit ts) p.entrys ≡ some name =
      rw (q, route-put_at, map-key_of ts h, same_keys_refl) in
    let (o, w, d, own) = Walk-literal ts p.entrys name stored in
    rw own at (fetch_vars-Walk p.entrys path before vals (map lit ts) [] o w d)

-- The variable that a node has, if any.
unfoldable pub variable_of : UrlTrieNode → Option Bytes
variable_of (node nexts v nullptr end own) = none
variable_of (node nexts v (to m) end own) = some v

variable_of-put_at :
    (ts : List Bytes) (name v : Bytes) (n : UrlTrieNode)
    → variable_of n ≡ some v
    → variable_of (put_at ts name n) ≡ some v
unfolding variable_of put_at
variable_of-put_at [] name v (node nexts w nullptr end own) h = cc
variable_of-put_at [] name v (node nexts w (to m) end own) h = h
variable_of-put_at (t ∷ ts) name v (node nexts w nullptr end own) h = cc
variable_of-put_at (t ∷ ts) name v (node nexts w (to m) end own) h = elim (Bool-cases (is_var t)) [
  | inl e ↦ rw e h
  | inr e ↦ rw e h
]

-- Once the root has a variable, a later `put` does not rename it, whatever its path.
pub variable_of-put :
    (n : UrlTrieNode) (path name v : Bytes) (p : Put)
    → put n path name ≡ some p
    → variable_of n ≡ some v
    → variable_of p.entrys ≡ some v
variable_of-put n path name v p e h =
    let q : p.entrys ≡ put_at (path_sections path) name n = cc (put-sections n path name) in
    rw q (variable_of-put_at (path_sections path) name v n h)
