-- ===== src/UrlTrie/Fetch.antt =====
-- What `fetch_vars` finds: the walk that takes the literal section wherever there is one.
use rellaf.Prelude.{
  List, [], ◌∷◌, Bool, true, false, none, some, Bytes, ◌≡◌, refl, ◌∙◌, Option-cases, inl, inr,
}
use rellaf.Prelude.Maps.{emplace, bytes_eq}
use rellaf.UrlTrie.{UrlTrieNode, node, VarNode, nullptr, to, Nexts, find_next, Fetched, fetch_at}
use rellaf.UrlTrie.Routes.{Key, lit, var}

-- From a node, over the sections, by the keys, with these bindings, to a node.
pub data Walk
    : List Key → List Bytes → UrlTrieNode → List (Bytes × Bytes) → UrlTrieNode → Type 0 where
  here : {n : UrlTrieNode} → Walk [] [] n [] n
  literal :
      {t v name : Bytes} {nexts : Nexts} {vn : VarNode} {end : Bool} {ks : List Key}
      {ts : List Bytes} {m o : UrlTrieNode} {b : List (Bytes × Bytes)}
      → find_next t nexts ≡ some m
      → Walk ks ts m b o
      → Walk (lit t ∷ ks) (t ∷ ts) (node nexts v vn end name) b o
  variable :
      {t v name : Bytes} {nexts : Nexts} {end : Bool} {ks : List Key} {ts : List Bytes}
      {m o : UrlTrieNode} {b : List (Bytes × Bytes)}
      → find_next t nexts ≡ none
      → Walk ks ts m b o
      → Walk (var ∷ ks) (t ∷ ts) (node nexts v (to m) end name) ((v, t) ∷ b) o

-- The bindings of a walk, put into `vals` one after the other.
unfoldable pub emplace_all : List (Bytes × Bytes) → List (Bytes × Bytes) → List (Bytes × Bytes)
emplace_all [] vals = vals
emplace_all ((k, v) ∷ b) vals = emplace_all b (emplace k v vals)

abbrev pub is_end : UrlTrieNode → Bool
is_end (node nexts v vn end name) = end

abbrev pub own_name : UrlTrieNode → Bytes
own_name (node nexts v vn end name) = name

-- A walk to a node that ends a route.
pub record Finds (sections : List Bytes) (n : UrlTrieNode) (before : List (Bytes × Bytes))
    (r : Fetched) : Type 0 where
  pub keys : List Key
  pub bindings : List (Bytes × Bytes)
  pub last : UrlTrieNode
  pub walk : Walk keys sections n bindings last
  pub ends : is_end last ≡ true
  pub name : r.name ≡ own_name last
  pub vals : r.vals ≡ emplace_all bindings before

module _ (t v own : Bytes) (ts : List Bytes) (nexts : Nexts) (vn : VarNode) (end : Bool)
    (name : Bytes) (vals : List (Bytes × Bytes)) where
  fetch_at-literal :
      (m : UrlTrieNode)
      → find_next t nexts ≡ some m
      → fetch_at (t ∷ ts) (node nexts v vn end own) name vals ≡ fetch_at ts m name vals
  unfolding fetch_at
  fetch_at-literal m e = rw (e, fetch_at)

  fetch_at-variable :
      (m : UrlTrieNode)
      → find_next t nexts ≡ none
      → fetch_at (t ∷ ts) (node nexts v (to m) end own) name vals
        ≡ fetch_at ts m name (emplace v t vals)
  unfolding fetch_at
  fetch_at-variable m e = rw (e, fetch_at)

  fetch_at-stuck :
      find_next t nexts ≡ none
      → fetch_at (t ∷ ts) (node nexts v nullptr end own) name vals
        ≡ record { ret = false; name = name; vals = vals }
  unfolding fetch_at
  fetch_at-stuck e = rw (e, fetch_at)

fetch_at-end :
    (n : UrlTrieNode) (name : Bytes) (vals : List (Bytes × Bytes))
    → is_end n ≡ true
    → fetch_at [] n name vals ≡ record { ret = true; name = own_name n; vals = vals }
unfolding fetch_at
fetch_at-end (node nexts v vn end own) name vals e = rw e

pub fetch_at-Walk :
    (name : Bytes) (vals : List (Bytes × Bytes)) {ks : List Key} {ts : List Bytes}
    {n o : UrlTrieNode} {b : List (Bytes × Bytes)}
    → Walk ks ts n b o
    → is_end o ≡ true
    → fetch_at ts n name vals ≡ record { ret = true; name = own_name o; vals = emplace_all b vals }
unfolding emplace_all
fetch_at-Walk name vals (here {n = n}) e = fetch_at-end n name vals e
fetch_at-Walk name vals (literal f w) e =
    fetch_at-literal _ _ _ _ _ _ _ name vals _ f ∙ fetch_at-Walk name vals w e
fetch_at-Walk name vals (variable {t = t} {v = v} f w) e =
    fetch_at-variable t v _ _ _ nullptr _ name vals _ f ∙ fetch_at-Walk name (emplace v t vals) w e

Finds-literal :
    (t v own : Bytes) (ts : List Bytes) (nexts : Nexts) (vn : VarNode) (end : Bool)
    (vals : List (Bytes × Bytes)) (m : UrlTrieNode) (r : Fetched)
    → find_next t nexts ≡ some m
    → Finds ts m vals r
    → Finds (t ∷ ts) (node nexts v vn end own) vals r
Finds-literal t v own ts nexts vn end vals m r e f = record {
  keys = lit t ∷ f.keys;
  bindings = f.bindings;
  last = f.last;
  walk = literal e f.walk;
  ends = f.ends;
  name = f.name;
  vals = f.vals;
}

Finds-variable :
    (t v own : Bytes) (ts : List Bytes) (nexts : Nexts) (end : Bool) (vals : List (Bytes × Bytes))
    (m : UrlTrieNode) (r : Fetched)
    → find_next t nexts ≡ none
    → Finds ts m (emplace v t vals) r
    → Finds (t ∷ ts) (node nexts v (to m) end own) vals r
unfolding emplace_all
Finds-variable t v own ts nexts end vals m r e f = record {
  keys = var ∷ f.keys;
  bindings = (v, t) ∷ f.bindings;
  last = f.last;
  walk = variable e f.walk;
  ends = f.ends;
  name = f.name;
  vals = f.vals;
}

Finds-here :
    (n : UrlTrieNode) (name : Bytes) (vals : List (Bytes × Bytes))
    → (fetch_at [] n name vals).ret ≡ true
    → Finds [] n vals (fetch_at [] n name vals)
unfolding fetch_at emplace_all
Finds-here (node nexts v vn true own) name vals h = record {
  keys = [];
  bindings = [];
  last = node nexts v vn true own;
  walk = here;
  ends = refl;
  name = refl;
  vals = refl;
}
Finds-here (node nexts v vn false own) name vals h = cc

pub Finds-fetch_at :
    (ts : List Bytes) (n : UrlTrieNode) (name : Bytes) (vals : List (Bytes × Bytes))
    → (fetch_at ts n name vals).ret ≡ true
    → Finds ts n vals (fetch_at ts n name vals)
Finds-fetch_at [] n name vals h = Finds-here n name vals h
Finds-fetch_at (t ∷ ts) (node nexts v vn end own) name vals h =
    elim (Option-cases (find_next t nexts)) [
      | inr (m, e) ↦
          let q = fetch_at-literal t v own ts nexts vn end name vals m e in
          rw q (
            Finds-literal t v own ts nexts vn end vals m _ e
              (Finds-fetch_at ts m name vals (rw q at h)))
      | inl e ↦ by_var vn e h (λ m g. Finds-fetch_at ts m name (emplace v t vals) g)
    ]
  where
    by_var :
        (vn : VarNode)
        → find_next t nexts ≡ none
        → (fetch_at (t ∷ ts) (node nexts v vn end own) name vals).ret ≡ true
        → ((m : UrlTrieNode)
            → (fetch_at ts m name (emplace v t vals)).ret ≡ true
            → Finds ts m (emplace v t vals) (fetch_at ts m name (emplace v t vals)))
        → Finds
            (t ∷ ts)
            (node nexts v vn end own)
            vals
            (fetch_at (t ∷ ts) (node nexts v vn end own) name vals)
    by_var nullptr e h ih = cc (fetch_at-stuck t v own ts nexts nullptr end name vals e)
    by_var (to m) e h ih =
        let q = fetch_at-variable t v own ts nexts nullptr end name vals m e in
        rw q (Finds-variable t v own ts nexts end vals m _ e (ih m (rw q at h)))
