-- ===== src/UrlTrie/Routes.antt =====
-- The routes that a tree holds, as a map from keys to names, and `put` as an update of that map.
use rellaf.Prelude.{
  List, [], ◌∷◌, map, Bool, true, false, Option, none, some, Bytes, ◌&&◌, if◌then◌else◌, ◌≡◌, refl,
  arith, Bool-cases, inl, inr,
}
use rellaf.Prelude.Maps.{same, same_iff}
use rellaf.UrlTrie.{
  UrlTrieNode, node, VarNode, nullptr, to, Nexts, no_more, entry, new_node, find_next, update_next,
  is_var, or_new, put_at,
}

-- A section of a route: a text, or a place for any text.
pub data Key : Type 0 where
  lit : Bytes → Key
  var : Key

abbrev pub key_of : Bytes → Key
key_of section = if is_var section then var else lit section

unfoldable pub same_key : Key → Key → Bool
same_key (lit s) (lit t) = same s t
same_key (lit s) var = false
same_key var (lit t) = false
same_key var var = true

unfoldable pub same_keys : List Key → List Key → Bool
unfolding same_key
same_keys [] [] = true
same_keys [] (k ∷ ks) = false
same_keys (j ∷ js) [] = false
same_keys (j ∷ js) (k ∷ ks) = same_key j k && same_keys js ks

-- The name that is stored for a route.
unfoldable pub route : List Key → UrlTrieNode → Option Bytes
route [] (node nexts var_name var_next end name) = if end then some name else none
route (lit s ∷ ks) (node nexts var_name var_next end name) = elim (find_next s nexts) [
  | none ↦ none
  | some next ↦ route ks next
]
route (var ∷ ks) (node nexts var_name var_next end name) = elim var_next [
  | nullptr ↦ none
  | to next ↦ route ks next
]

abbrev or_fresh : Option UrlTrieNode → UrlTrieNode
or_fresh none = new_node
or_fresh (some next) = next

find_next-update_next :
    (rest : UrlTrieNode → UrlTrieNode) (s t : Bytes) (nexts : Nexts)
    → find_next t (update_next rest s nexts)
      ≡ (if same s t then some (rest (or_fresh (find_next s nexts))) else find_next t nexts)
unfolding find_next update_next
find_next-update_next rest s t no_more = ground arith
find_next-update_next rest s t (entry k next nexts) =
    ground (arith, same_iff s t, same_iff k s, same_iff k t, find_next-update_next rest s t nexts)

pub route-new_node : (ks : List Key) → route ks new_node ≡ none
unfolding route find_next
route-new_node [] = refl
route-new_node (lit s ∷ ks) = refl
route-new_node (var ∷ ks) = refl

route-or_new :
    (ks : List Key) (v : VarNode)
    → route ks (or_new v) ≡ elim v [ nullptr ↦ none | to next ↦ route ks next ]
route-or_new ks nullptr = route-new_node ks
route-or_new ks (to next) = refl

route-or_fresh :
    (ks : List Key) (o : Option UrlTrieNode)
    → route ks (or_fresh o) ≡ elim o [ none ↦ none | some next ↦ route ks next ]
route-or_fresh ks none = route-new_node ks
route-or_fresh ks (some next) = refl

-- After `put`, the route of its path has the name, and every other route has what it had.
pub route-put_at :
    (ks : List Key) (sections : List Bytes) (name : Bytes) (n : UrlTrieNode)
    → route ks (put_at sections name n)
      ≡ (if same_keys (map key_of sections) ks then some name else route ks n)
unfolding route put_at same_keys
route-put_at [] [] name (node nexts v vn end own) = refl
route-put_at (lit s ∷ ks) [] name (node nexts v vn end own) = refl
route-put_at (var ∷ ks) [] name (node nexts v vn end own) = refl
route-put_at [] (section ∷ sections) name (node nexts v vn end own) =
    elim (Bool-cases (is_var section)) [ inl e ↦ rw e | inr e ↦ rw e ]
route-put_at (lit s ∷ ks) (section ∷ sections) name (node nexts v vn end own) =
    let ih = route-put_at ks sections name (or_fresh (find_next section nexts)) in
    elim (Bool-cases (is_var section)) [
      | inl e ↦ rw e
      | inr e ↦ rw e (
          ground (
            arith,
            find_next-update_next (put_at sections name) section s nexts,
            ih,
            route-or_fresh ks (find_next section nexts),
            same_iff section s,
          ))
    ]
route-put_at (var ∷ ks) (section ∷ sections) name (node nexts v vn end own) =
    let ih = route-put_at ks sections name (or_new vn) in
    elim (Bool-cases (is_var section)) [
      | inl e ↦ rw e (ground (arith, ih, route-or_new ks vn))
      | inr e ↦ rw e
    ]

pub same_keys_refl : (ks : List Key) → same_keys ks ks ≡ true
unfolding same_keys
same_keys_refl [] = refl
same_keys_refl (lit s ∷ ks) = ground (arith, same_iff s s, same_keys_refl ks)
same_keys_refl (var ∷ ks) = same_keys_refl ks
