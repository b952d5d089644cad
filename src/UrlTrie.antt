-- ===== src/UrlTrie.antt =====
-- `UrlTrie` of src/var_pattern.h and src/var_pattern.cpp: routes by path, with `{name}` sections
-- that match any section. A node is a value here: the tree owns its nodes, and none is shared.
pub mod Routes
pub mod Fetch
pub mod Paths
pub mod Clear
mod Tests
use rellaf.Prelude.{
  ℕ, ◌-◌, List, [], ◌∷◌, Bool, true, false, not, Option, none, some, Bytes, ◌&&◌, ◌==◌,
  if◌then◌else◌, is_empty, take, drop, length,
}
use rellaf.Prelude.Maps.{same, find, emplace, bytes_eq}
use rellaf.Str.{split}

-- `nexts`, the two parts of `var`, `end` and `name`.
mutual
  pub data UrlTrieNode : Type 0 where
    node : Nexts → Bytes → VarNode → Bool → Bytes → UrlTrieNode

  pub data VarNode : Type 0 where
    nullptr : VarNode
    to : UrlTrieNode → VarNode

  pub data Nexts : Type 0 where
    no_more : Nexts
    entry : Bytes → UrlTrieNode → Nexts → Nexts

abbrev pub new_node : UrlTrieNode
new_node = node no_more [] nullptr false []

unfoldable pub find_next : Bytes → Nexts → Option UrlTrieNode
find_next section no_more = none
find_next section (entry key next nexts) =
    if same key section then some next else find_next section nexts

-- The rest of `put` runs on the node of `section`, which is made if it is not there.
unfoldable pub update_next : (UrlTrieNode → UrlTrieNode) → Bytes → Nexts → Nexts
update_next rest section no_more = entry section (rest new_node) no_more
update_next rest section (entry key next nexts) =
    if same key section
    then entry key (rest next) nexts
    else entry key next (update_next rest section nexts)

back_is : ℕ → Bytes → Bool
back_is d [] = false
back_is d (c ∷ []) = c == d
back_is d (c ∷ c' ∷ s) = back_is d (c' ∷ s)

-- `section.front() == '{' && section.back() == '}'`; `split` makes no empty section.
unfoldable pub is_var : Bytes → Bool
unfolding back_is
is_var [] = false
is_var (c ∷ s) = c == b'{' && back_is b'}' (c ∷ s)

-- `section.substr(1, section.size() - 2)`.
abbrev pub var_name : Bytes → Bytes
var_name section = take (length section - 2) (drop 1 section)

abbrev pub or_new : VarNode → UrlTrieNode
or_new nullptr = new_node
or_new (to next) = next

abbrev pub or_name : VarNode → Bytes → Bytes → Bytes
or_name nullptr var section = var_name section
or_name (to next) var section = var

-- The loop of `put` with what follows it, from the node that it has reached.
unfoldable pub put_at : List Bytes → Bytes → UrlTrieNode → UrlTrieNode
put_at [] name (node nexts var var_next end old_name) = node nexts var var_next true name
put_at (section ∷ sections) name (node nexts var var_next end old_name) =
    if is_var section
    then node nexts (or_name var_next var section) (to (put_at sections name (or_new var_next))) end
        old_name
    else node (update_next (put_at sections name) section nexts) var var_next end old_name

-- What a call of `put` returns, and the tree behind it.
pub record Put : Type 0 where
  pub ret : Bool
  pub entrys : UrlTrieNode

unfoldable pub put : UrlTrieNode → Bytes → Bytes → Option Put
put entrys path name = elim (split path (b'/' ∷ [])) [
  | none ↦ none
  | some sections ↦
      some (record { ret = not (is_empty sections); entrys = put_at sections name entrys })
]

-- What a call of `fetch_vars` returns, and its two output parameters.
pub record Fetched : Type 0 where
  pub ret : Bool
  pub name : Bytes
  pub vals : List (Bytes × Bytes)

-- The loop of `fetch_vars` with what follows it, from the node that it has reached.
unfoldable pub fetch_at : List Bytes → UrlTrieNode → Bytes → List (Bytes × Bytes) → Fetched
fetch_at [] (node nexts var var_next end own_name) name vals =
    if end
    then record { ret = true; name = own_name; vals = vals }
    else record { ret = false; name = name; vals = vals }
fetch_at (section ∷ sections) (node nexts var var_next end own_name) name vals =
    elim (find_next section nexts) [
      | some next ↦ fetch_at sections next name vals
      | none ↦ elim var_next [
        | nullptr ↦ record { ret = false; name = name; vals = vals }
        | to next ↦ fetch_at sections next name (emplace var section vals)
      ]
    ]

unfoldable pub fetch_vars : UrlTrieNode → Bytes → Bytes → List (Bytes × Bytes) → Option Fetched
fetch_vars entrys path name vals = elim (split path (b'/' ∷ [])) [
  | none ↦ none
  | some sections ↦ some (fetch_at sections entrys name vals)
]
