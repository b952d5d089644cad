-- ===== src/UrlTrie/Clear.antt =====
-- `UrlTrie::clear`, and the nodes that it does not free.
use rellaf.Prelude.{ℕ, ◌+◌, [], Bytes, Bool, ◌≡◌, refl, arith}
use rellaf.UrlTrie.{UrlTrieNode, node, VarNode, nullptr, to, Nexts, no_more, entry}

abbrev freed_var : VarNode → ℕ
freed_var nullptr = 0
freed_var (to next) = 1

-- The node behind the call, and the number of nodes that were deleted. The node of a variable is
-- deleted, and `clear` is not called for it.
unfoldable mutual
  pub clear_node : UrlTrieNode → UrlTrieNode × ℕ
  clear_node (node nexts var var_next end name) =
      (node no_more [] nullptr end name, clear_nexts nexts + freed_var var_next)

  pub clear_nexts : Nexts → ℕ
  clear_nexts no_more = 0
  clear_nexts (entry key next nexts) = (clear_node next).1 + 1 + clear_nexts nexts

-- The number of the nodes below a node.
unfoldable mutual
  pub nodes_below : UrlTrieNode → ℕ
  nodes_below (node nexts var var_next end name) = nodes_nexts nexts + nodes_var var_next

  pub nodes_nexts : Nexts → ℕ
  nodes_nexts no_more = 0
  nodes_nexts (entry key next nexts) = nodes_below next + 1 + nodes_nexts nexts

  pub nodes_var : VarNode → ℕ
  nodes_var nullptr = 0
  nodes_var (to next) = nodes_below next + 1

-- The nodes below the variables that `clear` comes to.
unfoldable mutual
  pub nodes_lost : UrlTrieNode → ℕ
  nodes_lost (node nexts var var_next end name) = lost_nexts nexts + lost_var var_next

  pub lost_nexts : Nexts → ℕ
  lost_nexts no_more = 0
  lost_nexts (entry key next nexts) = nodes_lost next + lost_nexts nexts

  pub lost_var : VarNode → ℕ
  lost_var nullptr = 0
  lost_var (to next) = nodes_below next

lost_var-freed : (v : VarNode) → freed_var v + lost_var v ≡ nodes_var v
unfolding nodes_below nodes_lost
lost_var-freed nullptr = refl
lost_var-freed (to next) = omega arith

mutual
  unfolding clear_node nodes_below nodes_lost

  node_sum : (n : UrlTrieNode) → (clear_node n).1 + nodes_lost n ≡ nodes_below n
  node_sum (node nexts var var_next end name) =
      omega (arith, nexts_sum nexts, lost_var-freed var_next)

  nexts_sum : (ns : Nexts) → clear_nexts ns + lost_nexts ns ≡ nodes_nexts ns
  nexts_sum no_more = refl
  nexts_sum (entry key next nexts) = omega (arith, node_sum next, nexts_sum nexts)

-- `clear` leaves a node without children, and of the nodes below it deletes all but those below the
-- variables that it comes to, which are lost.
pub clear_node-lost :
    (nexts : Nexts) (var : Bytes) (var_next : VarNode) (end : Bool) (name : Bytes)
    → ((clear_node (node nexts var var_next end name)).0 ≡ node no_more [] nullptr end name)
      × ((clear_node (node nexts var var_next end name)).1
            + nodes_lost (node nexts var var_next end name)
          ≡ nodes_below (node nexts var var_next end name))
unfolding clear_node
clear_node-lost nexts var var_next end name = (refl, node_sum (node nexts var var_next end name))
