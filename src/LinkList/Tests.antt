-- ===== src/LinkList/Tests.antt =====
-- Lists of two nodes, and the theorems at them.
use rellaf.Prelude.{ℕ, List, [], ◌∷◌, some, none, ◌≡◌, refl, arith, if◌then◌else◌, ◌==◌}
use rellaf.LinkList.{Heap, Store, add_tail, add_tail_node, pop_head, detach, clear}
use rellaf.LinkList.Segment.{Avoids}
use rellaf.LinkList.Nodes.{IsList}
use rellaf.LinkList.Tail.{Appended, add_tail-Appended, add_tail_node-Appended}
use rellaf.LinkList.Head.{Popped, pop_head-Popped}
use rellaf.LinkList.Detach.{detach-IsList}
use rellaf.LinkList.Clear.{clear-IsList, Freed}

-- The nodes 7 and 8, and the node 9, which is in no list.
abbrev nodes : Heap ℕ
nodes p =
    if p == 7
    then some (record { prev = none; next = some 8; val = 70 })
    else if p == 8
    then some (record { prev = some 7; next = none; val = 80 })
    else if p == 9
    then some (record { prev = none; next = none; val = 90 })
    else none

abbrev two : Store ℕ
two = record { heap = nodes; list = record { max_len = 3; len = 2; head = some 7; tail = some 8 } }

abbrev two_items : List (ℕ × ℕ)
two_items = (7, 70) ∷ (8, 80) ∷ []

two-IsList : IsList two two_items
two-IsList = record {
  linked = (refl, (refl, tt));
  distinct = ((omega arith, tt), (tt, tt));
  len = refl;
  fits = omega arith;
  ends = (refl, refl);
}

add_tail-Appended_example : Appended (add_tail 60 (some 6) two) two two_items 6 60
add_tail-Appended_example = add_tail-Appended two two_items 6 60 two-IsList refl (omega arith)

two-Appended : Appended (add_tail_node 9 two) two two_items 9 90
two-Appended =
    add_tail_node-Appended two two_items 9 (record { prev = none; next = none; val = 90 })
      two-IsList refl (omega arith) (omega arith)

Popped-two : Popped (pop_head two) two two_items
Popped-two = pop_head-Popped two two_items two-IsList

detach-IsList_example : (t : Store ℕ) × (detach 8 two ≡ some t) × IsList t ((7, 70) ∷ [])
detach-IsList_example = detach-IsList two (8, 80) ((7, 70) ∷ []) [] two-IsList

clear-IsList_example :
    (t : Store ℕ) × (clear two ≡ some t)
    × IsList t []
    × Freed t.heap two_items
    × ((p : ℕ) → Avoids p two_items → t.heap p ≡ two.heap p)
clear-IsList_example = clear-IsList two two_items two-IsList
