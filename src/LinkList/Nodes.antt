-- ===== src/LinkList/Nodes.antt =====
-- When a list has certain nodes, and the accesses to a node's fields.
use rellaf.Prelude.{ℕ, ◌^◌, ◌<◌, ◌≡◌, refl, List, [], ◌∷◌, Option, none, some, length}
use rellaf.LinkList.{ListNode, Heap, LinkList, Store, put_node, next_of, set_next, set_prev}
use rellaf.LinkList.Segment.{Segment, Distinct, last_of}

module _ {ℓ} {T : Type ℓ} where
  -- `_head` and `_tail` of a list that is not empty.
  abbrev pub Ends : LinkList → List (ℕ × T) → Type 0
  Ends l [] = Unit
  Ends l (x ∷ xs) = (l.head ≡ some x.0) × (l.tail ≡ some (last_of x xs))

  -- The list has these nodes, in this order, with these data.
  pub record IsList (s : Store T) (xs : List (ℕ × T)) : Type ℓ where
    pub linked : Segment s.heap none xs none
    pub distinct : Distinct xs
    pub len : s.list.len ≡ length xs
    pub fits : length xs < 2 ^ 64
    pub ends : Ends s.list xs

  pub set_next-at :
      (h : Heap T) (p : ℕ) (n : ListNode T) (v : Option ℕ)
      → h p ≡ some n
      → set_next (some p) v h ≡ some (put_node h p (record n { next = v }))
  unfolding set_next
  set_next-at h p n v e = rw (e, set_next) refl

  pub set_prev-at :
      (h : Heap T) (p : ℕ) (n : ListNode T) (v : Option ℕ)
      → h p ≡ some n
      → set_prev (some p) v h ≡ some (put_node h p (record n { prev = v }))
  unfolding set_prev
  set_prev-at h p n v e = rw (e, set_prev) refl

  pub next_of-at :
      (h : Heap T) (p : ℕ) (n : ListNode T) → h p ≡ some n → next_of h (some p) ≡ some n.next
  unfolding next_of
  next_of-at h p n e = rw (e, next_of) refl
