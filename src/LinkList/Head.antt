-- ===== src/LinkList/Head.antt =====
-- `pop_head` takes the first of the linked nodes.
use rellaf.Prelude.{ℕ, suc, ◌≡◌, refl, ◌∙◌, arith, List, [], ◌∷◌, Option, none, some, length}
use rellaf.LinkList.{ListNode, Heap, Store, put_node, pop_front, pop_head, emptied, minus_one}
use rellaf.LinkList.Segment.{Segment-reprev}
use rellaf.LinkList.Nodes.{IsList, set_prev-at, next_of-at}

module _ {ℓ} {T : Type ℓ} where
  pop_front-at :
      (h : Heap T) (m len x : ℕ) (hd tl : Option ℕ) (y : ℕ) (n k : ListNode T)
      → hd ≡ some x
      → h x ≡ some n
      → n.next ≡ some y
      → h y ≡ some k
      → pop_front
          (record { heap = h; list = record { max_len = m; len = len; head = hd; tail = tl } })
        ≡ some (
          some x,
          record {
            heap = put_node h y (record k { prev = none });
            list = record { max_len = m; len = minus_one len; head = some y; tail = tl };
          },
        )
  unfolding pop_front
  pop_front-at h m len x hd tl y n k i e j f =
      rw (i, next_of-at h x n e, j, set_prev-at h y k none f) refl

  module _ (s : Store T) where
    pop_head-empty : s.list.len ≡ 0 → pop_head s ≡ some (none, s)
    unfolding pop_head
    pop_head-empty e = ground (arith, e)

    pop_head-one : s.list.len ≡ 1 → pop_head s ≡ some (s.list.head, emptied s)
    unfolding pop_head
    pop_head-one e = ground (arith, e)

    pop_head-more : (k : ℕ) → s.list.len ≡ suc (suc k) → pop_head s ≡ pop_front s
    unfolding pop_head
    pop_head-more k e = ground (arith, e)

  -- The first node, and the list of the others.
  abbrev pub Popped : Option (Option ℕ × Store T) → Store T → List (ℕ × T) → Type ℓ
  Popped r s [] = r ≡ some (none, s)
  Popped r s (x ∷ xs) = (t : Store T) × (r ≡ some (some x.0, t)) × IsList t xs

  -- `pop_head` returns NULL for an empty list, and otherwise takes the first node off it.
  pub pop_head-Popped : (s : Store T) (xs : List (ℕ × T)) → IsList s xs → Popped (pop_head s) s xs
  pop_head-Popped s [] l = pop_head-empty s l.len
  pop_head-Popped s (x ∷ []) l = (
    emptied s,
    pop_head-one s l.len ∙ rw l.ends.0 refl,
    record {
      linked = tt;
      distinct = tt;
      len = omega (arith, l.len);
      fits = omega arith;
      ends = tt;
    },
  )
  pop_head-Popped s (x ∷ y ∷ ys) l = (
    _,
    pop_head-more s (length ys) l.len
        ∙ pop_front-at s.heap s.list.max_len s.list.len x.0 s.list.head s.list.tail y.0 _ _ l.ends.0
            l.linked.0 refl l.linked.1.0,
    record {
      linked = Segment-reprev s.heap y ys (some x.0) none none l.distinct.1.0 l.linked.1;
      distinct = l.distinct.1;
      len = omega (arith, l.len, l.fits);
      fits = omega (arith, l.fits);
      ends = (refl, l.ends.1);
    },
  )
