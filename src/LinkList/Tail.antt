-- ===== src/LinkList/Tail.antt =====
-- `add_tail` appends a node to the linked nodes.
use rellaf.Prelude.{
  ℕ, suc, ◌+◌, ◌^◌, ◌<◌, ◌≡◌, ◌≢◌, refl, ◌∙◌, sym, ap, arith, List, [], ◌∷◌, ◌++◌, Option, none,
  some, Bool, true, false, length, length-append, ◌⊎◌, inl, inr, Bool-cases,
}
use rellaf.LinkList.{
  ListNode, Heap, Store, isfull, put_node, link_first, link_behind, link_tail, add_tail_node,
  add_tail, plus_one,
}
use rellaf.LinkList.Segment.{
  Segment, Avoids, Distinct, last_of, put_node-same, put_node-other, Segment-put_node,
  Segment-append, Segment-renext, last_or-last_of, Avoids-last_of,
}
use rellaf.LinkList.Nodes.{IsList, set_next-at, set_prev-at, next_of-at}

module _ {ℓ} {T : Type ℓ} where
  -- The heap with the node `p` that has no next node and this one before it.
  abbrev new_last : Heap T → ℕ → ListNode T → Option ℕ → Heap T
  new_last h p n q =
      put_node (put_node h p (record n { next = none })) p (record n { next = none; prev = q })

  module _ (h : Heap T) (m len p : ℕ) (hd tl : Option ℕ) (n : ListNode T) (e : h p ≡ some n) where
    link_first-at :
        link_first p
          (record { heap = h; list = record { max_len = m; len = len; head = hd; tail = tl } })
        ≡ some (record {
          heap = new_last h p n none;
          list = record { max_len = m; len = plus_one len; head = some p; tail = some p };
        })
    unfolding link_first
    link_first-at =
        rw
          (
            set_next-at h p n none e,
            set_prev-at _ p _ none (put_node-same h p (record n { next = none })),
          )
          refl

    link_behind-at :
        (t : ℕ) (l : ListNode T)
        → tl ≡ some t
        → new_last h p n (some t) t ≡ some l
        → link_behind p
            (record { heap = h; list = record { max_len = m; len = len; head = hd; tail = tl } })
          ≡ some (record {
            heap = put_node (new_last h p n (some t)) t (record l { next = some p });
            list = record { max_len = m; len = plus_one len; head = hd; tail = some p };
          })
    unfolding link_behind
    link_behind-at t l i k =
        rw
          (
            i,
            set_next-at h p n none e,
            set_prev-at _ p _ (some t) (put_node-same h p (record n { next = none })),
            set_next-at _ t l (some p) k,
            next_of-at _ t _
                (put_node-same (new_last h p n (some t)) t (record l { next = some p })),
          )
          refl

  Avoids-snoc :
      (q : ℕ) (xs : List (ℕ × T)) (y : ℕ × T) → Avoids q xs → y.0 ≢ q → Avoids q (xs ++ y ∷ [])
  Avoids-snoc q [] y a ne = (ne, tt)
  Avoids-snoc q (x ∷ xs) y a ne = (a.0, Avoids-snoc q xs y a.1 ne)

  Distinct-snoc :
      (xs : List (ℕ × T)) (y : ℕ × T) → Distinct xs → Avoids y.0 xs → Distinct (xs ++ y ∷ [])
  Distinct-snoc [] y d a = (tt, tt)
  Distinct-snoc (x ∷ xs) y d a =
      (Avoids-snoc x.0 xs y d.0 (λ e. a.0 (sym e)), Distinct-snoc xs y d.1 a.1)

  last_of-snoc : (x : ℕ × T) (xs : List (ℕ × T)) (y : ℕ × T) → last_of x (xs ++ y ∷ []) ≡ y.0
  last_of-snoc x [] y = refl
  last_of-snoc x (x' ∷ xs) y = last_of-snoc x' xs y

  link_tail-first : (p : ℕ) (s : Store T) → s.list.len ≡ 0 → link_tail p s ≡ link_first p s
  link_tail-first p s e = ground (arith, e)

  link_tail-behind : (p k : ℕ) (s : Store T) → s.list.len ≡ suc k → link_tail p s ≡ link_behind p s
  link_tail-behind p k s e = ground (arith, e)

  -- The node `p` is put behind the nodes of the list.
  link_tail-IsList :
      (s : Store T) (xs : List (ℕ × T)) (p : ℕ) (n : ListNode T)
      → IsList s xs
      → s.heap p ≡ some n
      → Avoids p xs
      → length xs + 1 < 2 ^ 64
      → (t : Store T) × (link_tail p s ≡ some t) × IsList t (xs ++ (p, n.val) ∷ [])
  link_tail-IsList s [] p n l e a fits = (
    _,
    link_tail-first p s l.len
        ∙ (link_first-at s.heap s.list.max_len _ p s.list.head s.list.tail n e),
    record {
      linked = (put_node-same _ p _, tt);
      distinct = (tt, tt);
      len = omega (arith, l.len);
      fits = omega arith;
      ends = (refl, refl);
    },
  )
  link_tail-IsList s (x ∷ xs) p n l e a fits =
      let t = last_of x xs in
      let h : Heap T = new_last s.heap p n (some t) in
      let seg : Segment h none (x ∷ xs) none =
        Segment-put_node _ p _ (x ∷ xs) none none a
          (Segment-put_node s.heap p _ (x ∷ xs) none none a l.linked) in
      let (m, at_last, run) = Segment-renext h x xs none none (some p) l.distinct seg in
      (
        _,
        link_tail-behind p (length xs) s l.len
            ∙ link_behind-at s.heap s.list.max_len s.list.len p s.list.head s.list.tail n e t m
                l.ends.1 at_last,
        record {
          linked = Segment-append _ (x ∷ xs) ((p, n.val) ∷ []) none none run (
            put_node-other h t p _ (λ i. Avoids-last_of p x xs a (sym i))
                ∙ put_node-same _ p _
                ∙ rw (last_or-last_of none x xs) refl,
            tt,
          );
          distinct = Distinct-snoc (x ∷ xs) (p, n.val) l.distinct a;
          len = omega (arith, l.len, length-append (x ∷ xs) ((p, n.val) ∷ []));
          fits = omega (arith, length-append (x ∷ xs) ((p, n.val) ∷ []));
          ends = (l.ends.0, ap some (sym (last_of-snoc x xs (p, n.val))));
        },
      )

  -- An address without a node is not in the list.
  free-Avoids :
      (h : Heap T) (p : ℕ) (xs : List (ℕ × T)) (prev next : Option ℕ)
      → h p ≡ none
      → Segment h prev xs next
      → Avoids p xs
  free-Avoids h p [] prev next e s = tt
  free-Avoids h p (x ∷ xs) prev next e s =
      (differs x.0 s.0, free-Avoids h p xs (some x.0) next e s.1)
    where
      differs : {n : ListNode T} (q : ℕ) → h q ≡ some n → q ≢ p
      differs q i k = absurd (cc (i, e, k))

  -- What `add_tail` does when it is given the node `p`: a full list stays, and otherwise `p` is last.
  abbrev pub Appended : Option (Bool × Store T) → Store T → List (ℕ × T) → ℕ → T → Type ℓ
  Appended r s xs p v =
      ((isfull s.list ≡ true) × (r ≡ some (false, s)))
      ⊎ ((isfull s.list ≡ false)
          × ((t : Store T) × (r ≡ some (true, t)) × IsList t (xs ++ (p, v) ∷ [])))

  -- On a list of fewer than 2 ^ 64 - 1 nodes, `add_tail` of a node that is not in the list returns
  -- false and changes nothing if the list is full, and otherwise appends the node and returns true.
  pub add_tail_node-Appended :
      (s : Store T) (xs : List (ℕ × T)) (p : ℕ) (n : ListNode T)
      → IsList s xs
      → s.heap p ≡ some n
      → Avoids p xs
      → length xs + 1 < 2 ^ 64
      → Appended (add_tail_node p s) s xs p n.val
  unfolding add_tail_node
  add_tail_node-Appended s xs p n l e a fits = elim (Bool-cases (isfull s.list)) [
    | inl full ↦ inl (full, rw full refl)
    | inr room ↦
        let (t, done, r) = link_tail-IsList s xs p n l e a fits in
        inr (room, (t, rw (room, done) refl, r))
  ]

  -- On a list of fewer than 2 ^ 64 - 1 nodes, `add_tail` of a value for which `new` finds a free
  -- address returns false and changes nothing if the list is full, and otherwise appends a node with
  -- the value and returns true.
  pub add_tail-Appended :
      (s : Store T) (xs : List (ℕ × T)) (p : ℕ) (v : T)
      → IsList s xs
      → s.heap p ≡ none
      → length xs + 1 < 2 ^ 64
      → Appended (add_tail v (some p) s) s xs p v
  unfolding add_tail
  add_tail-Appended s xs p v l e fits = elim (Bool-cases (isfull s.list)) [
    | inl full ↦ inl (full, rw full refl)
    | inr room ↦
        let a = free-Avoids s.heap p xs none none e l.linked in
        let node : ListNode T = record { prev = none; next = none; val = v } in
        let s' : Store T = record s { heap = put_node s.heap p node } in
        let l' : IsList s' xs = record {
          linked = Segment-put_node s.heap p node xs none none a l.linked;
          distinct = l.distinct;
          len = l.len;
          fits = l.fits;
          ends = l.ends;
        } in
        let (t, done, r) = link_tail-IsList s' xs p node l' (put_node-same s.heap p node) a fits in
        inr (room, (t, rw (room, done) refl, r))
  ]
