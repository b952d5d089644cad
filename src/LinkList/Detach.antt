-- ===== src/LinkList/Detach.antt =====
-- `detach` takes a node out of the linked nodes, wherever it stands.
use rellaf.Prelude.{
  ℕ, suc, ◌+◌, ◌≡◌, refl, subst, ◌∙◌, sym, ap, arith, List, [], ◌∷◌, ◌++◌, append-nil, Option, none,
  some, length, length-append,
}
use rellaf.LinkList.{
  ListNode, Heap, Store, put_node, prev_of, unlink, detach_one, detach, emptied, minus_one,
}
use rellaf.LinkList.Segment.{
  Segment, Distinct, first_or, last_of, last_or-last_of, Segment-put_node, Segment-append,
  Segment-split, Segment-reprev, Segment-renext,
}
use rellaf.LinkList.Nodes.{IsList, set_prev-at, set_next-at, next_of-at}
use rellaf.LinkList.Order.{
  Distinct-remove, Distinct-front, Distinct-back, Avoids-first, Avoids-last, last_of-append,
}

module _ {ℓ} {T : Type ℓ} where
  prev_of-at :
      (h : Heap T) (p : ℕ) (n : ListNode T) → h p ≡ some n → prev_of h (some p) ≡ some n.prev
  unfolding prev_of
  prev_of-at h p n e = rw (e, prev_of) refl

  detach_one-at :
      (s t : Store T) (p : ℕ) (n : ListNode T)
      → s.heap p ≡ some n
      → unlink n.prev n.next s ≡ some t
      → detach_one p s ≡ some (record t { list = record t.list { len = minus_one t.list.len } })
  unfolding detach_one
  detach_one-at s t p n e u = rw (prev_of-at s.heap p n e, next_of-at s.heap p n e, u) refl

  unlink-first :
      (s : Store T) (r : ℕ) (n : ListNode T)
      → s.heap r ≡ some n
      → unlink none (some r) s
        ≡ some (record {
          heap = put_node s.heap r (record n { prev = none });
          list = record s.list { head = some r };
        })
  unfolding unlink
  unlink-first s r n e = rw (set_prev-at s.heap r n none e) refl

  unlink-last :
      (s : Store T) (o : Option ℕ) (q : ℕ) (n : ListNode T)
      → o ≡ some q
      → s.heap q ≡ some n
      → unlink o none s
        ≡ some (record {
          heap = put_node s.heap q (record n { next = none });
          list = record s.list { tail = some q };
        })
  unfolding unlink
  unlink-last s o q n i e = rw (i, unlink, set_next-at s.heap q n none e) refl

  unlink-middle :
      (s : Store T) (o : Option ℕ) (q r : ℕ) (n m : ListNode T)
      → o ≡ some q
      → s.heap r ≡ some n
      → put_node s.heap r (record n { prev = some q }) q ≡ some m
      → unlink o (some r) s
        ≡ some (record s {
          heap =
              put_node
                (put_node s.heap r (record n { prev = some q }))
                q
                (record m { next = some r });
        })
  unfolding unlink
  unlink-middle s o q r n m i e f =
      rw (i, unlink, set_prev-at s.heap r n (some q) e, set_next-at _ q m (some r) f) refl

  detach-one : (s : Store T) (p : ℕ) → s.list.len ≡ 1 → detach p s ≡ some (emptied s)
  unfolding detach
  detach-one s p e = ground (arith, e)

  detach-more : (s : Store T) (p k : ℕ) → s.list.len ≡ suc (suc k) → detach p s ≡ detach_one p s
  unfolding detach
  detach-more s p k e = ground (arith, e)

  -- The node was taken out of the list.
  abbrev Detached : Option (Store T) → List (ℕ × T) → Type ℓ
  Detached r xs = (t : Store T) × (r ≡ some t) × IsList t xs

  module _ (s : Store T) (x : ℕ × T) where
    detach-head : (vs : List (ℕ × T)) → IsList s (x ∷ vs) → Detached (detach x.0 s) vs
    detach-head [] l = (
      _,
      detach-one s x.0 l.len,
      record {
        linked = tt;
        distinct = tt;
        len = omega (arith, l.len);
        fits = omega arith;
        ends = tt;
      },
    )
    detach-head (y ∷ ys) l = (
      _,
      detach-more s x.0 (length ys) l.len
          ∙ detach_one-at s _ x.0 _ l.linked.0 (unlink-first s y.0 _ l.linked.1.0),
      record {
        linked = Segment-reprev s.heap y ys (some x.0) none none l.distinct.1.0 l.linked.1;
        distinct = l.distinct.1;
        len = omega (arith, l.len, l.fits);
        fits = omega (arith, l.fits);
        ends = (refl, l.ends.1);
      },
    )

    detach-end :
        (u : ℕ × T) (us : List (ℕ × T))
        → IsList s (u ∷ (us ++ x ∷ []))
        → Detached (detach x.0 s) (u ∷ us)
    detach-end u us l =
        let (front, back) = Segment-split s.heap (u ∷ us) (x ∷ []) none none l.linked in
        let (n, e, run) =
          Segment-renext s.heap u us none (some x.0) none
            (Distinct-front (u ∷ us) (x ∷ []) l.distinct) front in
        (
          _,
          detach-more s x.0 (length us) (omega (arith, l.len, length-append us (x ∷ [])))
              ∙ detach_one-at s _ x.0 _ back.0
                  (unlink-last s _ (last_of u us) n (last_or-last_of none u us) e),
          record {
            linked = run;
            distinct = Distinct-front (u ∷ us) (x ∷ []) l.distinct;
            len = omega (arith, l.len, l.fits, length-append us (x ∷ []));
            fits = omega (arith, l.fits, length-append us (x ∷ []));
            ends = (l.ends.0, refl);
          },
        )

    detach-middle :
        (u y : ℕ × T) (us ys : List (ℕ × T))
        → IsList s (u ∷ (us ++ x ∷ y ∷ ys))
        → Detached (detach x.0 s) (u ∷ (us ++ y ∷ ys))
    detach-middle u y us ys l =
        let q = last_of u us in
        let d = Distinct-remove (u ∷ us) (y ∷ ys) x l.distinct in
        let dy : Distinct (y ∷ ys) = Distinct-back (u ∷ us) (y ∷ ys) d in
        let (front, rest) = Segment-split s.heap (u ∷ us) (x ∷ y ∷ ys) none none l.linked in
        let h : Heap T =
          put_node s.heap y.0 (record { prev = some q; next = first_or ys none; val = y.1 }) in
        let behind : Segment h (some q) (y ∷ ys) none =
          Segment-reprev s.heap y ys (some x.0) (some q) none dy.0 rest.1 in
        let before : Segment h none (u ∷ us) (some x.0) =
          Segment-put_node s.heap y.0 _ (u ∷ us) none (some x.0) (Avoids-first (u ∷ us) ys y d)
            front in
        let (m, at_q, run) =
          Segment-renext h u us none (some x.0) (some y.0) (Distinct-front (u ∷ us) (y ∷ ys) d)
            before in
        (
          _,
          detach-more s x.0 (length us + length ys + 1)
                (omega (arith, l.len, length-append us (x ∷ y ∷ ys)))
              ∙ detach_one-at s _ x.0 _ rest.0
                  (unlink-middle s _ q y.0 _ m (last_or-last_of none u us) rest.1.0 at_q),
          record {
            linked = Segment-append _ (u ∷ us) (y ∷ ys) none none run (
                subst (λ o. Segment (put_node h q (record m { next = some y.0 })) o (y ∷ ys) none)
                  (sym (last_or-last_of none u us))
                  (Segment-put_node h q _ (y ∷ ys) (some q) none (Avoids-last u us (y ∷ ys) d)
                    behind));
            distinct = d;
            len =
                omega
                  (arith, l.len, l.fits, length-append us (x ∷ y ∷ ys), length-append us (y ∷ ys));
            fits = omega (arith, l.fits, length-append us (x ∷ y ∷ ys), length-append us (y ∷ ys));
            ends = (
              l.ends.0,
              l.ends.1 ∙ ap some (last_of-append u us x (y ∷ ys) ∙ sym (last_of-append u us y ys)),
            );
          },
        )

-- `detach` of a node of the list takes it out: the nodes before it and behind it stay linked, in
-- their order.
pub detach-IsList {ℓ} :
    {T : Type ℓ} (s : Store T) (x : ℕ × T) (us vs : List (ℕ × T))
    → IsList s (us ++ x ∷ vs)
    → (t : Store T) × (detach x.0 s ≡ some t) × IsList t (us ++ vs)
detach-IsList s x [] vs l = detach-head s x vs l
detach-IsList s x (u ∷ us) [] l = rw append-nil (detach-end s x u us l)
detach-IsList s x (u ∷ us) (y ∷ ys) l = detach-middle s x u y us ys l
