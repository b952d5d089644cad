-- ===== src/LinkList/Segment.antt =====
-- Runs of linked nodes on the heap, and what a write to one node does to them.
use rellaf.Prelude.{ℕ, ◌≡◌, ◌≢◌, refl, ◌∙◌, arith, List, [], ◌∷◌, ◌++◌, Option, some, sym}
use rellaf.LinkList.{ListNode, Heap, put_node}

module _ {ℓ} {T : Type ℓ} where
  -- The address of the first node, and of the last one.
  abbrev pub first_or : List (ℕ × T) → Option ℕ → Option ℕ
  first_or [] p = p
  first_or (x ∷ xs) p = some x.0

  abbrev pub last_or : Option ℕ → List (ℕ × T) → Option ℕ
  last_or p [] = p
  last_or p (x ∷ xs) = last_or (some x.0) xs

  -- The nodes with these addresses and data are linked in this order, between `prev` and `next`.
  abbrev pub Segment : Heap T → Option ℕ → List (ℕ × T) → Option ℕ → Type ℓ
  Segment h prev [] next = Unit
  Segment h prev (x ∷ xs) next =
      (h x.0 ≡ some (record { prev = prev; next = first_or xs next; val = x.1 }))
      × Segment h (some x.0) xs next

  abbrev pub Avoids : ℕ → List (ℕ × T) → Type 0
  Avoids p [] = Unit
  Avoids p (x ∷ xs) = (x.0 ≢ p) × Avoids p xs

  abbrev pub Distinct : List (ℕ × T) → Type 0
  Distinct [] = Unit
  Distinct (x ∷ xs) = Avoids x.0 xs × Distinct xs

  pub put_node-other : (h : Heap T) (p q : ℕ) (n : ListNode T) → q ≢ p → put_node h p n q ≡ h q
  unfolding put_node
  put_node-other h p q n ne = ground (arith, ne)

  pub put_node-same : (h : Heap T) (p : ℕ) (n : ListNode T) → put_node h p n p ≡ some n
  unfolding put_node
  put_node-same h p n = ground arith

  pub Segment-put_node :
      (h : Heap T) (p : ℕ) (n : ListNode T) (xs : List (ℕ × T)) (prev next : Option ℕ)
      → Avoids p xs
      → Segment h prev xs next
      → Segment (put_node h p n) prev xs next
  Segment-put_node h p n [] prev next a s = tt
  Segment-put_node h p n (x ∷ xs) prev next a s =
      (put_node-other h p x.0 n a.0 ∙ s.0, Segment-put_node h p n xs (some x.0) next a.1 s.1)

  pub Segment-append :
      (h : Heap T) (xs ys : List (ℕ × T)) (prev next : Option ℕ)
      → Segment h prev xs (first_or ys next)
      → Segment h (last_or prev xs) ys next
      → Segment h prev (xs ++ ys) next
  Segment-append h [] ys prev next s t = t
  Segment-append h (x ∷ []) ys prev next s t = (s.0, t)
  Segment-append h (x ∷ x' ∷ xs) ys prev next s t =
      (s.0, Segment-append h (x' ∷ xs) ys (some x.0) next s.1 t)

  pub Segment-split :
      (h : Heap T) (xs ys : List (ℕ × T)) (prev next : Option ℕ)
      → Segment h prev (xs ++ ys) next
      → Segment h prev xs (first_or ys next) × Segment h (last_or prev xs) ys next
  Segment-split h [] ys prev next s = (tt, s)
  Segment-split h (x ∷ []) ys prev next s = ((s.0, tt), s.1)
  Segment-split h (x ∷ x' ∷ xs) ys prev next s =
      let (l, r) = Segment-split h (x' ∷ xs) ys (some x.0) next s.1 in ((s.0, l), r)

  -- Another node in front of the run.
  pub Segment-reprev :
      (h : Heap T) (x : ℕ × T) (xs : List (ℕ × T)) (prev prev' next : Option ℕ)
      → Avoids x.0 xs
      → Segment h prev (x ∷ xs) next
      → Segment
          (put_node h x.0 (record { prev = prev'; next = first_or xs next; val = x.1 }))
          prev'
          (x ∷ xs)
          next
  Segment-reprev h x xs prev prev' next a s =
      (put_node-same h x.0 _, Segment-put_node h x.0 _ xs (some x.0) next a s.1)

  abbrev pub last_of : ℕ × T → List (ℕ × T) → ℕ
  last_of x [] = x.0
  last_of x (y ∷ ys) = last_of y ys

  pub last_or-last_of :
      (prev : Option ℕ) (x : ℕ × T) (xs : List (ℕ × T))
      → last_or prev (x ∷ xs) ≡ some (last_of x xs)
  last_or-last_of prev x [] = refl
  last_or-last_of prev x (y ∷ ys) = last_or-last_of (some x.0) y ys

  pub Avoids-last_of :
      (p : ℕ) (x : ℕ × T) (xs : List (ℕ × T)) → Avoids p (x ∷ xs) → last_of x xs ≢ p
  Avoids-last_of p x [] a = a.0
  Avoids-last_of p x (y ∷ ys) a = Avoids-last_of p y ys a.1

  -- Another node behind the run.
  pub Segment-renext :
      (h : Heap T) (x : ℕ × T) (xs : List (ℕ × T)) (prev next next' : Option ℕ)
      → Distinct (x ∷ xs)
      → Segment h prev (x ∷ xs) next
      → (n : ListNode T) × (h (last_of x xs) ≡ some n)
        × Segment (put_node h (last_of x xs) (record n { next = next' })) prev (x ∷ xs) next'
  Segment-renext h x [] prev next next' d s = (_, s.0, (put_node-same h x.0 _, tt))
  Segment-renext h x (y ∷ ys) prev next next' d s =
      let (n, e, t) = Segment-renext h y ys (some x.0) next next' d.1 s.1 in
      (
        n,
        e,
        (put_node-other h (last_of y ys) x.0 _ (λ i. Avoids-last_of x.0 y ys d.0 (sym i)) ∙ s.0, t),
      )
