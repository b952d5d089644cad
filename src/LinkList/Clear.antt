-- ===== src/LinkList/Clear.antt =====
-- `clear` frees the linked nodes.
use rellaf.Prelude.{ℕ, ◌≡◌, ◌≢◌, refl, ◌∙◌, sym, arith, List, [], ◌∷◌, Option, none, some, length}
use rellaf.LinkList.{Heap, Store, free, clear_loop, clear}
use rellaf.LinkList.Segment.{Segment, Avoids, Distinct, first_or}
use rellaf.LinkList.Nodes.{IsList, next_of-at}

module _ {ℓ} {T : Type ℓ} where
  free-other : (h : Heap T) (p q : ℕ) → q ≢ p → free p h q ≡ h q
  unfolding free
  free-other h p q ne = ground (arith, ne)

  free-same : (h : Heap T) (p : ℕ) → free p h p ≡ none
  unfolding free
  free-same h p = ground arith

  free-none : (h : Heap T) (q p : ℕ) → h p ≡ none → free q h p ≡ none
  unfolding free
  free-none h q p e = ground (arith, e)

  Segment-free :
      (h : Heap T) (p : ℕ) (xs : List (ℕ × T)) (prev next : Option ℕ)
      → Avoids p xs
      → Segment h prev xs next
      → Segment (free p h) prev xs next
  Segment-free h p [] prev next a s = tt
  Segment-free h p (x ∷ xs) prev next a s =
      (free-other h p x.0 a.0 ∙ s.0, Segment-free h p xs (some x.0) next a.1 s.1)

  -- The heap without these nodes.
  unfoldable pub free_all : List (ℕ × T) → Heap T → Heap T
  free_all [] h = h
  free_all (x ∷ xs) h = free_all xs (free x.0 h)

  clear_loop-free_all :
      (h : Heap T) (xs : List (ℕ × T)) (prev : Option ℕ)
      → Distinct xs
      → Segment h prev xs none
      → clear_loop (length xs) (first_or xs none) h ≡ some (free_all xs h)
  unfolding clear_loop free_all
  clear_loop-free_all h [] prev d s = refl
  clear_loop-free_all h (x ∷ xs) prev d s = rw (next_of-at h x.0 _ s.0) (
      clear_loop-free_all (free x.0 h) xs (some x.0) d.1
        (Segment-free h x.0 xs (some x.0) none d.0 s.1))

  free_all-none : (p : ℕ) (xs : List (ℕ × T)) (h : Heap T) → h p ≡ none → free_all xs h p ≡ none
  unfolding free_all
  free_all-none p [] h e = e
  free_all-none p (x ∷ xs) h e = free_all-none p xs (free x.0 h) (free-none h x.0 p e)

  free_all-Avoids : (p : ℕ) (xs : List (ℕ × T)) (h : Heap T) → Avoids p xs → free_all xs h p ≡ h p
  unfolding free_all
  free_all-Avoids p [] h a = refl
  free_all-Avoids p (x ∷ xs) h a =
      free_all-Avoids p xs (free x.0 h) a.1 ∙ free-other h x.0 p (λ e. a.0 (sym e))

  -- Every node of the list is gone.
  abbrev pub Freed : Heap T → List (ℕ × T) → Type ℓ
  Freed h [] = Unit
  Freed h (x ∷ xs) = (h x.0 ≡ none) × Freed h xs

  free_all-Freed : (xs : List (ℕ × T)) (h : Heap T) → Freed (free_all xs h) xs
  unfolding free_all
  free_all-Freed [] h = tt
  free_all-Freed (x ∷ xs) h =
      (free_all-none x.0 xs (free x.0 h) (free-same h x.0), free_all-Freed xs (free x.0 h))

  clear-at :
      (s : Store T) (h : Heap T)
      → clear_loop s.list.len s.list.head s.heap ≡ some h
      → clear s ≡ some (record { heap = h; list = record s.list { len = 0 } })
  unfolding clear
  clear-at s h e = rw (e) refl

  head-first_or :
      (s : Store T) (xs : List (ℕ × T))
      → IsList s xs
      → clear_loop s.list.len s.list.head s.heap ≡ clear_loop (length xs) (first_or xs none) s.heap
  unfolding clear_loop
  head-first_or s [] l = rw l.len refl
  head-first_or s (x ∷ xs) l = rw (l.len, l.ends.0) refl

  -- `clear` ends without reading a freed node; the list is empty then, its nodes are freed, and all
  -- other nodes stay.
  pub clear-IsList :
      (s : Store T) (xs : List (ℕ × T))
      → IsList s xs
      → (t : Store T) × (clear s ≡ some t)
        × IsList t []
        × Freed t.heap xs
        × ((p : ℕ) → Avoids p xs → t.heap p ≡ s.heap p)
  clear-IsList s xs l = (
    _,
    clear-at s _ (head-first_or s xs l ∙ clear_loop-free_all s.heap xs none l.distinct l.linked),
    record { linked = tt; distinct = tt; len = refl; fits = omega arith; ends = tt },
    free_all-Freed xs s.heap,
    λ p a. free_all-Avoids p xs s.heap a,
  )
