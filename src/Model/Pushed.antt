-- ===== src/Model/Pushed.antt =====
-- A `List` as a sequence of pointers.
use rellaf.Prelude.{
  ℕ, zero, suc, ◌<◌, Option, none, some, ◌==◌, leb, if◌then◌else◌, ◌≡◌, refl, ap, arith, ltb, ◌&&◌,
  Bool-cases, inl, inr,
}
use rellaf.Cast.{Kind, Val, Reals}
use rellaf.Model.{Model, of_list, Items, no_items, null, item, size, at}
use rellaf.Model.Copy.{clone, cloned, clone_items, assign}
use rellaf.Model.Whole.{IsWhole, clone-IsWhole}
use rellaf.Model.Moved.{bind_none}
use rellaf.Model.Sequence.{cons, snoc, last_of, back, all_but, pop_back, push_back, set, put_item}

size-snoc : (xs : Items) (p : Option Model) → size (snoc xs p) ≡ suc (size xs)
unfolding size snoc
size-snoc no_items none = refl
size-snoc no_items (some m) = refl
size-snoc (null xs) p = ap suc (size-snoc xs p)
size-snoc (item m xs) p = ap suc (size-snoc xs p)

at-snoc :
    (xs : Items) (p : Option Model) (i : ℕ)
    → at (snoc xs p) i ≡ (if i == size xs then p else at xs i)
unfolding at size snoc
at-snoc no_items none zero = refl
at-snoc no_items (some m) zero = refl
at-snoc no_items none (suc i) = ground arith
at-snoc no_items (some m) (suc i) = ground arith
at-snoc (null xs) p zero = ground arith
at-snoc (item m xs) p zero = ground arith
at-snoc (null xs) p (suc i) = ground (arith, at-snoc xs p i)
at-snoc (item m xs) p (suc i) = ground (arith, at-snoc xs p i)

last_of-snoc : (q : Option Model) (xs : Items) (p : Option Model) → last_of q (snoc xs p) ≡ p
unfolding last_of snoc
last_of-snoc q no_items none = refl
last_of-snoc q no_items (some m) = refl
last_of-snoc q (null xs) p = last_of-snoc none xs p
last_of-snoc q (item m xs) p = last_of-snoc (some m) xs p

back-snoc : (xs : Items) (p : Option Model) → back (snoc xs p) ≡ some p
unfolding back snoc
back-snoc no_items none = refl
back-snoc no_items (some m) = refl
back-snoc (null xs) p = ap some (last_of-snoc none xs p)
back-snoc (item m xs) p = ap some (last_of-snoc (some m) xs p)

all_but-snoc :
    (q : Option Model) (xs : Items) (p : Option Model) → all_but q (snoc xs p) ≡ cons q xs
unfolding all_but snoc
all_but-snoc q no_items none = refl
all_but-snoc q no_items (some m) = refl
all_but-snoc q (null xs) p = ap (cons q) (all_but-snoc none xs p)
all_but-snoc q (item m xs) p = ap (cons q) (all_but-snoc (some m) xs p)

pop_back-snoc : (xs : Items) (p : Option Model) → pop_back (snoc xs p) ≡ some xs
unfolding pop_back snoc
pop_back-snoc no_items none = refl
pop_back-snoc no_items (some m) = refl
pop_back-snoc (null xs) p = ap some (all_but-snoc none xs p)
pop_back-snoc (item m xs) p = ap some (all_but-snoc (some m) xs p)

at-put_item :
    (idx : ℕ) (p : Option Model) (xs : Items) (i : ℕ)
    → idx < size xs
    → at (put_item idx p xs) i ≡ (if i == idx then p else at xs i)
unfolding at size put_item
at-put_item idx p no_items i h = absurd (omega arith)
at-put_item zero none (null xs) zero h = ground arith
at-put_item zero (some m) (null xs) zero h = ground arith
at-put_item zero none (item n xs) zero h = ground arith
at-put_item zero (some m) (item n xs) zero h = ground arith
at-put_item zero none (null xs) (suc i) h = ground arith
at-put_item zero (some m) (null xs) (suc i) h = ground arith
at-put_item zero none (item n xs) (suc i) h = ground arith
at-put_item zero (some m) (item n xs) (suc i) h = ground arith
at-put_item (suc idx) p (null xs) zero h = ground arith
at-put_item (suc idx) p (item n xs) zero h = ground arith
at-put_item (suc idx) p (null xs) (suc i) h = ground (arith, at-put_item idx p xs i)
at-put_item (suc idx) p (item n xs) (suc i) h = ground (arith, at-put_item idx p xs i)

module _ (r : Reals) (unset : Kind → Val) (m : Model) (w : IsWhole m) where
  -- push_back of a model that is copied whole returns a list with one item more: the model is at its
  -- last place and everything else where it was, back gives the model, and pop_back takes it away.
  pub push_back-at :
      (xs : Items)
      → (ys : Items) × (push_back r unset (some m) xs ≡ some ys)
        × (size ys ≡ suc (size xs))
        × (back ys ≡ some (some m))
        × (pop_back ys ≡ some xs)
        × ((i : ℕ) → at ys i ≡ (if i == size xs then some m else at xs i))
  unfolding push_back cloned
  push_back-at xs = (
    snoc xs (some m),
    rw ((clone-IsWhole r unset m w).0) refl,
    size-snoc xs (some m),
    back-snoc xs (some m),
    pop_back-snoc xs (some m),
    at-snoc xs (some m),
  )

  -- set of a model that is copied whole puts it at its place and keeps the rest; out of the range it
  -- does nothing.
  pub set-at :
      (idx : ℕ) (xs : Items)
      → (ys : Items) × (set r unset idx (some m) xs ≡ some ys)
        × ((i : ℕ) → at ys i ≡ (if ltb idx (size xs) && (i == idx) then some m else at xs i))
  unfolding set cloned
  set-at idx xs = elim (Bool-cases (leb (size xs) idx)) [
    | inl e ↦ (xs, rw e refl, λ i. ground arith)
    | inr e ↦ (
      put_item idx (some m) xs,
      rw (e, (clone-IsWhole r unset m w).0) refl,
      λ i. ground (arith, at-put_item idx (some m) xs i),
    )
  ]

module _ (r : Reals) (unset : Kind → Val) where
  clone_items-none :
      (xs : Items) (i : ℕ) → i < size xs → at xs i ≡ none → clone_items r unset xs ≡ none
  unfolding clone_items at size
  clone_items-none no_items i h e = absurd (omega arith)
  clone_items-none (null xs) i h e = refl
  clone_items-none (item m xs) zero h e = absurd cc
  clone_items-none (item m xs) (suc i) h e =
      let ih = clone_items-none xs i (omega arith) e in
      bind_none (clone r unset m) _ (λ n. rw ih refl)

  -- A list with a null pointer at any place is not copied: clone and assign follow the pointer.
  pub clone_items-null :
      (xs : Items) (i : ℕ)
      → i < size xs
      → at xs i ≡ none
      → (clone r unset (of_list xs) ≡ none)
        × (assign r unset (of_list no_items) (of_list xs) ≡ none)
  unfolding clone assign
  clone_items-null xs i h e = let q = clone_items-none xs i h e in (rw q refl, rw q refl)
