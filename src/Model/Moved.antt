-- ===== src/Model/Moved.antt =====
-- The copies that follow a null pointer, and the assignment from an object that is moved.
use rellaf.Prelude.{List, ◌∷◌, Option, none, some, ◌>>=◌, Bytes, ◌≡◌, refl}
use rellaf.Cast.{Kind, Val, Reals}
use rellaf.Plain.{Plain}
use rellaf.Model.{Class, object, Lists, no_lists, Objects, no_objects}
use rellaf.Model.Copy.{
  fresh, fresh_objects, assign_plains, clone, assign, clear_model, copied, moved, move_assign,
}
use rellaf.Model.Whole.{IsWhole, clone-IsWhole}

pub bind_none {ℓ κ} :
    {A : Type ℓ} {B : Type κ} (o : Option A) (f : A → Option B)
    → ((a : A) → f a ≡ none)
    → (o >>= f) ≡ none
bind_none none f h = refl
bind_none (some a) f h = h a

module _ (r : Reals) (unset : Kind → Val) where
  clone-none :
      (c : Class) (n : Bytes) (ns : List Bytes) (ps : List (Bytes × Plain)) (ls : Lists)
      (os : Objects)
      → c.object_names ≡ n ∷ ns
      → clone r unset (object c ps ls os) ≡ none
  unfolding clone
  clone-none c n ns ps ls os e = bind_none (assign_plains r c.plain_names ps) _ (λ ps'. rw e refl)

  copied-none :
      (c : Class) (n : Bytes) (ns : List Bytes) (ps : List (Bytes × Plain)) (ls : Lists)
      (os : Objects)
      → c.object_names ≡ n ∷ ns
      → copied r unset (object c ps ls os) ≡ none
  unfolding copied assign fresh_objects
  copied-none c n ns ps ls os e = bind_none (assign_plains r c.plain_names ps) _ (λ ps'. rw e refl)

  -- An object of a class with an object member is not copied: whatever it holds, also if the member
  -- is not set, clone and the constructors that copy and move follow a null pointer.
  pub copied-object_member :
      (c : Class) (n : Bytes) (ns : List Bytes) (ps : List (Bytes × Plain)) (ls : Lists)
      (os : Objects)
      → c.object_names ≡ n ∷ ns
      → (clone r unset (object c ps ls os) ≡ none)
        × (copied r unset (object c ps ls os) ≡ none)
        × (moved r unset (object c ps ls os) ≡ none)
  unfolding moved
  copied-object_member c n ns ps ls os e =
      let q = copied-none c n ns ps ls os e in (clone-none c n ns ps ls os e, q, rw q refl)

  -- A new object that is assigned from one that is moved, and that could be copied whole, takes its
  -- plains and has no lists then, not even the empty ones that it was made with. Assigned from the
  -- same one without the move, it is equal to it.
  pub move_assign-lists :
      (c : Class) (ps : List (Bytes × Plain)) (ls : Lists) (os : Objects)
      → IsWhole (object c ps ls os)
      → (assign r unset (fresh c) (object c ps ls os) ≡ some (object c ps ls os))
        × (move_assign r unset (fresh c) (object c ps ls os)
            ≡ some (object c ps no_lists no_objects))
  unfolding move_assign copied clear_model IsWhole
  move_assign-lists c ps ls os w =
      let (_, q) = clone-IsWhole r unset (object c ps ls os) w in (q, rw (q, w.1) refl)
