-- ===== src/Model/Whole.antt =====
-- The models that are copied whole, and those whose copy follows a null pointer.
use rellaf.Prelude.{
  List, [], ◌∷◌, true, Option, some, Bytes, ◌≡◌, refl, sym, ◌∙◌, Bool-cases, inl, inr,
}
use rellaf.Prelude.Maps.{find, same, bytes_eq}
use rellaf.Prelude.Ints.{same_int_iff}
use rellaf.Enum.{EnumItem, item_eq}
use rellaf.Cast.{Kind, Val, Reals}
use rellaf.Plain.{Plain, plain, type_of, assign_plain, clone_plain}
use rellaf.Model.{
  Class, Model, void, of_plain, of_list, object, Items, no_items, null, item, Lists, no_lists,
  list_entry, Objects, no_objects, find_list,
}
use rellaf.Model.Copy.{
  fresh_lists, fresh_objects, assign_plains, assign_lists, clone, clone_items, clone_lists, assign,
  copied,
}

-- The plains are those of the names of the class, in their order, and each is the one of its name.
unfoldable pub PlainsOf :
    List (Bytes × Plain) → List (Bytes × Plain) → List (Bytes × Plain) → Type 0
PlainsOf src [] [] = Unit {0}
PlainsOf src [] (q ∷ ps) = ⊥
PlainsOf src (d ∷ ds) [] = ⊥
PlainsOf src ((k, d) ∷ ds) ((j, p) ∷ ps) =
    (k ≡ j)
    × ((d.type ≡ p.type) × (d.kind ≡ p.kind) × (d.tag ≡ p.tag))
    × (find k src ≡ some p)
    × PlainsOf src ds ps

-- A model whose copies are the same: a plain of the type of its value, which one that was made with
-- functions has not, and without a tag; an object without object members, with its plains and lists
-- as its class declares them, the types and tags of the plains too; and a list without null pointers
-- whose items are so. The tags of lists and objects are not part of a `Model`: `List::assign` leaves
-- them and the `assign` of an object copies them.
unfoldable mutual
  unfolding PlainsOf find_list

  pub IsWhole : Model → Type 0
  IsWhole void = Unit {0}
  IsWhole (of_plain p) = (p.type ≡ type_of p.kind) × (p.tag ≡ [])
  IsWhole (of_list xs) = WholeItems xs
  IsWhole (object c ps ls os) =
      (c.object_names ≡ [])
      × (os ≡ no_objects)
      × PlainsOf ps c.plain_names ps
      × WholeLists ls c.list_names ls

  pub WholeItems : Items → Type 0
  WholeItems no_items = Unit {0}
  WholeItems (null xs) = ⊥
  WholeItems (item m xs) = IsWhole m × WholeItems xs

  pub WholeLists : Lists → List Bytes → Lists → Type 0
  WholeLists src ns no_lists = ns ≡ []
  WholeLists src ns (list_entry n xs ls) =
      (ms : List Bytes) × (ns ≡ n ∷ ms)
      × (find_list n src ≡ some xs)
      × WholeItems xs
      × WholeLists src ms ls

module _ (r : Reals) (unset : Kind → Val) where
  same_item_eq : (a b : EnumItem) → a ≡ b → item_eq a b ≡ true
  unfolding item_eq
  same_item_eq a b e = rw e ((same_int_iff b.code b.code).1 refl)

  assign_plain-same :
      (p q : Plain) → p.type ≡ q.type → p.kind ≡ q.kind → p.tag ≡ q.tag → assign_plain r p q ≡ q
  unfolding assign_plain
  assign_plain-same p q t k g = rw (same_item_eq p.type q.type t, assign_plain) (rw (t, k, g) refl)

  clone_plain-same :
      (v : Val) (p : Plain) → p.type ≡ type_of p.kind → p.tag ≡ [] → clone_plain r v p ≡ p
  unfolding clone_plain
  clone_plain-same v p t g = assign_plain-same _ p (sym t) refl (sym g)

  assign_plains-whole :
      (src ds ps : List (Bytes × Plain)) → PlainsOf src ds ps → assign_plains r ds src ≡ some ps
  unfolding PlainsOf assign_plains
  assign_plains-whole src [] [] h = refl
  assign_plains-whole src [] (q ∷ ps) h = absurd h
  assign_plains-whole src (d ∷ ds) [] h = absurd h
  assign_plains-whole src ((k, d) ∷ ds) ((j, p) ∷ ps) (e, (t, i, g), f, h) =
      rw (f, assign_plains, assign_plains-whole src ds ps h, assign_plain-same d p t i g, e) refl

  find-clone_lists :
      (n : Bytes) (src : Lists) (xs : Items)
      → find_list n src ≡ some xs
      → find n (clone_lists r unset src) ≡ some (clone_items r unset xs)
  unfolding find_list find clone
  find-clone_lists n no_lists xs h = absurd cc
  find-clone_lists n (list_entry k ys src) xs h = elim (Bool-cases (same k n)) [
    | inl e ↦ let q : ys ≡ xs = cc (rw e at h) in rw (e, q) refl
    | inr e ↦ rw e (find-clone_lists n src xs (cc (rw e at h)))
  ]

  assign_entry :
      (n : Bytes) (xs ys : Items) (ls ls' : Lists) (src : List (Bytes × Option Items))
      → find n src ≡ some (some ys)
      → assign_lists ls src ≡ some ls'
      → assign_lists (list_entry n xs ls) src ≡ some (list_entry n ys ls')
  unfolding assign_lists
  assign_entry n xs ys ls ls' src e h = rw (e, assign_lists, h) refl

  clone_object :
      (c : Class) (ps ps' : List (Bytes × Plain)) (ls ls' : Lists) (os : Objects)
      → c.object_names ≡ []
      → assign_plains r c.plain_names ps ≡ some ps'
      → assign_lists (fresh_lists c.list_names) (clone_lists r unset ls) ≡ some ls'
      → clone r unset (object c ps ls os) ≡ some (object c ps' ls' no_objects)
  unfolding clone
  clone_object c ps ps' ls ls' os n p l = rw (p, n, l) refl

  mutual
    unfolding IsWhole clone fresh_lists

    clone_whole : (m : Model) → IsWhole m → clone r unset m ≡ some m
    clone_whole void h = refl
    clone_whole (of_plain p) (t, g) = rw (clone_plain-same (unset p.kind) p t g) refl
    clone_whole (of_list xs) h = rw (clone_items_whole xs h) refl
    clone_whole (object c ps ls os) (n, o, p, l) =
        clone_object c ps ps ls ls os n (assign_plains-whole ps c.plain_names ps p)
          (assign_lists_whole ls c.list_names ls l)
        ∙ rw o refl

    clone_items_whole : (xs : Items) → WholeItems xs → clone_items r unset xs ≡ some xs
    clone_items_whole no_items h = refl
    clone_items_whole (null xs) h = absurd h
    clone_items_whole (item m xs) (a, h) = rw (clone_whole m a, clone_items_whole xs h) refl

    assign_lists_whole :
        (src : Lists) (ns : List Bytes) (ls : Lists)
        → WholeLists src ns ls
        → assign_lists (fresh_lists ns) (clone_lists r unset src) ≡ some ls
    assign_lists_whole src ns no_lists h = rw (h, assign_lists) refl
    assign_lists_whole src ns (list_entry n xs ls) (ms, e, f, w, h) = rw e (
        assign_entry n no_items xs (fresh_lists ms) ls (clone_lists r unset src)
          (find-clone_lists n src xs f ∙ rw (clone_items_whole xs w) refl)
          (assign_lists_whole src ms ls h))

  copied_whole : (m : Model) → IsWhole m → copied r unset m ≡ some m
  unfolding copied assign IsWhole fresh_objects
  copied_whole void h = refl
  copied_whole (of_plain p) (t, g) =
      rw (assign_plain-same (plain r p.kind (unset p.kind)) p (sym t) refl (sym g)) refl
  copied_whole (of_list xs) h = rw (clone_items_whole xs h) refl
  copied_whole (object c ps ls os) (n, o, p, l) =
      rw (assign_plains-whole ps c.plain_names ps p, n, o, assign_lists_whole ls c.list_names ls l)
        refl

  -- A model without object members and without null pointers in its lists, inside of it too, is copied
  -- whole by clone and by the constructor that copies, up to the tags of lists and objects, if each plain
  -- by itself or in a list has the type of its value, as all but those made with functions have, and no
  -- tag, and each object has the plains and lists that its class declares, with their types and tags.
  pub clone-IsWhole :
      (m : Model) → IsWhole m → (clone r unset m ≡ some m) × (copied r unset m ≡ some m)
  clone-IsWhole m h = (clone_whole m h, copied_whole m h)
