-- ===== src/Json/Shape/Laws.antt =====
-- A model has its own shape, models of one shape have one depth at most, and their reads are alike.
use rellaf.Prelude.{◌≤◌, List, [], ◌∷◌, none, Bytes, ◌≡◌, refl, arith}
use rellaf.Prelude.Maps.{find, bytes_eq}
use rellaf.Plain.{Plain}
use rellaf.Model.{
  Model, void, of_plain, of_list, object, Items, no_items, null, item, Lists, no_lists, list_entry,
  Objects, no_objects, null_entry, object_entry,
}
use rellaf.Json.Shape.{
  depth, items_depth, lists_depth, objects_depth, SamePlain, SamePlains, no_plains, same_plain,
  Shaped, same_void, same_value, same_list, same_object, ShapedItems, same_end, same_null,
  taken_away, same_item, ShapedLists, lists_end, lists_entry, ShapedObjects, objects_end,
  objects_null, objects_entry, NotDouble, NoDoubles, IsReadable, ReadableItems, ReadableLists,
  ReadableObjects,
}

pub SamePlains-refl : (ps : List (Bytes × Plain)) → SamePlains ps ps
SamePlains-refl [] = no_plains
SamePlains-refl ((k, p) ∷ ps) = same_plain refl (SamePlains-refl ps)

mutual
  pub Shaped-refl : (m : Model) → Shaped m m
  Shaped-refl void = same_void
  Shaped-refl (of_plain p) = same_value refl
  Shaped-refl (of_list xs) = same_list (items_refl xs)
  Shaped-refl (object c ps ls os) =
      same_object (SamePlains-refl ps) (lists_refl ls) (objects_refl os)

  pub items_refl : (xs : Items) → ShapedItems xs xs
  items_refl no_items = same_end
  items_refl (null xs) = same_null (items_refl xs)
  items_refl (item m xs) = same_item (Shaped-refl m) (items_refl xs)

  pub lists_refl : (ls : Lists) → ShapedLists ls ls
  lists_refl no_lists = lists_end
  lists_refl (list_entry n xs ls) = lists_entry (items_refl xs) (lists_refl ls)

  pub objects_refl : (os : Objects) → ShapedObjects os os
  objects_refl no_objects = objects_end
  objects_refl (null_entry n os) = objects_null (objects_refl os)
  objects_refl (object_entry n m os) = objects_entry (Shaped-refl m) (objects_refl os)

SamePlain-trans : (p q u : Plain) → SamePlain p q → SamePlain q u → SamePlain p u
SamePlain-trans p q u e f = rw (f, e)

pub SamePlains-trans :
    {ps qs us : List (Bytes × Plain)} → SamePlains ps qs → SamePlains qs us → SamePlains ps us
SamePlains-trans no_plains no_plains = no_plains
SamePlains-trans (same_plain {p = p} {q = q} e h) (same_plain {q = u} f i) =
    same_plain (SamePlain-trans p q u e f) (SamePlains-trans h i)

mutual
  pub Shaped-trans : {m n o : Model} → Shaped m n → Shaped n o → Shaped m o
  Shaped-trans same_void same_void = same_void
  Shaped-trans (same_value {p = p} {q = q} e) (same_value {q = u} f) =
      same_value (SamePlain-trans p q u e f)
  Shaped-trans (same_list h) (same_list i) = same_list (items_trans h i)
  Shaped-trans (same_object a b c) (same_object d e f) =
      same_object (SamePlains-trans a d) (lists_trans b e) (objects_trans c f)

  pub items_trans : {xs ys zs : Items} → ShapedItems xs ys → ShapedItems ys zs → ShapedItems xs zs
  items_trans same_end same_end = same_end
  items_trans (same_null h) (same_null i) = same_null (items_trans h i)
  items_trans (taken_away h) (same_null i) = taken_away (items_trans h i)
  items_trans (same_item a h) (taken_away i) = taken_away (items_trans h i)
  items_trans (same_item a h) (same_item b i) = same_item (Shaped-trans a b) (items_trans h i)

  pub lists_trans : {ls ms ns : Lists} → ShapedLists ls ms → ShapedLists ms ns → ShapedLists ls ns
  lists_trans lists_end lists_end = lists_end
  lists_trans (lists_entry a h) (lists_entry b i) = lists_entry (items_trans a b) (lists_trans h i)

  pub objects_trans :
      {os ns us : Objects} → ShapedObjects os ns → ShapedObjects ns us → ShapedObjects os us
  objects_trans objects_end objects_end = objects_end
  objects_trans (objects_null h) (objects_null i) = objects_null (objects_trans h i)
  objects_trans (objects_entry a h) (objects_entry b i) =
      objects_entry (Shaped-trans a b) (objects_trans h i)

mutual
  unfolding depth

  pub depth-Shaped : {m n : Model} → Shaped m n → depth n ≤ depth m
  depth-Shaped same_void = omega arith
  depth-Shaped (same_value e) = omega arith
  depth-Shaped (same_list h) = omega (arith, depth-items h)
  depth-Shaped (same_object a b c) = ground (arith, depth-lists b, depth-objects c)

  pub depth-items : {xs ys : Items} → ShapedItems xs ys → items_depth ys ≤ items_depth xs
  depth-items same_end = omega arith
  depth-items (same_null h) = depth-items h
  depth-items (taken_away h) = ground (arith, depth-items h)
  depth-items (same_item a h) = ground (arith, depth-Shaped a, depth-items h)

  pub depth-lists : {ls ms : Lists} → ShapedLists ls ms → lists_depth ms ≤ lists_depth ls
  depth-lists lists_end = omega arith
  depth-lists (lists_entry a h) = ground (arith, depth-items a, depth-lists h)

  pub depth-objects : {os ns : Objects} → ShapedObjects os ns → objects_depth ns ≤ objects_depth os
  depth-objects objects_end = omega arith
  depth-objects (objects_null h) = depth-objects h
  depth-objects (objects_entry a h) = ground (arith, depth-Shaped a, depth-objects h)

NotDouble-same : (p q : Plain) → SamePlain p q → NotDouble p → NotDouble q
NotDouble-same p q e h = rw e h

NoDoubles-same : {ps qs : List (Bytes × Plain)} → SamePlains ps qs → NoDoubles ps → NoDoubles qs
unfolding NoDoubles
NoDoubles-same no_plains h = tt
NoDoubles-same (same_plain {p = p} {q = q} e s) (a, h) =
    (NotDouble-same p q e a, NoDoubles-same s h)

pub find-same :
    {ps qs : List (Bytes × Plain)} (key : Bytes)
    → SamePlains ps qs
    → find key qs ≡ none
    → find key ps ≡ none
unfolding find
find-same key no_plains h = refl
find-same key (same_plain e s) h = ground (arith, find-same key s)

mutual
  unfolding IsReadable

  pub IsReadable-Shaped : {m n : Model} → Shaped m n → IsReadable m → IsReadable n
  IsReadable-Shaped same_void h = tt
  IsReadable-Shaped (same_value {p = p} {q = q} e) h = NotDouble-same p q e h
  IsReadable-Shaped (same_list s) h = readable_items s h
  IsReadable-Shaped (same_object a b c) (d, v, l, o) = (
    NoDoubles-same a d,
    (λ key i e. v key i (find-same key a e)),
    readable_lists b l,
    readable_objects c o,
  )

  pub readable_items : {xs ys : Items} → ShapedItems xs ys → ReadableItems xs → ReadableItems ys
  readable_items same_end h = tt
  readable_items (same_null s) h = readable_items s h
  readable_items (taken_away s) (a, h) = readable_items s h
  readable_items (same_item b s) (a, h) = (IsReadable-Shaped b a, readable_items s h)

  pub readable_lists : {ls ms : Lists} → ShapedLists ls ms → ReadableLists ls → ReadableLists ms
  readable_lists lists_end h = tt
  readable_lists (lists_entry b s) (a, h) = (readable_items b a, readable_lists s h)

  pub readable_objects :
      {os ns : Objects} → ShapedObjects os ns → ReadableObjects os → ReadableObjects ns
  readable_objects objects_end h = tt
  readable_objects (objects_null s) h = readable_objects s h
  readable_objects (objects_entry b s) (a, h) = (IsReadable-Shaped b a, readable_objects s h)
