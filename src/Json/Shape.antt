-- ===== src/Json/Shape.antt =====
-- The shape of a model, its depth, and the models that every Json value can be read into.
pub mod Laws
pub mod Ends
pub mod Kept
use rellaf.Prelude.{
  ℕ, zero, suc, ◌<◌, ◌≤◌, List, [], ◌∷◌, Bool, true, false, Option, none, some, Bytes, leb, ◌==◌,
  if◌then◌else◌, ◌≡◌, ◌≢◌, refl, arith, Bool-cases, ◌⊎◌, inl, inr,
}
use rellaf.Prelude.Maps.{find, same, same_iff, bytes_eq}
use rellaf.Prelude.Ints.{ℤ, pos}
use rellaf.Cast.{Kind, double, Val}
use rellaf.Plain.{Plain}
use rellaf.Model.{
  Class, Model, void, of_plain, of_list, object, Items, no_items, null, item, Lists, no_lists,
  list_entry, Objects, no_objects, null_entry, object_entry, is_plain_member, replace,
}
use rellaf.Outcome.{Outcome, returned, refused, fault}
use rellaf.Json.{JsonCpp, json_to_plain, json_to_kind, kind_of_code}
use rellaf.Json.Reading.{
  Reading, done, thrown, broken, out_of_fuel, ◌>>=◌, reading, Members, items_loop, json_to_items,
  json_to_list, json_to_object, json_to_plain_member, json_to_member, keys_loop, json_to_case,
  json_to_model_inner, json_to_model,
}

-- The number of lists and objects inside of each other.
abbrev larger : ℕ → ℕ → ℕ
larger a b = if leb a b then b else a

unfoldable mutual
  pub depth : Model → ℕ
  depth void = 0
  depth (of_plain p) = 0
  depth (of_list xs) = suc (items_depth xs)
  depth (object c ps ls os) = suc (larger (lists_depth ls) (objects_depth os))

  items_depth : Items → ℕ
  items_depth no_items = 0
  items_depth (null xs) = items_depth xs
  items_depth (item m xs) = larger (depth m) (items_depth xs)

  lists_depth : Lists → ℕ
  lists_depth no_lists = 0
  lists_depth (list_entry n xs ls) = larger (items_depth xs) (lists_depth ls)

  objects_depth : Objects → ℕ
  objects_depth no_objects = 0
  objects_depth (null_entry n os) = objects_depth os
  objects_depth (object_entry n m os) = larger (depth m) (objects_depth os)

-- The same plain with another value.
abbrev pub SamePlain : Plain → Plain → Type 0
SamePlain p q = q ≡ record p { val = q.val }

pub data SamePlains : List (Bytes × Plain) → List (Bytes × Plain) → Type 0 where
  no_plains : SamePlains [] []
  same_plain :
      {k : Bytes} {p q : Plain} {ps qs : List (Bytes × Plain)}
      → SamePlain p q
      → SamePlains ps qs
      → SamePlains ((k, p) ∷ ps) ((k, q) ∷ qs)

-- The same model with other values in its plains, and with null pointers for some items of its lists.
mutual
  pub data Shaped : Model → Model → Type 0 where
    same_void : Shaped void void
    same_value : {p q : Plain} → SamePlain p q → Shaped (of_plain p) (of_plain q)
    same_list : {xs ys : Items} → ShapedItems xs ys → Shaped (of_list xs) (of_list ys)
    same_object :
        {c : Class} {ps qs : List (Bytes × Plain)} {ls ms : Lists} {os ns : Objects}
        → SamePlains ps qs
        → ShapedLists ls ms
        → ShapedObjects os ns
        → Shaped (object c ps ls os) (object c qs ms ns)

  pub data ShapedItems : Items → Items → Type 0 where
    same_end : ShapedItems no_items no_items
    same_null : {xs ys : Items} → ShapedItems xs ys → ShapedItems (null xs) (null ys)
    taken_away : {m : Model} {xs ys : Items} → ShapedItems xs ys → ShapedItems (item m xs) (null ys)
    same_item :
        {m n : Model} {xs ys : Items}
        → Shaped m n
        → ShapedItems xs ys
        → ShapedItems (item m xs) (item n ys)

  pub data ShapedLists : Lists → Lists → Type 0 where
    lists_end : ShapedLists no_lists no_lists
    lists_entry :
        {k : Bytes} {xs ys : Items} {ls ms : Lists}
        → ShapedItems xs ys
        → ShapedLists ls ms
        → ShapedLists (list_entry k xs ls) (list_entry k ys ms)

  pub data ShapedObjects : Objects → Objects → Type 0 where
    objects_end : ShapedObjects no_objects no_objects
    objects_null :
        {k : Bytes} {os ns : Objects}
        → ShapedObjects os ns
        → ShapedObjects (null_entry k os) (null_entry k ns)
    objects_entry :
        {k : Bytes} {m n : Model} {os ns : Objects}
        → Shaped m n
        → ShapedObjects os ns
        → ShapedObjects (object_entry k m os) (object_entry k n ns)

-- No plain of the model is a double, and an object has a plain for each name of its class.
abbrev pub NotDouble : Plain → Type 0
NotDouble p = kind_of_code p.type.code ≢ some double

unfoldable pub NoDoubles : List (Bytes × Plain) → Type 0
NoDoubles [] = Unit {0}
NoDoubles ((k, p) ∷ ps) = NotDouble p × NoDoubles ps

abbrev pub Covers : Class → List (Bytes × Plain) → Type 0
Covers c ps = (key : Bytes) → is_plain_member c key ≡ true → find key ps ≢ none

unfoldable mutual
  pub IsReadable : Model → Type 0
  IsReadable void = Unit {0}
  IsReadable (of_plain p) = NotDouble p
  IsReadable (of_list xs) = ReadableItems xs
  IsReadable (object c ps ls os) =
      NoDoubles ps × Covers c ps × ReadableLists ls × ReadableObjects os

  pub ReadableItems : Items → Type 0
  ReadableItems no_items = Unit {0}
  ReadableItems (null xs) = ReadableItems xs
  ReadableItems (item m xs) = IsReadable m × ReadableItems xs

  pub ReadableLists : Lists → Type 0
  ReadableLists no_lists = Unit {0}
  ReadableLists (list_entry n xs ls) = ReadableItems xs × ReadableLists ls

  pub ReadableObjects : Objects → Type 0
  ReadableObjects no_objects = Unit {0}
  ReadableObjects (null_entry n os) = ReadableObjects os
  ReadableObjects (object_entry n m os) = IsReadable m × ReadableObjects os
