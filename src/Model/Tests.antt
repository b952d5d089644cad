-- ===== src/Model/Tests.antt =====
-- An object with a list, its copies, and the theorems at models that meet their hypotheses.
use rellaf.Prelude.{
  ℕ, suc, List, [], ◌∷◌, Bytes, none, some, codes, ◌==◌, ltb, ◌&&◌, if◌then◌else◌, ◌≡◌, refl, arith,
}
use rellaf.Prelude.Maps.{same, find, bytes_eq}
use rellaf.Prelude.Ints.{pos}
use rellaf.Cast.{Kind, int, Val, number}
use rellaf.Cast.Sample.{no_reals}
use rellaf.Plain.{Plain, plain}
use rellaf.Model.{
  Class, Model, of_plain, of_list, object, Items, no_items, null, item, Lists, no_lists, list_entry,
  no_objects, null_entry, find_list, size, at,
}
use rellaf.Model.Copy.{clone, assign, copied, moved, move_assign, fresh}
use rellaf.Model.Whole.{IsWhole, PlainsOf, clone-IsWhole}
use rellaf.Model.Moved.{copied-object_member, move_assign-lists}
use rellaf.Model.Sequence.{push_back, back, pop_back, set}
use rellaf.Model.Pushed.{push_back-at, set-at, clone_items-null}

abbrev unset : Kind → Val
unset k = number (pos 0)

abbrev number_plain : ℕ → Plain
number_plain n = plain no_reals int (number (pos n))

-- A class with a number and a list of numbers, one with an object member, and an object of the first.
abbrev group : Class
group = record {
  name = codes "Group";
  plain_names = (codes "id", number_plain 1) ∷ [];
  list_names = codes "ids" ∷ [];
  object_names = [];
}

abbrev member_class : Class
member_class = record {
  name = codes "Member";
  plain_names = [];
  list_names = [];
  object_names = codes "group" ∷ [];
}

abbrev ids : Items
ids = item (of_plain (number_plain 5)) no_items

abbrev group_plains : List (Bytes × Plain)
group_plains = (codes "id", number_plain 7) ∷ []

abbrev group_lists : Lists
group_lists = list_entry (codes "ids") ids no_lists

abbrev seven : Model
seven = object group group_plains group_lists no_objects

seven-IsWhole : IsWhole seven
unfolding IsWhole PlainsOf find find_list same
seven-IsWhole =
    (refl, refl, (refl, (refl, refl, refl), refl, tt), ([], refl, refl, ((refl, refl), tt), refl))

clone-IsWhole_example :
    (clone no_reals unset seven ≡ some seven) × (copied no_reals unset seven ≡ some seven)
clone-IsWhole_example = clone-IsWhole no_reals unset seven seven-IsWhole

copied-object_member_example :
    (let m = object member_class [] no_lists (null_entry (codes "group") no_objects) in
      (clone no_reals unset m ≡ none)
      × (copied no_reals unset m ≡ none)
      × (moved no_reals unset m ≡ none))
copied-object_member_example =
    copied-object_member no_reals unset member_class (codes "group") [] [] no_lists
      (null_entry (codes "group") no_objects) refl

move_assign-lists_example :
    (assign no_reals unset (fresh group) seven ≡ some seven)
    × (move_assign no_reals unset (fresh group) seven
        ≡ some (object group group_plains no_lists no_objects))
move_assign-lists_example =
    move_assign-lists no_reals unset group group_plains group_lists no_objects seven-IsWhole

push_back-at_example :
    (ys : Items) × (push_back no_reals unset (some seven) ids ≡ some ys)
    × (size ys ≡ suc (size ids))
    × (back ys ≡ some (some seven))
    × (pop_back ys ≡ some ids)
    × ((i : ℕ) → at ys i ≡ (if i == size ids then some seven else at ids i))
push_back-at_example = push_back-at no_reals unset seven seven-IsWhole ids

set-at_example :
    (ys : Items) × (set no_reals unset 0 (some seven) ids ≡ some ys)
    × ((i : ℕ) → at ys i ≡ (if ltb 0 (size ids) && (i == 0) then some seven else at ids i))
set-at_example = set-at no_reals unset seven seven-IsWhole 0 ids

clone_items-null_example :
    (clone no_reals unset (of_list (item seven (null no_items))) ≡ none)
    × (assign no_reals unset (of_list no_items) (of_list (item seven (null no_items))) ≡ none)
clone_items-null_example =
    clone_items-null no_reals unset (item seven (null no_items)) 1 (unfold size in omega arith)
      (unfold at in refl)
