-- ===== src/SqlBuilder/Travel.antt =====
-- The values that a section names in an argument: `split_section`, `get_plain_val` and `get_list_val` of
-- src/sql_builder.cpp.
use rellaf.Prelude.{
  ℕ, zero, suc, ◌+◌, List, [], ◌∷◌, ◌++◌, Bool, true, false, not, ◌&&◌, ◌||◌, Option, none, some,
  Bytes, ◌==◌, leb, if◌then◌else◌, drop, take, length, is_empty,
}
use rellaf.Prelude.Maps.{find, bytes_eq}
use rellaf.Prelude.Ints.{pos}
use rellaf.Outcome.{Outcome, returned, refused, fault, ◌>>=◌}
use rellaf.Numbers.{strtoul}
use rellaf.Plain.{Plain, plain_str}
use rellaf.Model.{
  Model, of_plain, of_list, object, Items, no_items, null, item, is_plain, is_list, is_object,
  is_plain_member, find_list, find_object, at,
}

abbrev behind_byte : Option ℕ → Option ℕ
behind_byte none = none
behind_byte (some i) = some (i + 1)

-- `strchr(begin, '.')` in a C string.
unfoldable pub find_dot : Bytes → Option ℕ
find_dot [] = none
find_dot (c ∷ s) =
    let rest = behind_byte (find_dot s) in
    if c == 0 then none else if c == b'.' then some 0 else rest

-- `*begin == '\0'`
abbrev pub at_end : Bytes → Bool
at_end [] = true
at_end (c ∷ s) = c == 0

-- The loop of `split_section` at the text from `begin` on.
unfoldable pub split_loop : ℕ → Bytes → List Bytes → Option (List Bytes)
split_loop zero begin sections = none
split_loop (suc f) begin sections = elim (find_dot begin) [
  | none ↦ some (sections ++ begin ∷ [])
  | some i ↦
      let rest = drop (i + 1) begin in
      let sections' = if i == 0 then sections else sections ++ take i begin ∷ [] in
      if at_end rest then some sections' else split_loop f rest sections'
]

unfoldable pub split_section : Bytes → Option (List Bytes)
unfolding split_loop find_dot
split_section section_str =
    if is_empty section_str then some [] else split_loop (length section_str) section_str []

-- A value for a statement.
pub record SqlVal : Type 0 where
  pub val : Bytes
  pub need_quote : Bool
  pub need_escape : Bool

-- The `switch` over the codes of the types.
abbrev pub quoted_code : Plain → Option Bool
quoted_code p = elim p.type.code [
  | pos n ↦
      if n == 1 || n == 11 then some true else if leb 2 n && leb n 10 then some false else none
  | _ ↦ none
]

unfoldable pub get_plain_val_str : Plain → Outcome SqlVal
get_plain_val_str p = elim (quoted_code p) [
  | none ↦ refused
  | some q ↦ returned (record { val = plain_str p; need_quote = q; need_escape = q })
]

-- The member of an object that a section names.
unfoldable pub member : Bytes → Model → Outcome (Option Model)
member section (object c plains lists objects) =
    if is_plain_member c section
    then elim (find section plains) [ none ↦ fault | some p ↦ returned (some (of_plain p)) ]
    else elim (find_list section lists) [
      | some xs ↦ returned (some (of_list xs))
      | none ↦ elim (find_object section objects) [ none ↦ refused | some m ↦ returned m ]
    ]
member section m = fault

abbrev pub ends_with : ℕ → Bytes → Bool
ends_with d [] = false
ends_with d (c ∷ []) = c == d
ends_with d (c ∷ c' ∷ s) = ends_with d (c' ∷ s)

abbrev pub starts_with : ℕ → Bytes → Bool
starts_with d [] = false
starts_with d (c ∷ s) = c == d

-- `((List*) travel)->at(idx)`, where `travel` may be null or no list.
abbrev item_at : ℕ → Option Model → Outcome (Option Model)
item_at idx (some (of_list xs)) = returned (at xs idx)
item_at idx m = fault

-- The element of a list that a section `<idx>` names. The section is looked at first.
unfoldable pub element : Bytes → Option Model → Outcome (Option Model)
unfolding strtoul
element section m =
    if not (starts_with b'<' section) || not (ends_with b'>' section)
    then refused
    else item_at (strtoul (drop 1 section)) m

-- One round of the loop of `get_plain_val` at a model that is no plain.
unfoldable pub step : Bytes → Model → Outcome (Option Model)
unfolding member element is_object is_list
step section m =
    if is_object m
    then member section m
    else if is_list m
    then element section (some m)
    else returned (some m)

abbrev pub plain_val : Model → Outcome SqlVal
plain_val (of_plain p) = get_plain_val_str p
plain_val m = refused

unfoldable pub travel_plain : List Bytes → Option Model → Outcome SqlVal
unfolding is_plain get_plain_val_str step
travel_plain sections none = fault
travel_plain [] (some m) = if is_plain m then plain_val m else refused
travel_plain (section ∷ sections) (some m) =
    if is_plain m then plain_val m else (step section m >>= λ m'. travel_plain sections m')

unfoldable pub get_plain_val : Model → List Bytes → Outcome SqlVal
unfolding travel_plain
get_plain_val model sections =
    if is_plain model
    then plain_val model
    else if is_empty sections || not (is_object model)
    then refused
    else travel_plain sections (some model)

-- One round of the loop of `get_list_val`: the tests are on the argument, the access is to where the
-- loop is. At an object without such a member the loop stays: the assertion there is compiled out,
-- since CMakeLists.txt defines NDEBUG by default.
unfoldable pub list_step : Model → Bytes → Option Model → Outcome (Option Model)
unfolding member element is_object is_list
list_step model section none =
    if is_object model then fault else if is_list model then element section none else returned none
list_step model section (some m) =
    if is_object model
    then elim (member section m) [
      | refused ↦ returned (some m)
      | fault ↦ fault
      | returned m' ↦ returned m'
    ]
    else if is_list model
    then element section (some m)
    else returned (some m)

unfoldable pub travel_list : Model → List Bytes → Option Model → Outcome (Option Model)
unfolding list_step
travel_list model [] m = returned m
travel_list model (section ∷ sections) m =
    list_step model section m >>= λ m'. travel_list model sections m'

-- The text of a plain in front of the others.
abbrev add_val : Model → List Bytes → List Bytes
add_val (of_plain p) vals = if is_plain (of_plain p) then plain_str p ∷ vals else vals
add_val m vals = vals

-- The texts of the plains among the items.
unfoldable pub item_vals : Items → Outcome (List Bytes)
unfolding is_plain
item_vals no_items = returned []
item_vals (null xs) = fault
item_vals (item m xs) = item_vals xs >>= λ vals. returned (add_val m vals)

abbrev list_vals : Option Model → Outcome (List Bytes)
list_vals none = fault
list_vals (some (of_list xs)) = item_vals xs
list_vals (some m) = refused

unfoldable pub get_list_val : Model → List Bytes → Outcome (List Bytes)
unfolding travel_list item_vals
get_list_val model sections =
    if is_empty sections || (length sections == 1 && is_plain model)
    then refused
    else (travel_list model sections (some model) >>= λ m. list_vals m)
