-- ===== src/Model/Copy.antt =====
-- `create`, `clone`, `assign`, `clear` and the assignments of `Void`, `List` and the classes that
-- `rellaf_model_dcl` declares, of include/model.h and src/model.cpp. There is memory for each copy. A
-- result is `none` if a call follows a null pointer, or takes a `Void` for a plain.
use rellaf.Prelude.{List, [], ◌∷◌, Option, none, some, ◌>>=◌, Bytes, if◌then◌else◌}
use rellaf.Prelude.Maps.{find, same, bytes_eq}
use rellaf.Cast.{Kind, Val, Reals}
use rellaf.Enum.{item_eq}
use rellaf.Plain.{Plain, plain, no_type, assign_plain, clone_plain}
use rellaf.Model.{
  Class, Model, void, of_plain, of_list, object, Items, no_items, null, item, Lists, no_lists,
  list_entry, Objects, no_objects, null_entry, object_entry, find_object,
}

-- What the members `RegList` and `RegObject` of a new object put into its maps.
unfoldable pub fresh_lists : List Bytes → Lists
fresh_lists [] = no_lists
fresh_lists (n ∷ ns) = list_entry n no_items (fresh_lists ns)

unfoldable pub fresh_objects : List Bytes → Objects
fresh_objects [] = no_objects
fresh_objects (n ∷ ns) = null_entry n (fresh_objects ns)

abbrev pub fresh : Class → Model
fresh c = object c c.plain_names (fresh_lists c.list_names) (fresh_objects c.object_names)

-- The loop over the `_objects` of a new object, whose entries are null.
abbrev pub assign_fresh_objects : List Bytes → Option Objects
assign_fresh_objects [] = some no_objects
assign_fresh_objects (n ∷ ns) = none

-- The loop over `_lists`, given the copies of the lists of the source: `operator[]` gives an empty
-- list for a name that the source has not.
unfoldable pub assign_lists : Lists → List (Bytes × Option Items) → Option Lists
assign_lists no_lists src = some no_lists
assign_lists (list_entry n xs ls) src = elim (find n src) [
  | none ↦ assign_lists ls src >>= λ ls'. some (list_entry n no_items ls')
  | some o ↦ o >>= λ ys. assign_lists ls src >>= λ ls'. some (list_entry n ys ls')
]

abbrev found_object : Option (Option Model) → Option Model
found_object none = none
found_object (some o) = o

abbrev pointer_entry : Bytes → Option Model → Objects → Objects
pointer_entry name none os = null_entry name os
pointer_entry name (some m) os = object_entry name m os

-- The entry of a name is changed, or a new one is added.
unfoldable pub put_object : Bytes → Option Model → Objects → Objects
put_object name p no_objects = pointer_entry name p no_objects
put_object name p (null_entry n os) =
    let rest = put_object name p os in
    if same n name then pointer_entry n p os else null_entry n rest
put_object name p (object_entry n m os) =
    let rest = put_object name p os in
    if same n name then pointer_entry n p os else object_entry n m rest

module _ (r : Reals) where
  -- The loop over `_plains`: `operator[]` gives a null pointer for a name that the source has not.
  unfoldable pub assign_plains :
      List (Bytes × Plain) → List (Bytes × Plain) → Option (List (Bytes × Plain))
  assign_plains [] src = some []
  assign_plains ((k, p) ∷ ps) src = elim (find k src) [
    | none ↦ none
    | some q ↦ assign_plains ps src >>= λ ps'. some ((k, assign_plain r p q) ∷ ps')
  ]

-- `unset` is the value that a new plain has.
module _ (r : Reals) (unset : Kind → Val) where
  abbrev pub create : Model → Model
  create void = void
  create (of_plain p) = of_plain (plain r p.kind (unset p.kind))
  create (of_list xs) = of_list no_items
  create (object c ps ls os) = fresh c

  unfoldable mutual
    unfolding assign_plains assign_lists fresh_lists

    pub clone : Model → Option Model
    clone void = some void
    clone (of_plain p) = some (of_plain (clone_plain r (unset p.kind) p))
    clone (of_list xs) = clone_items xs >>= λ ys. some (of_list ys)
    clone (object c ps ls os) = assign_plains r c.plain_names ps >>= λ ps'.
        assign_fresh_objects c.object_names >>= λ os'.
        assign_lists (fresh_lists c.list_names) (clone_lists ls) >>= λ ls'.
        some (object c ps' ls' os')

    -- The loop of `List::assign`, which clones each item.
    pub clone_items : Items → Option Items
    clone_items no_items = some no_items
    clone_items (null xs) = none
    clone_items (item m xs) = clone m >>= λ n. clone_items xs >>= λ ys. some (item n ys)

    pub clone_lists : Lists → List (Bytes × Option Items)
    clone_lists no_lists = []
    clone_lists (list_entry n xs ls) = (n, clone_items xs) ∷ clone_lists ls

  -- `model == nullptr ? nullptr : model->clone()`
  unfoldable pub cloned : Option Model → Option (Option Model)
  unfolding clone
  cloned none = some none
  cloned (some m) = clone m >>= λ n. some (some n)

  -- The setter of an object member.
  unfoldable pub set_object : Bytes → Option Model → Objects → Option Objects
  unfolding cloned
  set_object name val os = cloned val >>= λ p. some (put_object name p os)

  unfoldable mutual
    unfolding clone assign_plains assign_lists find_object item_eq

    -- The left argument is `this`. Entries that `operator[]` adds to the source are not kept.
    pub assign : Model → Model → Option Model
    assign (of_plain p) (of_plain q) = some (of_plain (assign_plain r p q))
    assign (of_plain p) void = if item_eq p.type no_type then none else some (of_plain p)
    assign (of_list xs) (of_list ys) = clone_items ys >>= λ zs. some (of_list zs)
    assign (object c ps ls os) (object d qs ms ns) = assign_plains r ps qs >>= λ ps'.
        assign_objects os ns >>= λ os'.
        assign_lists ls (clone_lists ms) >>= λ ls'. some (object c ps' ls' os')
    assign m n = some m

    pub assign_objects : Objects → Objects → Option Objects
    assign_objects no_objects src = some no_objects
    assign_objects (null_entry n os) src = none
    assign_objects (object_entry n m os) src = found_object (find_object n src) >>= λ o.
        assign m o >>= λ m'. assign_objects os src >>= λ os'. some (object_entry n m' os')

-- `_objects.clear()` and `_lists.clear()` take the entries away, too; a null entry is followed.
unfoldable mutual
  pub clear_model : Model → Option Model
  clear_model (of_list xs) = some (of_list no_items)
  clear_model (object c ps ls os) = clear_objects os >>= λ _. some (object c ps no_lists no_objects)
  clear_model void = some void
  clear_model (of_plain p) = some (of_plain p)

  pub clear_objects : Objects → Option Objects
  clear_objects no_objects = some no_objects
  clear_objects (null_entry n os) = none
  clear_objects (object_entry n m os) = clear_model m >>= λ _. clear_objects os

module _ (r : Reals) (unset : Kind → Val) where
  -- The constructors from a model that is copied, and from one that is moved: the object, and what is
  -- left of the source.
  unfoldable pub copied : Model → Option Model
  unfolding assign
  copied o = assign r unset (create r unset o) o

  unfoldable pub moved : Model → Option (Model × Model)
  unfolding copied clear_model
  moved o = copied o >>= λ m. clear_model o >>= λ o'. some (m, o')

  -- `operator=(_clazz_&&)`, which clears `this`.
  unfoldable pub move_assign : Model → Model → Option Model
  unfolding assign clear_model
  move_assign m o = assign r unset m o >>= clear_model

  -- `operator=(List&&)`: the list, and what is left of the source.
  unfoldable pub move_assign_list : Items → Items → Option (Items × Items)
  unfolding clone
  move_assign_list xs o = clone_items r unset o >>= λ ys. some (ys, no_items)
