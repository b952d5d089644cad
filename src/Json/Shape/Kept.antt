-- ===== src/Json/Shape/Kept.antt =====
-- `json_to_model_inner` ends, and keeps the shape of the model that it reads into.
use rellaf.Prelude.{
  ℕ, zero, suc, ◌%◌, ◌^◌, ◌<◌, List, [], ◌∷◌, true, false, Option, none, some, Bytes, ◌≡◌, ◌≢◌,
  refl, arith, Bool-cases, inl, inr,
}
use rellaf.Prelude.Maps.{find, same, bytes_eq}
use rellaf.Plain.{Plain}
use rellaf.Model.{
  Model, void, of_plain, of_list, object, Items, no_items, null, item, Lists, no_lists, list_entry,
  Objects, no_objects, null_entry, object_entry, is_plain_member, replace, Class,
}
use rellaf.Json.{JsonCpp, json_to_plain}
use rellaf.Json.Reading.{
  Reading, done, broken, ◌>>=◌, reading, Members, items_loop, json_to_items, json_to_list,
  json_to_object, json_to_plain_member, json_to_member, keys_loop, json_to_case, has_list,
  json_to_model_inner, json_to_model,
}
use rellaf.Json.Shape.{
  depth, items_depth, lists_depth, objects_depth, SamePlain, SamePlains, same_plain, Shaped,
  same_void, same_value, same_list, same_object, ShapedItems, same_end, same_null, taken_away,
  same_item, ShapedLists, lists_end, lists_entry, ShapedObjects, objects_end, objects_null,
  objects_entry, NotDouble, NoDoubles, IsReadable, ReadableItems, ReadableLists, ReadableObjects,
}
use rellaf.Json.Shape.Ends.{Ends, Ends-bind, Ends-mono, Ends-if, plain-Ends}
use rellaf.Json.Shape.Laws.{
  SamePlains-refl, Shaped-refl, items_refl, lists_refl, objects_refl, Shaped-trans, depth-Shaped,
  IsReadable-Shaped,
}

pub replace-SamePlains :
    (key : Bytes) (p q : Plain) (ps : List (Bytes × Plain))
    → find key ps ≡ some p
    → SamePlain p q
    → SamePlains ps (replace key q ps)
unfolding find replace
replace-SamePlains key p q [] h e = absurd cc
replace-SamePlains key p q ((k, u) ∷ ps) h e = elim (Bool-cases (same k key)) [
  | inl b ↦ let u_p : u ≡ p = cc (rw b at h) in rw (b, u_p) (same_plain e (SamePlains-refl ps))
  | inr b ↦ rw b (same_plain refl (replace-SamePlains key p q ps (cc (rw b at h)) e))
]

find-NotDouble :
    (key : Bytes) (p : Plain) (ps : List (Bytes × Plain))
    → NoDoubles ps
    → find key ps ≡ some p
    → NotDouble p
unfolding find NoDoubles
find-NotDouble key p [] h e = absurd cc
find-NotDouble key p ((k, u) ∷ ps) (a, h) e = elim (Bool-cases (same k key)) [
  | inl b ↦ let p_u : p ≡ u = cc (rw b at e) in rw p_u a
  | inr b ↦ find-NotDouble key p ps h (cc (rw b at e))
]

abbrev whole : Class → Members → Model
whole c o = object c o.plains o.lists o.objects

module _ {ℓ} {J : Type ℓ} (api : JsonCpp J) where
  -- The calls for the models inside, of a depth below `n`.
  module _ (inner : J → Model → Reading Model) (n : ℕ)
      (good : (json : J) (m : Model)
        → depth m < n
        → IsReadable m
        → Ends (Shaped m) (inner json m)) where
    loop-Ends :
        (json : J) (i : ℕ) (xs : Items)
        → items_depth xs < n
        → ReadableItems xs
        → Ends (ShapedItems xs) (items_loop api inner json i xs)
    unfolding depth IsReadable
    loop-Ends json i no_items h r = same_end
    loop-Ends json i (null xs) h r =
        Ends-bind (ShapedItems xs) _ _ _ (loop-Ends json (suc i) xs h r) (λ ys s. same_null s)
    loop-Ends json i (item m xs) h (a, r) =
        let rest = loop-Ends json (suc i) xs (ground arith) r in
        Ends-if _ (api.is_null (api.at_index json (i % 2 ^ 32))) _ _
          (λ e. Ends-bind (ShapedItems xs) _ _ _ rest (λ ys s. taken_away s))
          (λ e.
            Ends-bind (Shaped m) _ _ _ (good _ m (ground arith) a)
              (λ k t. Ends-bind (ShapedItems xs) _ _ _ rest (λ ys s. same_item t s)))

    items-Ends :
        (json : J) (xs : Items)
        → items_depth xs < n
        → ReadableItems xs
        → Ends (ShapedItems xs) (json_to_items api inner json xs)
    unfolding json_to_items
    items-Ends json xs h r =
        Ends-if _ (api.is_null json) _ _ (λ e. items_refl xs)
          (λ e.
            Ends-if _ (api.is_array json) _ _ (λ f. loop-Ends json 0 xs h r) (λ f. items_refl xs))

    list-Ends :
        (json : J) (key : Bytes) (ls : Lists)
        → lists_depth ls < n
        → ReadableLists ls
        → Ends (ShapedLists ls) (json_to_list api inner json key ls)
    unfolding json_to_list depth IsReadable
    list-Ends json key no_lists h r = lists_end
    list-Ends json key (list_entry k xs ls) h (a, r) =
        let rest = list-Ends json key ls (ground arith) r in
        Ends-if _ (same k key) _ _
          (λ e.
            Ends-bind (ShapedItems xs) _ _ _ (items-Ends json xs (ground arith) a)
              (λ ys s. lists_entry s (lists_refl ls)))
          (λ e. Ends-bind (ShapedLists ls) _ _ _ rest (λ ms s. lists_entry (items_refl xs) s))

    object-Ends :
        (json : J) (key : Bytes) (os : Objects)
        → objects_depth os < n
        → ReadableObjects os
        → Ends (ShapedObjects os) (json_to_object api inner json key os)
    unfolding json_to_object depth IsReadable
    object-Ends json key no_objects h r = objects_end
    object-Ends json key (null_entry k os) h r =
        Ends-if _ (same k key) _ _ (λ e. objects_null (objects_refl os))
          (λ e.
            Ends-bind (ShapedObjects os) _ _ _ (object-Ends json key os h r)
              (λ ns s. objects_null s))
    object-Ends json key (object_entry k m os) h (a, r) =
        let rest = object-Ends json key os (ground arith) r in
        Ends-if _ (same k key) _ _
          (λ e.
            Ends-bind (Shaped m) _ _ _ (good json m (ground arith) a)
              (λ m' s. objects_entry s (objects_refl os)))
          (λ e. Ends-bind (ShapedObjects os) _ _ _ rest (λ ns s. objects_entry (Shaped-refl m) s))

    member_plain-Ends :
        (json : J) (key : Bytes) (ps : List (Bytes × Plain))
        → NoDoubles ps
        → find key ps ≢ none
        → Ends (SamePlains ps) (json_to_plain_member api inner json key ps)
    unfolding json_to_plain_member
    member_plain-Ends json key ps h f = go (find key ps) refl
      where
        go :
            (o : Option Plain)
            → find key ps ≡ o
            → Ends (SamePlains ps) (elim o [
              | none ↦ broken
              | some p ↦ reading (json_to_plain api json p) >>= λ q. done (replace key q ps)
            ])
        go none e = f e
        go (some p) e =
            Ends-bind (SamePlain p) _ _ _ (plain-Ends api json p (find-NotDouble key p ps h e))
              (λ q s. replace-SamePlains key p q ps e s)

    member-Ends :
        (c : Class) (json : J) (key : Bytes) (o : Members)
        → depth (whole c o) < suc n
        → IsReadable (whole c o)
        → Ends
            (λ o'. Shaped (whole c o) (whole c o'))
            (json_to_member api inner (is_plain_member c) json key o)
    unfolding json_to_member depth IsReadable
    member-Ends c json key o h (d, v, l, r) =
        let value = api.member json key in
        Ends-if _ (is_plain_member c key) _ _
          (λ e.
            Ends-bind (SamePlains o.plains) _ _ _ (member_plain-Ends value key o.plains d (v key e))
              (λ ps s. same_object s (lists_refl o.lists) (objects_refl o.objects)))
          (λ e.
            Ends-if _ (has_list api inner key o.lists) _ _
              (λ f.
                Ends-bind (ShapedLists o.lists) _ _ _ (list-Ends value key o.lists (ground arith) l)
                  (λ ls s. same_object (SamePlains-refl o.plains) s (objects_refl o.objects)))
              (λ f.
                Ends-bind (ShapedObjects o.objects) _ _ _
                  (object-Ends value key o.objects (ground arith) r)
                  (λ os s. same_object (SamePlains-refl o.plains) (lists_refl o.lists) s)))

    keys-Ends :
        (c : Class) (json : J) (keys : List Bytes) (o : Members)
        → depth (whole c o) < suc n
        → IsReadable (whole c o)
        → Ends
            (λ o'. Shaped (whole c o) (whole c o'))
            (keys_loop api inner (is_plain_member c) json keys o)
    keys-Ends c json [] o h r = Shaped-refl (whole c o)
    keys-Ends c json (key ∷ keys) o h r =
        Ends-bind (λ o'. Shaped (whole c o) (whole c o')) _ _ _ (member-Ends c json key o h r)
          (λ o' s.
            Ends-mono _ _ _ (λ u t. Shaped-trans s t)
              (keys-Ends c json keys o' (omega (arith, depth-Shaped s)) (IsReadable-Shaped s r)))

    case-Ends :
        (json : J) (m : Model)
        → depth m < suc n
        → IsReadable m
        → Ends (Shaped m) (json_to_case api inner json m)
    unfolding json_to_case depth IsReadable
    case-Ends json void h r = same_void
    case-Ends json (of_plain p) h r =
        Ends-bind (SamePlain p) _ _ _ (plain-Ends api json p r) (λ q s. same_value s)
    case-Ends json (of_list xs) h r =
        Ends-bind (ShapedItems xs) _ _ _ (items-Ends json xs (omega arith) r) (λ ys s. same_list s)
    case-Ends json (object c ps ls os) h r =
        let o : Members = record { plains = ps; lists = ls; objects = os } in
        Ends-if _ (api.is_null json) _ _ (λ e. Shaped-refl (whole c o))
          (λ e.
            Ends-if _ (api.is_object json) _ _
              (λ f.
                Ends-bind (λ o'. Shaped (whole c o) (whole c o')) _ _ _
                  (keys-Ends c json (api.get_member_names json) o h r) (λ o' s. s))
              (λ f. Shaped-refl (whole c o)))

  inner-Ends :
      (fuel : ℕ) (json : J) (m : Model)
      → depth m < fuel
      → IsReadable m
      → Ends (Shaped m) (json_to_model_inner api fuel json m)
  unfolding json_to_model_inner
  inner-Ends zero json m h r = absurd (omega arith)
  inner-Ends (suc fuel) json m h r =
      case-Ends (json_to_model_inner api fuel) fuel (inner-Ends fuel) json m h r

  -- With more fuel than the model has lists and objects inside of each other, reading any text into a
  -- model without doubles, whose objects have a plain for each of their names, throws an exception of
  -- JsonCpp or returns; the model has then other values in its plains and null pointers for some
  -- items of its lists, and is else what it was, with no item and no member more.
  pub json_to_model-Shaped :
      (fuel : ℕ) (json_str : Bytes) (m : Model)
      → depth m < fuel
      → IsReadable m
      → Ends (λ (b, n). Shaped m n) (json_to_model api fuel json_str m)
  unfolding json_to_model
  json_to_model-Shaped fuel [] m h r = Shaped-refl m
  json_to_model-Shaped fuel (c ∷ s) m h r = go (api.parse (c ∷ s))
    where
      go :
          (o : Option J)
          → Ends
              (λ (b, n). Shaped m n)
              (elim o [
                | none ↦ done (false, m)
                | some json ↦ json_to_model_inner api fuel json m >>= λ n. done (true, n)
              ])
      go none = Shaped-refl m
      go (some json) = Ends-bind (Shaped m) _ _ _ (inner-Ends fuel json m h r) (λ n s. s)
