-- ===== src/Json/Reading.antt =====
-- `json_to_model_inner` of lists and objects, and `json_to_model`, of src/json/json_to_model.cpp.
use rellaf.Prelude.{
  ℕ, zero, suc, ◌%◌, ◌^◌, List, [], ◌∷◌, Bool, true, false, none, some, Bytes, if◌then◌else◌,
}
use rellaf.Prelude.Maps.{find, same, bytes_eq}
use rellaf.Plain.{Plain}
use rellaf.Model.{
  Model, void, of_plain, of_list, object, Items, no_items, null, item, Lists, no_lists, list_entry,
  Objects, no_objects, null_entry, object_entry, find_list, is_plain_member, replace,
}
use rellaf.Outcome.{Outcome, returned, refused, fault}
use rellaf.Json.{JsonCpp, json_to_plain}

-- How a read ends: with the model, with an exception of JsonCpp, with a pointer that is none or of
-- another class, or with the fuel used up.
pub data Reading {ℓ} (A : Type ℓ) : Type ℓ where
  done : A → Reading A
  thrown : Reading A
  broken : Reading A
  out_of_fuel : Reading A

infixl 2 ◌>>=◌
abbrev pub ◌>>=◌ {ℓ κ} : {A : Type ℓ} {B : Type κ} → Reading A → (A → Reading B) → Reading B
(done a) >>= f = f a
thrown >>= f = thrown
broken >>= f = broken
out_of_fuel >>= f = out_of_fuel

abbrev pub reading {ℓ} : {A : Type ℓ} → Outcome A → Reading A
reading (returned a) = done a
reading refused = thrown
reading fault = broken

-- An object: its `_plains`, `_lists` and `_objects`.
pub record Members : Type 0 where
  pub plains : List (Bytes × Plain)
  pub lists : Lists
  pub objects : Objects

module _ {ℓ} {J : Type ℓ} (api : JsonCpp J) where
  -- `inner` is the function on the models inside.
  module _ (inner : J → Model → Reading Model) where
    -- The loop over the items from `i` on. A null value takes the item away before the call, which
    -- does nothing then, and does nothing for a null pointer.
    abbrev pub items_loop : J → ℕ → Items → Reading Items
    items_loop json i no_items = done no_items
    items_loop json i (null xs) = items_loop json (suc i) xs >>= λ ys. done (null ys)
    items_loop json i (item m xs) =
        let value = api.at_index json (i % 2 ^ 32) in
        let rest = items_loop json (suc i) xs in
        if api.is_null value
        then (rest >>= λ ys. done (null ys))
        else (inner value m >>= λ n. rest >>= λ ys. done (item n ys))

    -- `json_to_model_inner` of a list.
    unfoldable pub json_to_items : J → Items → Reading Items
    json_to_items json xs =
        if api.is_null json
        then done xs
        else if api.is_array json
        then items_loop json 0 xs
        else done xs

    -- The same of the member at a key.
    unfoldable pub json_to_list : J → Bytes → Lists → Reading Lists
    unfolding json_to_items
    json_to_list json key no_lists = done no_lists
    json_to_list json key (list_entry n xs ls) =
        let rest = json_to_list json key ls in
        if same n key
        then (json_to_items json xs >>= λ ys. done (list_entry n ys ls))
        else (rest >>= λ ms. done (list_entry n xs ms))

    unfoldable pub json_to_object : J → Bytes → Objects → Reading Objects
    json_to_object json key no_objects = done no_objects
    json_to_object json key (null_entry n os) =
        let rest = json_to_object json key os in
        if same n key then done (null_entry n os) else (rest >>= λ ns. done (null_entry n ns))
    json_to_object json key (object_entry n m os) =
        let rest = json_to_object json key os in
        if same n key
        then (inner json m >>= λ m'. done (object_entry n m' os))
        else (rest >>= λ ns. done (object_entry n m ns))

    -- A plain member that the object has no plain for is read at the end of `_plains`.
    unfoldable pub json_to_plain_member :
        J → Bytes → List (Bytes × Plain) → Reading (List (Bytes × Plain))
    unfolding json_to_plain replace
    json_to_plain_member json key ps = elim (find key ps) [
      | none ↦ broken
      | some p ↦ reading (json_to_plain api json p) >>= λ q. done (replace key q ps)
    ]

    abbrev pub has_list : Bytes → Lists → Bool
    has_list key ls = elim (find_list key ls) [ none ↦ false | some xs ↦ true ]

    -- The body of the loop over the keys.
    unfoldable pub json_to_member : (Bytes → Bool) → J → Bytes → Members → Reading Members
    unfolding json_to_plain_member json_to_list json_to_object
    json_to_member is_plain json key o =
        let value = api.member json key in
        if is_plain key
        then (json_to_plain_member value key o.plains >>= λ ps. done (record o { plains = ps }))
        else if has_list key o.lists
        then (json_to_list value key o.lists >>= λ ls. done (record o { lists = ls }))
        else (json_to_object value key o.objects >>= λ os. done (record o { objects = os }))

    abbrev pub keys_loop : (Bytes → Bool) → J → List Bytes → Members → Reading Members
    keys_loop is_plain json [] o = done o
    keys_loop is_plain json (key ∷ keys) o =
        json_to_member is_plain json key o >>= keys_loop is_plain json keys

    -- A call that is no call for a null pointer.
    unfoldable pub json_to_case : J → Model → Reading Model
    unfolding json_to_items json_to_member json_to_plain
    json_to_case json void = done void
    json_to_case json (of_plain p) = reading (json_to_plain api json p) >>= λ q. done (of_plain q)
    json_to_case json (of_list xs) = json_to_items json xs >>= λ ys. done (of_list ys)
    json_to_case json (object c ps ls os) =
        if api.is_null json
        then done (object c ps ls os)
        else if api.is_object json
        then (keys_loop (is_plain_member c) json (api.get_member_names json)
              (record { plains = ps; lists = ls; objects = os })
            >>= λ o. done (object c o.plains o.lists o.objects))
        else done (object c ps ls os)

  -- The fuel is the number of calls inside of each other.
  unfoldable pub json_to_model_inner : ℕ → J → Model → Reading Model
  unfolding json_to_case
  json_to_model_inner zero json m = out_of_fuel
  json_to_model_inner (suc fuel) json m = json_to_case (json_to_model_inner fuel) json m

  -- What the call returns, and the model behind it.
  unfoldable pub json_to_model : ℕ → Bytes → Model → Reading (Bool × Model)
  unfolding json_to_model_inner
  json_to_model fuel [] m = done (true, m)
  json_to_model fuel (c ∷ s) m = elim (api.parse (c ∷ s)) [
    | none ↦ done (false, m)
    | some json ↦ json_to_model_inner fuel json m >>= λ n. done (true, n)
  ]
