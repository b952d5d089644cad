-- ===== src/MyResult/Rows.antt =====
-- `SqlBuilder`'s loop over the rows of a `MyResult`.
use rellaf.Prelude.{
  ℕ, ◌^◌, ◌<◌, List, [], ◌∷◌, map, true, false, Option, none, some, Bytes, length, All, ◌≡◌, refl,
  ap, ◌∙◌, if◌then◌else◌, ◌==◌, leb, arith, Bool-cases, inl, inr, Option-cases,
}
use rellaf.Prelude.Maps.{find, bytes_eq}
use rellaf.Prelude.Ints.{pos}
use rellaf.Cast.{Kind, Val, Reals}
use rellaf.Cast.Values.{wrap_32_self}
use rellaf.Plain.{Plain}
use rellaf.Model.{Model, object, Class, Lists, Objects, set_plain, is_plain_member}
use rellaf.Model.Copy.{copied}
use rellaf.Model.Whole.{IsWhole, clone-IsWhole}
use rellaf.Outcome.{returned}
use rellaf.SqlBuilder.Execute.{select_list_impl}
use rellaf.SqlBuilder.Rows.{Yields, ended, at_row, length-map, rows_loop-Yields}
use rellaf.SqlExecutor.{SqlExecutor}
use rellaf.MyResult.{
  Row, Client, MyResult, next, set_fields, row_model, to_model, my_api, init, with_row, new_result,
}

-- The client returns these rows one after the other, and then none.
pub data Streams {ℓ} {R : Type ℓ} (client : Client R) : R → List (List Bytes) → Type ℓ where
  drained : (res res' : R) → client.fetch_row res ≡ (none, res') → Streams client res []
  fetched :
      (res res' : R) (row : List Bytes) (rows : List (List Bytes))
      → client.fetch_row res ≡ (some (map some row), res')
      → Streams client res' rows
      → Streams client res (row ∷ rows)

-- The columns in front of the first field that is no member of the class, with their names.
abbrev pub known_columns : Class → List Bytes → List Bytes → List (Bytes × Bytes)
known_columns c [] vals = []
known_columns c (key ∷ keys) [] = []
known_columns c (key ∷ keys) (val ∷ vals) =
    let rest = known_columns c keys vals in if is_plain_member c key then (key, val) ∷ rest else []

module _ (r : Reals) where
  abbrev pub set_all : Class → List (Bytes × Bytes) → List (Bytes × Plain) → List (Bytes × Plain)
  set_all c [] plains = plains
  set_all c ((key, val) ∷ columns) plains = set_all c columns (set_plain r c key val plains).1

  -- The object of a row.
  abbrev pub row_object :
      Class → List (Bytes × Plain) → Lists → Objects → List Bytes → List Bytes → Model
  row_object c plains ls os fields row =
      object c (set_all c (known_columns c fields row) plains) ls os

  pub set_plain-member :
      (c : Class) (key val : Bytes) (plains : List (Bytes × Plain))
      → ((set_plain r c key val plains).0 ≡ is_plain_member c key)
        × (is_plain_member c key ≡ false → (set_plain r c key val plains).1 ≡ plains)
  unfolding set_plain is_plain_member
  set_plain-member c key val plains = elim (Option-cases (find key c.plain_names)) [
    | inl e ↦ rw (e, set_plain, is_plain_member) (refl, λ _. refl)
    | inr (dft, e) ↦ elim (Option-cases (find key plains)) [
      | inl e' ↦ rw (e, e', set_plain, is_plain_member) (refl, λ h. cc h)
      | inr (p, e') ↦ rw (e, e', set_plain, is_plain_member) (refl, λ h. cc h)
    ]
  ]

  set_fields-columns :
      (c : Class) (fields row : List Bytes) (plains : List (Bytes × Plain))
      → length row ≡ length fields
      → set_fields r c fields (map some row) plains
        ≡ returned (set_all c (known_columns c fields row) plains)
  unfolding set_fields
  set_fields-columns c [] row plains e = refl
  set_fields-columns c (key ∷ keys) [] plains e = absurd (omega (arith, e))
  set_fields-columns c (key ∷ keys) (val ∷ row) plains e =
      elim (Bool-cases (is_plain_member c key)) [
        | inl h ↦
            rw ((set_plain-member c key val plains).0, h)
              (set_fields-columns c keys row (set_plain r c key val plains).1 (omega (arith, e)))
        | inr h ↦
            rw ((set_plain-member c key val plains).0, h, (set_plain-member c key val plains).1 h)
              refl
      ]

-- What `init` leaves, and `next` at a row.
abbrev pub at_result {ℓ} : {R : Type ℓ} → List Bytes → R → Option Row → MyResult R
at_result fields res row = record { index = 0; res = some res; row = row; fields = fields }

module _ {ℓ} {R : Type ℓ} (client : Client R) (fields : List Bytes)
    (some_field : 0 < length fields) where
  next-fetch :
      (res : R) (row : Option Row)
      → next client (at_result fields res row)
        ≡ returned (with_row (at_result fields res row) (client.fetch_row res))
  unfolding next
  next-fetch res row = elim (Bool-cases (leb (length fields) 0)) [
    | inl h ↦ absurd (ground (arith, some_field, h))
    | inr h ↦ rw (h, next) refl
  ]

  module _ (r : Reals) (c : Class) (plains : List (Bytes × Plain)) (ls : Lists) (os : Objects) where
    to_model-columns :
        (res : R) (row : List Bytes)
        → length row ≡ length fields
        → to_model r (at_result fields res (some (map some row))) (object c plains ls os)
          ≡ returned (true, row_object r c plains ls os fields row)
    unfolding to_model row_model
    to_model-columns res row e = elim (Bool-cases (length fields == 0)) [
      | inl h ↦ absurd (ground (arith, some_field, h))
      | inr h ↦ rw (h, set_fields-columns r c fields row plains e, to_model, row_model) refl
    ]

    Streams-Yields :
        (res : R) (old : Option Row) (rows : List (List Bytes))
        → Streams client res rows
        → All (λ row. length row ≡ length fields) rows
        → Yields
            (my_api client r)
            (object c plains ls os)
            (at_result fields res old)
            (map (row_object r c plains ls os fields) rows)
    Streams-Yields res old [] (drained _ res' e) h =
        ended (at_result fields res old) _
          (next-fetch res old ∙ ap (λ x. returned (with_row (at_result fields res old) x)) e)
    Streams-Yields res old (row ∷ rows) (fetched _ res' _ _ e s) h =
        at_row (at_result fields res old) (at_result fields res' (some (map some row))) _ _
          (next-fetch res old ∙ ap (λ x. returned (with_row (at_result fields res old) x)) e)
          (to_model-columns res' row h.0) (Streams-Yields res' (some (map some row)) rows s h.1)

All-map {ℓ κ ι} :
    {A : Type ℓ} {B : Type κ} (P : B → Type ι) (f : A → B) (xs : List A)
    → All (λ x. P (f x)) xs
    → All P (map f xs)
All-map P f [] h = tt
All-map P f (x ∷ xs) (p, h) = (p, All-map P f xs h)

All-mono {ℓ κ ι} :
    {A : Type ℓ} (P : A → Type κ) (Q : A → Type ι) (f : (x : A) → P x → Q x) (xs : List A)
    → All P xs
    → All Q xs
All-mono P Q f [] h = tt
All-mono P Q f (x ∷ xs) (p, h) = (f x p, All-mono P Q f xs h)

init-fields {ℓ} :
    {R : Type ℓ} (client : Client R) (res : R) (fields : List Bytes)
    → client.fetch_fields res ≡ some fields
    → (init client (some res) new_result).1 ≡ at_result fields res none
unfolding init
init-fields client res fields e = rw (e, init) refl

-- For a result set with at least one field, and with fewer than 2 ^ 31 rows that have a text for each
-- field, `select_list_impl` of objects of a class whose row objects are whole, so that `emplace_back`
-- can copy them, returns the number of the rows, and leaves in an empty list the object of each row, in
-- their order. That object is a fresh one in which the columns in front of the first field that is no
-- member of the class were set; a field that is no member is not reported.
pub select_list_impl-rows {ℓ} :
    {R : Type ℓ} (client : Client R) (r : Reals) (unset : Kind → Val) (fields : List Bytes)
    (rows : List (List Bytes)) (c : Class) (plains : List (Bytes × Plain)) (ls : Lists)
    (os : Objects) (fuel : ℕ) (sql : Bytes) (executor : SqlExecutor (MyResult R)) (res : R)
    → 0 < length fields
    → length rows < 2 ^ 31
    → length rows < fuel
    → All (λ row. length row ≡ length fields) rows
    → All (λ row. IsWhole (row_object r c plains ls os fields row)) rows
    → Streams client res rows
    → client.fetch_fields res ≡ some fields
    → executor.select sql ≡ some (init client (some res) new_result).1
    → select_list_impl
        (my_api client r)
        fuel
        (returned sql)
        (some executor)
        (object c plains ls os)
        (copied r unset)
        []
      ≡ some (returned (pos (length rows), map (row_object r c plains ls os fields) rows))
unfolding select_list_impl
select_list_impl-rows client r unset fields rows c plains ls os fuel sql executor res hf h l hs
      whole st ef e =
    let of_row = row_object r c plains ls os fields in
    let copies =
      All-mono (λ m. IsWhole m) (λ m. copied r unset m ≡ some m)
        (λ m w. (clone-IsWhole r unset m w).1) (map of_row rows)
        (All-map (λ m. IsWhole m) of_row rows whole) in
    let step =
      rows_loop-Yields (my_api client r) (object c plains ls os) (copied r unset) fuel
        (at_result fields res none) (map of_row rows) []
        (Streams-Yields client fields hf r c plains ls os res none rows st hs) copies
        (omega (arith, length-map of_row rows, l)) in
    rw (e ∙ ap some (init-fields client res fields ef), select_list_impl)
      (rw (length-map of_row rows, wrap_32_self (pos (length rows)) h) at (step))
