-- ===== src/MyResult/Null.antt =====
-- A column that is NULL.
use rellaf.Prelude.{
  ℕ, suc, List, [], ◌∷◌, ◌++◌, map, true, false, none, some, Bytes, length, All, ◌≡◌, refl, ◌==◌,
  arith,
}
use rellaf.Prelude.Maps.{bytes_eq}
use rellaf.Cast.{Reals}
use rellaf.Plain.{Plain}
use rellaf.Model.{object, Class, Lists, Objects, set_plain, is_plain_member}
use rellaf.Outcome.{fault}
use rellaf.MyResult.{Row, set_fields, row_model, to_model}
use rellaf.MyResult.Rows.{at_result, set_plain-member}

module _ (r : Reals) (c : Class) (key : Bytes) (keys : List Bytes) (row : Row) where
  set_fields-null :
      (fields vals : List Bytes) (plains : List (Bytes × Plain))
      → length vals ≡ length fields
      → All (λ k. is_plain_member c k ≡ true) fields
      → set_fields r c (fields ++ key ∷ keys) (map some vals ++ none ∷ row) plains ≡ fault
  unfolding set_fields
  set_fields-null [] [] plains e h = refl
  set_fields-null [] (val ∷ vals) plains e h = absurd (omega (arith, e))
  set_fields-null (k ∷ fields) [] plains e h = absurd (omega (arith, e))
  set_fields-null (k ∷ fields) (val ∷ vals) plains e h =
      rw ((set_plain-member r c k val plains).0, h.0)
        (set_fields-null fields vals (set_plain r c k val plains).1 (omega (arith, e)) h.1)

some_fields : (n : ℕ) → (suc n == 0) ≡ false
some_fields n = ground arith

-- At a row in which the column of a field is NULL, all fields in front of it being members of the
-- class, `to_model` of an object makes a string of a null pointer.
pub to_model-null {ℓ} :
    {R : Type ℓ} (res : R) (r : Reals) (c : Class) (key : Bytes) (fields keys vals : List Bytes)
    (row : Row) (plains : List (Bytes × Plain)) (ls : Lists) (os : Objects)
    → length vals ≡ length fields
    → All (λ k. is_plain_member c k ≡ true) fields
    → to_model r
        (at_result (fields ++ key ∷ keys) res (some (map some vals ++ none ∷ row)))
        (object c plains ls os)
      ≡ fault
unfolding to_model row_model
to_model-null res r c key [] keys vals row plains ls os e h =
    rw
      (
        set_fields-null r c key keys row [] vals plains e h,
        to_model,
        row_model,
        some_fields (length keys),
      )
      refl
to_model-null res r c key (k ∷ fields) keys vals row plains ls os e h =
    rw
      (
        set_fields-null r c key keys row (k ∷ fields) vals plains e h,
        to_model,
        row_model,
        some_fields (length (fields ++ key ∷ keys)),
      )
      refl
