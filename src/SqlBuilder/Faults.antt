-- ===== src/SqlBuilder/Faults.antt =====
-- Places at which a statement is not what its pattern says, or the program fails.
use rellaf.Prelude.{
  ℕ, List, [], ◌∷◌, ◌++◌, Bool, none, some, Bytes, ◌==◌, if◌then◌else◌, ◌≡◌, refl, ◌∙◌, inl, inr,
  Bool-cases, arith,
}
use rellaf.Plain.{Plain}
use rellaf.Model.{Model, object, Class, Lists, Objects, Items, of_list}
use rellaf.SqlPattern.{list}
use rellaf.MysqlEscape.{Charset}
use rellaf.Outcome.{Outcome, returned, refused, fault, ◌>>=◌}
use rellaf.SqlBuilder.{
  Models, get_plain_val, get_list_val, member, append_list, drop_comma, fill, append_stub, pick,
  split_value,
}
use rellaf.SqlBuilder.Statement.{at_place}

drop_comma-snoc :
    (s : Bytes) (c : ℕ) → drop_comma (s ++ c ∷ []) ≡ returned (if c == b',' then s else s ++ c ∷ [])
unfolding drop_comma
drop_comma-snoc [] c = elim (Bool-cases (c == b',')) [ inl e ↦ rw e refl | inr e ↦ rw e refl ]
drop_comma-snoc (d ∷ []) c = elim (Bool-cases (c == b',')) [ inl e ↦ rw e refl | inr e ↦ rw e refl ]
drop_comma-snoc (d ∷ d' ∷ s) c = elim (Bool-cases (c == b',')) [
  | inl e ↦ rw (drop_comma-snoc (d' ∷ s) c, e) refl
  | inr e ↦ rw (drop_comma-snoc (d' ∷ s) c, e) refl
]

module _ (cs : Charset) (allocated multi : Bool) (models : Models) (value : Bytes) where
  fill-nothing :
      (sql : Bytes) (m : Model) (s : List Bytes)
      → get_list_val m s ≡ returned []
      → fill cs allocated list m s sql ≡ drop_comma sql
  unfolding fill append_list
  fill-nothing sql m s e = rw (e, fill) refl

  append_stub-nothing :
      (sql : Bytes)
      → at_place cs allocated multi models value (λ m s. get_list_val m s) ≡ returned []
      → append_stub cs allocated multi models (record { type = list; value = value }) sql
        ≡ drop_comma sql
  unfolding append_stub
  append_stub-nothing sql = go (split_value value)
    where
      go :
          (o : Outcome (List Bytes))
          → (o >>= λ sections. pick multi models sections >>= λ (m, s). get_list_val m s)
            ≡ returned []
          → (o >>= λ sections.
              pick multi models sections >>= λ (m, s). fill cs allocated list m s sql)
            ≡ drop_comma sql
      go refused h = absurd (ground (arith, h))
      go fault h = absurd (ground (arith, h))
      go (returned sections) h = go' (pick multi models sections) h
        where
          go' :
              (o : Outcome (Model × List Bytes))
              → (o >>= λ (m, s). get_list_val m s) ≡ returned []
              → (o >>= λ (m, s). fill cs allocated list m s sql) ≡ drop_comma sql
          go' refused h = absurd (ground (arith, h))
          go' fault h = absurd (ground (arith, h))
          go' (returned (m, s)) h = fill-nothing sql m s h

  -- A place of a list that is empty takes a comma of the pattern away that stands before it, and
  -- leaves any other text; at the start of a statement it reads a byte that is not there.
  pub append_stub-empty_list :
      at_place cs allocated multi models value (λ m s. get_list_val m s) ≡ returned []
      → (append_stub cs allocated multi models (record { type = list; value = value }) [] ≡ fault)
        × ((sql : Bytes) (c : ℕ)
            → append_stub cs allocated multi models
                (record { type = list; value = value })
                (sql ++ c ∷ [])
              ≡ returned (if c == b',' then sql else sql ++ c ∷ []))
  unfolding drop_comma
  append_stub-empty_list e = (
    append_stub-nothing [] e,
    λ sql c. append_stub-nothing (sql ++ c ∷ []) e ∙ drop_comma-snoc sql c,
  )

-- In an object argument, the section behind a list is looked up in the list as if it were an object,
-- and the section behind an object member that is not set follows a null pointer.
pub get_list_val-nested :
    (c : Class) (plains : List (Bytes × Plain)) (lists : Lists) (os : Objects)
    (first second : Bytes) (rest : List Bytes)
    → ((xs : Items)
        → member first (object c plains lists os) ≡ returned (some (of_list xs))
        → get_list_val (object c plains lists os) (first ∷ second ∷ rest) ≡ fault)
      × (member first (object c plains lists os) ≡ returned none
          → (get_list_val (object c plains lists os) (first ∷ second ∷ rest) ≡ fault)
            × (get_plain_val (object c plains lists os) (first ∷ second ∷ rest) ≡ fault))
unfolding get_list_val get_plain_val member
get_list_val-nested c plains lists os first second rest =
    (λ xs e. rw e (ground arith), λ e. (rw e (ground arith), rw e refl))
