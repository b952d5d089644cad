-- ===== src/SqlBuilder/Statement.antt =====
-- A statement is the concatenation of the texts of the pieces.
use rellaf.Prelude.{
  List, [], ◌∷◌, ◌++◌, append_assoc, append-nil, Bool, true, false, none, some, Option, Bytes, ltb,
  if◌then◌else◌, length, ◌≡◌, ◌≢◌, refl, ◌∙◌, ap, sym, inl, inr, Bool-cases,
}
use rellaf.Prelude.Maps.{find, bytes_eq}
use rellaf.Model.{Model}
use rellaf.SqlPattern.{Stub, StubType, literal, field, list}
use rellaf.MysqlEscape.{Charset, Escaped, escape_field}
use rellaf.Outcome.{Outcome, returned, refused, fault, ◌>>=◌}
use rellaf.SqlBuilder.{
  SqlVal, Models, Arg, collect_models, prepare_statement, quote, append_sql, append_list,
  drop_comma, split_value, pick, get_plain_val, get_list_val, fill, append_stub, append_stubs,
}

module _ (cs : Charset) (allocated : Bool) where
  abbrev escaped_text : Bytes → Option Escaped → Outcome Bytes
  escaped_text q none = fault
  escaped_text q (some e) = if e.ret then returned (q ++ (e.out ++ q)) else refused

  -- The text of a value: quoted and escaped, or as it is.
  abbrev pub value_text : SqlVal → Outcome Bytes
  value_text v =
      if v.need_escape
      then escaped_text (quote v.need_quote) (escape_field cs allocated v.val)
      else returned (quote v.need_quote ++ (v.val ++ quote v.need_quote))

  -- The texts of values, with a comma behind each one but the last.
  abbrev pub list_text : List Bytes → Outcome Bytes
  list_text [] = returned []
  list_text (val ∷ []) = value_text (record { val = val; need_quote = true; need_escape = true })
  list_text (val ∷ val' ∷ vals) =
      value_text (record { val = val; need_quote = true; need_escape = true }) >>= λ t.
      list_text (val' ∷ vals) >>= λ ts. returned (t ++ b',' ∷ ts)

  abbrev pub piece_fill : StubType → Model → List Bytes → Outcome Bytes
  piece_fill literal m sections = returned []
  piece_fill field m sections = get_plain_val m sections >>= λ v. value_text v
  piece_fill list m sections = get_list_val m sections >>= λ vals. list_text vals

  append_sql-value_text :
      (v : SqlVal) (sql : Bytes)
      → append_sql cs allocated v sql ≡ (value_text v >>= λ t. returned (sql ++ t))
  unfolding append_sql
  append_sql-value_text v sql = go v.need_escape (escape_field cs allocated v.val) refl
    where
      go :
          (b : Bool) (e : Option Escaped)
          → escape_field cs allocated v.val ≡ e
          → append_sql cs allocated (record v { need_escape = b }) sql
            ≡ (value_text (record v { need_escape = b }) >>= λ t. returned (sql ++ t))
      go false e i = ap returned (simp append_assoc)
      go true none i = rw (i, append_sql, escaped_text) refl
      go true (some e) i = elim (Bool-cases e.ret) [
        | inl r ↦ rw (i, append_sql, escaped_text, r) (ap returned (simp append_assoc))
        | inr r ↦ rw (i, append_sql, escaped_text, r) refl
      ]

  abbrev quoted : Bytes → SqlVal
  quoted val = record { val = val; need_quote = true; need_escape = true }

  -- The steps of a place of a list, for the text of the first value.
  module _ (sql : Bytes) where
    one_value :
        (o : Outcome Bytes)
        → (o >>= (λ t. returned (sql ++ t)) >>= λ s. returned (s ++ b',' ∷ []))
          ≡ (o >>= λ t. returned (sql ++ (t ++ b',' ∷ [])))
    one_value (returned t) = ap returned (simp append_assoc)
    one_value refused = refl
    one_value fault = refl

    more_values :
        (o ts : Outcome Bytes) (rest : Bytes → Outcome Bytes)
        → ((s : Bytes) → rest s ≡ (ts >>= λ t. returned (s ++ (t ++ b',' ∷ []))))
        → (o >>= (λ t. returned (sql ++ t)) >>= λ s. rest (s ++ b',' ∷ [])) ≡ (
            o >>= (λ t. ts >>= λ u. returned (t ++ b',' ∷ u)) >>= λ t.
            returned (sql ++ (t ++ b',' ∷ [])))
    more_values (returned t) (returned u) rest h = h _ ∙ ap returned (simp append_assoc)
    more_values (returned t) refused rest h = h _
    more_values (returned t) fault rest h = h _
    more_values refused ts rest h = refl
    more_values fault ts rest h = refl

  append_list-list_text :
      (val : Bytes) (vals : List Bytes) (sql : Bytes)
      → append_list cs allocated (val ∷ vals) sql
        ≡ (list_text (val ∷ vals) >>= λ t. returned (sql ++ (t ++ b',' ∷ [])))
  unfolding append_list
  append_list-list_text val [] sql =
      rw (append_sql-value_text (quoted val) sql) (one_value sql (value_text (quoted val)))
  append_list-list_text val (val' ∷ vals) sql = rw (append_sql-value_text (quoted val) sql) (
      more_values sql (value_text (quoted val)) (list_text (val' ∷ vals))
        (append_list cs allocated (val' ∷ vals)) (append_list-list_text val' vals))

drop_comma-append : (s : Bytes) → drop_comma (s ++ b',' ∷ []) ≡ returned s
unfolding drop_comma
drop_comma-append [] = refl
drop_comma-append (c ∷ []) = refl
drop_comma-append (c ∷ c' ∷ s) = rw (drop_comma-append (c' ∷ s)) refl

module _ (cs : Charset) (allocated : Bool) where
  -- The values of a place of a list are some, if there are values at all.
  abbrev NotEmptied : StubType → Outcome (List Bytes) → Type 0
  NotEmptied list o = o ≢ returned []
  NotEmptied _ o = Unit

  fill_list :
      (o : Outcome (List Bytes)) (sql : Bytes)
      → o ≢ returned []
      → ((o >>= λ vals. append_list cs allocated vals sql) >>= λ sql'. drop_comma sql')
        ≡ ((o >>= λ vals. list_text cs allocated vals) >>= λ t. returned (sql ++ t))
  fill_list refused sql h = refl
  fill_list fault sql h = refl
  fill_list (returned []) sql h = absurd (h refl)
  fill_list (returned (val ∷ vals)) sql h =
      rw (append_list-list_text cs allocated val vals sql)
        (drop_last (list_text cs allocated (val ∷ vals)))
    where
      drop_last :
          (o : Outcome Bytes)
          → ((o >>= λ t. returned (sql ++ (t ++ b',' ∷ []))) >>= λ sql'. drop_comma sql')
            ≡ (o >>= λ t. returned (sql ++ t))
      drop_last refused = refl
      drop_last fault = refl
      drop_last (returned t) =
          rw (sym (append_assoc sql t (b',' ∷ []))) (drop_comma-append (sql ++ t))

  fill_field :
      (o : Outcome SqlVal) (sql : Bytes)
      → (o >>= λ v. append_sql cs allocated v sql)
        ≡ ((o >>= λ v. value_text cs allocated v) >>= λ t. returned (sql ++ t))
  fill_field refused sql = refl
  fill_field fault sql = refl
  fill_field (returned v) sql = append_sql-value_text cs allocated v sql

  fill-piece_fill :
      (ty : StubType) (m : Model) (sections : List Bytes) (sql : Bytes)
      → NotEmptied ty (get_list_val m sections)
      → fill cs allocated ty m sections sql
        ≡ (piece_fill cs allocated ty m sections >>= λ t. returned (sql ++ t))
  unfolding fill
  fill-piece_fill literal m sections sql h = ap returned (sym (append-nil sql))
  fill-piece_fill field m sections sql h = fill_field (get_plain_val m sections) sql
  fill-piece_fill list m sections sql h = fill_list (get_list_val m sections) sql h

  module _ (multi : Bool) (models : Models) where
    -- What a place does with the model and the sections that it names.
    abbrev pub at_place {ℓ} : {A : Type ℓ} → Bytes → (Model → List Bytes → Outcome A) → Outcome A
    at_place value use_it =
        split_value value >>= λ sections. pick multi models sections >>= λ (m, s). use_it m s

    -- The text of a piece, whatever stands before it.
    abbrev pub piece : Stub → Outcome Bytes
    piece stub = elim stub.type [
      | literal ↦ returned stub.value
      | other ↦ at_place stub.value (λ m s. piece_fill cs allocated other m s)
    ]

    abbrev pub statement : List Stub → Outcome Bytes
    statement [] = returned []
    statement (stub ∷ stubs) = piece stub >>= λ t. statement stubs >>= λ u. returned (t ++ u)

    -- No place of a list has an empty list.
    abbrev pub HasValues : List Stub → Type 0
    HasValues [] = Unit
    HasValues (stub ∷ stubs) =
        NotEmptied stub.type (at_place stub.value (λ m s. get_list_val m s)) × HasValues stubs

    place-fill :
        (ty : StubType) (sql : Bytes) (o : Outcome (List Bytes))
        → NotEmptied ty
            (o >>= λ sections. pick multi models sections >>= λ (m, s). get_list_val m s)
        → (o >>= λ sections. pick multi models sections >>= λ (m, s). fill cs allocated ty m s sql)
          ≡ ((o >>= λ sections.
                pick multi models sections >>= λ (m, s). piece_fill cs allocated ty m s)
              >>= λ t. returned (sql ++ t))
    place-fill ty sql refused h = refl
    place-fill ty sql fault h = refl
    place-fill ty sql (returned sections) h = go (pick multi models sections) h
      where
        go :
            (o : Outcome (Model × List Bytes))
            → NotEmptied ty (o >>= λ (m, s). get_list_val m s)
            → (o >>= λ (m, s). fill cs allocated ty m s sql)
              ≡ ((o >>= λ (m, s). piece_fill cs allocated ty m s) >>= λ t. returned (sql ++ t))
        go refused h = refl
        go fault h = refl
        go (returned (m, s)) h = fill-piece_fill ty m s sql h

    append_stub-piece :
        (ty : StubType) (value sql : Bytes)
        → NotEmptied ty (at_place value (λ m s. get_list_val m s))
        → append_stub cs allocated multi models (record { type = ty; value = value }) sql
          ≡ (piece (record { type = ty; value = value }) >>= λ t. returned (sql ++ t))
    unfolding append_stub
    append_stub-piece literal value sql h = refl
    append_stub-piece field value sql h = place-fill field sql (split_value value) h
    append_stub-piece list value sql h = place-fill list sql (split_value value) h

    -- If no place of a list has an empty list, `append_stubs` does what the pieces do on their own,
    -- from the first on: it appends all their texts, or it fails as the first one that fails.
    pub append_stubs-statement :
        (stubs : List Stub) (sql : Bytes)
        → HasValues stubs
        → append_stubs cs allocated multi models stubs sql
          ≡ (statement stubs >>= λ t. returned (sql ++ t))
    unfolding append_stubs
    append_stubs-statement [] sql h = ap returned (sym (append-nil sql))
    append_stubs-statement (stub ∷ stubs) sql h =
        rw (append_stub-piece stub.type stub.value sql h.0)
          (go (piece stub) (λ sql'. append_stubs-statement stubs sql' h.1))
      where
        go :
            (o : Outcome Bytes)
            → ((sql' : Bytes)
                → append_stubs cs allocated multi models stubs sql'
                  ≡ (statement stubs >>= λ t. returned (sql' ++ t)))
            → (o >>= (λ t. returned (sql ++ t)) >>= λ sql'.
                append_stubs cs allocated multi models stubs sql')
              ≡ (o >>= (λ t. statement stubs >>= λ u. returned (t ++ u)) >>= λ t.
                  returned (sql ++ t))
        go refused ih = refl
        go fault ih = refl
        go (returned t) ih = ih (sql ++ t) ∙ go' (statement stubs)
          where
            go' :
                (o : Outcome Bytes)
                → (o >>= λ u. returned (sql ++ t ++ u))
                  ≡ (o >>= (λ u. returned (t ++ u)) >>= λ u. returned (sql ++ u))
            go' refused = refl
            go' fault = refl
            go' (returned u) = ap returned (append_assoc sql t u)

-- `prepare_statement` of a method whose places of lists all have values returns the texts of the pieces
-- of its pattern one after the other, and fails as the first piece that fails.
pub prepare_statement-statement :
    (cs : Charset) (allocated : Bool) (pices : List (Bytes × List Stub)) (method : Bytes)
    (args : List Arg) (stubs : List Stub)
    → find method pices ≡ some stubs
    → HasValues cs allocated (ltb 1 (length args)) (collect_models args []) stubs
    → prepare_statement cs allocated pices method args
      ≡ statement cs allocated (ltb 1 (length args)) (collect_models args []) stubs
unfolding prepare_statement
prepare_statement-statement cs allocated pices method args stubs e h =
    rw (e, prepare_statement)
      (append_stubs-statement cs allocated (ltb 1 (length args)) (collect_models args []) stubs [] h
        ∙ go (statement cs allocated (ltb 1 (length args)) (collect_models args []) stubs))
  where
    go : (o : Outcome Bytes) → (o >>= λ t. returned t) ≡ o
    go refused = refl
    go fault = refl
    go (returned t) = refl
