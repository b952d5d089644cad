-- ===== src/PrepareArgs/Kept.antt =====
-- Whatever a request holds, `prepare_args` ends and keeps the shape of the arguments.
use rellaf.Prelude.{
  ℕ, ◌<◌, List, [], ◌∷◌, Bool, true, false, Option, none, some, Bytes, All, if◌then◌else◌, ◌≡◌, ◌≢◌,
  refl,
}
use rellaf.Prelude.Maps.{find, emplace, same, bytes_eq}
use rellaf.Cast.{Reals, Val, cast}
use rellaf.Plain.{Plain, plain, set_parse}
use rellaf.Model.{
  Class, Model, void, of_plain, of_list, object, is_plain, is_object, is_plain_member, replace,
  set_plain,
}
use rellaf.Json.{JsonCpp}
use rellaf.Json.Shape.{
  depth, SamePlain, SamePlains, Shaped, same_value, same_object, Covers, IsReadable,
}
use rellaf.Json.Shape.Laws.{
  SamePlains-refl, SamePlains-trans, find-same, Shaped-refl, lists_refl, objects_refl,
}
use rellaf.Json.Shape.Ends.{Ends, Ends-bind, Ends-if}
use rellaf.Json.Shape.Kept.{replace-SamePlains, json_to_model-Shaped}
use rellaf.PrepareArgs.{
  HttpContext, Args, req_body, req_param, path_var, set_entries, parse_into, entries_into,
  first_into, prepare_arg, prepare_args,
}

-- The same arguments with models of the same shape.
pub data ShapedArgs : Args → Args → Type 0 where
  no_args : ShapedArgs [] []
  same_arg :
      {tag : Bytes} {m n : Model} {args args' : Args}
      → Shaped m n
      → ShapedArgs args args'
      → ShapedArgs ((tag, m) ∷ args) ((tag, n) ∷ args')

ShapedArgs-refl : (args : Args) → ShapedArgs args args
ShapedArgs-refl [] = no_args
ShapedArgs-refl ((tag, m) ∷ args) = same_arg (Shaped-refl m) (ShapedArgs-refl args)

module _ (r : Reals) where
  set_parse-SamePlain : (val : Bytes) (p : Plain) → SamePlain p (set_parse r val p).1
  unfolding set_parse
  set_parse-SamePlain val p = go p.parse_func
    where
      go :
          (o : Option (Bytes → Val))
          → let q : Bool × Plain = elim o [
            | some parse ↦ (true, record p { val = parse val })
            | none ↦ (true, record p { val = cast r p.kind val })
          ] in
            SamePlain p q.1
      go none = refl
      go (some f) = refl

  set_plain-SamePlains :
      (c : Class) (key val : Bytes) (ps : List (Bytes × Plain))
      → Covers c ps
      → SamePlains ps (set_plain r c key val ps).1
  unfolding set_plain is_plain_member
  set_plain-SamePlains c key val ps v = go (find key c.plain_names) (find key ps) refl (v key)
    where
      go :
          (n o : Option Plain)
          → find key ps ≡ o
          → (elim n [ none ↦ false | some p ↦ true ] ≡ true → find key ps ≢ none)
          → let qs : Bool × List (Bytes × Plain) = elim n [
            | none ↦ (false, ps)
            | some dft ↦ elim o [
              | some p ↦ (true, replace key (set_parse r val p).1 ps)
              | none ↦ (true, emplace key (set_parse r val (plain r dft.kind dft.val)).1 ps)
            ]
          ] in
            SamePlains ps qs.1
      go none o e h = SamePlains-refl ps
      go (some dft) none e h = absurd (h refl e)
      go (some dft) (some p) e h = replace-SamePlains key p _ ps e (set_parse-SamePlain val p)

  set_entries-SamePlains :
      (c : Class) (entries : List (Bytes × Bytes)) (ps : List (Bytes × Plain))
      → Covers c ps
      → SamePlains ps (set_entries r c entries ps)
  set_entries-SamePlains c [] ps v = SamePlains-refl ps
  set_entries-SamePlains c ((key, val) ∷ entries) ps v =
      let first = set_plain-SamePlains c key val ps v in
      SamePlains-trans first
        (set_entries-SamePlains c entries _ (λ k i e. v k i (find-same k first e)))

  parse_into-Shaped : (val : Bytes) (m : Model) → Shaped m (parse_into r val m).1
  parse_into-Shaped val void = Shaped-refl void
  parse_into-Shaped val (of_plain p) = same_value (set_parse-SamePlain val p)
  parse_into-Shaped val (of_list xs) = Shaped-refl (of_list xs)
  parse_into-Shaped val (object c ps ls os) = Shaped-refl (object c ps ls os)

  entries_into-Shaped :
      (entries : List (Bytes × Bytes)) (m : Model)
      → IsReadable m
      → Shaped m (entries_into r entries m)
  unfolding IsReadable
  entries_into-Shaped entries void h = Shaped-refl void
  entries_into-Shaped entries (of_plain p) h = Shaped-refl (of_plain p)
  entries_into-Shaped entries (of_list xs) h = Shaped-refl (of_list xs)
  entries_into-Shaped entries (object c ps ls os) (d, v, l, o) =
      same_object (set_entries-SamePlains c entries ps v) (lists_refl ls) (objects_refl os)

  Shaped-if : (b : Bool) (m n k : Model) → Shaped m n → Shaped m k → Shaped m (if b then n else k)
  Shaped-if true m n k h i = h
  Shaped-if false m n k h i = i

  first_into-Shaped : (vars : List (Bytes × Bytes)) (m : Model) → Shaped m (first_into r vars m)
  first_into-Shaped [] m = Shaped-refl m
  first_into-Shaped ((key, val) ∷ vars) m =
      Shaped-if (is_plain m) m _ m (parse_into-Shaped val m) (Shaped-refl m)

  module _ {ℓ} {J : Type ℓ} (api : JsonCpp J) (fuel : ℕ) (ctx : HttpContext) (body : Bytes) where
    arg-Ends :
        (tag : Bytes) (m : Model)
        → depth m < fuel
        → IsReadable m
        → Ends (λ (s, n). Shaped m n) (prepare_arg r api fuel ctx body tag m)
    unfolding prepare_arg
    arg-Ends tag m h i =
        Ends-if _ (same tag req_body) _ _
          (λ e.
            Ends-if _ (is_plain m) _ _ (λ f. parse_into-Shaped body m)
              (λ f. json_to_model-Shaped api fuel body m h i))
          (λ e.
            Ends-if _ (same tag req_param) _ _
              (λ f.
                Shaped-if (is_object m) m _ m (entries_into-Shaped ctx.query m i) (Shaped-refl m))
              (λ f.
                Ends-if _ (same tag path_var) _ _
                  (λ g.
                    Shaped-if (is_object m) m _ _ (entries_into-Shaped ctx.path_vars m i)
                      (first_into-Shaped ctx.path_vars m))
                  (λ g. Shaped-refl m)))

    -- With more fuel than each argument has lists and objects inside of each other, for arguments
    -- without doubles, whose objects have a plain for each of their names, prepare_args throws an
    -- exception or returns whatever the body, the query and the path variables are: the arguments
    -- have then their tags and their shapes, up to other values and null pointers for items.
    pub prepare_args-Shaped :
        (args : Args)
        → All (λ (tag, m). (depth m < fuel) × IsReadable m) args
        → Ends (λ (s, args'). ShapedArgs args args') (prepare_args r api fuel ctx body args)
    unfolding prepare_args
    prepare_args-Shaped [] h = no_args
    prepare_args-Shaped ((tag, m) ∷ args) ((d, i), h) =
        Ends-bind (λ (s, n). Shaped m n) _ _ _ (arg-Ends tag m d i)
          (λ (s, n) t.
            Ends-if _ s _ _
              (λ e.
                Ends-bind (λ (s', args'). ShapedArgs args args') _ _ _ (prepare_args-Shaped args h)
                  (λ u k. same_arg t k))
              (λ e. same_arg t (ShapedArgs-refl args)))
