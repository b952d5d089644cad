-- ===== src/FunctionMapper/Answers.antt =====
-- Every name that is found by a path has a handler, and `entry` runs it.
use rellaf.Prelude.{
  ℕ, List, [], ◌∷◌, Bool, true, false, Option, none, some, Bytes, codes, ◌==◌, is_empty,
  if◌then◌else◌, ◌≡◌, ◌⊎◌, refl, sym, ap, ◌∙◌, inl, inr, Bool-cases, Option-cases, arith,
}
use rellaf.Prelude.Maps.{find, emplace, find-emplace, same, same_iff, bytes_eq}
use rellaf.Prelude.Ints.{ℤ, negsuc, same_int}
use rellaf.Outcome.{Outcome, returned, refused, fault, ◌>>=◌}
use rellaf.Str.Trim.{trim}
use rellaf.UrlTrie.{UrlTrieNode, fetch_vars, fetch_at, Fetched}
use rellaf.UrlTrie.Routes.{route, route-new_node}
use rellaf.UrlTrie.Paths.{path_sections, fetch_vars-sections, fetch_vars-Finds}
use rellaf.FunctionMapper.{
  FunctionMapper, PathVars, with_slash, new_mapper, add_api, reg_api, reg, fetched_name, find_name,
  fetch_name, HttpHeader, Controller, Handler, not_found, internal_error, return_response, invoke,
  entry,
}
use rellaf.FunctionMapper.Closed.{IsClosed, add_api-IsClosed}

-- The mappers that calls of `reg` lead to.
pub data Registers {ℓ} {H : Type ℓ} : FunctionMapper H → Type ℓ where
  empty : Registers new_mapper
  later :
      {m m' : FunctionMapper H} (api name : Bytes) (func : H)
      → Registers m
      → reg api name func m ≡ returned m'
      → Registers m'

module _ {ℓ} {H : Type ℓ} where
  -- A name with a handler.
  abbrev Handled : FunctionMapper H → Bytes → Type ℓ
  Handled m name = (func : H) × (find name m.funcs ≡ some func)

  IsClosed-mono :
      {known known' : Bytes → Type ℓ} (m m' : FunctionMapper H)
      → ((n : Bytes) → known n → known' n)
      → m'.api_hdrs ≡ m.api_hdrs
      → m'.path_vars ≡ m.path_vars
      → IsClosed known m
      → IsClosed known' m'
  IsClosed-mono m m' f e p h = record {
    apis = λ api name q.
        f name (h.apis api name (ap (λ (x : List (Bytes × Bytes)). find api x) (sym e) ∙ q));
    routes =
        λ ks name q. f name (h.routes ks name (ap (λ (x : UrlTrieNode). route ks x) (sym p) ∙ q));
  }

  -- What `reg` leaves, from what `reg_api` left.
  reg_from :
      (name : Bytes) (func : H) (m' : FunctionMapper H) (o : Outcome (FunctionMapper H))
      → (o >>= λ m1. returned (record m1 { funcs = emplace name func m1.funcs })) ≡ returned m'
      → (m1 : FunctionMapper H) × (o ≡ returned m1)
        × (record m1 { funcs = emplace name func m1.funcs } ≡ m')
  reg_from name func m' (returned m1) e = (m1, refl, cc e)
  reg_from name func m' refused e = cc e
  reg_from name func m' fault e = cc e

  reg_api_from :
      (name : Bytes) (m m1 : FunctionMapper H) (t : Bytes)
      → (with_slash t >>= λ a. add_api a name m) ≡ returned m1
      → (a : Bytes) × (add_api a name m ≡ returned m1)
  reg_api_from name m m1 [] e = cc e
  reg_api_from name m m1 (c ∷ s) e = (_, e)

  -- A name that was there still has a handler.
  kept_if :
      (b : Bool) (func : H) (old other : Option H) (f : H)
      → other ≡ some f
      → (g : H) × ((if b then elim old [ none ↦ some func | some w ↦ some w ] else other) ≡ some g)
  kept_if true func none other f e = (func, refl)
  kept_if true func (some w) other f e = (w, refl)
  kept_if false func old other f e = (f, e)

  new_if :
      (func : H) (old : Option H)
      → (g : H) × ((if true then elim old [ none ↦ some func | some w ↦ some w ] else none)
          ≡ some g)
  new_if func none = (func, refl)
  new_if func (some w) = (w, refl)

  kept :
      (name n : Bytes) (func f : H) (funcs : List (Bytes × H))
      → find n funcs ≡ some f
      → (g : H) × (find n (emplace name func funcs) ≡ some g)
  kept name n func f funcs e =
      let (g, q) = kept_if (same name n) func (find name funcs) (find n funcs) f e in
      (g, find-emplace name n func funcs ∙ q)

  new_name :
      (name : Bytes) (func : H) (funcs : List (Bytes × H))
      → (g : H) × (find name (emplace name func funcs) ≡ some g)
  new_name name func funcs =
      let (g, q) = new_if func (find name funcs) in
      (g, find-emplace name name func funcs ∙ rw ((same_iff name name).1 refl) q)

  reg-IsClosed :
      (api name : Bytes) (func : H) (m m' : FunctionMapper H)
      → reg api name func m ≡ returned m'
      → IsClosed (Handled m) m
      → IsClosed (Handled m') m'
  unfolding reg reg_api
  reg-IsClosed api name func m m' e h =
      let (m1, e1, q) = reg_from name func m' (reg_api api name m) e in
      let (a, e2) = reg_api_from name m m1 (trim [] api) e1 in
      let m2 : FunctionMapper H = record m { funcs = emplace name func m.funcs } in
      let grown =
        IsClosed-mono {known' = Handled m2} m m (λ n k. kept name n func k.0 m.funcs k.1) refl refl
          h in
      let (closed, same_funcs) =
        add_api-IsClosed (Handled m2) a name m m1 e2 (new_name name func m.funcs) grown in
      let funcs_eq : m'.funcs ≡ m2.funcs =
        ap (λ (x : FunctionMapper H). x.funcs) (sym q)
        ∙ ap (λ (fs : List (Bytes × H)). emplace name func fs) same_funcs in
      IsClosed-mono m1 m' (λ n k. (k.0, ap (λ (fs : List (Bytes × H)). find n fs) funcs_eq ∙ k.1))
        (ap (λ (x : FunctionMapper H). x.api_hdrs) (sym q))
        (ap (λ (x : FunctionMapper H). x.path_vars) (sym q)) closed

  new_mapper-IsClosed : IsClosed {H = H} (Handled new_mapper) new_mapper
  unfolding find
  new_mapper-IsClosed = record {
    apis = λ api name e. cc e;
    routes = λ ks name e. cc (route-new_node ks, e);
  }

  Registers-IsClosed : {m : FunctionMapper H} → Registers m → IsClosed (Handled m) m
  Registers-IsClosed empty = new_mapper-IsClosed
  Registers-IsClosed (later {m} {m'} api name func r e) =
      reg-IsClosed api name func m m' e (Registers-IsClosed r)

  fetched_name-Handled :
      (m : FunctionMapper H) (api : Bytes) (vars vars' : PathVars) (name : Bytes)
      (o : Option Fetched)
      → fetch_vars m.path_vars api [] vars ≡ o
      → IsClosed (Handled m) m
      → fetched_name o ≡ returned (name, vars')
      → (name ≡ []) ⊎ Handled m name
  fetched_name-Handled m api vars vars' name none e h q = cc q
  fetched_name-Handled m api vars vars' name (some f) e h q = elim (Bool-cases f.ret) [
    | inl t ↦
        let (finds, stored) = fetch_vars-Finds m.path_vars api [] vars f e t in
        inr (h.routes finds.keys name (stored ∙ ground (arith, q, t)))
    | inr t ↦ inl (ground (arith, q, t))
  ]

  find_name-Handled :
      (m : FunctionMapper H) (api : Bytes) (vars vars' : PathVars) (name : Bytes)
      → IsClosed (Handled m) m
      → find_name api vars m ≡ returned (name, vars')
      → (name ≡ []) ⊎ Handled m name
  unfolding find_name
  find_name-Handled m api vars vars' name h q = elim (Option-cases (find api m.api_hdrs)) [
    | inl e ↦ fetched_name-Handled m api vars vars' name _ refl h (rw (e, find_name) at q)
    | inr (n, e) ↦ inr (h.apis api name (e ∙ cc (rw (e, find_name) at q)))
  ]

  find_name_total :
      (m : FunctionMapper H) (api : Bytes) (vars : PathVars)
      → (name : Bytes) × (vars' : PathVars) × (find_name api vars m ≡ returned (name, vars'))
  unfolding find_name
  find_name_total m api vars = elim (Option-cases (find api m.api_hdrs)) [
    | inl e ↦
        let f : Fetched = fetch_at (path_sections api) m.path_vars [] vars in
        (
          if f.ret then f.name else [],
          f.vals,
          rw (e, find_name, fetch_vars-sections m.path_vars api [] vars) refl,
        )
    | inr (n, e) ↦ (n, vars, rw (e, find_name) refl)
  ]

-- What a call is answered with by a handler: the header and the attachment that the handler left, with
-- the type of JSON and the handler's text. The status of the response is the one that the handler left;
-- that of an error goes to the request.
pub record AnsweredBy (move_to : Bytes → Bytes → Bytes) (left : (ℤ × Bytes) × (HttpHeader × Bytes))
    (cntl cntl' : Controller) : Type 0 where
  pub status : cntl'.response_header.status_code ≡ left.1.0.status_code
  pub header : cntl'.response_header ≡ record (left.1.0) { content_type = codes "application/json" }
  pub body : cntl'.response_attachment ≡ move_to left.0.1 left.1.1
  pub request_status :
      cntl'.request_header.status_code
      ≡ (if same_int left.0.0 (negsuc 0) then 500 else cntl.request_header.status_code)

module _ {ℓ} {H : Type ℓ} (move_to : Bytes → Bytes → Bytes) (call : Handler H) where
  -- The answer of a handler of a registered name for some variables.
  abbrev pub Answers : FunctionMapper H → Controller → Controller → Type ℓ
  Answers m cntl cntl' =
      (name : Bytes) × (func : H) × (vars : PathVars) × (find name m.funcs ≡ some func)
      × AnsweredBy move_to (call func vars cntl) cntl cntl'

  invoke-AnsweredBy :
      (name : Bytes) (func : H) (vars : PathVars) (cntl : Controller) (m : FunctionMapper H)
      → find name m.funcs ≡ some func
      → (let ((status, ret_body), cntl') = invoke call name vars cntl m in
          AnsweredBy move_to
            (call func vars cntl)
            cntl
            (return_response move_to ret_body (internal_error status cntl')))
  unfolding invoke
  invoke-AnsweredBy name func vars cntl m k =
      elim (Bool-cases (same_int (call func vars cntl).0.0 (negsuc 0))) [
        | inl e ↦
            rw (k, invoke, e)
              (record { status = refl; header = refl; body = refl; request_status = rw e refl })
        | inr e ↦
            rw (k, invoke, e)
              (record { status = refl; header = refl; body = refl; request_status = rw e refl })
      ]

  -- Behind any calls of `reg`, `entry` answers every path that is not empty: with the status 404, or
  -- with what the handler of a registered name leaves for some variables. Then the header of the
  -- response is the one that the handler left, but for the type of its content, and so is the status in
  -- it whatever number the handler returned: at -1, the status 500 is set in the request.
  pub entry-Answers :
      (m : FunctionMapper H) (cntl : Controller) (c : ℕ) (path : Bytes)
      → Registers m
      → cntl.request_header.path ≡ c ∷ path
      → (cntl' : Controller) × (entry move_to call cntl m ≡ returned cntl')
        × ((cntl' ≡ return_response move_to [] (not_found cntl)) ⊎ Answers m cntl cntl')
  unfolding entry fetch_name
  entry-Answers m cntl c path r p =
      let api : Bytes = if c == b'/' then c ∷ path else b'/' ∷ c ∷ path in
      let (name, vars, q) = find_name_total m api [] in
      elim (Bool-cases (is_empty name)) [
        | inl t ↦ (return_response move_to [] (not_found cntl), rw (p, q, t) refl, inl refl)
        | inr t ↦ elim (find_name-Handled m api [] vars name (Registers-IsClosed r) q) [
          | inl n ↦ absurd (ground (arith, n, t))
          | inr (func, k) ↦ (
            (let ((status, ret_body), cntl') = invoke call name vars cntl m in
                return_response move_to ret_body (internal_error status cntl')),
            rw (p, q, t) refl,
            inr (name, func, vars, k, invoke-AnsweredBy name func vars cntl m k),
          )
        ]
      ]
