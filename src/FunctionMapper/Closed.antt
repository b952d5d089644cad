-- ===== src/FunctionMapper/Closed.antt =====
-- Every name that is found by a path has a handler.
use rellaf.Prelude.{
  List, map, Bool, true, false, Option, none, some, Bytes, if◌then◌else◌, ◌≡◌, refl, sym, ap, ◌∙◌,
  subst, inl, inr, Option-cases,
}
use rellaf.Prelude.Maps.{find, emplace, find-emplace, same, bytes_eq}
use rellaf.Outcome.{returned}
use rellaf.UrlPattern.{fetch_path_vars_prefix}
use rellaf.UrlTrie.{UrlTrieNode, put, Put}
use rellaf.UrlTrie.Routes.{Key, key_of, same_keys, route}
use rellaf.UrlTrie.Paths.{path_sections, put-route}
use rellaf.FunctionMapper.{FunctionMapper, put_path, add_api}

-- The names in the two tables are among those with a handler, or the one that is being registered.
pub record IsClosed {ℓ} {H : Type ℓ} (known : Bytes → Type ℓ) (m : FunctionMapper H) : Type ℓ where
  pub apis : (api name : Bytes) → find api m.api_hdrs ≡ some name → known name
  pub routes : (ks : List Key) (name : Bytes) → route ks m.path_vars ≡ some name → known name

-- A value that is found in a table behind a change.
module _ {ℓ} (known : Bytes → Type ℓ) (name : Bytes) (k : known name) where
  same_name :
      (n : Bytes) → (a : Option Bytes) → a ≡ some n → ((w : Bytes) → a ≡ some w → known w) → known n
  same_name n a e h = h n e

  emplaced_if :
      (b : Bool) (old other : Option Bytes) (n : Bytes)
      → (if b then elim old [ none ↦ some name | some w ↦ some w ] else other) ≡ some n
      → ((w : Bytes) → old ≡ some w → known w)
      → (other ≡ some n → known n)
      → known n
  emplaced_if true none other n e h g = subst known (cc e) k
  emplaced_if true (some w) other n e h g = h n e
  emplaced_if false old other n e h g = g e

  put_if :
      (b : Bool) (other : Option Bytes) (n : Bytes)
      → (if b then some name else other) ≡ some n
      → (other ≡ some n → known n)
      → known n
  put_if true other n e g = subst known (cc e) k
  put_if false other n e g = g e

  emplaced :
      (api : Bytes) (apis : List (Bytes × Bytes))
      → ((a n : Bytes) → find a apis ≡ some n → known n)
      → (a n : Bytes) → find a (emplace api name apis) ≡ some n
      → known n
  emplaced api apis h a n e =
      emplaced_if (same api a) (find api apis) (find a apis) n
        (sym (find-emplace api a name apis) ∙ e) (λ w. h api w) (h a n)

  put_routes :
      (api : Bytes) (t : UrlTrieNode) (p : Put)
      → put t api name ≡ some p
      → ((ks : List Key) (n : Bytes) → route ks t ≡ some n → known n)
      → (ks : List Key) (n : Bytes) → route ks p.entrys ≡ some n
      → known n
  put_routes api t p e h ks n e' =
      let (q, eq, ret, routes) = put-route t api name in
      let same_put : p ≡ q = cc (e, eq) in
      put_if (same_keys (map key_of (path_sections api)) ks) (route ks t) n
        (sym (routes ks) ∙ (ap (λ (x : Put). route ks x.entrys) (sym same_put) ∙ e')) (h ks n)

module _ {ℓ} {H : Type ℓ} where
  put_path-IsClosed :
      (known : Bytes → Type ℓ) (api name : Bytes) (m m' : FunctionMapper H)
      → put_path m (put m.path_vars api name) ≡ returned m'
      → known name
      → IsClosed known m
      → IsClosed known m' × (m'.funcs ≡ m.funcs)
  put_path-IsClosed known api name m m' e k h =
      let (q, eq, ret, routes) = put-route m.path_vars api name in
      subst (λ (x : FunctionMapper H). IsClosed known x × (x.funcs ≡ m.funcs)) (cc (e, eq))
        (
          record { apis = h.apis; routes = put_routes known name k api m.path_vars q eq h.routes },
          refl,
        )

  pub add_api-IsClosed :
      (known : Bytes → Type ℓ) (api name : Bytes) (m m' : FunctionMapper H)
      → add_api api name m ≡ returned m'
      → known name
      → IsClosed known m
      → IsClosed known m' × (m'.funcs ≡ m.funcs)
  unfolding add_api
  add_api-IsClosed known api name m m' e k h =
      let m1 : FunctionMapper H = record m { api_hdrs = emplace api name m.api_hdrs } in
      let closed : IsClosed known m1 = record {
        apis = emplaced known name k api m.api_hdrs h.apis;
        routes = h.routes;
      } in
      elim (Option-cases (fetch_path_vars_prefix api)) [
        | inl n ↦
            subst (λ (x : FunctionMapper H). IsClosed known x × (x.funcs ≡ m.funcs))
              (cc (rw (n, add_api) at e)) (closed, refl)
        | inr (prefix, n) ↦ put_path-IsClosed known api name m1 m' (rw (n, add_api) at e) k closed
      ]
