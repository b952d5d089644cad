-- ===== src/ApiSigns/Faults.antt =====
-- The paths of which `bind_api_sign` reads a byte that is not there.
use rellaf.Prelude.{
  [], ◌∷◌, Option, none, some, Bytes, ◌==◌, ◌≡◌, ◌≢◌, ◌⊎◌, inl, inr, refl, Bool-cases, arith,
}
use rellaf.Prelude.Maps.{emplace, bytes_eq}
use rellaf.Outcome.{Outcome, returned, fault, ◌>>=◌}
use rellaf.UrlPattern.{fetch_path_vars_prefix}
use rellaf.ApiSigns.{ApiSigns, without_slash, bound_path, bind_api_sign}

-- The path that is bound: what stands before the first path variable, or all of it.
abbrev pub path_in_of : Bytes → Bytes
path_in_of api = elim (fetch_path_vars_prefix api) [ none ↦ api | some path_in ↦ path_in ]

abbrev pub IsBare : Bytes → Type 0
IsBare path = (path ≡ []) ⊎ (path ≡ b'/' ∷ [])

abbrev Bound : Bytes → Type 0
Bound path = (t : Bytes) × (bound_path path ≡ returned (b'/' ∷ t))

without_slash-long :
    (c d : _) (s : Bytes) → (t : Bytes) × (without_slash (c ∷ d ∷ s) ≡ returned (c ∷ t))
unfolding without_slash
without_slash-long c d [] = (_, refl)
without_slash-long c d (e ∷ s) =
    let (t, q) = without_slash-long d e s in (d ∷ t, rw (q, without_slash) refl)

bound_path_cases :
    (path : Bytes) → (IsBare path × (bound_path path ≡ fault)) ⊎ (Bound path × ¬ IsBare path)
unfolding bound_path without_slash
bound_path_cases [] = inl (inl refl, refl)
bound_path_cases (c ∷ []) = elim (Bool-cases (c == b'/')) [
  | inl e ↦ inl (inr (ground (arith, e)), rw e refl)
  | inr e ↦ inr ((c ∷ [], rw (e, e) refl), ground (arith, e))
]
bound_path_cases (c ∷ d ∷ s) =
    let (t, q) = without_slash-long c d s in
    elim (Bool-cases (c == b'/')) [
      | inl e ↦ inr ((t, rw (q, bound_path) (ground (arith, e))), ground arith)
      | inr e ↦ inr ((c ∷ t, rw (q, bound_path) (ground (arith, e))), ground arith)
    ]

-- What a call does: nothing, a read of a byte that is not there, or a new path in one of the maps.
pub data Binds (sign api : Bytes) (m : ApiSigns) : Outcome ApiSigns → Type 0 where
  ignored : api ≡ [] → Binds sign api m (returned m)
  unread : api ≢ [] → IsBare (path_in_of api) → Binds sign api m fault
  of_path :
      (t : Bytes)
      → ¬ IsBare api
      → fetch_path_vars_prefix api ≡ none
      → Binds sign api m (returned (record m { signs = emplace (b'/' ∷ t) sign m.signs }))
  of_prefix :
      (p t : Bytes)
      → ¬ IsBare p
      → fetch_path_vars_prefix api ≡ some p
      → Binds sign api m
          (returned (record m { path_var_signs = emplace (b'/' ∷ t) sign m.path_var_signs }))

-- bind_api_sign ignores an empty path. Of another one it takes what stands before the first path
-- variable, or all of it: if that is empty or is a slash, it reads a byte that is not there, and
-- otherwise it binds a path that begins with a slash, which keeps its old method if it has one, in
-- the map of the paths with variables exactly if there is a variable.
pub bind_api_sign-Binds :
    (sign api : Bytes) (m : ApiSigns) → Binds sign api m (bind_api_sign sign api m)
unfolding bind_api_sign
bind_api_sign-Binds sign [] m = ignored refl
bind_api_sign-Binds sign (c ∷ s) m = go (fetch_path_vars_prefix (c ∷ s)) refl
  where
    go :
        (o : Option Bytes)
        → fetch_path_vars_prefix (c ∷ s) ≡ o
        → Binds sign (c ∷ s) m (elim o [
          | some path_in ↦ bound_path path_in >>= λ path.
              returned (record m { path_var_signs = emplace path sign m.path_var_signs })
          | none ↦ bound_path (c ∷ s) >>= λ path.
              returned (record m { signs = emplace path sign m.signs })
        ])
    go none e = elim (bound_path_cases (c ∷ s)) [
      | inl (b, q) ↦ rw q (unread (λ i. cc) (rw (e, path_in_of) b))
      | inr ((t, q), b) ↦ rw q (of_path t b e)
    ]
    go (some p) e = elim (bound_path_cases p) [
      | inl (b, q) ↦ rw q (unread (λ i. cc) (rw (e, path_in_of) b))
      | inr ((t, q), b) ↦ rw q (of_prefix p t b e)
    ]
