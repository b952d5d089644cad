-- ===== src/UrlPattern/Prefix.antt =====
-- What `fetch_path_vars_prefix` returns.
use rellaf.Prelude.{
  ℕ, ◌≤◌, [], ◌∷◌, ◌++◌, false, Option, none, some, Bytes, ◌==◌, ◌&&◌, ◌≡◌, ◌≢◌, ap, arith, inl,
  inr, Bool-cases, length,
}
use rellaf.UrlPattern.{fetch_path_vars_prefix}

-- The first `/{` of the path stands behind `p`, or there is none.
pub data First (path : Bytes) : Option Bytes → Type 0 where
  absent : ((q t : Bytes) → path ≢ q ++ b'/' ∷ b'{' ∷ t) → First path none
  behind :
      (p t : Bytes)
      → path ≡ p ++ b'/' ∷ b'{' ∷ t
      → ((q u : Bytes) → path ≡ q ++ b'/' ∷ b'{' ∷ u → length p ≤ length q)
      → First path (some p)

-- A path of which the first two bytes are not `/{`.
module _ (c d : ℕ) (s : Bytes) (other : ((c == b'/') && (d == b'{')) ≡ false) where
  not_here : (t : Bytes) → c ∷ d ∷ s ≢ b'/' ∷ b'{' ∷ t
  not_here t e = ground (arith, e, other)

  First-behind :
      (r : Option Bytes)
      → First (d ∷ s) r
      → First (c ∷ d ∷ s) (elim r [ none ↦ none | some p ↦ some (c ∷ p) ])
  First-behind _ (absent h) = absent none_there
    where
      none_there : (q t : Bytes) → c ∷ d ∷ s ≢ q ++ b'/' ∷ b'{' ∷ t
      none_there [] t e = not_here t e
      none_there (x ∷ q) t e = h q t (ground (arith, e))
  First-behind _ (behind p t e first) = behind (c ∷ p) t (ap (λ v. c ∷ v) e) least
    where
      least : (q u : Bytes) → c ∷ d ∷ s ≡ q ++ b'/' ∷ b'{' ∷ u → length (c ∷ p) ≤ length q
      least [] u i = absurd (not_here u i)
      least (x ∷ q) u i = ground (arith, first q u (ground (arith, i)))

-- If the path has a `/{`, `fetch_path_vars_prefix` returns what stands before the first one, and
-- otherwise it returns false.
pub fetch_path_vars_prefix-First : (path : Bytes) → First path (fetch_path_vars_prefix path)
unfolding fetch_path_vars_prefix
fetch_path_vars_prefix-First [] = absent none_there
  where
    none_there : (q t : Bytes) → [] ≢ q ++ b'/' ∷ b'{' ∷ t
    none_there [] t e = ground (arith, e)
    none_there (x ∷ q) t e = ground (arith, e)
fetch_path_vars_prefix-First (c ∷ []) = absent none_there
  where
    none_there : (q t : Bytes) → c ∷ [] ≢ q ++ b'/' ∷ b'{' ∷ t
    none_there [] t e = ground (arith, e)
    none_there (x ∷ []) t e = ground (arith, e)
    none_there (x ∷ y ∷ q) t e = ground (arith, e)
fetch_path_vars_prefix-First (c ∷ d ∷ s) = elim (Bool-cases ((c == b'/') && (d == b'{'))) [
  | inl e ↦ rw e (behind [] s (ground (arith, e)) (λ q u i. omega arith))
  | inr e ↦ rw e (First-behind c d s e _ (fetch_path_vars_prefix-First (d ∷ s)))
]
