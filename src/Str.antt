-- ===== src/Str.antt =====
-- `split` of include/str.hpp.
pub mod Sections
pub mod Trim
pub mod Cases
mod Tests
use rellaf.Prelude.{
  ℕ, zero, suc, ◌+◌, ◌-◌, List, [], ◌∷◌, ◌++◌, Bool, true, false, Option, none, some, Bytes, ◌&&◌,
  ◌==◌, ltb, if◌then◌else◌, is_empty, take, drop, length,
}

is_prefix : Bytes → Bytes → Bool
is_prefix [] s = true
is_prefix (d ∷ ds) [] = false
is_prefix (d ∷ ds) (c ∷ s) = d == c && is_prefix ds s

abbrev bump : Option ℕ → Option ℕ
bump none = none
bump (some i) = some (suc i)

-- `s.find(delims)`, with `none` for `npos`.
pub find : Bytes → Bytes → Option ℕ
unfolding is_prefix
find [] delims = if is_empty delims then some 0 else none
find (c ∷ s) delims =
    let rest = find s delims in if is_prefix delims (c ∷ s) then some 0 else bump rest

abbrev shift : ℕ → Option ℕ → Option ℕ
shift n none = none
shift n (some i) = some (n + i)

-- `str.find(delims, previous)`.
pub find_from : Bytes → Bytes → ℕ → Option ℕ
unfolding find
find_from str delims previous =
    if ltb (length str) previous then none else shift previous (find (drop previous str) delims)

abbrev substr : Bytes → ℕ → ℕ → Bytes
substr str pos count = take count (drop pos str)

-- The `while` loop on fuel; `none` means that the fuel ran out.
pub split_loop : ℕ → Bytes → Bytes → ℕ → List Bytes → Option (List Bytes)
split_loop zero str delims previous cont = none
split_loop (suc f) str delims previous cont = elim (find_from str delims previous) [
  | none ↦ some (if ltb previous (length str) then cont ++ drop previous str ∷ [] else cont)
  | some current ↦
      split_loop f str delims (current + 1) (
        if ltb previous current
        then cont ++ substr str previous (current - previous) ∷ []
        else cont)
]

-- The container that the caller passes is empty.
unfoldable pub split : Bytes → Bytes → Option (List Bytes)
unfolding split_loop find_from
split str delims = split_loop (length str + 2) str delims 0 []
