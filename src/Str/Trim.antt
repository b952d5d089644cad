-- ===== src/Str/Trim.antt =====
-- `trim_left`, `trim_right` and `trim` of include/str.hpp.
use mathlib.Core.List.{reverse}
use rellaf.Numbers.{is_space}
use rellaf.Prelude.{ℕ, [], ◌∷◌, Bool, false, ◌||◌, Bytes, ◌==◌, is_empty, if◌then◌else◌}

any_equal : ℕ → Bytes → Bool
any_equal ch [] = false
any_equal ch (c ∷ any_of) = ch == c || any_equal ch any_of

-- What `find_if` passes over.
abbrev is_trimmed : Bytes → ℕ → Bool
unfolding any_equal
is_trimmed any_of ch = if is_empty any_of then is_space ch else any_equal ch any_of

unfoldable pub erase_front : (ℕ → Bool) → Bytes → Bytes
erase_front over [] = []
erase_front over (c ∷ s) = let rest = erase_front over s in if over c then rest else c ∷ s

unfoldable pub trim_left : Bytes → Bytes → Bytes
unfolding erase_front any_equal
trim_left any_of s = erase_front (is_trimmed any_of) s

unfoldable pub trim_right : Bytes → Bytes → Bytes
unfolding erase_front any_equal
trim_right any_of s = reverse (erase_front (is_trimmed any_of) (reverse s))

-- The bytes that the caller names are not passed on.
unfoldable pub trim : Bytes → Bytes → Bytes
unfolding trim_left trim_right
trim any_of s = trim_right [] (trim_left [] s)
