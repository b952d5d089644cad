-- ===== src/Str/Cases.antt =====
-- The comparisons of C strings without regard to case that the program uses.
use rellaf.Prelude.{ℕ, ◌+◌, [], ◌∷◌, Bool, true, false, Bytes, ◌&&◌, ◌==◌, leb, if◌then◌else◌}

abbrev pub lower : ℕ → ℕ
lower c = if leb b'A' c && leb c b'Z' then c + 32 else c

-- `strcasecmp(s, t) == 0`
unfoldable pub same_case : Bytes → Bytes → Bool
same_case [] [] = true
same_case [] (d ∷ t) = false
same_case (c ∷ s) [] = false
same_case (c ∷ s) (d ∷ t) = lower c == lower d && same_case s t
