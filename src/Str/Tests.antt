-- ===== src/Str/Tests.antt =====
-- Runs of `split`.
use rellaf.Prelude.{List, [], ◌∷◌, some, Bytes, ◌≡◌, refl, codes}
use rellaf.Str.{split}
use rellaf.Str.Sections.{sections, split_total, split-sections}

split_path : split (codes "//a/bc/") (codes "/") ≡ some (codes "a" ∷ codes "bc" ∷ [])
unfolding split
split_path = refl

split_empty_delims : split (codes "ab") [] ≡ some []
unfolding split
split_empty_delims = refl

-- A delimiter of two bytes leaves its second byte at the front of the next section.
split_two : split (codes "a, b") (codes ", ") ≡ some (codes "a" ∷ codes " b" ∷ [])
unfolding split
split_two = refl

-- The theorems at these texts.
split_ends : (out : List Bytes) × (split (codes "a, b") (codes ", ") ≡ some out)
split_ends = split_total (codes "a, b") (codes ", ")

slashes_split : split (codes "//a/bc/") (codes "/") ≡ some (sections b'/' [] (codes "//a/bc/"))
slashes_split = split-sections (codes "//a/bc/") b'/'
