-- ===== src/Enum/Distinct.antt =====
-- Enums whose items have different names and different codes.
use rellaf.Prelude.{List, [], ◌∷◌, Bool, true, false, not, ◌&&◌, some, All, ◌≡◌, refl, arith}
use rellaf.Prelude.Maps.{same, same_iff}
use rellaf.Prelude.Ints.{same_int, same_int_iff}
use rellaf.Enum.{EnumItem, e, get_by_name, get_by_code}
use rellaf.Enum.Lookup.{first, named, coded, get_by_name-first, get_by_code-first}

-- The item clashes with none of these.
abbrev apart : EnumItem → List EnumItem → Bool
apart i [] = true
apart i (j ∷ js) = not (same i.name j.name) && (not (same_int i.code j.code) && apart i js)

abbrev pub distinct : List EnumItem → Bool
distinct [] = true
distinct (i ∷ is) = apart i is && distinct is

abbrev Found : List EnumItem → EnumItem → Type 0
Found items i = (first (named i.name) items ≡ some i) × (first (coded i.code) items ≡ some i)

Found-first : (i : EnumItem) (is : List EnumItem) → Found (i ∷ is) i
unfolding first
Found-first i is =
    (rw ((same_iff i.name i.name).1 refl) refl, rw ((same_int_iff i.code i.code).1 refl) refl)

Found-later :
    (i j : EnumItem) (is : List EnumItem)
    → same i.name j.name ≡ false
    → same_int i.code j.code ≡ false
    → Found is j
    → Found (i ∷ is) j
unfolding first
Found-later i j is n c h = (rw n h.0, rw c h.1)

skip_item :
    (i : EnumItem) (is js : List EnumItem)
    → apart i js ≡ true
    → All (Found is) js
    → All (Found (i ∷ is)) js
skip_item i is [] a h = tt
skip_item i is (j ∷ js) a h = (
  Found-later i j is (ground (arith, a)) (ground (arith, a)) h.0,
  skip_item i is js (ground (arith, a)) h.1,
)

Found-items : (items : List EnumItem) → distinct items ≡ true → All (Found items) items
Found-items [] h = tt
Found-items (i ∷ is) h =
    (Found-first i is, skip_item i is is (ground (arith, h)) (Found-items is (ground (arith, h))))

abbrev IsRead : List EnumItem → EnumItem → Type 0
IsRead items i = (get_by_name (e items) i.name ≡ i) × (get_by_code (e items) i.code ≡ i)

reads : (items is : List EnumItem) → All (Found items) is → All (IsRead items) is
reads items [] h = tt
reads items (i ∷ is) h = (
  (
    (get_by_name-first items i.name (some i) h.0.0).0,
    (get_by_code-first items i.code (some i) h.0.1).0,
  ),
  reads items is h.1,
)

-- If no two items of an enum have a name or a code in common, both lookups return every item.
pub get-distinct :
    (items : List EnumItem)
    → distinct items ≡ true
    → All (λ i. (get_by_name (e items) i.name ≡ i) × (get_by_code (e items) i.code ≡ i)) items
get-distinct items h = reads items items (Found-items items h)
