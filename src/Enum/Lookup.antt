-- ===== src/Enum/Lookup.antt =====
-- What the lookups of an enum find, in the terms of the list of its items.
use rellaf.Prelude.{
  List, [], ◌∷◌, Bool, true, false, Option, none, some, Bytes, ◌≡◌, refl, ◌∙◌, arith, if◌then◌else◌,
  sym,
}
use rellaf.Prelude.Maps.{find, find-emplace, bytes_eq, same, same_iff}
use rellaf.Prelude.Ints.{ℤ, same_int, same_int_iff, int_eq}
use rellaf.Enum.{
  EnumItem, no_item, EnumRefs, reg, reg_all, e, get_by_name, get_by_code, exist_name, exist_code,
}

-- The first item of the declarations that passes a test.
unfoldable pub first : (EnumItem → Bool) → List EnumItem → Option EnumItem
first test [] = none
first test (item ∷ items) = if test item then some item else first test items

abbrev pub named : Bytes → EnumItem → Bool
named name item = same item.name name

abbrev pub coded : ℤ → EnumItem → Bool
coded code item = same_int item.code code

abbrev found_code : Option EnumItem → Option ℤ
found_code none = none
found_code (some item) = some item.code

abbrev found_name : Option EnumItem → Option Bytes
found_name none = none
found_name (some item) = some item.name

abbrev or {ℓ} : {A : Type ℓ} → Option A → Option A → Option A
or none b = b
or (some a) b = some a

-- A new entry stands behind the old ones.
merge {ℓ} :
    {A : Type ℓ} (b : Bool) (x y z : Option A) (v : A)
    → ((b ≡ true) → x ≡ y)
    → or (if b then elim x [ none ↦ some v | some w ↦ some w ] else y) z
      ≡ or y (if b then some v else z)
merge true x none z v h = rw (h refl) refl
merge true x (some w) z v h = rw (h refl) refl
merge false x y z v h = refl

found_code-if :
    (b : Bool) (item : EnumItem) (r : Option EnumItem)
    → (if b then some item.code else found_code r) ≡ found_code (if b then some item else r)
found_code-if true item r = refl
found_code-if false item r = refl

found_name-if :
    (b : Bool) (item : EnumItem) (r : Option EnumItem)
    → (if b then some item.name else found_name r) ≡ found_name (if b then some item else r)
found_name-if true item r = refl
found_name-if false item r = refl

or-none {ℓ} : {A : Type ℓ} (o : Option A) → or o none ≡ o
or-none none = refl
or-none (some a) = refl

find-names :
    (name : Bytes) (items : List EnumItem) (inst : EnumRefs)
    → find name (reg_all items inst).names
      ≡ or (find name inst.names) (found_code (first (named name) items))
unfolding reg_all reg first
find-names name [] inst = sym (or-none (find name inst.names))
find-names name (item ∷ items) inst =
    find-names name items (reg item inst)
    ∙ rw
        (
          sym (found_code-if (named name item) item (first (named name) items)),
          find-emplace item.name name item.code inst.names,
        )
        (merge (named name item) (find item.name inst.names) (find name inst.names)
          (found_code (first (named name) items)) item.code
          (λ h. rw ((same_iff item.name name).0 h) refl))

find-codes :
    (code : ℤ) (items : List EnumItem) (inst : EnumRefs)
    → find code (reg_all items inst).codes
      ≡ or (find code inst.codes) (found_name (first (coded code) items))
unfolding reg_all reg first
find-codes code [] inst = sym (or-none (find code inst.codes))
find-codes code (item ∷ items) inst =
    find-codes code items (reg item inst)
    ∙ rw
        (
          sym (found_name-if (coded code item) item (first (coded code) items)),
          find-emplace item.code code item.name inst.codes,
        )
        (merge (coded code item) (find item.code inst.codes) (find code inst.codes)
          (found_name (first (coded code) items)) item.name
          (λ h. rw ((same_int_iff item.code code).0 h) refl))

first-holds :
    (test : EnumItem → Bool) (items : List EnumItem) (item : EnumItem)
    → first test items ≡ some item
    → test item ≡ true
unfolding first
first-holds test [] item h = absurd (ground (arith, h))
first-holds test (i ∷ items) item h = ground (arith, h, first-holds test items item)

abbrev pub or_no_item : Option EnumItem → EnumItem
or_no_item none = no_item
or_no_item (some item) = item

abbrev pub is_some : Option EnumItem → Bool
is_some none = false
is_some (some item) = true

module _ (items : List EnumItem) where
  names-e : (name : Bytes) → find name (e items).names ≡ found_code (first (named name) items)
  unfolding e find
  names-e name = find-names name items _

  codes-e : (code : ℤ) → find code (e items).codes ≡ found_name (first (coded code) items)
  unfolding e find
  codes-e code = find-codes code items _

  pub get_by_name-first :
      (name : Bytes) (o : Option EnumItem)
      → first (named name) items ≡ o
      → (get_by_name (e items) name ≡ or_no_item o) × (exist_name (e items) name ≡ is_some o)
  unfolding get_by_name exist_name
  get_by_name-first name none h = rw (names-e name, get_by_name, exist_name, h) (refl, refl)
  get_by_name-first name (some item) h =
      rw
        (
          names-e name,
          get_by_name,
          exist_name,
          h,
          sym ((same_iff item.name name).0 (first-holds (named name) items item h)),
        )
        (refl, refl)

  pub get_by_code-first :
      (code : ℤ) (o : Option EnumItem)
      → first (coded code) items ≡ o
      → (get_by_code (e items) code ≡ or_no_item o) × (exist_code (e items) code ≡ is_some o)
  unfolding get_by_code exist_code
  get_by_code-first code none h = rw (codes-e code, get_by_code, exist_code, h) (refl, refl)
  get_by_code-first code (some item) h =
      rw
        (
          codes-e code,
          get_by_code,
          exist_code,
          h,
          sym ((same_int_iff item.code code).0 (first-holds (coded code) items item h)),
        )
        (refl, refl)

-- A lookup by name returns the first item of that name in the order of declaration, and a lookup by
-- code the first one of that code, or else the empty item; `exist` says which of the two it is.
pub get-first :
    (items : List EnumItem) (name : Bytes) (code : ℤ)
    → (get_by_name (e items) name ≡ or_no_item (first (named name) items))
      × (exist_name (e items) name ≡ is_some (first (named name) items))
      × (get_by_code (e items) code ≡ or_no_item (first (coded code) items))
      × (exist_code (e items) code ≡ is_some (first (coded code) items))
get-first items name code =
    let (by_name, is_name) = get_by_name-first items name (first (named name) items) refl in
    let (by_code, is_code) = get_by_code-first items code (first (coded code) items) refl in
    (by_name, is_name, by_code, is_code)
