-- ===== src/Enum/Tests.antt =====
-- Runs of the lookups of an enum and instances of their theorems.
use rellaf.Prelude.{◌≡◌, refl, true, All, codes}
use rellaf.Prelude.Maps.{find, emplace, same}
use rellaf.Prelude.Ints.{pos}
use rellaf.Enum.{
  item_eq, model_types, e, reg_all, reg, get_by_name, get_by_code, exist_name, exist_code,
}
use rellaf.Enum.Lookup.{first, named, coded, or_no_item, is_some, get-first}
use rellaf.Enum.Distinct.{get-distinct}

get_int64 :
    get_by_name (e model_types) (codes "INT64") ≡ record { code = pos 4; name = codes "INT64" }
unfolding get_by_name find e reg_all reg emplace same
get_int64 = refl

-- The empty item has the code of `no`.
get_unknown :
    item_eq
      (get_by_name (e model_types) (codes "LONG"))
      (record { code = pos 0; name = codes "no" })
    ≡ true
unfolding get_by_name item_eq find e reg_all reg emplace same
get_unknown = refl

types_first :
    (get_by_name (e model_types) (codes "BOOL")
      ≡ or_no_item (first (named (codes "BOOL")) model_types))
    × (exist_name (e model_types) (codes "BOOL")
        ≡ is_some (first (named (codes "BOOL")) model_types))
    × (get_by_code (e model_types) (pos 99) ≡ or_no_item (first (coded (pos 99)) model_types))
    × (exist_code (e model_types) (pos 99) ≡ is_some (first (coded (pos 99)) model_types))
types_first = get-first model_types (codes "BOOL") (pos 99)

types_found :
    All
      (λ i. (get_by_name (e model_types) i.name ≡ i) × (get_by_code (e model_types) i.code ≡ i))
      model_types
unfolding same
types_found = get-distinct model_types refl
