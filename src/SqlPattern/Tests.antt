-- ===== src/SqlPattern/Tests.antt =====
-- Runs of `explode`, and the theorems at inputs that meet their hypotheses.
use rellaf.Prelude.{List, ◌++◌, [], ◌∷◌, true, false, none, some, ◌≡◌, refl, codes, arith}
use rellaf.SqlPattern.{
  ok, ill_token, ill_begin, ill_end, unmatch, none_field, literal, field, list, Stub, Exploded,
  explode,
}
use rellaf.SqlPattern.Render.{WellFormed, render}
use rellaf.SqlPattern.Sound.{Explains, explode-Explains, explode-IsAscii}
use rellaf.SqlPattern.Complete.{explode-render}
use rellaf.SqlPattern.Faults.{explode_outside}

abbrev by_id : List Stub
by_id =
    record { type = literal; value = codes "id=" }
    ∷ record { type = field; value = codes "a.id" }
    ∷ record { type = list; value = codes "ids" }
    ∷ []

explode-by_id :
    explode (codes "id=#{a.id}#[ids]") ≡ some (record { ret = true; pieces = by_id; err = ok })
unfolding explode
explode-by_id = refl

explode_errors :
    (explode (codes "}") ≡ some (record { ret = false; pieces = []; err = ill_token }))
    × (explode (codes "#a") ≡ some (record { ret = false; pieces = []; err = ill_begin }))
    × (explode (codes "#{a#") ≡ some (record { ret = false; pieces = []; err = ill_end }))
    × (explode (codes "#{a]") ≡ some (record { ret = false; pieces = []; err = unmatch }))
    × (explode (codes "#{}") ≡ some (record { ret = false; pieces = []; err = none_field }))
unfolding explode
explode_errors = (refl, refl, refl, refl, refl)

by_id-WellFormed : WellFormed by_id
by_id-WellFormed = (
  record { filled = cc; plain = omega arith },
  refl,
  (
    record { filled = cc; plain = omega arith },
    refl,
    (record { filled = cc; plain = omega arith }, refl, tt),
  ),
)

explode-Explains_example :
    Explains (codes "id=#{a.id}#[ids]") (record { ret = true; pieces = by_id; err = ok })
explode-Explains_example =
    explode-Explains (codes "id=#{a.id}#[ids]") (record { ret = true; pieces = by_id; err = ok })
      explode-by_id

explode-IsAscii_example : (r : Exploded) × (explode (codes "#{a") ≡ some r)
explode-IsAscii_example = explode-IsAscii (codes "#{a") (omega arith)

explode-render_example :
    explode (render by_id) ≡ some (record { ret = true; pieces = by_id; err = ok })
explode-render_example = explode-render by_id by_id-WellFormed

wide_byte : explode (codes "=" ++ 0xe4 ∷ codes "#{a}") ≡ none
wide_byte = explode_outside (codes "=") (codes "#{a}") 0xe4 (omega arith) (omega arith)
