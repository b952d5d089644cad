-- ===== src/Plain/Tests.antt =====
-- Runs of plains and instances of their theorems.
use rellaf.Prelude.{[], none, true, false, codes, ◌≡◌, refl, arith}
use rellaf.Prelude.Ints.{pos, negsuc}
use rellaf.Cast.Sample.{no_reals}
use rellaf.Cast.{int16, uint16, int, bool, str, Val, number, truth, text, cast}
use rellaf.Cast.Values.{Fits, int16_fits, cast-Fits}
use rellaf.Numbers.{digits}
use rellaf.Plain.{type_str, plain, plain_of_funcs, set_parse, equal_parse, plain_str, clone_plain}
use rellaf.Plain.RoundTrip.{set_parse-plain_str}
use rellaf.Plain.Clone.{clone_plain-funcs}

cast_wraps :
    (cast no_reals int16 (codes " -40000x") ≡ number (pos 25536))
    × (cast no_reals uint16 (codes "-1") ≡ number (pos 65535))
    × (cast no_reals int (codes "99999999999999999999") ≡ number (negsuc 0))
    × (cast no_reals bool (codes "000") ≡ truth false)
unfolding cast
cast_wraps = (refl, refl, refl, refl)

print_number : plain_str (plain no_reals int16 (number (negsuc 1233))) ≡ codes "-1234"
unfolding plain_str type_str digits
print_number = refl

narrowed_number : Fits int16 (cast no_reals int16 (codes "70000"))
narrowed_number = cast-Fits no_reals int16 (codes "70000") (omega arith)

abbrev minus : Val
minus = number (negsuc 1233)

set_parse-plain_str_example :
    (set_parse no_reals
        (plain_str (plain no_reals int16 minus))
        (plain no_reals int16 (number (pos 0)))
      ≡ (true, plain no_reals int16 minus))
    × (equal_parse no_reals (plain_str (plain no_reals int16 minus)) (plain no_reals int16 minus)
        ≡ true)
set_parse-plain_str_example =
    set_parse-plain_str no_reals int16 minus (number (pos 0)) tt
      (int16_fits (negsuc 1233) (omega arith))

cloned :
    (clone_plain no_reals
        (text [])
        (record (plain no_reals str (text (codes "a"))) { parse_func = none; str_func = none })
      ≡ record (plain no_reals str (text (codes "a"))) { parse_func = none; str_func = none })
    × (clone_plain no_reals (text []) (plain_of_funcs no_reals str (text (codes "a")) none none)
        ≡ plain no_reals str (text []))
cloned = clone_plain-funcs no_reals str (text []) (text (codes "a")) none none
