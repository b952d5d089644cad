-- ===== src/Plain/Clone.antt =====
-- What `clone` of a plain copies.
use rellaf.Prelude.{Option, Bytes, ◌≡◌, refl, false}
use rellaf.Prelude.Ints.{same_int_iff, same_int, pos}
use rellaf.Cast.{Kind, char, Val, Reals}
use rellaf.Plain.{type_of, plain, plain_of_funcs, clone_plain}

type_of-some : (k : Kind) → same_int (type_of k).code (pos 0) ≡ false
type_of-some char = refl
type_of-some _ = refl

-- A plain without a tag that was made with a value, and that got other functions since or not, is copied
-- by `clone` whole. One that was made with functions is not: the copy has the type of the value's, the printer of
-- that type, no parser, and a value that is not set.
pub clone_plain-funcs :
    (r : Reals) (k : Kind) (unset v : Val) (parse_func : Option (Bytes → Val))
    (str_func : Option (Val → Bytes))
    → (let p = record (plain r k v) { parse_func = parse_func; str_func = str_func } in
        clone_plain r unset p ≡ p)
      × (clone_plain r unset (plain_of_funcs r k v parse_func str_func) ≡ plain r k unset)
unfolding clone_plain
clone_plain-funcs r k unset v pf sf = (
  rw ((same_int_iff (type_of k).code (type_of k).code).1 refl, clone_plain) refl,
  rw (type_of-some k, clone_plain) refl,
)
