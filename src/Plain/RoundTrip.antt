-- ===== src/Plain/RoundTrip.antt =====
-- A printed value is read back.
use rellaf.Prelude.{true, false, ◌≡◌, refl, ap, arith}
use rellaf.Prelude.Ints.{pos, same_int_iff}
use rellaf.Prelude.Maps.{same_iff}
use rellaf.Numbers.Digits.{strtol-to_string, strtoul-to_string}
use rellaf.Cast.{Kind, float, double, Val, number, Reals, cast}
use rellaf.Cast.Values.{
  Fits, char_fits, int16_fits, int_fits, int64_fits, uint16_fits, uint32_fits, uint64_fits,
  bool_fits, float_fits, double_fits, str_fits, wrap_16_self, wrap_32_self, wrap_64_self,
}
use rellaf.Plain.{plain, type_str, set_parse, equal_parse, plain_str, same_val}

-- Printing a float drops digits.
abbrev pub IsExact : Kind → Type 0
IsExact float = ⊥
IsExact double = ⊥
IsExact _ = Unit

module _ (r : Reals) where
  cast-type_str : (k : Kind) (v : Val) → IsExact k → Fits k v → cast r k (type_str r k v) ≡ v
  unfolding cast type_str
  cast-type_str _ _ e (char_fits c h) = refl
  cast-type_str _ _ e (int16_fits z h) =
      ap number (rw (strtol-to_string z (omega arith)) (wrap_16_self z h))
  cast-type_str _ _ e (int_fits z h) =
      ap number (rw (strtol-to_string z (omega arith)) (wrap_32_self z h))
  cast-type_str _ _ e (int64_fits z h) = ap number (strtol-to_string z h)
  cast-type_str _ _ e (uint16_fits n h) = rw (strtoul-to_string n (omega arith)) (ground (arith, h))
  cast-type_str _ _ e (uint32_fits n h) = rw (strtoul-to_string n (omega arith)) (ground (arith, h))
  cast-type_str _ _ e (uint64_fits n h) =
      rw (strtoul-to_string n h) (ap (λ m. number (pos m)) (wrap_64_self n h))
  cast-type_str _ _ e (bool_fits true) = refl
  cast-type_str _ _ e (bool_fits false) = refl
  cast-type_str _ _ e (float_fits x) = elim e [ ]
  cast-type_str _ _ e (double_fits x) = elim e [ ]
  cast-type_str _ _ e (str_fits s) = refl

  same_val_self : (k : Kind) (v : Val) → IsExact k → Fits k v → same_val r k v v ≡ true
  same_val_self _ _ e (char_fits c h) = ground arith
  same_val_self _ _ e (int16_fits z h) = (same_int_iff z z).1 refl
  same_val_self _ _ e (int_fits z h) = (same_int_iff z z).1 refl
  same_val_self _ _ e (int64_fits z h) = (same_int_iff z z).1 refl
  same_val_self _ _ e (uint16_fits n h) = ground arith
  same_val_self _ _ e (uint32_fits n h) = ground arith
  same_val_self _ _ e (uint64_fits n h) = ground arith
  same_val_self _ _ e (bool_fits true) = refl
  same_val_self _ _ e (bool_fits false) = refl
  same_val_self _ _ e (float_fits x) = elim e [ ]
  same_val_self _ _ e (double_fits x) = elim e [ ]
  same_val_self _ _ e (str_fits s) = (same_iff s s).1 refl

  -- A value of its type, of any but the two real types: a plain of the same type whose value is set
  -- from the printed text has the value, and compares equal to that text.
  pub set_parse-plain_str :
      (k : Kind) (v w : Val)
      → IsExact k
      → Fits k v
      → (set_parse r (plain_str (plain r k v)) (plain r k w) ≡ (true, plain r k v))
        × (equal_parse r (plain_str (plain r k v)) (plain r k v) ≡ true)
  unfolding set_parse equal_parse plain_str
  set_parse-plain_str k v w e h = rw (cast-type_str k v e h) (refl, same_val_self k v e h)
