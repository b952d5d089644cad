-- ===== src/SqlBuilder/Values.antt =====
-- Which values go into a statement, and what the database reads them as.
use rellaf.Prelude.{
  ℕ, suc, ◌+◌, ◌/◌, ltb, [], ◌∷◌, ◌++◌, append_assoc, Bool, true, false, some, Bytes, All,
  All-append, ◌≡◌, ◌⊎◌, refl, ap, inl, inr, Bool-cases, arith,
}
use rellaf.Prelude.Ints.{ℤ, pos, negsuc}
use rellaf.Numbers.{digits, to_string}
use rellaf.Numbers.Digits.{IsDigit, digits-IsDigit}
use rellaf.Cast.{Kind, Val, Reals}
use rellaf.Cast.Values.{
  Fits, char_fits, int16_fits, int_fits, int64_fits, uint16_fits, uint32_fits, uint64_fits,
  bool_fits, float_fits, double_fits, str_fits,
}
use rellaf.Plain.{plain, plain_str, type_str}
use rellaf.Plain.RoundTrip.{IsExact}
use rellaf.MysqlEscape.{Charset}
use rellaf.MysqlEscape.Charsets.{IsCharset}
use rellaf.MysqlEscape.Literal.{read, Ends}
use rellaf.MysqlEscape.Field.{escaped, HasRoom, escape_field-HasRoom, read-escaped}
use rellaf.Outcome.{returned}
use rellaf.SqlBuilder.{SqlVal, get_plain_val_str, append_sql}

module _ {cs : Charset} (law : IsCharset cs) (allocated : Bool) where
  -- In every lawful character set, `append_sql` with a value that is quoted and escaped returns true,
  -- and the text that it puts behind the statement is read as a literal with just this value, whatever
  -- its bytes are and whatever follows but another quote, if the escaped value fits its buffer: as each
  -- value of at most 511 bytes does, and each longer one whose escaped text with its NUL is no longer
  -- than the buffer, if that can be had.
  pub append_sql-read :
      (val sql rest : Bytes)
      → HasRoom law allocated val
      → Ends rest
      → (t u : Bytes) × (append_sql cs allocated
            (record { val = val; need_quote = true; need_escape = true })
            sql
          ≡ returned t)
        × (t ++ rest ≡ sql ++ b'\'' ∷ u)
        × (read cs 0 u ≡ some (val, rest))
  unfolding append_sql
  append_sql-read val sql rest room end =
      let room_for = escape_field-HasRoom law allocated val room in
      (
        sql ++ b'\'' ∷ (escaped cs val ++ b'\'' ∷ []),
        escaped cs val ++ b'\'' ∷ rest,
        rw (room_for, append_sql) (ap returned (simp append_assoc)),
        simp append_assoc,
        read-escaped law val rest end,
      )

-- At least one digit, and nothing else.
abbrev pub IsNatural : Bytes → Type 0
IsNatural [] = ⊥
IsNatural (c ∷ s) = IsDigit c × All IsDigit s

-- A number: a natural, or a `-` in front of one.
abbrev pub IsNumeric : Bytes → Type 0
IsNumeric [] = ⊥
IsNumeric (c ∷ s) = ((c ≡ b'-') × IsNatural s) ⊎ IsNatural (c ∷ s)

append-IsNatural : (s : Bytes) (d : ℕ) → All IsDigit s → IsDigit d → IsNatural (s ++ d ∷ [])
append-IsNatural [] d h e = (e, tt)
append-IsNatural (c ∷ s) d h e = (h.0, All-append IsDigit s _ h.1 (e, tt))

digits-IsNatural : (f n : ℕ) → IsNatural (digits (suc f) n)
unfolding digits
digits-IsNatural f n = elim (Bool-cases (ltb n 10)) [
  | inl e ↦ rw e (ground arith, tt)
  | inr e ↦ rw e (append-IsNatural (digits f (n / 10)) _ (digits-IsDigit f (n / 10)) (ground arith))
]

natural : (s : Bytes) → IsNatural s → IsNumeric s
natural [] h = elim h [ ]
natural (c ∷ s) h = inr h

to_string-IsNumeric : (z : ℤ) → IsNumeric (to_string z)
unfolding to_string
to_string-IsNumeric (pos n) = natural (digits 20 n) (digits-IsNatural 19 n)
to_string-IsNumeric (negsuc n) = inl (refl, digits-IsNatural 19 (n + 1))

-- A value with its own type's printer is quoted and escaped, or not quoted and its text is a number: one or more digits,
-- with a `-` in front at most. This does not speak of floats and doubles.
pub get_plain_val_str-IsNumeric :
    (r : Reals) (k : Kind) (v : Val)
    → IsExact k
    → Fits k v
    → (s : SqlVal) × (get_plain_val_str (plain r k v) ≡ returned s)
      × (((s.need_quote ≡ true) × (s.need_escape ≡ true))
          ⊎ ((s.need_quote ≡ false) × IsNumeric s.val))
unfolding get_plain_val_str plain_str type_str
get_plain_val_str-IsNumeric r _ _ e (char_fits c h) = (_, refl, inl (refl, refl))
get_plain_val_str-IsNumeric r _ _ e (int16_fits z h) = (_, refl, inr (refl, to_string-IsNumeric z))
get_plain_val_str-IsNumeric r _ _ e (int_fits z h) = (_, refl, inr (refl, to_string-IsNumeric z))
get_plain_val_str-IsNumeric r _ _ e (int64_fits z h) = (_, refl, inr (refl, to_string-IsNumeric z))
get_plain_val_str-IsNumeric r _ _ e (uint16_fits n h) =
    (_, refl, inr (refl, to_string-IsNumeric (pos n)))
get_plain_val_str-IsNumeric r _ _ e (uint32_fits n h) =
    (_, refl, inr (refl, to_string-IsNumeric (pos n)))
get_plain_val_str-IsNumeric r _ _ e (uint64_fits n h) =
    (_, refl, inr (refl, to_string-IsNumeric (pos n)))
get_plain_val_str-IsNumeric r _ _ e (bool_fits true) = (_, refl, inr (refl, inr (refl, tt)))
get_plain_val_str-IsNumeric r _ _ e (bool_fits false) = (_, refl, inr (refl, inr (refl, tt)))
get_plain_val_str-IsNumeric r _ _ e (float_fits x) = elim e [ ]
get_plain_val_str-IsNumeric r _ _ e (double_fits x) = elim e [ ]
get_plain_val_str-IsNumeric r _ _ e (str_fits s) = (_, refl, inl (refl, refl))
