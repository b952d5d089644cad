-- ===== src/MysqlEscape/Tests.antt =====
-- Runs of the escaping, and the theorems at inputs that meet their hypotheses.
use rellaf.Prelude.{
  ◌*◌, ◌≤◌, [], ◌∷◌, ◌++◌, true, false, none, some, Bytes, length, replicate, ◌≡◌, refl, codes,
  arith,
}
use rellaf.MysqlEscape.{
  gbk, utf8, emit_string, emit_quotes, escape_into, escape_string_for_mysql,
  escape_quotes_for_mysql, escape_field, escape_field_quote, ismbchar_gbk, mbcharlen_gbk,
  ismbchar_utf8, mbcharlen_utf8, write,
}
use rellaf.MysqlEscape.Charsets.{gbk-IsCharset, utf8-IsCharset}
use rellaf.MysqlEscape.Encode.{encode, escape_string-encode, escape_quotes-encode}
use rellaf.MysqlEscape.Literal.{read, read-escape_into}
use rellaf.MysqlEscape.Instance.{new_escape, instances, instances_wrong}
use rellaf.MysqlEscape.Field.{escaped, escape_field-most}

-- A quote, a whole GBK character, and the head of one that is cut off by a quote.
abbrev mixed : Bytes
mixed = b'\'' ∷ 0xbf ∷ 0x5c ∷ 0xbf ∷ b'\'' ∷ []

escape_mixed :
    (escape_into gbk mixed).out ≡ b'\\' ∷ b'\'' ∷ 0xbf ∷ 0x5c ∷ b'\\' ∷ 0xbf ∷ b'\\' ∷ b'\'' ∷ []
unfolding escape_into escape_field_quote escape_string_for_mysql write emit_string ismbchar_gbk
    mbcharlen_gbk
escape_mixed = refl

double_backquote : (escape_field_quote utf8 (codes "a`b") b'`').out ≡ codes "a``b"
unfolding escape_field_quote escape_quotes_for_mysql write emit_quotes ismbchar_utf8
double_backquote = refl

text_written :
    (escape_string_for_mysql gbk 0 mixed
      ≡ record { out = encode gbk (emit_string gbk) 0 mixed; overflow = false })
    × (length (encode gbk (emit_string gbk) 0 mixed) ≤ 2 * length mixed)
text_written = escape_string-encode gbk-IsCharset mixed

quotes_written :
    (escape_quotes_for_mysql utf8 0 (codes "a`b") b'`'
      ≡ record { out = encode utf8 (emit_quotes b'`') 0 (codes "a`b"); overflow = false })
    × (length (encode utf8 (emit_quotes b'`') 0 (codes "a`b")) ≤ 2 * length (codes "a`b"))
quotes_written = escape_quotes-encode utf8-IsCharset (codes "a`b") b'`'

read-escape_into_example :
    ((escape_into gbk mixed).overflow ≡ false)
    × (read gbk 0 ((escape_into gbk mixed).out ++ b'\'' ∷ codes ", 1)")
        ≡ some (mixed, codes ", 1)"))
read-escape_into_example = read-escape_into gbk gbk-IsCharset mixed (codes ", 1)") (omega arith)

escape_field-most_example :
    (escape_field utf8 false (codes "it's")
      ≡ some (record { ret = true; out = escaped utf8 (codes "it's") }))
    × (escape_field utf8 true (replicate 600 b'\'') ≡ none)
escape_field-most_example =
    escape_field-most utf8-IsCharset false (codes "it's") 600 (omega arith) (omega arith)

-- The value behind the byte 0xbf and a quote is part of the statement.
instances_wrong_example :
    (instances none (codes "utf8" ∷ codes "GBK" ∷ []) ≡ some utf8)
    × (read gbk 0
          ((escape_into utf8 (0xbf ∷ b'\'' ∷ b' ' ∷ codes "or 1 = 1 -- ")).out ++ b'\'' ∷ codes ")")
        ≡ some (
          0xbf ∷ b'\\' ∷ [],
          (escape_into utf8 (b' ' ∷ codes "or 1 = 1 -- ")).out ++ b'\'' ∷ codes ")",
        ))
instances_wrong_example =
    instances_wrong (codes "utf8") (codes "GBK" ∷ []) 0xbf b' ' (codes "or 1 = 1 -- ") (codes ")")
      (unfold new_escape in refl) (omega arith) (omega arith) (unfold mbcharlen_utf8 in refl)
