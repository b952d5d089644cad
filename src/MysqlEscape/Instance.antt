-- ===== src/MysqlEscape/Instance.antt =====
-- `SqlEscape::instance` and the constructor, of include/mysql_escape.h: the one instance has the
-- character set of the first call.
use rellaf.Prelude.{
  ℕ, zero, suc, ◌≤◌, ◌<◌, List, [], ◌∷◌, ◌++◌, Option, none, some, Bytes, codes, if◌then◌else◌, ◌≡◌,
  ◌≢◌, refl, ap, ◌∙◌, arith, inl, inr,
}
use rellaf.Str.Cases.{same_case}
use rellaf.MysqlEscape.{
  Charset, gbk, utf8, ismbchar_gbk, mbcharlen_utf8, c_str, emit_string, escape_into,
  escape_field_quote,
}
use rellaf.MysqlEscape.Charsets.{IsCharset, gbk-IsCharset, utf8-IsCharset}
use rellaf.MysqlEscape.Encode.{encode, encode-mb, encode-one, escape_string-encode}
use rellaf.MysqlEscape.Literal.{
  read, push, Ends, emit_string_cases, not_mb, ascii, read-copy, read-mb, read-end,
}

-- The constructor; `none` ends the program.
unfoldable pub new_escape : Bytes → Option Charset
unfolding c_str same_case
new_escape encode =
    if same_case (c_str encode) (codes "GBK")
    then some gbk
    else if same_case (c_str encode) (codes "UTF8")
    then some utf8
    else none

-- A call; the argument is the static variable, `none` before the first call. The result is what the
-- call returns and leaves there, or the end of the program.
unfoldable pub instance_of : Option Charset → Bytes → Option Charset
unfolding new_escape
instance_of none encode = new_escape encode
instance_of (some made) encode = some made

-- The calls that the program has made.
unfoldable pub instances : Option Charset → List Bytes → Option Charset
unfolding instance_of
instances made [] = made
instances made (encode ∷ encodes) = elim (instance_of made encode) [
  | none ↦ none
  | some cs ↦ instances (some cs) encodes
]

instances_made : (cs : Charset) (encodes : List Bytes) → instances (some cs) encodes ≡ some cs
unfolding instances
instances_made cs [] = refl
instances_made cs (encode ∷ encodes) = instances_made cs encodes

-- Escaped text that is not empty does not begin with a quote.
module _ {cs : Charset} (law : IsCharset cs) where
  quote_is_one : (u : Bytes) → cs.ismbchar (b'\'' ∷ u) ≡ 0
  quote_is_one u = not_mb law b'\'' u (ascii law b'\'' (omega arith))

  encode-Ends : (d : ℕ) (s t : Bytes) → Ends (encode cs (emit_string cs) 0 (d ∷ s) ++ t)
  encode-Ends d s t = go (cs.ismbchar (d ∷ s)) refl
    where
      go : (n : ℕ) → cs.ismbchar (d ∷ s) ≡ n → Ends (encode cs (emit_string cs) 0 (d ∷ s) ++ t)
      go zero e = rw (encode-one cs (emit_string cs) d s e) (elim (emit_string_cases law d) [
        | inl (q, a, b, h) ↦ rw q b
        | inr (x, q, u) ↦ rw q (omega arith)
      ])
      go (suc m) e =
          rw (encode-mb cs (emit_string cs) d m s e) (omega (arith, law.head d m s e, law.high d))

utf8_alone : (c : ℕ) → 0 < c → c ≢ 10 → mbcharlen_utf8 c ≡ 0 → emit_string utf8 c ≡ c ∷ []
unfolding emit_string mbcharlen_utf8
utf8_alone c p q h = ground arith

gbk_pair : (c : ℕ) (s : Bytes) → 0x81 ≤ c → c ≤ 0xfe → gbk.ismbchar (c ∷ b'\\' ∷ s) ≡ 2
unfolding ismbchar_gbk
gbk_pair c s l h = ground arith

-- What the escaping for UTF-8 makes of a byte that begins no character there, and a quote.
escape_broken :
    (c : ℕ) (u : Bytes)
    → 0x81 ≤ c
    → mbcharlen_utf8 c ≡ 0
    → encode utf8 (emit_string utf8) 0 (c ∷ b'\'' ∷ u)
      ≡ c ∷ b'\\' ∷ b'\'' ∷ encode utf8 (emit_string utf8) 0 u
unfolding mbcharlen_utf8
escape_broken c u l h =
    rw
      (
        encode-one utf8 (emit_string utf8) c (b'\'' ∷ u)
            (not_mb utf8-IsCharset c (b'\'' ∷ u) (omega (arith, h))),
        encode-one utf8 (emit_string utf8) b'\'' u (quote_is_one utf8-IsCharset u),
        utf8_alone c (omega arith) (omega arith) h,
      )
      (unfold emit_string in refl)

read_pair :
    (c : ℕ) (s : Bytes)
    → 0x81 ≤ c
    → c ≤ 0xfe
    → Ends s
    → read gbk 0 (c ∷ b'\\' ∷ b'\'' ∷ s) ≡ some (c ∷ b'\\' ∷ [], s)
read_pair c s l h end =
    read-mb gbk-IsCharset c 1 b'\\' (b'\'' ∷ s) (gbk_pair c (b'\'' ∷ s) l h)
    ∙ ap (push c) (
        read-copy gbk-IsCharset b'\\' 0 (b'\'' ∷ s)
        ∙ ap (push b'\\') (read-end gbk-IsCharset s end))

-- If the first call names UTF-8, the instance stays that of UTF-8 whatever the later calls name. A
-- server that reads GBK takes then a byte that begins no UTF-8 character, but a GBK one, and the
-- backslash in front of an escaped quote as one character: the literal ends at this quote, and the
-- rest of the value, if any, stands behind it as a part of the statement.
pub instances_wrong :
    (first : Bytes) (encodes : List Bytes) (c d : ℕ) (s rest : Bytes)
    → new_escape first ≡ some utf8
    → 0x81 ≤ c
    → c ≤ 0xfe
    → mbcharlen_utf8 c ≡ 0
    → (instances none (first ∷ encodes) ≡ some utf8)
      × (read gbk 0 ((escape_into utf8 (c ∷ b'\'' ∷ d ∷ s)).out ++ b'\'' ∷ rest)
          ≡ some (c ∷ b'\\' ∷ [], (escape_into utf8 (d ∷ s)).out ++ b'\'' ∷ rest))
unfolding instances escape_into escape_field_quote
instances_wrong first encodes c d s rest made l h head =
    let (q, _) = escape_string-encode utf8-IsCharset (c ∷ b'\'' ∷ d ∷ s) in
    let (r, _) = escape_string-encode utf8-IsCharset (d ∷ s) in
    (
      rw (made, instances) (instances_made utf8 encodes),
      rw (q, r, escape_broken c (d ∷ s) l head)
          (read_pair c (encode utf8 (emit_string utf8) 0 (d ∷ s) ++ b'\'' ∷ rest) l h
            (encode-Ends utf8-IsCharset d s (b'\'' ∷ rest))),
    )
