-- ===== src/MysqlEscape.antt =====
-- `SqlEscape` of include/mysql_escape.h and src/mysql_escape.cpp: the escaping of field values and
-- of quoted names, for the two character sets.
pub mod Charsets
pub mod Encode
pub mod Literal
pub mod Field
pub mod Instance
mod Tests
use rellaf.Prelude.{
  ℕ, zero, suc, ◌+◌, ◌-◌, ◌*◌, ◌/◌, List, [], ◌∷◌, ◌++◌, Bool, true, false, Option, none, some,
  Bytes, ◌&&◌, ◌||◌, not, ◌==◌, ltb, leb, if◌then◌else◌, length,
}
use Prim.Native.Nat.{bit_xor}

-- The two function pointers of the class. `ismbchar` gets the text from `p` up to `e`.
pub record Charset : Type 0 where
  pub ismbchar : Bytes → ℕ
  pub mbcharlen : ℕ → ℕ

isgbkhead : ℕ → Bool
isgbkhead c = leb 0x81 c && leb c 0xfe

isgbktail : ℕ → Bool
isgbktail c = leb 0x40 c && leb c 0x7e || leb 0x80 c && leb c 0xfe

pub ismbchar_gbk : Bytes → ℕ
unfolding isgbkhead isgbktail
ismbchar_gbk (c ∷ d ∷ s) = if isgbkhead c && isgbktail d then 2 else 0
ismbchar_gbk _ = 0

pub mbcharlen_gbk : ℕ → ℕ
unfolding isgbkhead
mbcharlen_gbk c = if isgbkhead c then 2 else 1

-- What the validity test returns: a length, `MY_CS_ILSEQ`, or one of the `MY_CS_TOOSMALL` codes.
pub data MbLen : Type 0 where
  bytes : ℕ → MbLen
  ilseq toosmall toosmall2 toosmall3 : MbLen

is_continuation_byte : ℕ → Bool
is_continuation_byte c = ltb (bit_xor c 0x80) 0x40

-- The three-byte case, with the bytes that follow the first one.
utf8_three : ℕ → Bytes → MbLen
utf8_three c (d ∷ e ∷ s) =
    if is_continuation_byte d && is_continuation_byte e && (leb 0xe1 c || leb 0xa0 d)
    then bytes 3
    else ilseq
utf8_three c _ = toosmall3

utf8_two : Bytes → MbLen
utf8_two (d ∷ s) = if is_continuation_byte d then bytes 2 else ilseq
utf8_two [] = toosmall2

pub valid_mbcharlen_utf8mb3 : ℕ → Bytes → MbLen
unfolding utf8_two utf8_three is_continuation_byte
valid_mbcharlen_utf8mb3 c s =
    if ltb c 0x80
    then bytes 1
    else if ltb c 0xc2
    then ilseq
    else if ltb c 0xe0
    then utf8_two s
    else utf8_three c s

pub valid_mbcharlen_utf8 : Bytes → MbLen
unfolding valid_mbcharlen_utf8mb3
valid_mbcharlen_utf8 [] = toosmall
valid_mbcharlen_utf8 (c ∷ s) = if ltb c 0xf0 then valid_mbcharlen_utf8mb3 c s else ilseq

abbrev longer_than_one : MbLen → ℕ
longer_than_one (bytes n) = if ltb 1 n then n else 0
longer_than_one _ = 0

pub ismbchar_utf8 : Bytes → ℕ
unfolding valid_mbcharlen_utf8
ismbchar_utf8 s = longer_than_one (valid_mbcharlen_utf8 s)

pub mbcharlen_utf8 : ℕ → ℕ
mbcharlen_utf8 c =
    if ltb c 0x80
    then 1
    else if ltb c 0xc2
    then 0
    else if ltb c 0xe0
    then 2
    else if ltb c 0xf0
    then 3
    else 0

abbrev pub gbk : Charset
gbk = record { ismbchar = ismbchar_gbk; mbcharlen = mbcharlen_gbk }

abbrev pub utf8 : Charset
utf8 = record { ismbchar = ismbchar_utf8; mbcharlen = mbcharlen_utf8 }

-- What a call of one of the two loops leaves: the bytes in the buffer, and the flag.
pub record Written : Type 0 where
  pub out : Bytes
  pub overflow : Bool

-- The loop that both functions have. `emit c` are the bytes for a byte `c` that begins no
-- multi-byte character, `capacity` is `to_end - to_start`, and the first number counts the bytes of a multi-byte character
-- that its inner `while` has still to copy.
pub write : Charset → (ℕ → Bytes) → ℕ → ℕ → Bytes → Bytes → Written
write cs emit capacity k out [] = record { out = out; overflow = false }
write cs emit capacity (suc k) out (c ∷ s) = write cs emit capacity k (out ++ c ∷ []) s
write cs emit capacity zero out (c ∷ s) =
    let n = cs.ismbchar (c ∷ s) in
    let copy = write cs emit capacity (n - 1) (out ++ c ∷ []) s in
    let one = write cs emit capacity 0 (out ++ emit c) s in
    let stop : Written = record { out = out; overflow = true } in
    if n == 0
    then (if ltb capacity (length out + length (emit c)) then stop else one)
    else if ltb capacity (length out + n)
    then stop
    else copy

-- The `switch`; 0 stands for no escape.
escape_code : ℕ → ℕ
escape_code c =
    if c == 0
    then b'0'
    else if c == 10
    then b'n'
    else if c == 13
    then b'r'
    else if c == b'\\'
    then b'\\'
    else if c == b'\''
    then b'\''
    else if c == b'"'
    then b'"'
    else if c == 26
    then b'Z'
    else 0

escape_of : Charset → ℕ → ℕ
escape_of cs c = if ltb 1 (cs.mbcharlen c) then c else escape_code c

pub emit_string : Charset → ℕ → Bytes
unfolding escape_of escape_code
emit_string cs c =
    let escape = escape_of cs c in if escape == 0 then c ∷ [] else b'\\' ∷ escape ∷ []

pub emit_quotes : ℕ → ℕ → Bytes
emit_quotes quote c = if c == quote then quote ∷ quote ∷ [] else c ∷ []

abbrev pub capacity_of : ℕ → Bytes → ℕ
capacity_of to_length from = if to_length == 0 then 2 * length from else to_length - 1

pub escape_string_for_mysql : Charset → ℕ → Bytes → Written
escape_string_for_mysql cs to_length from =
    write cs (emit_string cs) (capacity_of to_length from) 0 [] from

pub escape_quotes_for_mysql : Charset → ℕ → Bytes → ℕ → Written
escape_quotes_for_mysql cs to_length from quote =
    write cs (emit_quotes quote) (capacity_of to_length from) 0 [] from

pub escape_field_quote : Charset → Bytes → ℕ → Written
escape_field_quote cs from quote =
    if quote == b'`'
    then escape_quotes_for_mysql cs 0 from quote
    else escape_string_for_mysql cs 0 from

-- `size_t escape_field(const std::string&, char*)`.
pub escape_into : Charset → Bytes → Written
escape_into cs from = escape_field_quote cs from b'\''

-- The buffer of `bool escape_field(const std::string&, std::string&)`, on the stack or allocated.
pub buffer_size : Bytes → ℕ
buffer_size field = if ltb 768 (length field) then length field * 3 / 2 else 1024

-- The bytes of a C string, up to its first NUL.
pub c_str : Bytes → Bytes
c_str [] = []
c_str (c ∷ s) = elim (c == 0) [ true ↦ [] | false ↦ c ∷ c_str s ]

pub record Escaped : Type 0 where
  pub ret : Bool
  pub out : Bytes

-- `bool escape_field(const std::string&, std::string&)`. `allocated` says whether `malloc` succeeds;
-- `none` is a write past the end of the buffer.
pub escape_field : Charset → Bool → Bytes → Option Escaped
escape_field cs allocated field =
    if ltb 768 (length field) && not allocated
    then some (record { ret = false; out = [] })
    else let text = (escape_into cs field).out in
      if ltb (buffer_size field) (length text + 1)
      then none
      else some (record { ret = true; out = c_str (text ++ 0 ∷ []) })
