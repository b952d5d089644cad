-- ===== src/MysqlEscape/Literal.antt =====
-- Escaped text as the inside of a quoted literal. A reader of literals takes a multi-byte character
-- whole, takes the byte behind a backslash as an escape, and ends at a quote that is not doubled.
use rellaf.Prelude.{
  ℕ, zero, suc, ◌-◌, ◌≤◌, ◌<◌, [], ◌∷◌, ◌++◌, append_assoc, false, not, Option, none, some, Bytes,
  ◌==◌, if◌then◌else◌, length, ◌≡◌, ◌≢◌, refl, ap, ◌∙◌, arith, Bool-cases, ◌⊎◌, inl, inr,
}
use rellaf.MysqlEscape.{Charset, emit_string, escape_of, escape_into, escape_field_quote}
use rellaf.MysqlEscape.Charsets.{IsCharset}
use rellaf.MysqlEscape.Encode.{
  encode, encode-mb, encode-one, encode-copy, encode-take, escape_string-encode,
}

-- What a backslash and this byte stand for.
pub unescape : ℕ → ℕ
unescape e =
    if e == b'0'
    then 0
    else if e == b'n'
    then 10
    else if e == b'r'
    then 13
    else if e == b'Z'
    then 26
    else e

abbrev pub push : ℕ → Option (Bytes × Bytes) → Option (Bytes × Bytes)
push c none = none
push c (some (v, rest)) = some (c ∷ v, rest)

-- The literal behind its opening quote: its value, and the text behind its closing quote.
unfoldable pub read : Charset → ℕ → Bytes → Option (Bytes × Bytes)
unfolding unescape
read cs k [] = none
read cs (suc k) (c ∷ s) = push c (read cs k s)
read cs zero (c ∷ []) = if c == b'\'' then some ([], []) else none
read cs zero (c ∷ d ∷ s) =
    let n = cs.ismbchar (c ∷ d ∷ s) in
    let copy = push c (read cs (n - 1) (d ∷ s)) in
    let escaped = push (unescape d) (read cs 0 s) in
    let doubled = push c (read cs 0 s) in
    let plain = push c (read cs 0 (d ∷ s)) in
    if not (n == 0)
    then copy
    else if c == b'\\'
    then escaped
    else if c == b'\''
    then (if d == b'\'' then doubled else some ([], d ∷ s))
    else plain

-- `rest` does not go on with a quote.
abbrev pub Ends : Bytes → Type 0
Ends [] = Unit {0}
Ends (c ∷ s) = c ≢ b'\''

abbrev pub OneByte : Charset → ℕ → Type 0
OneByte cs c = (emit_string cs c ≡ c ∷ []) × (c ≢ b'\\') × (c ≢ b'\'') × (cs.mbcharlen c ≤ 1)

abbrev pub TwoBytes : Charset → ℕ → Type 0
TwoBytes cs c = (e : ℕ) × (emit_string cs c ≡ b'\\' ∷ e ∷ []) × (unescape e ≡ c)

module _ {cs : Charset} (law : IsCharset cs) where
  pub emit_string_cases : (c : ℕ) → OneByte cs c ⊎ TwoBytes cs c
  unfolding emit_string unescape
  emit_string_cases c = elim (Bool-cases (escape_of cs c == 0)) [
    | inl e ↦ inl (ground arith, ground arith, ground arith, ground (arith, law.high c))
    | inr e ↦ inr (escape_of cs c, ground arith, ground (arith, law.high c))
  ]

  pub not_mb : (c : ℕ) (s : Bytes) → cs.mbcharlen c ≤ 1 → cs.ismbchar (c ∷ s) ≡ 0
  not_mb c s h = go (cs.ismbchar (c ∷ s)) refl
    where
      go : (n : ℕ) → cs.ismbchar (c ∷ s) ≡ n → n ≡ 0
      go zero e = refl
      go (suc m) e = absurd (omega (arith, law.head c m s e))

  pub ascii : (c : ℕ) → c < 128 → cs.mbcharlen c ≤ 1
  ascii c h = ground (arith, law.high c)

  pub read-copy : (c k : ℕ) (s : Bytes) → read cs (suc k) (c ∷ s) ≡ push c (read cs k s)
  unfolding read
  read-copy c k s = refl

  pub read-mb :
      (c m d : ℕ) (s : Bytes)
      → cs.ismbchar (c ∷ d ∷ s) ≡ suc m
      → read cs 0 (c ∷ d ∷ s) ≡ push c (read cs m (d ∷ s))
  unfolding read
  read-mb c m d s e = let q : suc m - 1 ≡ m = omega arith in rw (e, read, q) (ground arith)

  read-backslash : (d : ℕ) (s : Bytes) → read cs 0 (b'\\' ∷ d ∷ s) ≡ push (unescape d) (read cs 0 s)
  unfolding read
  read-backslash d s = rw (not_mb b'\\' (d ∷ s) (ascii b'\\' (omega arith)), read)

  read-plain :
      (c d : ℕ) (s : Bytes)
      → cs.mbcharlen c ≤ 1
      → c ≢ b'\\'
      → c ≢ b'\''
      → read cs 0 (c ∷ d ∷ s) ≡ push c (read cs 0 (d ∷ s))
  unfolding read
  read-plain c d s h a b = rw (not_mb c (d ∷ s) h, read) (ground arith)

  pub read-end : (rest : Bytes) → Ends rest → read cs 0 (b'\'' ∷ rest) ≡ some ([], rest)
  unfolding read
  read-end [] h = refl
  read-end (d ∷ rest) h =
      rw (not_mb b'\'' (d ∷ rest) (ascii b'\'' (omega arith)), read) (ground arith)

  -- The same steps in front of a text that goes on to the closing quote.
  module _ (rest : Bytes) where
    abbrev closed : Bytes → Bytes
    closed u = u ++ b'\'' ∷ rest

    step-mb :
        (c m : ℕ) (u : Bytes)
        → cs.ismbchar (c ∷ closed u) ≡ suc m
        → read cs 0 (c ∷ closed u) ≡ push c (read cs m (closed u))
    step-mb c m [] e = read-mb c m b'\'' rest e
    step-mb c m (d ∷ u) e = read-mb c m d (u ++ b'\'' ∷ rest) e

    step-plain :
        (c : ℕ) (u : Bytes)
        → cs.mbcharlen c ≤ 1
        → c ≢ b'\\'
        → c ≢ b'\''
        → read cs 0 (c ∷ closed u) ≡ push c (read cs 0 (closed u))
    step-plain c [] h a b = read-plain c b'\'' rest h a b
    step-plain c (d ∷ u) h a b = read-plain c d (u ++ b'\'' ∷ rest) h a b

    abbrev Reads : ℕ → Bytes → Type 0
    Reads k s = read cs k (closed (encode cs (emit_string cs) k s)) ≡ some (s, rest)

    -- The character at the front of the written text is the one at the front of the input.
    kept_mb :
        (c m : ℕ) (s : Bytes)
        → cs.ismbchar (c ∷ s) ≡ suc m
        → cs.ismbchar (c ∷ closed (encode cs (emit_string cs) m s)) ≡ suc m
    kept_mb c m s e = rw (encode-take cs (emit_string cs) m s, append_assoc) (law.stable c m s _ e)

    Reads-mb : (c m : ℕ) (s : Bytes) → cs.ismbchar (c ∷ s) ≡ suc m → Reads m s → Reads 0 (c ∷ s)
    Reads-mb c m s e ih =
        rw (encode-mb cs (emit_string cs) c m s e)
          (step-mb c m _ (kept_mb c m s e) ∙ ap (push c) ih)

    Reads-one : (c : ℕ) (s : Bytes) → cs.ismbchar (c ∷ s) ≡ 0 → Reads 0 s → Reads 0 (c ∷ s)
    Reads-one c s e ih = rw (encode-one cs (emit_string cs) c s e) (elim (emit_string_cases c) [
      | inl (q, a, b, h) ↦ rw q (step-plain c _ h a b ∙ ap (push c) ih)
      | inr (x, q, u) ↦ rw q (read-backslash x _ ∙ rw u (ap (push c) ih))
    ])

    Reads-all : (k : ℕ) (s : Bytes) → k ≤ length s → Ends rest → Reads k s
    Reads-all zero [] h end = unfold encode in read-end rest end
    Reads-all (suc k) [] h end = absurd (omega arith)
    Reads-all (suc k) (c ∷ s) h end =
        rw (encode-copy cs (emit_string cs) c k s)
          (read-copy c k _ ∙ ap (push c) (Reads-all k s (omega arith) end))
    Reads-all zero (c ∷ s) h end =
        go (cs.ismbchar (c ∷ s)) refl (Reads-all 0 s (omega arith) end) (λ m k. Reads-all m s k end)
      where
        go :
            (n : ℕ)
            → cs.ismbchar (c ∷ s) ≡ n
            → Reads 0 s
            → ((m : ℕ) → m ≤ length s → Reads m s)
            → Reads 0 (c ∷ s)
        go zero e ih _ = Reads-one c s e ih
        go (suc m) e _ ih = Reads-mb c m s e (ih m (law.inside c m s e))

-- In every lawful character set, whatever bytes a field holds, its escaped text is written without overflow, and between quotes it
-- is read as a literal whose value is the field: no byte of the field ends the literal.
pub read-escape_into :
    (cs : Charset)
    → IsCharset cs
    → (from rest : Bytes) → Ends rest
    → ((escape_into cs from).overflow ≡ false)
      × (read cs 0 ((escape_into cs from).out ++ b'\'' ∷ rest) ≡ some (from, rest))
unfolding escape_into escape_field_quote
read-escape_into cs law from rest end =
    let (q, _) = escape_string-encode law from in
    (rw q, rw q (Reads-all law rest 0 from (omega arith) end))
