-- ===== src/MysqlEscape/Field.antt =====
-- `bool escape_field(const std::string&, std::string&)`: when its buffer holds the escaped text.
use rellaf.Prelude.{
  ℕ, zero, suc, ◌+◌, ◌*◌, ◌≤◌, ◌<◌, [], ◌∷◌, ◌++◌, Bool, true, false, none, some, Bytes, ltb, All,
  All-append, if◌then◌else◌, length, length-append, replicate, length-replicate, take, ◌≡◌, ◌≢◌,
  ◌⊎◌, refl, ap, ◌∙◌, arith, Bool-cases, inl, inr,
}
use rellaf.MysqlEscape.{
  Charset, emit_string, escape_into, escape_field_quote, buffer_size, c_str, Escaped, escape_field,
}
use rellaf.MysqlEscape.Charsets.{IsCharset}
use rellaf.MysqlEscape.Literal.{not_mb, ascii, Ends, read, read-escape_into}
use rellaf.MysqlEscape.Encode.{encode, encode-mb, encode-one, encode-copy, escape_string-encode}

abbrev NulFree : Bytes → Type 0
NulFree = All (λ c. c ≢ 0)

c_str-NulFree : (s : Bytes) → NulFree s → c_str (s ++ 0 ∷ []) ≡ s
unfolding c_str
c_str-NulFree [] h = refl
c_str-NulFree (c ∷ s) h = ground (arith, c_str-NulFree s h.1)

-- The escaped text of a field.
abbrev pub escaped : Charset → Bytes → Bytes
escaped cs field = encode cs (emit_string cs) 0 field

module _ {cs : Charset} (law : IsCharset cs) where
  emit_string-NulFree : (c : ℕ) → NulFree (emit_string cs c)
  unfolding emit_string
  emit_string-NulFree c = ground (arith, law.high c)

  encode-NulFree :
      (k : ℕ) (s : Bytes) → NulFree (take k s) → NulFree (encode cs (emit_string cs) k s)
  encode-NulFree k [] h = unfold encode in tt
  encode-NulFree (suc k) (c ∷ s) h =
      rw (encode-copy cs (emit_string cs) c k s) (h.0, encode-NulFree k s h.1)
  encode-NulFree zero (c ∷ s) h =
      go (cs.ismbchar (c ∷ s)) refl (encode-NulFree 0 s tt) (λ m f. encode-NulFree m s f)
    where
      go :
          (n : ℕ)
          → cs.ismbchar (c ∷ s) ≡ n
          → NulFree (encode cs (emit_string cs) 0 s)
          → ((m : ℕ) → NulFree (take m s) → NulFree (encode cs (emit_string cs) m s))
          → NulFree (encode cs (emit_string cs) 0 (c ∷ s))
      go zero e ih _ =
          rw (encode-one cs (emit_string cs) c s e)
            (All-append _ (emit_string cs c) _ (emit_string-NulFree c) ih)
      go (suc m) e _ ih =
          let (first, others) = law.no_nul c m s e in
          rw (encode-mb cs (emit_string cs) c m s e) (first, ih m others)

  pub escape_field-cases :
      (field : Bytes)
      → escape_field cs true field ≡ (
          if ltb (buffer_size field) (length (escaped cs field) + 1)
          then none
          else some (record { ret = true; out = escaped cs field }))
  unfolding escape_field escape_into escape_field_quote
  escape_field-cases field =
      let (q, _) = escape_string-encode law field in
      let nul = c_str-NulFree (escaped cs field) (encode-NulFree 0 field tt) in
      elim (Bool-cases (ltb 768 (length field))) [
        | inl e ↦ rw (q, escape_field, nul) (ground arith)
        | inr e ↦ rw (q, escape_field, nul) (ground arith)
      ]

  -- Up to 768 bytes the buffer is on the stack.
  on_stack :
      (allocated : Bool) (field : Bytes)
      → length field ≤ 768
      → escape_field cs allocated field ≡ escape_field cs true field
  unfolding escape_field
  on_stack true field h = refl
  on_stack false field h = ground arith

  pub escape_field-short :
      (allocated : Bool) (field : Bytes)
      → length field ≤ 511
      → escape_field cs allocated field ≡ some (record { ret = true; out = escaped cs field })
  escape_field-short allocated field h =
      let (_, bound) = escape_string-encode law field in
      on_stack allocated field (omega arith)
      ∙ escape_field-cases field
      ∙ (unfold buffer_size in ground (arith, bound))

  -- If the buffer can be had, it is overrun just by an escaped text that is longer with its NUL.
  pub escape_field-overrun :
      (field : Bytes)
      → (buffer_size field < length (escaped cs field) + 1 → escape_field cs true field ≡ none)
        × (length (escaped cs field) + 1 ≤ buffer_size field
            → escape_field cs true field ≡ some (record { ret = true; out = escaped cs field }))
  escape_field-overrun field =
      let q = escape_field-cases field in (λ h. ground arith, λ h. ground arith)

  -- The escaped text fits its buffer, which can be had.
  abbrev pub HasRoom : Bool → Bytes → Type 0
  HasRoom allocated field =
      (length field ≤ 511)
      ⊎ ((allocated ≡ true) × (length (escaped cs field) + 1 ≤ buffer_size field))

  pub escape_field-HasRoom :
      (allocated : Bool) (field : Bytes)
      → HasRoom allocated field
      → escape_field cs allocated field ≡ some (record { ret = true; out = escaped cs field })
  escape_field-HasRoom allocated field (inl short) = escape_field-short allocated field short
  escape_field-HasRoom allocated field (inr (a, h)) = rw a ((escape_field-overrun field).1 h)

  length-emit_quote : length (emit_string cs b'\'') ≡ 2
  unfolding emit_string
  length-emit_quote = ground (arith, law.high b'\'')

  length-quotes : (n : ℕ) → length (escaped cs (replicate n b'\'')) ≡ 2 * n
  length-quotes zero = unfold encode in omega arith
  length-quotes (suc n) =
      let quote_alone = not_mb law b'\'' (replicate n b'\'') (ascii law b'\'' (omega arith)) in
      omega (
        arith,
        ap length (encode-one cs (emit_string cs) b'\'' (replicate n b'\'') quote_alone),
        length-append (emit_string cs b'\'') (escaped cs (replicate n b'\'')),
        length-emit_quote,
        length-quotes n,
      )

  escape_field_quotes : (n : ℕ) → 512 ≤ n → escape_field cs true (replicate n b'\'') ≡ none
  escape_field_quotes n h =
      (escape_field-overrun (replicate n b'\'')).0
        (unfold buffer_size in ground (arith, length-replicate {A = ℕ} n b'\'', length-quotes n))

  -- In every lawful character set, 511 bytes are the most that surely fit: for each field of at most
  -- 511 bytes the call returns true with the whole escaped text, and for each longer size there is a
  -- field, that of quotes, whose escaped text is written past the end of the buffer if that can be had.
  pub escape_field-most :
      (allocated : Bool) (field : Bytes) (n : ℕ)
      → length field ≤ 511
      → 512 ≤ n
      → (escape_field cs allocated field ≡ some (record { ret = true; out = escaped cs field }))
        × (escape_field cs true (replicate n b'\'') ≡ none)
  escape_field-most allocated field n short long =
      (escape_field-short allocated field short, escape_field_quotes n long)

  unallocated :
      (field : Bytes)
      → ltb 768 (length field) ≡ true
      → escape_field cs false field ≡ some (record { ret = false; out = [] })
  unfolding escape_field
  unallocated field e = rw (e, escape_field) refl

  -- What a call returns with true is the whole escaped text.
  pub escape_field-out :
      (allocated : Bool) (field : Bytes) (e : Escaped)
      → escape_field cs allocated field ≡ some e
      → e.ret ≡ true
      → e.out ≡ escaped cs field
  escape_field-out true field e h t = ground (arith, escape_field-cases field, h, t)
  escape_field-out false field e h t = elim (Bool-cases (ltb 768 (length field))) [
    | inl big ↦ ground (arith, unallocated field big, h, t)
    | inr small ↦
        ground (arith, on_stack false field (ground arith), escape_field-cases field, h, t)
  ]

  pub read-escaped :
      (field rest : Bytes)
      → Ends rest
      → read cs 0 (escaped cs field ++ b'\'' ∷ rest) ≡ some (field, rest)
  unfolding escape_into escape_field_quote
  read-escaped field rest end =
      let (q, _) = escape_string-encode law field in
      rw q at ((read-escape_into cs law field rest end).1)
