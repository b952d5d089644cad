-- ===== src/MysqlEscape/Encode.antt =====
-- The text that the loop writes if the buffer is large enough, its length, and that the buffer of
-- `to_length` 0 is large enough.
use rellaf.Prelude.{
  ℕ, zero, suc, ◌+◌, ◌-◌, ◌*◌, ◌≤◌, [], ◌∷◌, ◌++◌, append_assoc, append-nil, false, Bytes, ◌==◌,
  if◌then◌else◌, length, length-append, take, drop, ◌≡◌, refl, ap, ◌∙◌, arith,
}
use rellaf.MysqlEscape.{
  Charset, write, emit_string, emit_quotes, escape_string_for_mysql, escape_quotes_for_mysql,
}
use rellaf.MysqlEscape.Charsets.{IsCharset}

module _ (cs : Charset) (emit : ℕ → Bytes) where
  -- `k` bytes of a character are still to be copied.
  unfoldable pub encode : ℕ → Bytes → Bytes
  encode k [] = []
  encode (suc k) (c ∷ s) = c ∷ encode k s
  encode zero (c ∷ s) =
      let n = cs.ismbchar (c ∷ s) in
      let one = emit c ++ encode 0 s in
      let copy = c ∷ encode (n - 1) s in if n == 0 then one else copy

  pub encode-mb :
      (c m : ℕ) (s : Bytes) → cs.ismbchar (c ∷ s) ≡ suc m → encode 0 (c ∷ s) ≡ c ∷ encode m s
  unfolding encode
  encode-mb c m s e = let q : suc m - 1 ≡ m = omega arith in rw (e, encode, q) (ground arith)

  pub encode-one :
      (c : ℕ) (s : Bytes) → cs.ismbchar (c ∷ s) ≡ 0 → encode 0 (c ∷ s) ≡ emit c ++ encode 0 s
  unfolding encode
  encode-one c s e = rw (e, encode)

  -- The bytes of a character are copied as they are.
  pub encode-take : (k : ℕ) (s : Bytes) → encode k s ≡ take k s ++ encode 0 (drop k s)
  unfolding encode
  encode-take zero s = refl
  encode-take (suc k) [] = refl
  encode-take (suc k) (c ∷ s) = rw (encode-take k s)

  pub encode-copy : (c k : ℕ) (s : Bytes) → encode (suc k) (c ∷ s) ≡ c ∷ encode k s
  unfolding encode
  encode-copy c k s = refl

  write-copy :
      (cap c k : ℕ) (out s : Bytes)
      → write cs emit cap (suc k) out (c ∷ s) ≡ write cs emit cap k (out ++ c ∷ []) s
  unfolding write
  write-copy cap c k out s = refl

  write-mb :
      (cap c m : ℕ) (out s : Bytes)
      → cs.ismbchar (c ∷ s) ≡ suc m
      → length out + suc m ≤ cap
      → write cs emit cap 0 out (c ∷ s) ≡ write cs emit cap m (out ++ c ∷ []) s
  unfolding write
  write-mb cap c m out s e h =
      let q : suc m - 1 ≡ m = omega arith in rw (e, write, q) (ground arith)

  write-one :
      (cap c : ℕ) (out s : Bytes)
      → cs.ismbchar (c ∷ s) ≡ 0
      → length out + length (emit c) ≤ cap
      → write cs emit cap 0 out (c ∷ s) ≡ write cs emit cap 0 (out ++ emit c) s
  unfolding write
  write-one cap c out s e h = rw (e, write) (ground arith)

-- A multi-byte character needs room for its bytes.
length-encode-mb :
    (cs : Charset) (emit : ℕ → Bytes) (m : ℕ) (s : Bytes)
    → m ≤ length s
    → m ≤ length (encode cs emit m s)
unfolding encode
length-encode-mb cs emit zero s h = omega arith
length-encode-mb cs emit (suc m) [] h = absurd (omega arith)
length-encode-mb cs emit (suc m) (c ∷ s) h = omega (arith, length-encode-mb cs emit m s)

module _ {cs : Charset} (law : IsCharset cs) (emit : ℕ → Bytes) where
  module _ (cap c : ℕ) (out s : Bytes) where
    fits_one :
        cs.ismbchar (c ∷ s) ≡ 0
        → length out + length (encode cs emit 0 (c ∷ s)) ≤ cap
        → (length out + length (emit c) ≤ cap)
          × (length (out ++ emit c) + length (encode cs emit 0 s) ≤ cap)
    fits_one e fits = omega (
      arith,
      ap length (encode-one cs emit c s e),
      length-append (emit c) (encode cs emit 0 s),
      length-append out (emit c),
    )

    fits_mb :
        (m : ℕ)
        → cs.ismbchar (c ∷ s) ≡ suc m
        → length out + length (encode cs emit 0 (c ∷ s)) ≤ cap
        → (length out + suc m ≤ cap) × (length (out ++ c ∷ []) + length (encode cs emit m s) ≤ cap)
    fits_mb m e fits = omega (
      arith,
      ap length (encode-mb cs emit c m s e),
      length-encode-mb cs emit m s (law.inside c m s e),
      length-append out (c ∷ []),
    )

  -- If the text fits, the loop writes all of it and sets no flag.
  pub write-encode :
      (cap k : ℕ) (out s : Bytes)
      → k ≤ length s
      → length out + length (encode cs emit k s) ≤ cap
      → write cs emit cap k out s ≡ record { out = out ++ encode cs emit k s; overflow = false }
  write-encode cap zero out [] h fits = unfold write encode in rw append-nil
  write-encode cap (suc k) out [] h fits = absurd (omega arith)
  write-encode cap (suc k) out (c ∷ s) h fits =
      write-copy cs emit cap c k out s
      ∙ write-encode cap k (out ++ c ∷ []) s (omega arith)
          (omega (arith, length-append out (c ∷ []), ap length (encode-copy cs emit c k s)))
      ∙ rw (append_assoc, encode-copy cs emit c k s)
  write-encode cap zero out (c ∷ s) h fits =
      go (cs.ismbchar (c ∷ s)) refl (λ m k f. write-encode cap m (out ++ c ∷ []) s k f)
        (λ f. write-encode cap 0 (out ++ emit c) s (omega arith) f)
    where
      go :
          (n : ℕ)
          → cs.ismbchar (c ∷ s) ≡ n
          → ((m : ℕ)
              → m ≤ length s
              → length (out ++ c ∷ []) + length (encode cs emit m s) ≤ cap
              → write cs emit cap m (out ++ c ∷ []) s
                ≡ record { out = (out ++ c ∷ []) ++ encode cs emit m s; overflow = false })
          → (length (out ++ emit c) + length (encode cs emit 0 s) ≤ cap
              → write cs emit cap 0 (out ++ emit c) s
                ≡ record { out = (out ++ emit c) ++ encode cs emit 0 s; overflow = false })
          → write cs emit cap 0 out (c ∷ s)
            ≡ record { out = out ++ encode cs emit 0 (c ∷ s); overflow = false }
      go zero e _ ih =
          let (room, rest) = fits_one cap c out s e fits in
          rw (encode-one cs emit c s e)
            (write-one cs emit cap c out s e room ∙ ih rest ∙ rw append_assoc)
      go (suc m) e ih _ =
          let (room, rest) = fits_mb cap c out s m e fits in
          rw (encode-mb cs emit c m s e) (
            write-mb cs emit cap c m out s e room
            ∙ ih m (law.inside c m s e) rest
            ∙ rw append_assoc)

  -- Where a byte gives at most two bytes, the text is at most twice as long.
  length-encode :
      ((c : ℕ) → length (emit c) ≤ 2)
      → (k : ℕ) (s : Bytes) → length (encode cs emit k s) ≤ 2 * length s
  length-encode two k [] = unfold encode in omega arith
  length-encode two (suc k) (c ∷ s) =
      omega (arith, ap length (encode-copy cs emit c k s), length-encode two k s)
  length-encode two zero (c ∷ s) =
      go (cs.ismbchar (c ∷ s)) refl (length-encode two 0 s) (λ m. length-encode two m s)
    where
      go :
          (n : ℕ)
          → cs.ismbchar (c ∷ s) ≡ n
          → length (encode cs emit 0 s) ≤ 2 * length s
          → ((m : ℕ) → length (encode cs emit m s) ≤ 2 * length s)
          → length (encode cs emit 0 (c ∷ s)) ≤ 2 * suc (length s)
      go zero e ih _ = omega (
        arith,
        ap length (encode-one cs emit c s e),
        length-append (emit c) (encode cs emit 0 s),
        two c,
      )
      go (suc m) e _ ih = omega (arith, ap length (encode-mb cs emit c m s e), ih m)

length-emit_string : (cs : Charset) (c : ℕ) → length (emit_string cs c) ≤ 2
unfolding emit_string
length-emit_string cs c = ground arith

length-emit_quotes : (quote c : ℕ) → length (emit_quotes quote c) ≤ 2
unfolding emit_quotes
length-emit_quotes quote c = ground arith

module _ {cs : Charset} (law : IsCharset cs) where
  -- In every lawful character set, with `to_length` 0 no call overflows: the whole encoded text is
  -- written, and it has at most twice the length of the input.
  pub escape_string-encode :
      (from : Bytes)
      → (escape_string_for_mysql cs 0 from
          ≡ record { out = encode cs (emit_string cs) 0 from; overflow = false })
        × (length (encode cs (emit_string cs) 0 from) ≤ 2 * length from)
  unfolding escape_string_for_mysql
  escape_string-encode from =
      let short = length-encode law (emit_string cs) (length-emit_string cs) 0 from in
      (
        write-encode law (emit_string cs) (2 * length from) 0 [] from (omega arith) (omega arith),
        short,
      )

  -- In every lawful character set, with `to_length` 0 no call overflows, whatever the quote: the whole
  -- encoded text is written, and it has at most twice the length of the input.
  pub escape_quotes-encode :
      (from : Bytes) (quote : ℕ)
      → (escape_quotes_for_mysql cs 0 from quote
          ≡ record { out = encode cs (emit_quotes quote) 0 from; overflow = false })
        × (length (encode cs (emit_quotes quote) 0 from) ≤ 2 * length from)
  unfolding escape_quotes_for_mysql
  escape_quotes-encode from quote =
      let short = length-encode law (emit_quotes quote) (length-emit_quotes quote) 0 from in
      (
        write-encode law (emit_quotes quote) (2 * length from) 0 [] from (omega arith)
            (omega arith),
        short,
      )
