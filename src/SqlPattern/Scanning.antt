-- ===== src/SqlPattern/Scanning.antt =====
-- What one round of `explode` keeps: the bytes it has read, and the form of its pieces.
use rellaf.Prelude.{
  ℕ, List, [], ◌∷◌, ◌++◌, append_assoc, append-nil, Bool, true, false, ◌≡◌, refl, sym, ◌≤◌, Bytes,
  All, All-append, ◌&&◌, ◌⊎◌, inl, inr,
}
use rellaf.SqlPattern.{
  PatternErr, ok, StubType, literal, field, list, Stub, PatternState, init, normal, match_token,
  fetch, end_fetch, Scan, Round, next, fail, fault, round, round_init, round_match, round_fetch,
  close, tokens, token_pairs, end_tokens,
}
use rellaf.SqlPattern.Kinds.{
  kind, plain, hash, open_square, open_curly, close_square, close_curly, far, round_init-IsPlain,
  round_match-IsPlain, round_fetch-IsPlain, round_init-far, round_match-far, round_fetch-far,
}
use rellaf.SqlPattern.Render.{
  IsPlain, is_literal, opening, render, WellFormed, ends_literal, render-snoc, Alternates-snoc,
  ends_literal-snoc,
}

-- What the scanner has read and not yet put into a piece.
abbrev pub pending : PatternState → Scan → Bytes
pending init s = s.section
pending match_token s = b'#' ∷ []
pending fetch s = b'#' ∷ s.token ∷ s.section
pending _ s = []

-- What the loop keeps, in each of the three states that it reaches.
abbrev pub Shape : PatternState → Scan → Type 0
Shape init s = (s.type ≡ literal) × (ends_literal false s.pieces ≡ false)
Shape match_token s = s.section ≡ []
Shape fetch s = (is_literal s.type ≡ false) × (s.token ≡ opening s.type)
Shape _ s = ⊥

pub record IsScan (s : Scan) : Type 0 where
  pub pieces : WellFormed s.pieces
  pub section : All IsPlain s.section
  pub shape : Shape s.state s

abbrev pub read : Scan → Bytes
read s = render s.pieces ++ pending s.state s

abbrev pub scan : PatternState → Bytes → StubType → ℕ → List Stub → Scan
scan st sec ty tok ps = record { state = st; section = sec; type = ty; token = tok; pieces = ps }

abbrev pub IsError : PatternErr → Type 0
IsError ok = ⊥
IsError _ = Unit {0}

-- What one round promises of a scan that has read `text`.
abbrev pub Goes : Bytes → ℕ → Round → Type 0
Goes text c (next s) = IsScan s × (read s ≡ text ++ c ∷ [])
Goes text c (fail e) = IsError e
Goes text c fault = 128 ≤ c

and_false : (b : Bool) → (b && false) ≡ false
and_false false = refl
and_false true = refl

module _ (tok : ℕ) (ps : List Stub) (w : WellFormed ps) where
  Goes-hash :
      (sec : Bytes)
      → All IsPlain sec
      → ends_literal false ps ≡ false
      → Goes (render ps ++ sec) b'#' (round_init (scan init sec literal tok ps) b'#')
  unfolding round_init tokens
  Goes-hash [] p l = (record { pieces = w; section = tt; shape = refl }, rw append-nil)
  Goes-hash (d ∷ sec) p l = (
    record {
      pieces = Alternates-snoc false ps _ w (record { filled = cc; plain = p }) (rw l);
      section = tt;
      shape = refl;
    },
    rw render-snoc,
  )

  Goes-init :
      (sec : Bytes) (c : ℕ)
      → All IsPlain sec
      → ends_literal false ps ≡ false
      → Goes (render ps ++ sec) c (round_init (scan init sec literal tok ps) c)
  Goes-init sec c p l = elim (kind c) [
    | plain h ↦ rw (round_init-IsPlain _ c h) (
      record { pieces = w; section = All-append IsPlain sec (c ∷ []) p (h, tt); shape = (refl, l) },
      sym (append_assoc (render ps) sec (c ∷ [])),
    )
    | hash e ↦ rw e (Goes-hash sec p l)
    | open_square e ↦ rw e (unfold round_init tokens in tt)
    | open_curly e ↦ rw e (unfold round_init tokens in tt)
    | close_square e ↦ rw e (unfold round_init tokens in tt)
    | close_curly e ↦ rw e (unfold round_init tokens in tt)
    | far h ↦ rw (round_init-far _ c h) h
  ]

  Goes-match :
      (ty : StubType) (c : ℕ)
      → Goes (render ps ++ b'#' ∷ []) c (round_match (scan match_token [] ty tok ps) c)
  Goes-match ty c = elim (kind c) [
    | plain h ↦ rw (round_match-IsPlain _ c h) tt
    | hash e ↦ rw e (unfold round_match token_pairs in tt)
    | open_square e ↦ rw e (
        unfold round_match token_pairs in
        (
          record { pieces = w; section = tt; shape = (refl, refl) },
          sym (append_assoc (render ps) (b'#' ∷ []) _),
        ))
    | open_curly e ↦ rw e (
        unfold round_match token_pairs in
        (
          record { pieces = w; section = tt; shape = (refl, refl) },
          sym (append_assoc (render ps) (b'#' ∷ []) _),
        ))
    | close_square e ↦ rw e (unfold round_match token_pairs in tt)
    | close_curly e ↦ rw e (unfold round_match token_pairs in tt)
    | far h ↦ rw (round_match-far _ c h) h
  ]

  -- The end token that fits gives a piece, and any other one is an error.
  Goes-close :
      (sec : Bytes) (ty : StubType) (c : ℕ)
      → All IsPlain sec
      → is_literal ty ≡ false
      → (c ≡ b']') ⊎ (c ≡ b'}')
      → Goes (render ps ++ b'#' ∷ opening ty ∷ sec) c (close (scan fetch sec ty (opening ty) ps) c)
  unfolding close token_pairs
  Goes-close sec literal c p l o = cc
  Goes-close [] field c p l (inl e) = rw e tt
  Goes-close [] field c p l (inr e) = rw e tt
  Goes-close [] list c p l (inl e) = rw e tt
  Goes-close [] list c p l (inr e) = rw e tt
  Goes-close (d ∷ sec) field c p l (inl e) = rw e tt
  Goes-close (d ∷ sec) list c p l (inr e) = rw e tt
  Goes-close (d ∷ sec) field c p l (inr e) = rw e (
    record {
      pieces = Alternates-snoc false ps _ w (record { filled = cc; plain = p }) (and_false _);
      section = tt;
      shape = (refl, ends_literal-snoc false ps _);
    },
    rw (append-nil, render-snoc, append_assoc),
  )
  Goes-close (d ∷ sec) list c p l (inl e) = rw e (
    record {
      pieces = Alternates-snoc false ps _ w (record { filled = cc; plain = p }) (and_false _);
      section = tt;
      shape = (refl, ends_literal-snoc false ps _);
    },
    rw (append-nil, render-snoc, append_assoc),
  )

  Goes-fetch :
      (sec : Bytes) (ty : StubType) (c : ℕ)
      → All IsPlain sec
      → is_literal ty ≡ false
      → Goes
          (render ps ++ b'#' ∷ opening ty ∷ sec)
          c
          (round_fetch (scan fetch sec ty (opening ty) ps) c)
  Goes-fetch sec ty c p l = elim (kind c) [
    | plain h ↦ rw (round_fetch-IsPlain _ c h) (
      record { pieces = w; section = All-append IsPlain sec (c ∷ []) p (h, tt); shape = (l, refl) },
      sym (append_assoc (render ps) (b'#' ∷ opening ty ∷ sec) (c ∷ [])),
    )
    | hash e ↦ rw e (unfold round_fetch tokens end_tokens in tt)
    | open_square e ↦ rw e (unfold round_fetch tokens end_tokens in tt)
    | open_curly e ↦ rw e (unfold round_fetch tokens end_tokens in tt)
    | close_square e ↦
        rw e (unfold round_fetch tokens end_tokens in Goes-close sec ty b']' p l (inl refl))
    | close_curly e ↦
        rw e (unfold round_fetch tokens end_tokens in Goes-close sec ty b'}' p l (inr refl))
    | far h ↦ rw (round_fetch-far _ c h) h
  ]

pub Goes-round :
    (st : PatternState) (sec : Bytes) (ty : StubType) (tok : ℕ) (ps : List Stub) (c : ℕ)
    → IsScan (scan st sec ty tok ps)
    → Goes (read (scan st sec ty tok ps)) c (round (scan st sec ty tok ps) c)
unfolding round
Goes-round init sec ty tok ps c v =
    rw v.shape.0 (Goes-init tok ps v.pieces sec c v.section v.shape.1)
Goes-round match_token sec ty tok ps c v = rw v.shape (Goes-match tok ps v.pieces ty c)
Goes-round fetch sec ty tok ps c v =
    rw v.shape.1 (Goes-fetch tok ps v.pieces sec ty c v.section v.shape.0)
Goes-round normal sec ty tok ps c v = absurd v.shape
Goes-round end_fetch sec ty tok ps c v = absurd v.shape
