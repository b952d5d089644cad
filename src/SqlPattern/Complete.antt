-- ===== src/SqlPattern/Complete.antt =====
-- Every list of well-formed pieces is read back from its text.
use rellaf.Prelude.{
  List, [], ◌∷◌, ◌++◌, append_assoc, append-nil, true, false, some, ◌≡◌, ◌≢◌, refl, ◌∙◌, not, ℕ,
  Bytes, All, is_empty,
}
use rellaf.SqlPattern.{
  ok, StubType, literal, field, list, Stub, init, match_token, fetch, Scan, next, round, finish,
  run, Exploded, explode,
}
use rellaf.SqlPattern.Kinds.{round_init-IsPlain, round_fetch-IsPlain}
use rellaf.SqlPattern.Render.{
  IsPlain, is_literal, opening, closing, render, IsStub, Alternates, WellFormed,
}
use rellaf.SqlPattern.Scanning.{scan}

abbrev success : List Stub → Exploded
success ps = record { ret = true; pieces = ps; err = ok }

-- The literal that the section would become.
abbrev flushed : Bytes → List Stub
flushed [] = []
flushed (c ∷ v) = record { type = literal; value = c ∷ v } ∷ []

run-next : (s s' : Scan) (c : ℕ) (cs : Bytes) → round s c ≡ next s' → run s (c ∷ cs) ≡ run s' cs
unfolding run
run-next s s' c cs e = rw (e, run)

module _ (tok : ℕ) (ps : List Stub) where
  pub run-init :
      (v sec rest : Bytes)
      → All IsPlain v
      → run (scan init sec literal tok ps) (v ++ rest)
        ≡ run (scan init (sec ++ v) literal tok ps) rest
  unfolding round
  run-init [] sec rest h = rw append-nil
  run-init (c ∷ v) sec rest h =
      run-next (scan init sec literal tok ps) (scan init (sec ++ c ∷ []) literal tok ps) c
        (v ++ rest) (round_init-IsPlain (scan init sec literal tok ps) c h.0)
      ∙ run-init v (sec ++ c ∷ []) rest h.1
      ∙ rw append_assoc

  run-fetch :
      (ty : StubType) (v sec rest : Bytes)
      → All IsPlain v
      → run (scan fetch sec ty tok ps) (v ++ rest) ≡ run (scan fetch (sec ++ v) ty tok ps) rest
  unfolding round
  run-fetch ty [] sec rest h = rw append-nil
  run-fetch ty (c ∷ v) sec rest h =
      run-next (scan fetch sec ty tok ps) (scan fetch (sec ++ c ∷ []) ty tok ps) c (v ++ rest)
        (round_fetch-IsPlain (scan fetch sec ty tok ps) c h.0)
      ∙ run-fetch ty v (sec ++ c ∷ []) rest h.1
      ∙ rw append_assoc

  run-hash :
      (sec rest : Bytes)
      → run (scan init sec literal tok ps) (b'#' ∷ rest)
        ≡ run (scan match_token [] literal tok (ps ++ flushed sec)) rest
  unfolding run round
  run-hash [] rest = rw append-nil
  run-hash (c ∷ sec) rest = refl

  run-open :
      (ty : StubType) (rest : Bytes)
      → is_literal ty ≡ false
      → run (scan match_token [] literal tok ps) (opening ty ∷ rest)
        ≡ run (scan fetch [] ty (opening ty) ps) rest
  unfolding run round
  run-open literal rest h = cc
  run-open field rest h = refl
  run-open list rest h = refl

  run-close :
      (ty : StubType) (sec rest : Bytes)
      → is_literal ty ≡ false
      → sec ≢ []
      → run (scan fetch sec ty (opening ty) ps) (closing ty ∷ rest)
        ≡ run
            (scan init [] literal (opening ty) (ps ++ record { type = ty; value = sec } ∷ []))
            rest
  unfolding run round
  run-close ty [] rest h ne = absurd (ne refl)
  run-close literal (c ∷ sec) rest h ne = cc
  run-close field (c ∷ sec) rest h ne = refl
  run-close list (c ∷ sec) rest h ne = refl

-- A whole place, from `#` to its end token.
run-place :
    (ty : StubType) (v sec rest : Bytes) (tok : ℕ) (ps : List Stub)
    → is_literal ty ≡ false
    → IsStub (record { type = ty; value = v })
    → run (scan init sec literal tok ps) (b'#' ∷ opening ty ∷ (v ++ closing ty ∷ rest))
      ≡ run
          (scan init [] literal
            (opening ty)
            ((ps ++ flushed sec) ++ record { type = ty; value = v } ∷ []))
          rest
run-place ty v sec rest tok ps l h =
    run-hash tok ps sec _
    ∙ run-open tok (ps ++ flushed sec) ty _ l
    ∙ run-fetch (opening ty) (ps ++ flushed sec) ty v [] _ h.plain
    ∙ run-close tok (ps ++ flushed sec) ty v rest l h.filled

-- The rest of the pieces, when the scanner holds `sec`.
abbrev Reads : List Stub → Type 0
Reads ss =
    (sec : Bytes) (tok : ℕ) (ps : List Stub)
    → Alternates (not (is_empty sec)) ss
    → run (scan init sec literal tok ps) (render ss) ≡ some (success ((ps ++ flushed sec) ++ ss))

Reads-place :
    (ty : StubType) (v : Bytes) (ss : List Stub)
    → is_literal ty ≡ false
    → Reads ss
    → IsStub (record { type = ty; value = v })
    → Alternates false ss
    → (sec : Bytes) (tok : ℕ) (ps : List Stub)
    → run (scan init sec literal tok ps) (b'#' ∷ opening ty ∷ (v ++ closing ty ∷ render ss))
      ≡ some (success ((ps ++ flushed sec) ++ record { type = ty; value = v } ∷ ss))
Reads-place ty v ss l ih h w sec tok ps =
    run-place ty v sec (render ss) tok ps l h
    ∙ ih [] (opening ty) _ w
    ∙ rw (append-nil, append_assoc)

Reads-cons :
    (ty : StubType) (v : Bytes) (ss : List Stub)
    → Reads ss
    → Reads (record { type = ty; value = v } ∷ ss)
unfolding render
Reads-cons literal [] ss ih sec tok ps w = absurd (w.0.filled refl)
Reads-cons literal (c ∷ v) ss ih (d ∷ sec) tok ps w = cc (w.1)
Reads-cons literal (c ∷ v) ss ih [] tok ps w =
    run-init tok ps (c ∷ v) [] (render ss) w.0.plain
    ∙ ih (c ∷ v) tok ps w.2
    ∙ rw (append-nil, append_assoc)
Reads-cons field v ss ih sec tok ps w =
    rw append_assoc (Reads-place field v ss refl ih w.0 w.2 sec tok ps)
Reads-cons list v ss ih sec tok ps w =
    rw append_assoc (Reads-place list v ss refl ih w.0 w.2 sec tok ps)

Reads-nil : Reads []
unfolding render run finish
Reads-nil [] tok ps w = rw append-nil (rw append-nil)
Reads-nil (c ∷ sec) tok ps w = rw append-nil

Reads-all : (ss : List Stub) → Reads ss
Reads-all [] = Reads-nil
Reads-all (s ∷ ss) = Reads-cons s.type s.value ss (Reads-all ss)

-- Well-formed pieces are read back from their text: `explode` returns them, with no error.
pub explode-render :
    (ss : List Stub)
    → WellFormed ss
    → explode (render ss) ≡ some (record { ret = true; pieces = ss; err = ok })
unfolding explode
explode-render ss w = Reads-all ss [] 0 [] w
