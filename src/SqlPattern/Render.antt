-- ===== src/SqlPattern/Render.antt =====
-- What a pattern says, independent of the scanner: the text of a list of pieces, and which lists
-- are the pieces of some pattern.
use rellaf.Prelude.{
  ℕ, List, [], ◌∷◌, ◌++◌, append_assoc, append-nil, Bool, true, false, ◌≡◌, ◌≢◌, refl, ◌<◌, Bytes,
  All, ◌&&◌,
}
use rellaf.SqlPattern.{StubType, literal, field, list, Stub}

-- ASCII, and none of the five tokens.
pub record IsPlain (c : ℕ) : Type 0 where
  pub ascii : c < 128
  pub no_hash : c ≢ b'#'
  pub no_open_square : c ≢ b'['
  pub no_close_square : c ≢ b']'
  pub no_open_curly : c ≢ b'{'
  pub no_close_curly : c ≢ b'}'

abbrev pub is_literal : StubType → Bool
is_literal literal = true
is_literal field = false
is_literal list = false

-- The token that begins a place of this type, and the one that ends it.
abbrev pub opening : StubType → ℕ
opening list = b'['
opening _ = b'{'

abbrev pub closing : StubType → ℕ
closing list = b']'
closing _ = b'}'

abbrev pub render_stub : StubType → Bytes → Bytes
render_stub literal v = v
render_stub field v = b'#' ∷ b'{' ∷ (v ++ b'}' ∷ [])
render_stub list v = b'#' ∷ b'[' ∷ (v ++ b']' ∷ [])

unfoldable pub render : List Stub → Bytes
render [] = []
render (s ∷ ss) = render_stub s.type s.value ++ render ss

pub record IsStub (s : Stub) : Type 0 where
  pub filled : s.value ≢ []
  pub plain : All IsPlain s.value

-- No two literals stand side by side; `after` says that a literal stands in front.
abbrev pub Alternates : Bool → List Stub → Type 0
Alternates after [] = Unit {0}
Alternates after (s ∷ ss) =
    IsStub s × ((after && is_literal s.type) ≡ false) × Alternates (is_literal s.type) ss

abbrev pub WellFormed : List Stub → Type 0
WellFormed = Alternates false

abbrev pub ends_literal : Bool → List Stub → Bool
ends_literal after [] = after
ends_literal after (s ∷ ss) = ends_literal (is_literal s.type) ss

pub render-append : (ss ts : List Stub) → render (ss ++ ts) ≡ render ss ++ render ts
unfolding render
render-append [] ts = refl
render-append (s ∷ ss) ts =
    rw (render-append ss ts, append_assoc (render_stub s.type s.value) (render ss) (render ts))

pub render-snoc :
    (ss : List Stub) (s : Stub) → render (ss ++ s ∷ []) ≡ render ss ++ render_stub s.type s.value
unfolding render
render-snoc ss s = rw (render-append, append-nil)

pub Alternates-snoc :
    (after : Bool) (ss : List Stub) (s : Stub)
    → Alternates after ss
    → IsStub s
    → ((ends_literal after ss && is_literal s.type) ≡ false)
    → Alternates after (ss ++ s ∷ [])
Alternates-snoc after [] s w v e = (v, e, tt)
Alternates-snoc after (t ∷ ss) s w v e =
    (w.0, w.1, Alternates-snoc (is_literal t.type) ss s w.2 v e)

pub ends_literal-snoc :
    (after : Bool) (ss : List Stub) (s : Stub)
    → ends_literal after (ss ++ s ∷ []) ≡ is_literal s.type
ends_literal-snoc after [] s = refl
ends_literal-snoc after (t ∷ ss) s = ends_literal-snoc (is_literal t.type) ss s
