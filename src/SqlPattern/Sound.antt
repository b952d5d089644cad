-- ===== src/SqlPattern/Sound.antt =====
-- What `explode` returns: it loses no byte of the pattern, and its pieces are well formed.
use rellaf.Prelude.{
  Option-cases, ℕ, List, [], ◌∷◌, ◌++◌, append_assoc, append-nil, true, false, Option, none, some,
  ◌≡◌, refl, sym, subst, ◌<◌, ◌≤◌, Bytes, All, arith, ◌↔◌, inl, inr,
}
use rellaf.SqlPattern.{
  PatternErr, ok, ill_begin, ill_end, StubType, Stub, PatternState, init, normal, match_token,
  fetch, end_fetch, Scan, start, Round, next, fail, fault, round, finish, run, Exploded, explode,
}
use rellaf.SqlPattern.Render.{render, WellFormed, render-snoc, Alternates-snoc}
use rellaf.SqlPattern.Scanning.{pending, IsScan, read, scan, IsError, Goes, Goes-round}

-- The bytes that the tables cover.
abbrev pub IsAscii : ℕ → Type 0
IsAscii c = c < 128

far_inside : (xs ys : Bytes) (c : ℕ) → 128 ≤ c → ¬ (All IsAscii (xs ++ c ∷ ys))
far_inside [] ys c h a = omega arith
far_inside (x ∷ xs) ys c h a = far_inside xs ys c h a.1

-- What a returned result says of the pattern `text`.
pub record Explains (text : Bytes) (r : Exploded) : Type 0 where
  pub pieces : WellFormed r.pieces
  pub whole : r.ret ≡ true → render r.pieces ≡ text
  pub front : (rest : Bytes) × (render r.pieces ++ rest ≡ text)
  pub err_iff : (r.ret ≡ true) ↔ (r.err ≡ ok)

abbrev Told : Bytes → Option Exploded → Type 0
Told text none = ¬ (All IsAscii text)
Told text (some r) = Explains text r

-- A result with an error, after the text that the scan has read and before `rest`.
Explains-error :
    (s : Scan) (rest : Bytes) (e : PatternErr)
    → IsError e
    → IsScan s
    → Explains (read s ++ rest) (record { ret = false; pieces = s.pieces; err = e })
Explains-error s rest e x v = record {
  pieces = v.pieces;
  whole = λ h. cc;
  front =
      (pending s.state s ++ rest, sym (append_assoc (render s.pieces) (pending s.state s) rest));
  err_iff = (λ h. cc, λ h. absurd (subst IsError h x));
}

Explains-finish :
    (st : PatternState) (sec : Bytes) (ty : StubType) (tok : ℕ) (ps : List Stub)
    → IsScan (scan st sec ty tok ps)
    → Explains (read (scan st sec ty tok ps)) (finish (scan st sec ty tok ps))
unfolding finish
Explains-finish init [] ty tok ps v = record {
  pieces = v.pieces;
  whole = λ h. sym (append-nil (render ps));
  front = ([], refl);
  err_iff = (λ h. refl, λ h. refl);
}
Explains-finish init (d ∷ sec) ty tok ps v = rw v.shape.0 (record {
  pieces =
      Alternates-snoc false ps _ v.pieces (record { filled = cc; plain = v.section })
        (rw v.shape.1);
  whole = λ h. render-snoc ps _;
  front = ([], rw (append-nil, render-snoc));
  err_iff = (λ h. refl, λ h. refl);
})
Explains-finish match_token sec ty tok ps v =
    rw append-nil at (Explains-error (scan match_token sec ty tok ps) [] ill_begin tt v)
Explains-finish fetch sec ty tok ps v =
    rw append-nil at (Explains-error (scan fetch sec ty tok ps) [] ill_end tt v)
Explains-finish normal sec ty tok ps v = absurd v.shape
Explains-finish end_fetch sec ty tok ps v = absurd v.shape

-- The loop from any scan.
Told-run : (s : Scan) (cs : Bytes) → IsScan s → Told (read s ++ cs) (run s cs)
unfolding run
Told-run s [] v = rw append-nil (Explains-finish s.state s.section s.type s.token s.pieces v)
Told-run s (c ∷ cs) v =
    go (round s c) refl (Goes-round s.state s.section s.type s.token s.pieces c v)
      (λ s'. Told-run s' cs)
  where
    go :
        (r : Round)
        → round s c ≡ r
        → Goes (read s) c r
        → ((s' : Scan) → IsScan s' → Told (read s' ++ cs) (run s' cs))
        → Told (read s ++ c ∷ cs) (run s (c ∷ cs))
    go (next s') e g ih = rw (e, run) (rw (g.1, append_assoc (read s) (c ∷ []) cs) at (ih s' g.0))
    go (fail x) e g ih = rw (e, run) (Explains-error s (c ∷ cs) x g v)
    go fault e g ih = rw (e, run) (far_inside (read s) cs c g)

IsScan-start : IsScan start
IsScan-start = record { pieces = tt; section = tt; shape = (refl, refl) }

Told-explode : (pattern : Bytes) → Told pattern (explode pattern)
unfolding explode render
Told-explode pattern = Told-run start pattern IsScan-start

-- A returned result of `explode` has well-formed pieces whose text is the start of the pattern, and
-- on success the whole of it; `err` is `ok` exactly on success.
pub explode-Explains :
    (pattern : Bytes) (r : Exploded) → explode pattern ≡ some r → Explains pattern r
explode-Explains pattern r e = rw e at (Told-explode pattern)

-- On an ASCII pattern `explode` reads inside of its tables: it returns a result.
pub explode-IsAscii :
    (pattern : Bytes) → All IsAscii pattern → (r : Exploded) × (explode pattern ≡ some r)
explode-IsAscii pattern a = elim (Option-cases (explode pattern)) [
  | inl e ↦ absurd ((rw e at (Told-explode pattern)) a)
  | inr (r, e) ↦ (r, e)
]
