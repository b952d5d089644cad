-- ===== src/UrlPattern/Totality.antt =====
-- The loop of `explode_path_vars` goes on at every byte, and what it returns.
use rellaf.Prelude.{ℕ, [], ◌∷◌, Bool, true, false, Option, none, some, Bytes, not, ◌≡◌, refl, arith}
use rellaf.Prelude.Maps.{nat_eq}
use rellaf.SqlPattern.{PatternState, init, normal, match_token, fetch, end_fetch, ok, PatternErr}
use rellaf.UrlPattern.{
  Scan, round, is_mark, run, finish_at, start, Exploded, explode_path_vars, settle, Round, advance,
  stay, fail, failed,
}

abbrev pub is_ok : PatternErr → Bool
is_ok ok = true
is_ok _ = false

-- The rounds at a byte go on to the next byte or fail with an error.
abbrev is_settled : Option (Round Scan) → Bool
is_settled none = false
is_settled (some (advance s)) = true
is_settled (some (stay s)) = false
is_settled (some (fail e)) = not (is_ok e)

settle-init : (s : Scan) (c : ℕ) → s.state ≡ init → is_settled (settle (round c) (round c s)) ≡ true
unfolding round is_mark
settle-init s c e = rw (e, round) (ground arith)

settle_total :
    (st : PatternState) (s : Scan) (c : ℕ)
    → s.state ≡ st
    → is_settled (settle (round c) (round c s)) ≡ true
unfolding round is_mark
settle_total init s c e = settle-init s c e
settle_total match_token s c e = rw (e, round) (ground arith)
settle_total normal s c e = rw (e, round) (ground arith)
settle_total fetch s c e = rw (e, round) (ground arith)
settle_total end_fetch s c e = rw (e, round) (ground arith)

-- A result is OK exactly if it is a success, and an error has no names.
abbrev pub IsResult : Exploded → Type 0
IsResult out = (out.ret ≡ is_ok out.err) × ((out.ret ≡ false) → out.vars ≡ [])

finish-IsResult : (st : PatternState) (s : Scan) → IsResult (finish_at st s)
unfolding finish_at
finish-IsResult init s = (refl, λ e. absurd (ground (arith, e)))
finish-IsResult normal s = (refl, λ e. absurd (ground (arith, e)))
finish-IsResult match_token s = (refl, λ e. absurd (ground (arith, e)))
finish-IsResult end_fetch s = (refl, λ e. absurd (ground (arith, e)))
finish-IsResult fetch s = (refl, λ e. refl)

run_total : (cs : Bytes) (s : Scan) → (out : Exploded) × (run s cs ≡ some out) × IsResult out
unfolding run
run_total [] s = (_, refl, finish-IsResult s.state s)
run_total (c ∷ cs) s =
    go (settle (round c) (round c s)) refl (settle_total s.state s c refl) (run_total cs)
  where
    go :
        (r : Option (Round Scan))
        → settle (round c) (round c s) ≡ r
        → is_settled r ≡ true
        → ((s' : Scan) → (out : Exploded) × (run s' cs ≡ some out) × IsResult out)
        → (out : Exploded) × (run s (c ∷ cs) ≡ some out) × IsResult out
    go none e h ih = absurd (ground (arith, h))
    go (some (advance s')) e h ih = rw (e, run) (ih s')
    go (some (stay s')) e h ih = absurd (ground (arith, h))
    go (some (fail er)) e h ih = rw (e, run) (failed er, refl, (ground (arith, h), λ _. refl))

-- `explode_path_vars` returns on every path: true with the error OK, or false with another error and
-- without names.
pub explode_path_vars_total :
    (path : Bytes) → (out : Exploded) × (explode_path_vars path ≡ some out) × IsResult out
unfolding explode_path_vars
explode_path_vars_total path = run_total path start
