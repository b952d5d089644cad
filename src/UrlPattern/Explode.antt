-- ===== src/UrlPattern/Explode.antt =====
-- `explode_path_vars` on the text of a list of sections.
use rellaf.Prelude.{
  ℕ, List, [], ◌∷◌, ◌++◌, append_assoc, append-nil, true, Option, some, Bytes, ◌≡◌, ◌≢◌, refl, ◌∙◌,
  arith, All,
}
use rellaf.Prelude.Maps.{emplace, nat_eq, bytes_eq}
use rellaf.SqlPattern.{PatternState, normal, match_token, fetch, end_fetch, ok}
use rellaf.UrlPattern.{
  Vars, next_idx, Scan, round, is_mark, run, finish_at, start, Exploded, explode_path_vars, advance,
}

-- A section of a pattern: a text, or the name of a variable.
pub data Section : Type 0 where
  text : Bytes → Section
  place : Bytes → Section

abbrev pub section_text : Section → Bytes
section_text (text v) = v
section_text (place v) = b'{' ∷ (v ++ b'}' ∷ [])

abbrev pub name_of : Section → Bytes
name_of (text v) = v
name_of (place v) = v

unfoldable pub render : List Section → Bytes
render [] = []
render (s ∷ ss) = b'/' ∷ (section_text s ++ render ss)

pub record IsPlain (c : ℕ) : Type 0 where
  pub no_slash : c ≢ b'/'
  pub no_open : c ≢ b'{'
  pub no_close : c ≢ b'}'

pub record IsSection (s : Section) : Type 0 where
  pub filled : name_of s ≢ []
  pub plain : All IsPlain (name_of s)

-- The names with the numbers of their sections.
unfoldable pub add_name : ℕ → Section → Vars → Vars
add_name idx (text v) vars = vars
add_name idx (place v) vars = emplace idx v vars

unfoldable pub collect : ℕ → List Section → Vars → Vars
unfolding add_name
collect idx [] vars = vars
collect idx (s ∷ ss) vars = collect (next_idx idx) ss (add_name idx s vars)

abbrev scan : PatternState → ℕ → Bytes → Vars → Scan
scan st idx sec vars = record {
  state = st;
  start_flag = true;
  idx = idx;
  section = sec;
  vars = vars;
}

-- Behind a section.
abbrev left : Section → ℕ → Vars → Scan
left (text v) idx vars = scan normal idx [] vars
left (place v) idx vars = scan end_fetch idx [] (emplace idx v vars)

run-advance :
    (s s' : Scan) (c : ℕ) (cs : Bytes) → round c s ≡ advance s' → run s (c ∷ cs) ≡ run s' cs
unfolding run
run-advance s s' c cs e = rw (e, run) refl

module _ (idx : ℕ) (vars : Vars) where
  round_text :
      (c : ℕ) → IsPlain c → round c (scan normal idx [] vars) ≡ advance (scan normal idx [] vars)
  unfolding round
  round_text c h = ground (arith, h.no_slash, h.no_open, h.no_close)

  round_first :
      (c : ℕ)
      → IsPlain c
      → round c (scan match_token idx [] vars) ≡ advance (scan normal idx [] vars)
  unfolding round is_mark
  round_first c h = ground (arith, h.no_slash, h.no_open, h.no_close)

  round_open : round b'{' (scan match_token idx [] vars) ≡ advance (scan fetch idx [] vars)
  unfolding round is_mark
  round_open = refl

  round_name :
      (c : ℕ) (sec : Bytes)
      → IsPlain c
      → round c (scan fetch idx sec vars) ≡ advance (scan fetch idx (sec ++ c ∷ []) vars)
  unfolding round is_mark
  round_name c sec h = ground (arith, h.no_slash, h.no_open, h.no_close)

  run_text :
      (v rest : Bytes)
      → All IsPlain v
      → run (scan normal idx [] vars) (v ++ rest) ≡ run (scan normal idx [] vars) rest
  run_text [] rest h = refl
  run_text (c ∷ v) rest h = run-advance _ _ c (v ++ rest) (round_text c h.0) ∙ run_text v rest h.1

  run_name :
      (sec v rest : Bytes)
      → All IsPlain v
      → run (scan fetch idx sec vars) (v ++ rest) ≡ run (scan fetch idx (sec ++ v) vars) rest
  run_name sec [] rest h = rw append-nil refl
  run_name sec (c ∷ v) rest h =
      run-advance _ _ c (v ++ rest) (round_name c sec h.0)
      ∙ run_name (sec ++ c ∷ []) v rest h.1
      ∙ rw append_assoc refl

  run_close :
      (v rest : Bytes)
      → v ≢ []
      → run (scan fetch idx v vars) (b'}' ∷ rest)
        ≡ run (scan end_fetch idx [] (emplace idx v vars)) rest
  unfolding run round is_mark
  run_close [] rest h = absurd (h refl)
  run_close (c ∷ v) rest h = refl

  run_section :
      (s : Section) (rest : Bytes)
      → IsSection s
      → run (scan match_token idx [] vars) (section_text s ++ rest) ≡ run (left s idx vars) rest
  run_section (text []) rest h = absurd (h.filled refl)
  run_section (text (c ∷ v)) rest h =
      run-advance _ _ c (v ++ rest) (round_first c h.plain.0) ∙ run_text v rest h.plain.1
  run_section (place v) rest h =
      run-advance _ _ b'{' ((v ++ b'}' ∷ []) ++ rest) round_open
      ∙ rw append_assoc (run_name [] v (b'}' ∷ rest) h.plain ∙ run_close v rest h.filled)

abbrev done : Vars → Option Exploded
done vars = some (record { ret = true; vars = vars; err = ok })

run_slash :
    (s : Section) (idx : ℕ) (vars : Vars) (rest : Bytes)
    → run (left s idx vars) (b'/' ∷ rest)
      ≡ run (scan match_token (next_idx idx) [] (add_name idx s vars)) rest
unfolding run round is_mark add_name
run_slash (text v) idx vars rest = refl
run_slash (place v) idx vars rest = refl

run_last :
    (s : Section) (idx : ℕ) (vars : Vars) → run (left s idx vars) [] ≡ done (add_name idx s vars)
unfolding run finish_at add_name
run_last (text v) idx vars = refl
run_last (place v) idx vars = refl

run-render :
    (s : Section) (ss : List Section) (idx : ℕ) (vars : Vars)
    → All IsSection ss
    → run (left s idx vars) (render ss) ≡ done (collect (next_idx idx) ss (add_name idx s vars))
unfolding render collect
run-render s [] idx vars h = run_last s idx vars
run-render s (t ∷ ss) idx vars h =
    run_slash s idx vars (section_text t ++ render ss)
    ∙ run_section (next_idx idx) (add_name idx s vars) t (render ss) h.0
    ∙ run-render t ss (next_idx idx) (add_name idx s vars) h.1

run_enter : (rest : Bytes) → run start (b'/' ∷ rest) ≡ run (scan match_token 0 [] []) rest
unfolding run round is_mark
run_enter rest = refl

-- On the text of sections that are not empty and have no `/`, `{` or `}`, `explode_path_vars`
-- succeeds, and `vars` has the names of the places by the numbers of their sections.
pub explode_path_vars-render :
    (ss : List Section)
    → All IsSection ss
    → explode_path_vars (render ss) ≡ some (record { ret = true; vars = collect 0 ss []; err = ok })
unfolding explode_path_vars render collect
explode_path_vars-render [] h = refl
explode_path_vars-render (s ∷ ss) h =
    run_enter (section_text s ++ render ss)
    ∙ run_section 0 [] s (render ss) h.0
    ∙ run-render s ss 0 [] h.1
