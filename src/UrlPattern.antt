-- ===== src/UrlPattern.antt =====
-- `UrlPattern` of src/var_pattern.h and src/var_pattern.cpp: `explode_path_vars` finds the
-- `{name}` sections of a path pattern by their positions, and `fetch_path_vars` reads the sections of
-- a path at those positions.
pub mod Fetch
pub mod Explode
pub mod RoundTrip
pub mod Totality
pub mod Prefix
mod Tests
use rellaf.Prelude.{
  ℕ, ◌+◌, ◌%◌, ◌^◌, List, [], ◌∷◌, ◌++◌, Bool, true, false, Option, none, some, Bytes, ◌&&◌, ◌||◌,
  not, ◌==◌, if◌then◌else◌, is_empty,
}
use rellaf.Prelude.Maps.{find, emplace, nat_eq, bytes_eq}
use rellaf.SqlPattern.{
  PatternErr, ok, ill_token, ill_begin, ill_end, none_field, PatternState, init, normal,
  match_token, fetch, end_fetch,
}

-- `std::map<uint32_t, std::string>` and `std::map<std::string, std::string>`.
abbrev pub Vars : Type 0
Vars = List (ℕ × Bytes)

abbrev pub Vals : Type 0
Vals = List (Bytes × Bytes)

-- `++idx` on a `uint32_t`.
abbrev pub next_idx : ℕ → ℕ
next_idx idx = (idx + 1) % 2 ^ 32

-- One round of a `while` body: with `++i`, without it, or an early return.
pub data Round {ℓ} (S : Type ℓ) : Type ℓ where
  advance : S → Round S
  stay : S → Round S
  fail : PatternErr → Round S

-- The rounds at one byte: one, or two if the first one leaves `i` where it is. A third one at the
-- same byte would be `none`.
abbrev second {ℓ} : {S : Type ℓ} → Round S → Option (Round S)
second (advance s) = some (advance s)
second (stay s) = none
second (fail e) = some (fail e)

abbrev settle {ℓ} : {S : Type ℓ} → (S → Round S) → Round S → Option (Round S)
settle again (advance s) = some (advance s)
settle again (stay s) = second (again s)
settle again (fail e) = some (fail e)

-- The variables of `explode_path_vars`.
pub record Scan : Type 0 where
  pub state : PatternState
  pub start_flag : Bool
  pub idx : ℕ
  pub section : Bytes
  pub vars : Vars

is_mark : ℕ → Bool
is_mark c = c == b'/' || (c == b'{' || c == b'}')

round_init : Scan → ℕ → Round Scan
round_init s c =
    if is_mark c
    then (if c == b'/'
        then advance (record s {
          idx = if s.start_flag then next_idx s.idx else s.idx;
          state = match_token;
          start_flag = true;
        })
        else fail ill_token)
    else advance (record s { start_flag = true })

round_match : Scan → ℕ → Round Scan
round_match s c =
    if is_mark c
    then (if c == b'/'
        then advance s
        else if not (c == b'{')
        then fail ill_begin
        else advance (record s { state = fetch }))
    else advance (record s { state = normal })

round_normal : Scan → ℕ → Round Scan
round_normal s c =
    if c == b'{' || c == b'}'
    then fail ill_token
    else if c == b'/'
    then stay (record s { state = init })
    else advance s

round_fetch : Scan → ℕ → Round Scan
round_fetch s c =
    if is_mark c
    then (if c == b'}'
        then (if is_empty s.section
            then fail none_field
            else advance (record s {
              vars = emplace s.idx s.section s.vars;
              section = [];
              state = end_fetch;
            }))
        else fail ill_end)
    else advance (record s { section = s.section ++ c ∷ [] })

round_end : Scan → ℕ → Round Scan
round_end s c = if not (c == b'/') then fail ill_token else stay (record s { state = init })

round_at : PatternState → Scan → ℕ → Round Scan
round_at init = round_init
round_at match_token = round_match
round_at normal = round_normal
round_at fetch = round_fetch
round_at end_fetch = round_end

round : ℕ → Scan → Round Scan
unfolding round_at round_init round_match round_normal round_fetch round_end is_mark
round c s = round_at s.state s c

-- What a call returns. On an error `vars` is cleared.
pub record Exploded : Type 0 where
  pub ret : Bool
  pub vars : Vars
  pub err : PatternErr

abbrev failed : PatternErr → Exploded
failed e = record { ret = false; vars = []; err = e }

finish_at : PatternState → Scan → Exploded
finish_at fetch s = failed ill_end
finish_at match_token s = record { ret = true; vars = s.vars; err = ok }
finish_at _ s = record {
  ret = true;
  vars = if is_empty s.section then s.vars else emplace s.idx s.section s.vars;
  err = ok;
}

run : Scan → Bytes → Option Exploded
run s [] = some (finish_at s.state s)
run s (c ∷ cs) = elim (settle (round c) (round c s)) [
  | none ↦ none
  | some (advance s') ↦ run s' cs
  | some (stay s') ↦ none
  | some (fail e) ↦ some (failed e)
]

abbrev start : Scan
start = record { state = init; start_flag = false; idx = 0; section = []; vars = [] }

unfoldable pub explode_path_vars : Bytes → Option Exploded
unfolding run round finish_at emplace
explode_path_vars path = run start path

-- The variables of `fetch_path_vars`.
pub record Reader : Type 0 where
  pub state : PatternState
  pub start_flag : Bool
  pub idx : ℕ
  pub section : Bytes
  pub vals : Vals

-- `if (vars.count(idx) == 1) vals.emplace(vars.at(idx), section);`
abbrev pub bind : Vars → ℕ → Bytes → Vals → Vals
bind vars idx section vals = elim (find idx vars) [
  | none ↦ vals
  | some name ↦ emplace name section vals
]

read_init : Vars → Reader → ℕ → Round Reader
read_init vars r c =
    if c == b'/'
    then (if is_empty r.section
        then advance (record r { start_flag = true })
        else advance (record r {
          vals = bind vars r.idx r.section r.vals;
          section = [];
          idx = if r.start_flag then next_idx r.idx else r.idx;
          start_flag = true;
        }))
    else stay (record r { state = match_token; start_flag = true })

read_match : Reader → ℕ → Round Reader
read_match r c =
    if c == b'/'
    then stay (record r { state = init })
    else advance (record r { section = r.section ++ c ∷ [] })

read_at : PatternState → Vars → Reader → ℕ → Round Reader
read_at init vars r c = read_init vars r c
read_at match_token vars r c = read_match r c
read_at _ vars r c = advance (record r { section = r.section ++ c ∷ [] })

read : Vars → ℕ → Reader → Round Reader
unfolding read_at read_init read_match
read vars c r = read_at r.state vars r c

last_section : PatternState → Vars → Reader → Vals
last_section init vars r =
    if not (is_empty r.section) then bind vars r.idx r.section r.vals else r.vals
last_section match_token vars r =
    if not (is_empty r.section) then bind vars r.idx r.section r.vals else r.vals
last_section _ vars r = r.vals

walk : Vars → Reader → Bytes → Option Vals
walk vars r [] = some (last_section r.state vars r)
walk vars r (c ∷ cs) = elim (settle (read vars c) (read vars c r)) [
  | none ↦ none
  | some (advance r') ↦ walk vars r' cs
  | some (stay r') ↦ none
  | some (fail e) ↦ none
]

abbrev opened : Reader
opened = record { state = init; start_flag = false; idx = 0; section = []; vals = [] }

-- `vals` after the call, which always returns true.
unfoldable pub fetch_path_vars : Bytes → Vars → Option Vals
unfolding walk read last_section find emplace
fetch_path_vars path vars = walk vars opened path

-- `prefix` if the call returns true: the path up to its first `/{`.
unfoldable pub fetch_path_vars_prefix : Bytes → Option Bytes
fetch_path_vars_prefix [] = none
fetch_path_vars_prefix (c ∷ []) = none
fetch_path_vars_prefix (c ∷ d ∷ s) =
    let rest = fetch_path_vars_prefix (d ∷ s) in
    if c == b'/' && d == b'{' then some [] else elim rest [ none ↦ none | some p ↦ some (c ∷ p) ]
