-- ===== src/UrlPattern/Fetch.antt =====
-- `fetch_path_vars` reads the sections of the path in order, with their numbers.
use rellaf.Prelude.{
  ℕ, List, [], ◌∷◌, ◌++◌, Bool, true, false, some, Bytes, ◌==◌, ◌≡◌, ◌≢◌, refl, ◌∙◌, arith,
  Bool-cases, inl, inr, ==_iff,
}
use rellaf.Prelude.Maps.{nat_eq, bytes_eq}
use rellaf.SqlPattern.{init, match_token}
use rellaf.Str.Sections.{sections, flush, sections_at, sections_other}
use rellaf.UrlPattern.{
  Vars, Vals, next_idx, Reader, bind, read, last_section, walk, fetch_path_vars,
}

-- The sections from number `idx` on.
unfoldable pub bind_all : Vars → ℕ → List Bytes → Vals → Vals
bind_all vars idx [] vals = vals
bind_all vars idx (s ∷ ss) vals = bind_all vars (next_idx idx) ss (bind vars idx s vals)

-- The reader between two bytes: it is in a section or not.
abbrev reader : Bool → ℕ → Bytes → Vals → Reader
reader flag idx [] vals = record {
  state = init;
  start_flag = flag;
  idx = idx;
  section = [];
  vals = vals;
}
reader flag idx (c ∷ cur) vals = record {
  state = match_token;
  start_flag = true;
  idx = idx;
  section = c ∷ cur;
  vals = vals;
}

-- What a `/` leads to.
behind_slash : Vars → ℕ → Bytes → Vals → Reader
behind_slash vars idx [] vals = reader true idx [] vals
behind_slash vars idx (c ∷ cur) vals = reader true (next_idx idx) [] (bind vars idx (c ∷ cur) vals)

module _ (vars : Vars) where
  read_slash :
      (flag : Bool) (idx : ℕ) (cur : Bytes) (vals : Vals) (cs : Bytes)
      → walk vars (reader flag idx cur vals) (b'/' ∷ cs)
        ≡ walk vars (behind_slash vars idx cur vals) cs
  unfolding walk read behind_slash
  read_slash flag idx [] vals cs = refl
  read_slash flag idx (c ∷ cur) vals cs = refl

  read_other :
      (flag : Bool) (idx c : ℕ) (cur : Bytes) (vals : Vals) (cs : Bytes)
      → c ≢ b'/'
      → walk vars (reader flag idx cur vals) (c ∷ cs)
        ≡ walk vars (reader true idx (cur ++ c ∷ []) vals) cs
  unfolding walk read
  read_other flag idx c [] vals cs h = ground arith
  read_other flag idx c (d ∷ cur) vals cs h = ground arith

  read_end :
      (flag : Bool) (idx : ℕ) (cur : Bytes) (vals : Vals)
      → walk vars (reader flag idx cur vals) [] ≡ some (bind_all vars idx (flush cur) vals)
  unfolding walk last_section bind_all
  read_end flag idx [] vals = refl
  read_end flag idx (c ∷ cur) vals = refl

  read_section :
      (flag : Bool) (idx : ℕ) (cur : Bytes) (vals : Vals) (cs : Bytes)
      → ((idx' : ℕ) (vals' : Vals)
          → walk vars (reader true idx' [] vals') cs
            ≡ some (bind_all vars idx' (sections b'/' [] cs) vals'))
      → walk vars (reader flag idx cur vals) (b'/' ∷ cs)
        ≡ some (bind_all vars idx (flush cur ++ sections b'/' [] cs) vals)
  unfolding behind_slash bind_all
  read_section flag idx [] vals cs ih = read_slash flag idx [] vals cs ∙ ih idx vals
  read_section flag idx (c ∷ cur) vals cs ih =
      read_slash flag idx (c ∷ cur) vals cs ∙ ih (next_idx idx) (bind vars idx (c ∷ cur) vals)

  walk-sections :
      (path : Bytes) (flag : Bool) (idx : ℕ) (cur : Bytes) (vals : Vals)
      → walk vars (reader flag idx cur vals) path
        ≡ some (bind_all vars idx (sections b'/' cur path) vals)
  unfolding sections
  walk-sections [] flag idx cur vals = read_end flag idx cur vals
  walk-sections (c ∷ path) flag idx cur vals = elim (Bool-cases (c == b'/')) [
    | inl e ↦
        rw ((==_iff c b'/').0 e, sections_at b'/' cur path)
          (read_section flag idx cur vals path
            (λ idx' vals'. walk-sections path true idx' [] vals'))
    | inr e ↦ rw (sections_other b'/' c cur path (ground (arith, e))) (
        read_other flag idx c cur vals path (ground (arith, e))
        ∙ walk-sections path true idx (cur ++ c ∷ []) vals)
  ]

-- On every path, `fetch_path_vars` binds the names of the sections that `vars` has a name for: the
-- non-empty runs between the slashes, numbered from 0 in their order.
pub fetch_path_vars-sections :
    (path : Bytes) (vars : Vars)
    → fetch_path_vars path vars ≡ some (bind_all vars 0 (sections b'/' [] path) [])
unfolding fetch_path_vars
fetch_path_vars-sections path vars = walk-sections vars path false 0 [] []
