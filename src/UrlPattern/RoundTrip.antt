-- ===== src/UrlPattern/RoundTrip.antt =====
-- What `fetch_path_vars` binds on a path that fills a pattern, with the names that
-- `explode_path_vars` found in the pattern.
use rellaf.Prelude.{
  ℕ, suc, ◌+◌, ◌^◌, ◌≤◌, ◌<◌, List, [], ◌∷◌, ◌++◌, true, Option, none, some, Bytes, ◌≡◌, ◌≢◌, refl,
  ◌∙◌, ap, arith, All, Lacks, length,
}
use rellaf.Prelude.Maps.{find, emplace, find-emplace, nat_eq, bytes_eq}
use rellaf.SqlPattern.{ok}
use rellaf.Str.Sections.{sections, sections_at, sections-Lacks}
use rellaf.UrlPattern.{Vars, Vals, next_idx, bind, explode_path_vars, fetch_path_vars}
use rellaf.UrlPattern.Explode.{
  Section, text, place, IsSection, render, add_name, collect, explode_path_vars-render,
}
use rellaf.UrlPattern.Fetch.{bind_all, fetch_path_vars-sections}

-- A section of the pattern with the text that a path has at its place.
pub record Filled : Type 0 where
  pub section : Section
  pub value : Bytes

pub record IsFilled (f : Filled) : Type 0 where
  pub section : IsSection f.section
  pub not_empty : f.value ≢ []
  pub no_slash : Lacks b'/' f.value

abbrev pub pattern_of : List Filled → List Section
pattern_of [] = []
pattern_of (f ∷ fs) = f.section ∷ pattern_of fs

abbrev pub values_of : List Filled → List Bytes
values_of [] = []
values_of (f ∷ fs) = f.value ∷ values_of fs

unfoldable pub path_of : List Filled → Bytes
path_of [] = []
path_of (f ∷ fs) = b'/' ∷ (f.value ++ path_of fs)

-- The values of the places by their names; the first place of a name has it.
abbrev pub binds : Section → Bytes → Vals → Vals
binds (text v) value vals = vals
binds (place v) value vals = emplace v value vals

unfoldable pub bindings : List Filled → Vals → Vals
bindings [] vals = vals
bindings (f ∷ fs) vals = bindings fs (binds f.section f.value vals)

sections_value :
    (v : Bytes) (fs : List Filled)
    → v ≢ []
    → All IsFilled fs
    → sections b'/' v (path_of fs) ≡ v ∷ values_of fs
unfolding sections path_of
sections_value [] fs n h = absurd (n refl)
sections_value (c ∷ v) [] n h = refl
sections_value (c ∷ v) (f ∷ fs) n h =
    sections_at b'/' (c ∷ v) (f.value ++ path_of fs)
    ∙ ap (λ ss. (c ∷ v) ∷ ss)
        (sections-Lacks b'/' f.value [] (path_of fs) h.0.no_slash
          ∙ sections_value f.value fs h.0.not_empty h.1)

sections_path : (fs : List Filled) → All IsFilled fs → sections b'/' [] (path_of fs) ≡ values_of fs
unfolding sections path_of
sections_path [] h = refl
sections_path (f ∷ fs) h =
    sections-Lacks b'/' f.value [] (path_of fs) h.0.no_slash
    ∙ sections_value f.value fs h.0.not_empty h.1

find-add_name :
    (k idx : ℕ) (s : Section) (vars : Vars) → k ≢ idx → find k (add_name idx s vars) ≡ find k vars
unfolding add_name
find-add_name k idx (text v) vars h = refl
find-add_name k idx (place v) vars h = ground (arith, find-emplace idx k v vars)

-- The sections behind number `k` leave it alone.
find-collect :
    (k idx : ℕ) (ss : List Section) (vars : Vars)
    → k < idx
    → idx + length ss < 2 ^ 32
    → find k (collect idx ss vars) ≡ find k vars
unfolding collect
find-collect k idx [] vars h fits = refl
find-collect k idx (s ∷ ss) vars h fits =
    find-collect k (next_idx idx) ss (add_name idx s vars) (omega arith) (omega arith)
    ∙ find-add_name k idx s vars (omega arith)

-- No section from `idx` on has a name yet.
abbrev Fresh : ℕ → Vars → Type 0
Fresh idx vars = (k : ℕ) → idx ≤ k → find k vars ≡ none

abbrev place_name : Section → Option Bytes
place_name (text v) = none
place_name (place v) = some v

find_new :
    (idx : ℕ) (s : Section) (vars : Vars)
    → Fresh idx vars
    → find idx (add_name idx s vars) ≡ place_name s
unfolding add_name
find_new idx (text v) vars h = h idx (omega arith)
find_new idx (place v) vars h = ground (arith, find-emplace idx idx v vars, h idx (omega arith))

bind-name :
    (s : Section) (vars : Vars) (idx : ℕ) (value : Bytes) (vals : Vals)
    → find idx vars ≡ place_name s
    → bind vars idx value vals ≡ binds s value vals
bind-name (text v) vars idx value vals e = rw (e, bind) refl
bind-name (place v) vars idx value vals e = rw (e, bind) refl

length-pattern_of : (fs : List Filled) → length (pattern_of fs) ≡ length fs
length-pattern_of [] = refl
length-pattern_of (f ∷ fs) = ap suc (length-pattern_of fs)

bind_all-collect :
    (fs : List Filled) (idx : ℕ) (vars : Vars) (vals : Vals)
    → Fresh idx vars
    → idx + length fs < 2 ^ 32
    → bind_all (collect idx (pattern_of fs) vars) idx (values_of fs) vals ≡ bindings fs vals
unfolding collect bind_all bindings
bind_all-collect [] idx vars vals h fits = refl
bind_all-collect (f ∷ fs) idx vars vals h fits =
    bind_all-collect fs (next_idx idx) (add_name idx f.section vars)
      (bind (collect (next_idx idx) (pattern_of fs) (add_name idx f.section vars)) idx f.value vals)
      (λ k le. find-add_name k idx f.section vars (omega arith) ∙ h k (omega arith)) (omega arith)
    ∙ ap (bindings fs) (
        bind-name f.section _ idx f.value vals (
          find-collect idx (next_idx idx) (pattern_of fs) (add_name idx f.section vars)
            (omega arith) (omega (arith, length-pattern_of fs))
          ∙ find_new idx f.section vars h))

patterns-IsSection : (fs : List Filled) → All IsFilled fs → All IsSection (pattern_of fs)
patterns-IsSection [] h = tt
patterns-IsSection (f ∷ fs) h = (h.0.section, patterns-IsSection fs h.1)

nothing : (k : ℕ) → find {K = ℕ} {V = Bytes} k [] ≡ none
unfolding find
nothing k = refl

-- `explode_path_vars` succeeds on a well-formed pattern of fewer than 2 ^ 32 sections, and with the
-- names it found `fetch_path_vars` binds every place of the pattern to the text that a path of
-- non-empty sections has there; of two places with one name the first has it.
pub fetch_path_vars-explode_path_vars :
    (fs : List Filled)
    → All IsFilled fs
    → length fs < 2 ^ 32
    → (vars : Vars) × (explode_path_vars (render (pattern_of fs))
        ≡ some (record { ret = true; vars = vars; err = ok }))
      × (fetch_path_vars (path_of fs) vars ≡ some (bindings fs []))
fetch_path_vars-explode_path_vars fs h fits = (
  collect 0 (pattern_of fs) [],
  explode_path_vars-render (pattern_of fs) (patterns-IsSection fs h),
  fetch_path_vars-sections (path_of fs) (collect 0 (pattern_of fs) [])
      ∙ ap some
          (rw (sections_path fs h) (bind_all-collect fs 0 [] [] (λ k le. nothing k) (omega arith))),
)
