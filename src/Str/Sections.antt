-- ===== src/Str/Sections.antt =====
-- What `split` returns: its loop ends for every delimiter, and for a delimiter of one byte it
-- returns the non-empty runs between the delimiters, in order.
use rellaf.Prelude.{
  ℕ, zero, suc, ◌+◌, ◌-◌, ◌≤◌, ◌<◌, List, [], ◌∷◌, ◌++◌, append_assoc, append-nil, true, false,
  none, some, Bytes, ◌==◌, ltb, if◌then◌else◌, take, drop, length, length-append,
  take-length-append, drop-length-append, length-drop, Lacks, ◌≡◌, ◌≢◌, refl, ◌∙◌, ap, inl, inr,
  Bool-cases, Option-cases, arith,
}
use rellaf.Str.{is_prefix, find, find_from, shift, split_loop, split}

find-le : (s delims : Bytes) (i : ℕ) → find s delims ≡ some i → i ≤ length s
unfolding find
find-le [] delims i e = ground arith
find-le (c ∷ s) delims i e = elim (Option-cases (find s delims)) [
  | inl n ↦ ground arith
  | inr (k, n) ↦ ground (arith, find-le s delims k)
]

find_from_bounds :
    (str delims : Bytes) (p i : ℕ)
    → find_from str delims p ≡ some i
    → (p ≤ i) × (i ≤ length str) × (p ≤ length str)
unfolding find_from
find_from_bounds str delims p i e = elim (Option-cases (find (drop p str) delims)) [
  | inl n ↦ absurd (ground arith)
  | inr (k, n) ↦ ground (arith, find-le (drop p str) delims k, length-drop p str)
]

-- The two ways on of a round.
module _ (f : ℕ) (str delims : Bytes) (p : ℕ) (cont : List Bytes) where
  split_loop-none :
      find_from str delims p ≡ none
      → split_loop (suc f) str delims p cont
        ≡ some (if ltb p (length str) then cont ++ drop p str ∷ [] else cont)
  unfolding split_loop
  split_loop-none e = rw (e, split_loop)

  split_loop-some :
      (i : ℕ)
      → find_from str delims p ≡ some i
      → split_loop (suc f) str delims p cont
        ≡ split_loop f str delims
            (i + 1)
            (if ltb p i then cont ++ take (i - p) (drop p str) ∷ [] else cont)
  unfolding split_loop
  split_loop-some i e = rw (e, split_loop)

split_loop_total :
    (f : ℕ) (str delims : Bytes) (p : ℕ) (cont : List Bytes)
    → p ≤ length str + 1
    → length str + 2 ≤ f + p
    → (out : List Bytes) × (split_loop f str delims p cont ≡ some out)
split_loop_total zero str delims p cont h k = absurd (omega arith)
split_loop_total (suc f) str delims p cont h k = elim (Option-cases (find_from str delims p)) [
  | inl e ↦ (_, split_loop-none f str delims p cont e)
  | inr (i, e) ↦
      let (le, fits, _) = find_from_bounds str delims p i e in
      let next : List Bytes = if ltb p i then cont ++ take (i - p) (drop p str) ∷ [] else cont in
      let (out, ran) = split_loop_total f str delims (i + 1) next (omega arith) (omega arith) in
      (out, split_loop-some f str delims p cont i e ∙ ran)
]

-- The fuel suffices: the loop of `split` ends, whatever the text and the delimiter.
pub split_total : (str delims : Bytes) → (out : List Bytes) × (split str delims ≡ some out)
unfolding split
split_total str delims =
    split_loop_total (length str + 2) str delims 0 [] (omega arith) (omega arith)

-- The non-empty runs between the bytes `d`; `cur` is the run so far.
abbrev pub flush : Bytes → List Bytes
flush [] = []
flush (c ∷ cur) = (c ∷ cur) ∷ []

unfoldable pub sections : ℕ → Bytes → Bytes → List Bytes
sections d cur [] = flush cur
sections d cur (c ∷ s) = elim (c == d) [
  | true ↦ flush cur ++ sections d [] s
  | false ↦ sections d (cur ++ c ∷ []) s
]

pub sections_other :
    (d c : ℕ) (cur s : Bytes) → c ≢ d → sections d cur (c ∷ s) ≡ sections d (cur ++ c ∷ []) s
unfolding sections
sections_other d c cur s ne = ground arith

pub sections-Lacks :
    (d : ℕ) (u cur s : Bytes) → Lacks d u → sections d cur (u ++ s) ≡ sections d (cur ++ u) s
sections-Lacks d [] cur s h = rw append-nil
sections-Lacks d (c ∷ u) cur s h =
    sections_other d c cur (u ++ s) h.0 ∙ sections-Lacks d u (cur ++ c ∷ []) s h.1 ∙ rw append_assoc

pub sections_at : (d : ℕ) (cur s : Bytes) → sections d cur (d ∷ s) ≡ flush cur ++ sections d [] s
unfolding sections
sections_at d cur s = ground arith

-- Where a delimiter of one byte is found.
data Cut (d : ℕ) (s : Bytes) : Type 0 where
  whole : find s (d ∷ []) ≡ none → Lacks d s → Cut d s
  cut : (u v : Bytes) → find s (d ∷ []) ≡ some (length u) → s ≡ u ++ d ∷ v → Lacks d u → Cut d s

Cut-all : (d : ℕ) (s : Bytes) → Cut d s
unfolding find is_prefix
Cut-all d [] = whole refl tt
Cut-all d (c ∷ s) = elim (Bool-cases (d == c)) [
  | inl e ↦ cut [] s (ground arith) (ground arith) tt
  | inr e ↦ elim (Cut-all d s) [
    | whole n l ↦ whole (rw n (ground arith)) (ground arith, l)
    | cut u v n q l ↦ cut (c ∷ u) v (rw n (ground arith)) (rw q) (ground arith, l)
  ]
]

find_from-append :
    (pre rest delims : Bytes)
    → find_from (pre ++ rest) delims (length pre) ≡ shift (length pre) (find rest delims)
unfolding find_from
find_from-append pre rest delims = rw drop-length-append (ground (arith, length-append pre rest))

-- What is left behind the last delimiter.
last_section :
    (pre rest : Bytes) (cont : List Bytes)
    → (if ltb (length pre) (length (pre ++ rest))
        then cont ++ drop (length pre) (pre ++ rest) ∷ []
        else cont)
      ≡ cont ++ flush rest
last_section pre [] cont = ground (arith, length-append pre [], append-nil cont)
last_section pre (c ∷ rest) cont =
    ground (arith, length-append pre (c ∷ rest), drop-length-append pre (c ∷ rest))

run_between :
    (pre u v : Bytes)
    → take (length pre + length u - length pre) (drop (length pre) (pre ++ (u ++ v))) ≡ u
run_between pre u v =
    let e : length pre + length u - length pre ≡ length u = omega arith in
    rw (e, drop-length-append) (take-length-append u v)

next_section :
    (pre u v : Bytes) (cont : List Bytes)
    → (if ltb (length pre) (length pre + length u)
        then cont
          ++ take (length pre + length u - length pre) (drop (length pre) (pre ++ (u ++ v))) ∷ []
        else cont)
      ≡ cont ++ flush u
next_section pre [] v cont = ground (arith, append-nil cont)
next_section pre (c ∷ u) v cont = ground (arith, run_between pre (c ∷ u) v)

-- The text and the position behind a delimiter.
behind : (d : ℕ) (pre u v : Bytes) → (pre ++ (u ++ d ∷ [])) ++ v ≡ pre ++ (u ++ d ∷ v)
behind d pre u v = simp append_assoc

length-behind : (d : ℕ) (pre u : Bytes) → length (pre ++ (u ++ d ∷ [])) ≡ length pre + length u + 1
length-behind d pre u = omega (arith, length-append pre (u ++ d ∷ []), length-append u (d ∷ []))

sections-last : (d : ℕ) (s : Bytes) → Lacks d s → sections d [] s ≡ flush s
unfolding sections
sections-last d s l = rw append-nil at (sections-Lacks d s [] [] l)

module _ (d f : ℕ) (pre : Bytes) (cont : List Bytes) where
  round_last :
      (rest : Bytes)
      → find rest (d ∷ []) ≡ none
      → Lacks d rest
      → split_loop (suc f) (pre ++ rest) (d ∷ []) (length pre) cont
        ≡ some (cont ++ sections d [] rest)
  round_last rest n l =
      split_loop-none f (pre ++ rest) (d ∷ []) (length pre) cont (rw (find_from-append, n))
      ∙ rw (last_section, sections-last d rest l)

  round_cut :
      (u v : Bytes)
      → find (u ++ d ∷ v) (d ∷ []) ≡ some (length u)
      → Lacks d u
      → split_loop f
          ((pre ++ (u ++ d ∷ [])) ++ v)
          (d ∷ [])
          (length (pre ++ (u ++ d ∷ [])))
          (cont ++ flush u)
        ≡ some ((cont ++ flush u) ++ sections d [] v)
      → split_loop (suc f) (pre ++ (u ++ d ∷ v)) (d ∷ []) (length pre) cont
        ≡ some (cont ++ sections d [] (u ++ d ∷ v))
  round_cut u v n l ih =
      rw
        (
          split_loop-some f (pre ++ (u ++ d ∷ v)) (d ∷ []) (length pre) cont (length pre + length u)
              (rw (find_from-append, n)),
          next_section,
          sections-Lacks d u [] (d ∷ v) l,
          sections_at,
        )
        (rw (behind d pre u v, length-behind d pre u, append_assoc cont (flush u) (sections d [] v))
          at ih)

split_loop-sections :
    (d f : ℕ) (pre rest : Bytes) (cont : List Bytes)
    → length rest < f
    → split_loop f (pre ++ rest) (d ∷ []) (length pre) cont ≡ some (cont ++ sections d [] rest)
split_loop-sections d zero pre rest cont h = absurd (omega arith)
split_loop-sections d (suc f) pre rest cont h = elim (Cut-all d rest) [
  | whole n l ↦ round_last d f pre cont rest n l
  | cut u v n q l ↦ rw q (
      round_cut d f pre cont u v (rw q at n) l (
        split_loop-sections d f (pre ++ (u ++ d ∷ [])) v (cont ++ flush u)
          (omega (arith, ap length q, length-append u (d ∷ v)))))
]

-- With a delimiter of one byte `split` returns the non-empty runs between the delimiters.
pub split-sections : (str : Bytes) (d : ℕ) → split str (d ∷ []) ≡ some (sections d [] str)
unfolding split
split-sections str d = split_loop-sections d (length str + 2) [] str [] (omega arith)
