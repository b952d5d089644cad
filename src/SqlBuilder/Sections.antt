-- ===== src/SqlBuilder/Sections.antt =====
-- What `split_section` returns.
use rellaf.Prelude.{
  ℕ, zero, suc, ◌+◌, ◌≤◌, List, [], ◌∷◌, ◌++◌, append_assoc, append-nil, none, some, Bytes, ◌==◌,
  if◌then◌else◌, take, drop, length, length-append, take-length-append, Lacks, ◌≡◌, ◌≢◌, refl, ◌∙◌,
  ap, sym, inl, inr, Bool-cases, arith,
}
use rellaf.Str.Sections.{sections, flush, sections_at, sections-Lacks}
use rellaf.SqlBuilder.{find_dot, at_end, split_loop, split_section}

-- Where the first dot of a text without NUL is.
data Dot (s : Bytes) : Type 0 where
  whole : find_dot s ≡ none → Lacks b'.' s → Dot s
  dot :
      (u v : Bytes)
      → find_dot s ≡ some (length u)
      → s ≡ u ++ b'.' ∷ v
      → Lacks b'.' u
      → Lacks 0 v
      → Dot s

Dot-of : (s : Bytes) → Lacks 0 s → Dot s
unfolding find_dot
Dot-of [] h = whole refl tt
Dot-of (c ∷ s) h = elim (Bool-cases (c == b'.')) [
  | inl e ↦ dot [] s (ground (arith, h.0)) (ground (arith, e)) tt h.1
  | inr e ↦ elim (Dot-of s h.1) [
    | whole n l ↦ whole (rw n (ground (arith, h.0, e))) (ground (arith, e), l)
    | dot u v n q l k ↦
        dot (c ∷ u) v (rw n (ground (arith, h.0, e))) (rw q refl) (ground (arith, e), l) k
  ]
]

sections-whole : (s : Bytes) → Lacks b'.' s → sections b'.' [] s ≡ flush s
unfolding sections
sections-whole s l = rw append-nil at (sections-Lacks b'.' s [] [] l)

sections-dot :
    (u v : Bytes) → Lacks b'.' u → sections b'.' [] (u ++ b'.' ∷ v) ≡ flush u ++ sections b'.' [] v
sections-dot u v l = sections-Lacks b'.' u [] (b'.' ∷ v) l ∙ sections_at b'.' u v

-- What a round adds.
add_run :
    (u v : Bytes) (acc : List Bytes)
    → (if length u == 0 then acc else acc ++ take (length u) (u ++ v) ∷ []) ≡ acc ++ flush u
add_run [] v acc = sym (append-nil acc)
add_run (c ∷ u) v acc = rw (take-length-append (c ∷ u) v) (ground arith)

drop_run : (u v : Bytes) → drop (length u + 1) (u ++ b'.' ∷ v) ≡ v
drop_run [] v = refl
drop_run (c ∷ u) v =
    let e : suc (length u) + 1 ≡ suc (length u + 1) = omega arith in rw e (drop_run u v)

module _ (f : ℕ) (begin : Bytes) (acc : List Bytes) where
  loop-none : find_dot begin ≡ none → split_loop (suc f) begin acc ≡ some (acc ++ begin ∷ [])
  unfolding split_loop
  loop-none e = rw (e, split_loop) refl

  loop-some :
      (i : ℕ)
      → find_dot begin ≡ some i
      → split_loop (suc f) begin acc ≡ (
          let rest = drop (i + 1) begin in
          let acc' = if i == 0 then acc else acc ++ take i begin ∷ [] in
          if at_end rest then some acc' else split_loop f rest acc')
  unfolding split_loop
  loop-some i e = rw (e, split_loop) refl

behind :
    (f : ℕ) (v : Bytes) (acc runs : List Bytes)
    → Lacks 0 v
    → ((v ≢ []) → split_loop f v (acc ++ runs) ≡ some (acc ++ runs ++ sections b'.' [] v))
    → (if at_end v then some (acc ++ runs) else split_loop f v (acc ++ runs))
      ≡ some (acc ++ (runs ++ sections b'.' [] v))
unfolding sections
behind f [] acc runs k ih = rw append-nil refl
behind f (d ∷ v) acc runs k ih =
    rw (sym (append_assoc acc runs (sections b'.' [] (d ∷ v)))) (ground (arith, k.0, ih (cc)))

split_loop-sections :
    (f : ℕ) (begin : Bytes) (acc : List Bytes)
    → Lacks 0 begin
    → begin ≢ []
    → length begin ≤ f
    → split_loop f begin acc ≡ some (acc ++ sections b'.' [] begin)
split_loop-sections f [] acc h ne le = absurd (ne refl)
split_loop-sections zero (c ∷ s) acc h ne le = absurd (omega arith)
split_loop-sections (suc f) (c ∷ s) acc h ne le = elim (Dot-of (c ∷ s) h) [
  | whole n l ↦ loop-none f (c ∷ s) acc n ∙ rw (sections-whole (c ∷ s) l) refl
  | dot u v n q l k ↦
      loop-some f (c ∷ s) acc (length u) n
      ∙ rw (q, drop_run u v, add_run u (b'.' ∷ v) acc, sections-dot u v l)
          (behind f v acc (flush u) k (λ m.
            split_loop-sections f v (acc ++ flush u) k m
              (omega (arith, le, ap length q, length-append u (b'.' ∷ v)))))
]

-- On a text without NUL, `split_section` returns the non-empty runs between the dots.
pub split_section-sections : (s : Bytes) → Lacks 0 s → split_section s ≡ some (sections b'.' [] s)
unfolding split_section sections
split_section-sections [] h = refl
split_section-sections (c ∷ s) h =
    split_loop-sections (length (c ∷ s)) (c ∷ s) [] h (cc) (omega arith)
