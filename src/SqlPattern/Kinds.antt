-- ===== src/SqlPattern/Kinds.antt =====
-- The bytes that the scanner tells apart.
use rellaf.Prelude.{ℕ, ◌≡◌, ◌≢◌, ◌≤◌, ◌<◌, arith, ltb, ◌==◌, Bool-cases, inl, inr, [], ◌∷◌, ◌++◌}
use rellaf.SqlPattern.{
  Scan, next, fail, fault, ill_begin, tokens, token_pairs, round_init, round_match, round_fetch,
}
use rellaf.SqlPattern.Render.{IsPlain}

pub data Kind (c : ℕ) : Type 0 where
  plain : IsPlain c → Kind c
  hash : c ≡ b'#' → Kind c
  open_square : c ≡ b'[' → Kind c
  open_curly : c ≡ b'{' → Kind c
  close_square : c ≡ b']' → Kind c
  close_curly : c ≡ b'}' → Kind c
  far : 128 ≤ c → Kind c

choose {ℓ} : {A : Type ℓ} (c d : ℕ) → (c ≡ d → A) → (c ≢ d → A) → A
choose c d t f = elim (Bool-cases (c == d)) [ inl e ↦ t (ground arith) | inr e ↦ f (ground arith) ]

choose_lt {ℓ} : {A : Type ℓ} (c : ℕ) → (c < 128 → A) → (128 ≤ c → A) → A
choose_lt c t f = elim (Bool-cases (ltb c 128)) [
  | inl e ↦ t (ground arith)
  | inr e ↦ f (ground arith)
]

pub kind : (c : ℕ) → Kind c
kind c =
    choose_lt c
      (λ near. choose c b'#' hash λ h. choose c b'[' open_square λ a. choose c b'{' open_curly λ b.
        choose c b']' close_square λ d. choose c b'}' close_curly λ e. plain (record {
          ascii = near;
          no_hash = h;
          no_open_square = a;
          no_close_square = d;
          no_open_curly = b;
          no_close_curly = e;
        }))
      far

-- What the rounds do with a byte that is no token, and with one outside of the tables.
module _ (s : Scan) (c : ℕ) where
  pub round_init-IsPlain :
      IsPlain c → round_init s c ≡ next (record s { section = s.section ++ c ∷ [] })
  unfolding round_init tokens
  round_init-IsPlain p = ground arith

  pub round_match-IsPlain : IsPlain c → round_match s c ≡ fail ill_begin
  unfolding round_match token_pairs
  round_match-IsPlain p = ground arith

  pub round_fetch-IsPlain :
      IsPlain c → round_fetch s c ≡ next (record s { section = s.section ++ c ∷ [] })
  unfolding round_fetch tokens
  round_fetch-IsPlain p = ground arith

  pub round_init-far : 128 ≤ c → round_init s c ≡ fault
  unfolding round_init tokens
  round_init-far p = ground arith

  pub round_match-far : 128 ≤ c → round_match s c ≡ fault
  unfolding round_match token_pairs
  round_match-far p = ground arith

  pub round_fetch-far : 128 ≤ c → round_fetch s c ≡ fault
  unfolding round_fetch tokens
  round_fetch-far p = ground arith
