-- ===== src/SqlBuilder/Rows.antt =====
-- `select_list_impl` over a result whose rows are known.
use rellaf.Prelude.{
  ℕ, zero, suc, ◌^◌, ◌<◌, List, [], ◌∷◌, ◌++◌, map, append_assoc, append-nil, true, false, none,
  some, Option, All, length, ◌≡◌, refl, ap, arith,
}
use rellaf.Prelude.Ints.{pos}
use rellaf.Numbers.{wrap_signed}
use rellaf.Model.{Model}
use rellaf.Outcome.{returned}
use rellaf.SqlBuilder.Execute.{add_row, row_round, rows_loop}
use rellaf.SqlExecutor.{SqlResult}

-- The result has rows that are read into these models.
pub data Yields {ℓ} {R : Type ℓ} (api : SqlResult R) (fresh : Model) : R → List Model → Type ℓ where
  ended : (res res' : R) → api.next res ≡ returned (false, res') → Yields api fresh res []
  at_row :
      (res res' : R) (m : Model) (ms : List Model)
      → api.next res ≡ returned (true, res')
      → api.to_model res' fresh ≡ returned (true, m)
      → Yields api fresh res' ms
      → Yields api fresh res (m ∷ ms)

pub length-map {ℓ κ} :
    {A : Type ℓ} {B : Type κ} (f : A → B) (xs : List A) → length (map f xs) ≡ length xs
length-map f [] = refl
length-map f (x ∷ xs) = ap suc (length-map f xs)

module _ {ℓ} {R : Type ℓ} (api : SqlResult R) (fresh : Model) (out : Model → Option Model) where
  round_end :
      (res res' : R) (acc : List Model)
      → api.next res ≡ returned (false, res')
      → row_round api fresh out res acc ≡ returned none
  unfolding row_round
  round_end res res' acc e = rw e refl

  round_row :
      (res res' : R) (acc : List Model) (m : Model)
      → api.next res ≡ returned (true, res')
      → api.to_model res' fresh ≡ returned (true, m)
      → out m ≡ some m
      → row_round api fresh out res acc ≡ returned (some (res', (true, acc ++ m ∷ [])))
  unfolding row_round
  round_row res res' acc m e h o = rw (e, h, add_row, o) refl

  -- Every row is read into a fresh model, which is copied whole behind the others.
  pub rows_loop-Yields :
      (fuel : ℕ) (res : R) (ms acc : List Model)
      → Yields api fresh res ms
      → All (λ m. out m ≡ some m) ms
      → length ms < fuel
      → rows_loop api fuel fresh out res acc
        ≡ some (returned (wrap_signed (2 ^ 32) (pos (length (acc ++ ms))), acc ++ ms))
  unfolding rows_loop
  rows_loop-Yields zero res ms acc y o l = absurd (omega (arith, l))
  rows_loop-Yields (suc fuel) res [] acc (ended _ res' e) o l =
      rw (round_end res res' acc e, append-nil acc, rows_loop) refl
  rows_loop-Yields (suc fuel) res (m ∷ ms) acc (at_row _ res' _ _ e h y) o l =
      rw (round_row res res' acc m e h o.0, rows_loop)
        (rw (append_assoc acc (m ∷ []) ms) at
          (rows_loop-Yields fuel res' ms (acc ++ m ∷ []) y o.1 (omega (arith, l))))
