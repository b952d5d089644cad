-- ===== src/Outcome.antt =====
-- The results of calls that can return false or fail: the functions of `SqlBuilder`, `SqlExecutor` and
-- `json_to_model`.

-- What a call does: it returns true with its output, it returns false, or it follows a null pointer,
-- takes one class for another or writes outside of a buffer.
pub data Outcome {ℓ} (A : Type ℓ) : Type ℓ where
  returned : A → Outcome A
  refused : Outcome A
  fault : Outcome A

infixl 2 ◌>>=◌
abbrev pub ◌>>=◌ {ℓ κ} : {A : Type ℓ} {B : Type κ} → Outcome A → (A → Outcome B) → Outcome B
(returned a) >>= f = f a
refused >>= f = refused
fault >>= f = fault
