-- ===== src/SqlExecutor.antt =====
-- The interface of include/mysql/sql_executor.h: `SqlResult` and `SqlExecutor`, as far as `SqlBuilder`
-- calls them. A result of the type `R` is passed on from call to call.
use rellaf.Prelude.{ℕ, Bool, Option, Bytes}
use rellaf.Prelude.Ints.{ℤ}
use rellaf.Model.{Model}
use rellaf.Outcome.{Outcome}

pub record SqlResult {ℓ} (R : Type ℓ) : Type ℓ where
  pub next : R → Outcome (Bool × R)
  pub to_model : R → Model → Outcome (Bool × Model)

-- `select` may return a null pointer. `execute` returns the number of rows and the last key.
pub record SqlExecutor {ℓ} (R : Type ℓ) : Type ℓ where
  pub select : Bytes → Option R
  pub execute : Bytes → ℤ × ℕ
