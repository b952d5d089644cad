-- ===== src/MyTxEx.antt =====
-- `MyTxEx` of src/mysql/mysql_simple_pool.h and .cpp: a transaction as an object.
pub mod Never
mod Tests
use rellaf.Prelude.{ℕ, List, [], ◌∷◌, Bool, true, false, Option, none, some, Bytes, if◌then◌else◌}
use rellaf.Prelude.Ints.{ℤ}
use rellaf.MysqlWorker.{Mysql, Call, done, hangs, crashes, ◌>>=◌, Memory}
use rellaf.MysqlPool.{Pool, begin, commit, rollback}

-- `finished` is what `_done` returns, if it is set.
pub record MyTxEx : Type 0 where
  pub init : Bool
  pub is_begin : Bool
  pub finished : Option ℤ
  pub tx : ℕ

-- What a member function returns, with what it left of the object.
pub record Ended : Type 0 where
  pub ret : Bool
  pub done_ret : Option ℤ
  pub object : MyTxEx

-- `set_done`
abbrev pub set_done : ℤ → MyTxEx → MyTxEx
set_done ret e = record e { finished = some ret }

module _ {ℓ κ} {C : Type ℓ} {R : Type κ} (api : Mysql C R) where
  -- `MyTxEx()`; `_init` is false, so the exchange succeeds.
  unfoldable pub new_tx : Bool → Memory → Pool C → Call (MyTxEx × Pool C)
  unfolding begin
  new_tx made memory pool = begin api made memory 0 pool >>= λ ((ok, id), pool').
      done (record { init = ok; is_begin = false; finished = none; tx = id }, pool')

  -- The destructor calls `rollback` too.
  unfoldable pub rollback_tx : Memory → MyTxEx → Pool C → Call (Ended × Pool C)
  unfolding rollback
  rollback_tx memory e pool =
      if e.init
      then (if e.is_begin
          then (rollback api memory e.tx pool >>= λ (ok, pool').
              done (
                record { ret = ok; done_ret = none; object = record e { is_begin = false } },
                pool',
              ))
          else done (record { ret = true; done_ret = none; object = e }, pool))
      else done (record { ret = false; done_ret = none; object = e }, pool)

  unfoldable pub commit_tx : Memory → MyTxEx → Pool C → Call (Ended × Pool C)
  unfolding commit
  commit_tx memory e pool =
      if e.init
      then (if e.is_begin
          then (commit api memory e.tx pool >>= λ (ok, pool'). done (
            record {
              ret = ok;
              done_ret = if ok then e.finished else none;
              object = record e { is_begin = false };
            },
            pool',
          ))
          else done (record { ret = true; done_ret = none; object = e }, pool))
      else done (record { ret = false; done_ret = none; object = e }, pool)
