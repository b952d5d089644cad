-- ===== src/MysqlJoin.antt =====
-- The end of a transaction in src/mysql/mysql_simple_pool.cpp: `tx_end` stops the worker thread and
-- joins it, while the worker goes on with its loop. A read or a write of `status` is a step.
pub mod Race
use rellaf.Prelude.{ℕ, Bool, true, false, ◌≡◌, ◌≢◌}

-- The worker in `thd_routine`: at the test of the `while`, before `arg->status = 2`, in `pop_block` on
-- an empty queue, and behind the loop.
pub data WorkerPc : Type 0 where
  testing marking popping ended : WorkerPc

-- The caller in `tx_end` behind `latch.wait()`: before `thread->status = 0`, before `clear()`, in
-- `pthread_join`, and behind it.
pub data CallerPc : Type 0 where
  stopping clearing joining joined : CallerPc

pub record Threads : Type 0 where
  pub status : ℕ
  pub worker : WorkerPc
  pub caller : CallerPc

-- The worker has counted the latch down and goes back to its test.
abbrev pub behind_latch : Threads
behind_latch = record { status = 2; worker = testing; caller = stopping }

pub data Step (s : Threads) : Threads → Type 0 where
  goes_on : s.worker ≡ testing → s.status ≢ 0 → Step s (record s { worker = marking })
  leaves : s.worker ≡ testing → s.status ≡ 0 → Step s (record s { worker = ended })
  marks : s.worker ≡ marking → Step s (record s { status = 2; worker = popping })
  -- by a signal of `clear`, or by the time limit
  pops_nothing : s.worker ≡ popping → Step s (record s { worker = testing })
  stops : s.caller ≡ stopping → Step s (record s { status = 0; caller = clearing })
  clears : s.caller ≡ clearing → Step s (record s { caller = joining })
  joins : s.caller ≡ joining → s.worker ≡ ended → Step s (record s { caller = joined })

pub data Reach (s : Threads) : Threads → Type 0 where
  here : Reach s s
  later : {t u : Threads} → Reach s t → Step t u → Reach s u
