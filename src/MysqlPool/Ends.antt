-- ===== src/MysqlPool/Ends.antt =====
-- What is left of a transaction behind `commit` and `rollback`.
use rellaf.Prelude.{
  ℕ, Bool, true, false, Option, none, some, Bytes, if◌then◌else◌, ◌≡◌, ◌≢◌, refl, inl, inr,
  Option-cases, Bool-cases, not, ◌&&◌, ◌||◌, arith,
}
use rellaf.Prelude.Maps.{find, erase, find-erase, nat_eq}
use rellaf.MysqlWorker.{
  Mysql, InnerResult, failed_status, MyThread, Call, done, hangs, crashes, ◌>>=◌, Memory, submit,
}
use rellaf.MysqlPool.{Pool, change, tx_execute, tx_end, status_ok}
use rellaf.MysqlPool.Isolation.{Leaves, left, stuck, crashed}

-- The transaction is gone, and nothing else is changed.
pub record Ended {ℓ} {C : Type ℓ} (id : ℕ) (pool pool' : Pool C) : Type ℓ where
  pub gone : find id pool'.tx_pool ≡ none
  pub threads : pool'.threads ≡ pool.threads
  pub count : pool'.thread_count ≡ pool.thread_count
  pub index : pool'.action_idx ≡ pool.action_idx
  pub others : (j : ℕ) → j ≢ id → find j pool'.tx_pool ≡ find j pool.tx_pool

module _ {ℓ κ} {C : Type ℓ} {R : Type κ} (api : Mysql C R) (id : ℕ) where
  erased : (pool : Pool C) → Ended id pool (record pool { tx_pool = erase id pool.tx_pool })
  erased pool = record {
    gone = ground (arith, find-erase id id pool.tx_pool);
    threads = refl;
    count = refl;
    index = refl;
    others = λ j ne. ground (arith, find-erase id j pool.tx_pool, ne);
  }

  answered :
      (memory : Memory) (pool : Pool C) (call : Call (Bool × (Option (InnerResult R) × MyThread C)))
      → Leaves {A = Bool} (Ended id pool) (
          call >>= λ (taken, (result, t')).
          if taken && (memory.leaves || not t'.live)
          then elim result [
            | none ↦ crashes
            | some r ↦ done (status_ok r, record pool { tx_pool = erase id pool.tx_pool })
          ]
          else hangs)
  answered memory pool (done (true, (result, t'))) =
      elim (Bool-cases (memory.leaves || not t'.live)) [
        | inl e ↦ rw e (joined result)
        | inr e ↦ rw e stuck
      ]
    where
      joined :
          (result : Option (InnerResult R))
          → Leaves {A = Bool} (Ended id pool) (elim result [
            | none ↦ crashes
            | some r ↦ done (status_ok r, record pool { tx_pool = erase id pool.tx_pool })
          ])
      joined none = crashed
      joined (some r) = left (status_ok r) _ (erased pool)
  answered memory pool (done (false, (result, t'))) = stuck
  answered memory pool hangs = stuck
  answered memory pool crashes = crashed

  -- If COMMIT or ROLLBACK returns, the transaction is gone from the pool, and the threads of the pool
  -- and all other transactions are as they were.
  pub tx_end-Ended :
      (memory : Memory) (sql : Bytes) (pool : Pool C)
      → Leaves (Ended id pool) (tx_end api memory id sql pool)
  unfolding tx_end
  tx_end-Ended memory sql pool = elim (Option-cases (find id pool.tx_pool)) [
    | inl e ↦
        rw (e, tx_end)
          (left false pool (record {
            gone = e;
            threads = refl;
            count = refl;
            index = refl;
            others = λ j ne. refl;
          }))
    | inr (t, e) ↦ rw (e, tx_end) (answered memory pool (submit api memory sql t))
  ]

  -- For a transaction that is gone every statement fails with -1 and changes nothing, and so does a
  -- second COMMIT or ROLLBACK, with false.
  pub change_gone :
      (memory : Memory) (sql : Bytes) (pool : Pool C)
      → find id pool.tx_pool ≡ none
      → (change api memory sql (some id) pool ≡ done (failed_status, pool))
        × (tx_end api memory id sql pool ≡ done (false, pool))
  unfolding change tx_execute tx_end
  change_gone memory sql pool e = (rw (e, tx_execute) refl, rw (e, tx_end) refl)
