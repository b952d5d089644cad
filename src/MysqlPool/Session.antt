-- ===== src/MysqlPool/Session.antt =====
-- A transaction from `begin` to `commit`.
use rellaf.Prelude.{ℕ, List, [], ◌∷◌, Bool, true, none, some, Bytes, codes, ◌≡◌, refl, ◌∙◌, arith}
use rellaf.Prelude.Ints.{ℤ}
use rellaf.Prelude.Maps.{
  find, emplace, find-emplace, put_back, find-put_back, erase, erase-put_back, erase-emplace,
  nat_eq,
}
use rellaf.MysqlWorker.{
  Mysql, InnerResult, MyThread, Call, done, ◌>>=◌, Memory, run_task, serve, submit, start_thread,
}
use rellaf.MysqlPool.{
  Pool, next_action, tx_execute, change, rows_or_failed, status_ok, begin, tx_end, commit,
}

-- The queue takes every task, every result can be allocated, and the worker ends behind its transaction.
abbrev pub plenty : Memory
plenty = record { accepted = true; allocated = true; leaves = true }

module _ {ℓ κ} {C : Type ℓ} {R : Type κ} (api : Mysql C R) where
  abbrev on_thread : C → MyThread C
  on_thread c = record { connection = c; live = true }

  -- The statements one after another as `update`s of the transaction.
  abbrev pub statements : ℕ → List Bytes → Pool C → Call (List ℤ × Pool C)
  statements id [] pool = done ([], pool)
  statements id (sql ∷ sqls) pool = change api plenty sql (some id) pool >>= λ (n, pool').
      statements id sqls pool' >>= λ (ns, pool''). done (n ∷ ns, pool'')

  abbrev pub transaction : List Bytes → Pool C → Call ((Bool × (List ℤ × Bool)) × Pool C)
  transaction sqls pool = begin api true plenty 0 pool >>= λ ((begun, id), pool1).
      statements id sqls pool1 >>= λ (ns, pool2).
      commit api plenty id pool2 >>= λ (committed, pool3). done ((begun, (ns, committed)), pool3)

  -- The same statements on a connection.
  abbrev pub on_connection : List Bytes → C → List ℤ × C
  on_connection [] c = ([], c)
  on_connection (sql ∷ sqls) c =
      let (r, c') = run_task api sql c in
      let (ns, c'') = on_connection sqls c' in (rows_or_failed (some r) ∷ ns, c'')

  change-run_task :
      (id : ℕ) (sql : Bytes) (c : C) (pool : Pool C)
      → find id pool.tx_pool ≡ some (on_thread c)
      → change api plenty sql (some id) pool
        ≡ done (
          rows_or_failed (some (run_task api sql c).0),
          record pool { tx_pool = put_back id (on_thread (run_task api sql c).1) pool.tx_pool },
        )
  unfolding change tx_execute submit serve
  change-run_task id sql c pool e = rw (e, tx_execute) refl

  find-put_back_self :
      (id : ℕ) (c c' : C) (m : List (ℕ × MyThread C))
      → find id m ≡ some (on_thread c)
      → find id (put_back id (on_thread c') m) ≡ some (on_thread c')
  find-put_back_self id c c' m e = ground (arith, find-put_back id id (on_thread c') m, e)

  statements-on_connection :
      (id : ℕ) (sqls : List Bytes) (c : C) (pool : Pool C)
      → find id pool.tx_pool ≡ some (on_thread c)
      → (m : List (ℕ × MyThread C)) × (statements id sqls pool
          ≡ done ((on_connection sqls c).0, record pool { tx_pool = m }))
        × (find id m ≡ some (on_thread (on_connection sqls c).1))
        × (erase id m ≡ erase id pool.tx_pool)
  statements-on_connection id [] c pool e = (pool.tx_pool, refl, e, refl)
  statements-on_connection id (sql ∷ sqls) c pool e =
      let c' = (run_task api sql c).1 in
      let m1 = put_back id (on_thread c') pool.tx_pool in
      let (m, run, found, same) =
        statements-on_connection id sqls c' (record pool { tx_pool = m1 })
          (find-put_back_self id c c' pool.tx_pool e) in
      (
        m,
        rw (change-run_task id sql c pool e, run) refl,
        found,
        same ∙ erase-put_back id (on_thread c') pool.tx_pool,
      )

  commit-run_task :
      (id : ℕ) (c : C) (pool : Pool C)
      → find id pool.tx_pool ≡ some (on_thread c)
      → commit api plenty id pool
        ≡ done (
          status_ok (run_task api (codes "COMMIT") c).0,
          record pool { tx_pool = erase id pool.tx_pool },
        )
  unfolding commit tx_end submit serve
  commit-run_task id c pool e = rw (e, tx_end) refl

  abbrev pub begun_on : InnerResult R × C
  begun_on = run_task api (codes "BEGIN") (start_thread api).connection

  begin-run_task :
      (pool : Pool C)
      → begin api true plenty 0 pool
        ≡ done (
          (status_ok begun_on.0, next_action pool.action_idx),
          record pool {
            action_idx = next_action pool.action_idx;
            tx_pool = emplace (next_action pool.action_idx) (on_thread begun_on.1) pool.tx_pool;
          },
        )
  unfolding begin submit serve
  begin-run_task pool = refl

  find-emplace_fresh :
      (id : ℕ) (t : MyThread C) (m : List (ℕ × MyThread C))
      → find id m ≡ none
      → find id (emplace id t m) ≡ some t
  find-emplace_fresh id t m e = ground (arith, find-emplace id id t m, e)

  -- With memory for all of it, a number that no transaction has, and a worker that leaves its loop
  -- behind the COMMIT, so that the join returns: a transaction runs BEGIN, its statements and COMMIT in
  -- this order on one new connection, returns what they return there, and leaves the pool as it was but
  -- for the count of its calls.
  pub transaction-on_connection :
      (sqls : List Bytes) (pool : Pool C)
      → find (next_action pool.action_idx) pool.tx_pool ≡ none
      → transaction sqls pool ≡ (
          let (ns, c) = on_connection sqls begun_on.1 in
          done (
            (status_ok begun_on.0, (ns, status_ok (run_task api (codes "COMMIT") c).0)),
            record pool { action_idx = next_action pool.action_idx },
          ))
  transaction-on_connection sqls pool fresh =
      let id = next_action pool.action_idx in
      let pool1 : Pool C = record pool {
        action_idx = id;
        tx_pool = emplace id (on_thread begun_on.1) pool.tx_pool;
      } in
      let found = find-emplace_fresh id (on_thread begun_on.1) pool.tx_pool fresh in
      let (m, run, found', same) = statements-on_connection id sqls begun_on.1 pool1 found in
      rw
        (
          begin-run_task pool,
          run,
          commit-run_task id (on_connection sqls begun_on.1).1 (record pool1 { tx_pool = m })
              found',
          same,
          erase-emplace id (on_thread begun_on.1) pool.tx_pool fresh,
        )
        refl
