-- ===== src/MysqlPool/Tests.antt =====
-- The pool on a small client, and instances of the theorems.
use rellaf.Prelude.{
  ℕ, ◌<◌, List, [], ◌∷◌, true, false, none, some, Bytes, codes, replicate, ◌≡◌, refl,
}
use rellaf.Prelude.Maps.{find, nat_eq}
use rellaf.Prelude.Ints.{pos}
use rellaf.Cast.Sample.{no_reals}
use rellaf.Model.{void}
use rellaf.Outcome.{returned}
use rellaf.SqlBuilder.Execute.{select_impl}
use rellaf.MyResult.{new_result, my_api}
use rellaf.MysqlWorker.{InnerResult, rows, done, crashes, run_task, submit, failed_status}
use rellaf.MysqlWorker.Sample.{Db, sample, no_rows_client, full_queue, idle_thread}
use rellaf.MysqlPool.{Pool, next_action, execute, run_sql, connect, stop, select, status_ok}
use rellaf.MysqlPool.Isolation.{Keeps, Leaves, run_sql-Keeps}
use rellaf.MysqlPool.Session.{
  plenty, transaction, on_connection, begun_on, transaction-on_connection,
}
use rellaf.MysqlPool.Startup.{started, connect_all}
use rellaf.MysqlPool.Inverted.{IsFailure, answers, select_impl_inverted}

abbrev no_threads : Pool Db
no_threads = record { action_idx = 0; threads = []; thread_count = 0; tx_pool = [] }

abbrev two_threads : Pool Db
two_threads = record no_threads {
  threads = some idle_thread ∷ some idle_thread ∷ [];
  thread_count = 2;
}

abbrev in_transaction : Pool Db
in_transaction = record two_threads { action_idx = 3; tx_pool = (3, idle_thread) ∷ [] }

abbrev two_statements : List Bytes
two_statements = codes "INSERT" ∷ codes "DELETE" ∷ []

run_sql-Keeps_example :
    Leaves
      (Keeps (some 3) in_transaction)
      (run_sql sample plenty (codes "DELETE") (some 3) in_transaction)
run_sql-Keeps_example = run_sql-Keeps sample plenty (codes "DELETE") (some 3) in_transaction

transaction-on_connection_example : transaction sample two_statements two_threads ≡ (
    let (ns, c) = on_connection sample two_statements (begun_on sample).1 in
    done (
      (status_ok (begun_on sample).0, (ns, status_ok (run_task sample (codes "COMMIT") c).0)),
      record two_threads { action_idx = next_action 0 },
    ))
unfolding find
transaction-on_connection_example = transaction-on_connection sample two_statements two_threads refl

two_connected :
    (((j : ℕ) → j < 2 → false ≡ true)
      → connect sample (λ i. false) 2 no_threads
        ≡ done
            (true, record no_threads { thread_count = 2; threads = replicate 2 (started sample) }))
    × ((j : ℕ) → j < 2 → false ≡ false → connect sample (λ i. false) 2 no_threads ≡ crashes)
    × (stop sample (record no_threads { thread_count = 2; threads = replicate 2 (started sample) })
        ≡ done (record no_threads { thread_count = 2; threads = replicate 2 none }))
two_connected = connect_all sample (λ i. false) 2 no_threads refl

abbrev behind_call : Pool Db
behind_call = record two_threads { action_idx = 1 }

-- The queue does not take the statement.
select_impl_inverted_example :
    (IsFailure {R = ℕ} none
      → (select sample no_rows_client full_queue (codes "SELECT") two_threads
          ≡ done (some new_result, behind_call))
        × (select_impl
              (my_api no_rows_client no_reals)
              (returned (codes "SELECT"))
              false
              (some (answers (some new_result)))
              void
            ≡ returned (pos 1, void)))
    × ((inner : InnerResult ℕ) (set : ℕ) (fields : List Bytes)
        → none ≡ some inner
        → inner.payload ≡ rows set
        → status_ok inner ≡ true
        → no_rows_client.fetch_fields set ≡ some fields
        → no_rows_client.num_rows set ≡ 0
        → (select sample no_rows_client full_queue (codes "SELECT") two_threads
            ≡ done (none, behind_call))
          × (select_impl
                (my_api no_rows_client no_reals)
                (returned (codes "SELECT"))
                false
                (some (answers none))
                void
              ≡ returned (failed_status, void)))
unfolding execute submit
select_impl_inverted_example =
    select_impl_inverted sample no_rows_client no_reals full_queue (codes "SELECT") two_threads
      behind_call none void refl
