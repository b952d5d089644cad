-- ===== src/MysqlWorker/Tests.antt =====
-- Statements on the small client.
use rellaf.Prelude.{
  ℕ, zero, suc, ◌<◌, [], true, false, Bytes, codes, ◌≡◌, ◌⊎◌, refl, inl, inr, arith,
}
use rellaf.Prelude.Ints.{pos}
use rellaf.MysqlWorker.{
  new_inner, queries, verb_of, starts_word, begins, rolls_back, fill_result, run_task,
}
use rellaf.MysqlWorker.Retry.{Fails, no_failure, failure, failed_at, run_task-Fails}
use rellaf.MysqlWorker.Lost.{IsOpen, run_task-lost}
use rellaf.MysqlWorker.Sample.{Db, sample, query_at}

verbs :
    (verb_of (codes "begin") ≡ begins)
    × (verb_of (codes "Rollback;") ≡ rolls_back)
    × (verb_of (codes "BEGI") ≡ queries)
unfolding verb_of starts_word
verbs = (refl, refl, refl)

-- A connection that fails once, inside of a transaction.
abbrev shaky : Db
shaky = record { in_transaction = true; faults = 1; log = [] }

abbrev insert_one : Bytes
insert_one = codes "INSERT"

abbrev again : Db
again = record { in_transaction = false; faults = 0; log = [] }

run_task-Fails_example :
    ((n : ℕ)
      → n < 3
      → Fails sample insert_one shaky new_inner n again
          (failed_at sample insert_one new_inner shaky)
      → (sample.real_query again insert_one).0 ≡ true
      → run_task sample insert_one shaky
        ≡ fill_result sample insert_one
            (record (failed_at sample insert_one new_inner shaky) { status = pos 0 })
            (sample.real_query again insert_one).1)
    × (Fails sample insert_one shaky new_inner 3 again (failed_at sample insert_one new_inner shaky)
        → run_task sample insert_one shaky ≡ (failed_at sample insert_one new_inner shaky, again))
unfolding verb_of starts_word
run_task-Fails_example =
    run_task-Fails sample insert_one shaky again (failed_at sample insert_one new_inner shaky) refl

-- The second try succeeds.
one_failure :
    run_task sample insert_one shaky
    ≡ fill_result sample insert_one
        (record (failed_at sample insert_one new_inner shaky) { status = pos 0 })
        (sample.real_query again insert_one).1
unfolding verb_of starts_word
one_failure =
    (run_task-Fails sample insert_one shaky again (failed_at sample insert_one new_inner shaky)
        refl).0
      1 (omega arith)
      (failure shaky again new_inner (failed_at sample insert_one new_inner shaky) 0 refl
        (no_failure again (failed_at sample insert_one new_inner shaky)))
      refl

query_keeps :
    (n : ℕ) (c : Db) (sql : Bytes) → (query_at n c sql).1.in_transaction ≡ c.in_transaction
query_keeps zero c sql = refl
query_keeps (suc n) c sql = refl

-- The statements that begin a transaction beside BEGIN.
abbrev Starts : Bytes → Type 0
Starts sql = (starts_word (codes "START") sql ≡ true) ⊎ (starts_word (codes "SET") sql ≡ true)

sample-IsOpen : IsOpen sample Starts (λ c. c.in_transaction ≡ true)
sample-IsOpen = record {
  connected = λ c e. cc e;
  queried = λ c sql b h e. h (cc (e, query_keeps c.faults c sql));
  read = λ c h e. h e;
}

run_task-lost_example : ¬ ((run_task sample insert_one shaky).1.in_transaction ≡ true)
unfolding verb_of starts_word
run_task-lost_example =
    run_task-lost sample-IsOpen insert_one shaky refl (λ b. elim b [ inl e ↦ cc e | inr e ↦ cc e ])
      refl
