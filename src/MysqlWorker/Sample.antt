-- ===== src/MysqlWorker/Sample.antt =====
-- A small MySQL client for the tests: it keeps the statements that have run, and fails a number of
-- times first. A result set is its number of rows.
use rellaf.Prelude.{ℕ, zero, suc, List, [], ◌∷◌, ◌++◌, Bool, true, false, none, some, Bytes, codes}
use rellaf.MyResult.{Client}
use rellaf.MysqlWorker.{Mysql, Memory, MyThread}

pub record Db : Type 0 where
  pub in_transaction : Bool
  pub faults : ℕ
  pub log : List Bytes

abbrev pub query_at : ℕ → Db → Bytes → Bool × Db
query_at zero c sql = (true, record c { log = c.log ++ sql ∷ [] })
query_at (suc n) c sql = (false, record c { faults = n })

abbrev pub empty_db : Db
empty_db = record { in_transaction = false; faults = 0; log = [] }

abbrev pub sample : Mysql Db ℕ
sample = record {
  new_connection = empty_db;
  real_connect = λ c. (true, c);
  close = λ c. record c { in_transaction = false };
  autocommit_off = λ c. (true, record c { in_transaction = true });
  commit = λ c. (true, record c { in_transaction = false });
  rollback = λ c. (true, record c { in_transaction = false });
  real_query = λ c sql. query_at c.faults c sql;
  insert_id = λ c. 7;
  affected_rows = λ c. 1;
  store_result = λ c. (some 0, c);
  error = λ c. codes "gone away";
  address = λ n. n;
}

abbrev pub no_rows_client : Client ℕ
no_rows_client = record {
  fetch_row = λ n. (none, n);
  fetch_fields = λ n. some (codes "id" ∷ []);
  num_rows = λ n. n;
}

abbrev pub full_queue : Memory
full_queue = record { accepted = false; allocated = true; leaves = true }

abbrev pub idle_thread : MyThread Db
idle_thread = record { connection = empty_db; live = true }
