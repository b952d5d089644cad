-- ===== src/MysqlWorker.antt =====
-- The worker thread of src/mysql/mysql_simple_pool.cpp (`thd_routine`): a statement that it takes from
-- its queue is run on its connection. The MySQL client is the parameter `Mysql`.
pub mod Retry
pub mod Lost
pub mod Sample
mod Tests
use rellaf.Prelude.{
  ℕ, zero, suc, ◌+◌, ◌%◌, ◌^◌, List, [], ◌∷◌, Bool, true, false, Option, none, some, Bytes, codes,
  ◌==◌, ◌&&◌, leb, if◌then◌else◌,
}
use rellaf.Prelude.Ints.{ℤ, pos, negsuc}
use rellaf.Numbers.{as_signed}
use rellaf.Str.Cases.{lower}

-- A connection `C` with its result sets `R`. A call that can fail says whether it succeeded.
-- `insert_id` and `affected_rows` are of the last query, and `address` is the pointer to a result set
-- as a number.
pub record Mysql {ℓ κ} (C : Type ℓ) (R : Type κ) : Type (ℓ ⊔ κ) where
  pub new_connection : C
  pub real_connect : C → Bool × C
  pub close : C → C
  pub autocommit_off : C → Bool × C
  pub commit : C → Bool × C
  pub rollback : C → Bool × C
  pub real_query : C → Bytes → Bool × C
  pub insert_id : C → ℕ
  pub affected_rows : C → ℕ
  pub store_result : C → Option R × C
  pub error : C → Bytes
  pub address : R → ℕ

-- `void* data`: a null pointer, the last key, or a result set.
pub data Payload {ℓ} (R : Type ℓ) : Type ℓ where
  no_payload : Payload R
  key : ℕ → Payload R
  rows : R → Payload R

pub record InnerResult {ℓ} (R : Type ℓ) : Type ℓ where
  pub status : ℤ
  pub row_count : ℤ
  pub message : Bytes
  pub payload : Payload R

abbrev pub failed_status : ℤ
failed_status = negsuc 0

abbrev pub new_inner {ℓ} : {R : Type ℓ} → InnerResult R
new_inner = record { status = pos 0; row_count = pos 0; message = []; payload = no_payload }

-- `strncasecmp(sql, word, sizeof(word) - 1) == 0`
unfoldable pub starts_word : Bytes → Bytes → Bool
starts_word [] sql = true
starts_word (w ∷ ws) [] = false
starts_word (w ∷ ws) (c ∷ sql) = lower w == lower c && starts_word ws sql

-- The branch of `thd_routine` for a statement.
pub data Verb : Type 0 where
  begins commits rolls_back queries : Verb

unfoldable pub verb_of : Bytes → Verb
unfolding starts_word
verb_of sql =
    if starts_word (codes "BEGIN") sql
    then begins
    else if starts_word (codes "COMMIT") sql
    then commits
    else if starts_word (codes "ROLLBACK") sql
    then rolls_back
    else queries

module _ {ℓ κ} {C : Type ℓ} {R : Type κ} (api : Mysql C R) where
  -- `connect(&mysql)`, whose result is not looked at.
  abbrev pub reconnect : C → C
  reconnect c = (api.real_connect c).1

  abbrev pub retry : C → C
  retry c = reconnect (api.close c)

  -- A call that sets the status of the result if it fails.
  abbrev pub checked : Bool × C → InnerResult R × C
  checked (true, c) = (new_inner, c)
  checked (false, c) = (record new_inner { status = failed_status; message = api.error c }, c)

  -- The key of an INSERT, read from the connection behind the query.
  abbrev pub key_payload : Bytes → C → Payload R
  key_payload sql c = if starts_word (codes "INSERT") sql then key (api.insert_id c) else no_payload

  -- `mysql_store_result`, for a SELECT.
  abbrev pub read_stored : InnerResult R → Option R × C → InnerResult R × C
  read_stored r (none, c) = (record r { payload = no_payload }, c)
  read_stored r (some res, c) = (record r { payload = rows res }, c)

  -- A query that succeeded.
  unfoldable pub fill_result : Bytes → InnerResult R → C → InnerResult R × C
  unfolding starts_word
  fill_result sql r c =
      let r' = record r {
        row_count = as_signed (2 ^ 32) (api.affected_rows c % 2 ^ 32);
        payload = key_payload sql c;
      } in
      if starts_word (codes "SELECT") sql then read_stored r' (api.store_result c) else (r', c)

  -- `while (count)`: a query that fails is tried again on a new connection. What a try left in the
  -- message stays there.
  unfoldable pub attempts : ℕ → Bytes → InnerResult R → C → InnerResult R × C
  unfolding fill_result
  attempts zero sql r c = (r, c)
  attempts (suc count) sql r c =
      let (ok, c') = api.real_query c sql in
      elim ok [
        | true ↦ fill_result sql (record r { status = pos 0 }) c'
        | false ↦
            attempts count sql (record r { status = failed_status; message = api.error c' })
              (retry c')
      ]

  -- One task, behind the allocation of its result.
  unfoldable pub run_task : Bytes → C → InnerResult R × C
  unfolding verb_of attempts
  run_task sql c = elim (verb_of sql) [
    | begins ↦ checked (api.autocommit_off c)
    | commits ↦ checked (api.commit c)
    | rolls_back ↦ checked (api.rollback c)
    | queries ↦ attempts 3 sql new_inner c
  ]

-- `MyThread` with its connection; the loop has ended in a thread that is not live.
pub record MyThread {ℓ} (C : Type ℓ) : Type ℓ where
  pub connection : C
  pub live : Bool

-- What a caller sees: its call returns, it waits for ever, or it crashes.
pub data Call {ℓ} (A : Type ℓ) : Type ℓ where
  done : A → Call A
  hangs : Call A
  crashes : Call A

infixl 2 ◌>>=◌
abbrev pub ◌>>=◌ {ℓ κ} : {A : Type ℓ} {B : Type κ} → Call A → (A → Call B) → Call B
(done a) >>= f = f a
hangs >>= f = hangs
crashes >>= f = crashes

-- What a call finds: whether the queue takes its task, whether the worker can allocate the result, and
-- whether the worker leaves its loop behind a COMMIT or ROLLBACK, in which it may also stay (MysqlJoin).
pub record Memory : Type 0 where
  pub accepted : Bool
  pub allocated : Bool
  pub leaves : Bool

module _ {ℓ κ} {C : Type ℓ} {R : Type κ} (api : Mysql C R) where
  -- The worker takes a task. With no memory the result stays a null pointer, and the loop ends.
  unfoldable pub serve : Bool → Bytes → MyThread C → Option (InnerResult R) × MyThread C
  unfolding run_task
  serve false sql t = (none, record { connection = api.close t.connection; live = false })
  serve true sql t =
      let (r, c) = run_task api sql t.connection in (some r, record t { connection = c })

  -- `add_block`, and if it took the task, `latch.wait()`. A task of a thread that is not live is never
  -- run. The first part is the result of `add_block`.
  unfoldable pub submit :
      Memory → Bytes → MyThread C → Call (Bool × (Option (InnerResult R) × MyThread C))
  unfolding serve
  submit memory sql t =
      if memory.accepted
      then (if t.live then done (true, serve memory.allocated sql t) else hangs)
      else done (false, (none, t))

  -- `mysql_init` and the first `connect` of a thread.
  abbrev pub start_thread : MyThread C
  start_thread = record { connection = reconnect api api.new_connection; live = true }
