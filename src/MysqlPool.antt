-- ===== src/MysqlPool.antt =====
-- `MysqlSimplePool` of src/mysql/mysql_simple_pool.h and .cpp: the calls of the pool, one after another.
-- Its threads are those of MysqlWorker. A `Memory` says what the call finds.
pub mod Isolation
pub mod Session
pub mod Ends
pub mod Startup
pub mod Inverted
mod Tests
use rellaf.Prelude.{
  ℕ, zero, suc, ◌+◌, ◌%◌, ◌^◌, List, [], ◌∷◌, ◌++◌, Bool, true, false, Option, none, some, Bytes,
  codes, ◌==◌, not, ◌&&◌, ◌||◌, get_elem?, set, leb, length, replicate, if◌then◌else◌,
}
use rellaf.Prelude.Maps.{find, emplace, put_back, erase, nat_eq}
use rellaf.Prelude.Ints.{ℤ, pos, negsuc, same_int}
use rellaf.Numbers.{as_signed}
use rellaf.MyResult.{Client, MyResult, init, row_count, new_result}
use rellaf.MysqlWorker.{
  Mysql, failed_status, InnerResult, Payload, no_payload, key, rows, MyThread, Call, done, hangs,
  crashes, ◌>>=◌, Memory, submit, start_thread,
}

-- `_action_idx`, `_s_pool`, `_s_thread_count` and `_s_tx_pool`. The thread of a transaction is in the
-- entry of its number. `none` is the null pointer that `stop` leaves.
pub record Pool {ℓ} (C : Type ℓ) : Type ℓ where
  pub action_idx : ℕ
  pub threads : List (Option (MyThread C))
  pub thread_count : ℕ
  pub tx_pool : List (ℕ × MyThread C)

-- `RELLAF_ATOMIC_INC(_action_idx)`
abbrev pub next_action : ℕ → ℕ
next_action i = (i + 1) % 2 ^ 64

-- `fetch_thread`: the index of the next thread in turn.
abbrev pub fetch_thread {ℓ} : {C : Type ℓ} → Pool C → ℕ
fetch_thread pool = next_action pool.action_idx % pool.thread_count

-- What a statement left: the result, or the null pointer.
abbrev pub Answer {ℓ κ} : Type ℓ → Type κ → Type (ℓ ⊔ κ)
Answer C R = Call (Option (InnerResult R) × Pool C)

abbrev pub status_ok {ℓ} : {R : Type ℓ} → InnerResult R → Bool
status_ok r = same_int r.status (pos 0)

abbrev pub rows_or_failed {ℓ} : {R : Type ℓ} → Option (InnerResult R) → ℤ
rows_or_failed none = failed_status
rows_or_failed (some r) = if status_ok r then r.row_count else failed_status

module _ {ℓ κ} {C : Type ℓ} {R : Type κ} (api : Mysql C R) where
  -- `execute(sql, result_ptr)`, with `fetch_thread`. No thread at all is a division by zero.
  unfoldable pub execute : Memory → Bytes → Pool C → Answer C R
  unfolding submit
  execute memory sql pool =
      if pool.thread_count == 0
      then crashes
      else (let i = fetch_thread pool in
          elim (get_elem? pool.threads i) [
            | none ↦ crashes
            | some none ↦ crashes
            | some (some t) ↦ submit api memory sql t >>= λ (taken, (result, t')). done (
              result,
              record pool {
                action_idx = next_action pool.action_idx;
                threads = set pool.threads i (some t');
              },
            )
          ])

  unfoldable pub tx_execute : Memory → ℕ → Bytes → Pool C → Answer C R
  unfolding submit find
  tx_execute memory id sql pool = elim (find id pool.tx_pool) [
    | none ↦ done (none, pool)
    | some t ↦ submit api memory sql t >>= λ (taken, (result, t')).
        done (result, record pool { tx_pool = put_back id t' pool.tx_pool })
  ]

  -- The first lines of `select`, `insert`, `update` and `del`.
  abbrev pub run_sql : Memory → Bytes → Option ℕ → Pool C → Answer C R
  run_sql memory sql none pool = execute memory sql pool
  run_sql memory sql (some id) pool = tx_execute memory id sql pool

  -- `insert` without a key, `update` and `del`
  unfoldable pub change : Memory → Bytes → Option ℕ → Pool C → Call (ℤ × Pool C)
  unfolding execute tx_execute
  change memory sql tx pool =
      run_sql memory sql tx pool >>= λ (result, pool'). done (rows_or_failed result, pool')

  abbrev pub key_left : ℕ → Option (InnerResult R) → ℕ
  key_left keyid none = keyid
  key_left keyid (some r) = elim r.payload [
    | no_payload ↦ 0
    | key k ↦ k
    | rows res ↦ api.address res
  ]

  unfoldable pub insert : Memory → Bytes → ℕ → Option ℕ → Pool C → Call ((ℤ × ℕ) × Pool C)
  unfolding execute tx_execute
  insert memory sql keyid tx pool = run_sql memory sql tx pool >>= λ (result, pool').
      done ((rows_or_failed result, key_left keyid result), pool')

  -- The worker of a new transaction: whether the thread, its queue and the POSIX thread could be made.
  -- A `BEGIN` that the queue does not take is waited for all the same. `tx` is the number that the
  -- caller's transaction had.
  unfoldable pub begin : Bool → Memory → ℕ → Pool C → Call ((Bool × ℕ) × Pool C)
  unfolding submit emplace
  begin made memory tx pool =
      let id = next_action pool.action_idx in
      let pool' = record pool { action_idx = id } in
      if made
      then (submit api memory (codes "BEGIN") (start_thread api) >>= λ (taken, (result, t)).
          if taken
          then elim result [
            | none ↦ crashes
            | some r ↦
                done ((status_ok r, id), record pool' { tx_pool = emplace id t pool'.tx_pool })
          ]
          else hangs)
      else done ((false, tx), pool')

  unfoldable pub tx_end : Memory → ℕ → Bytes → Pool C → Call (Bool × Pool C)
  unfolding submit find erase
  tx_end memory id sql pool = elim (find id pool.tx_pool) [
    | none ↦ done (false, pool)
    | some t ↦ submit api memory sql t >>= λ (taken, (result, t')).
        if taken && (memory.leaves || not t'.live)
        then elim result [
          | none ↦ crashes
          | some r ↦ done (status_ok r, record pool { tx_pool = erase id pool.tx_pool })
        ]
        else hangs
  ]

  unfoldable pub commit : Memory → ℕ → Pool C → Call (Bool × Pool C)
  unfolding tx_end
  commit memory id pool = tx_end memory id (codes "COMMIT") pool

  unfoldable pub rollback : Memory → ℕ → Pool C → Call (Bool × Pool C)
  unfolding tx_end
  rollback memory id pool = tx_end memory id (codes "ROLLBACK") pool

-- The calls that read a result set.
module _ {ℓ} {R : Type ℓ} (client : Client R) where
  -- Behind the statement. A key that is taken for a result set is a wild pointer.
  unfoldable pub read_rows : Option (InnerResult R) → MyResult R → Call (ℤ × MyResult R)
  unfolding init row_count
  read_rows none res = done (failed_status, res)
  read_rows (some r) res = elim r.payload [
    | key k ↦ crashes
    | no_payload ↦ done (failed_status, (init client none res).1)
    | rows set ↦
        let (ready, res') = init client (some set) res in
        if ready
        then (if status_ok r
            then done (as_signed (2 ^ 32) (row_count client res' % 2 ^ 32), res')
            else done (failed_status, res'))
        else done (failed_status, res')
  ]

module _ {ℓ κ} {C : Type ℓ} {R : Type κ} (api : Mysql C R) (client : Client R) where
  unfoldable pub select_rows :
      Memory → Bytes → MyResult R → Option ℕ → Pool C → Call ((ℤ × MyResult R) × Pool C)
  unfolding read_rows execute tx_execute
  select_rows memory sql res tx pool = run_sql api memory sql tx pool >>= λ (result, pool').
      read_rows client result res >>= λ read. done (read, pool')

  -- `select(sql)`: null if the number of rows is 0.
  unfoldable pub select : Memory → Bytes → Pool C → Call (Option (MyResult R) × Pool C)
  unfolding select_rows
  select memory sql pool = select_rows memory sql new_result none pool >>= λ ((n, res), pool').
      done (if same_int n (pos 0) then none else some res, pool')

-- `connect` and `stop`, of the threads. `made i` says whether the thread `i`, its queue and its POSIX
-- thread could be made.
module _ {ℓ κ} {C : Type ℓ} {R : Type κ} (api : Mysql C R) where
  -- `_s_pool[i]` for each `i` below the count: a read outside of the deque, or through a null pointer.
  unfoldable pub stop_loop : ℕ → List (Option (MyThread C)) → Call (List (Option (MyThread C)))
  stop_loop zero ts = done ts
  stop_loop (suc n) [] = crashes
  stop_loop (suc n) (none ∷ ts) = crashes
  stop_loop (suc n) (some t ∷ ts) = stop_loop n ts >>= λ ts'. done (none ∷ ts')

  unfoldable pub stop : Pool C → Call (Pool C)
  unfolding stop_loop
  stop pool = stop_loop pool.thread_count pool.threads >>= λ ts. done (record pool { threads = ts })

  -- The loop at the round `i`, with `n` rounds left.
  unfoldable pub connect_loop : (ℕ → Bool) → ℕ → ℕ → Pool C → Call (Bool × Pool C)
  unfolding stop
  connect_loop made i zero pool = done (true, pool)
  connect_loop made i (suc n) pool =
      let rest =
        connect_loop made (suc i) n
          (record pool { threads = pool.threads ++ some (start_thread api) ∷ [] }) in
      if made i then rest else (stop pool >>= λ pool'. done (false, pool'))

  unfoldable pub connect : (ℕ → Bool) → ℕ → Pool C → Call (Bool × Pool C)
  unfolding connect_loop
  connect made count pool = connect_loop made 0 count (record pool { thread_count = count })
