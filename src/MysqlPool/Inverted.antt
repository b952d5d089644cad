-- ===== src/MysqlPool/Inverted.antt =====
-- `SqlBuilder` with the pool as its executor: how it tells a failure from an empty result.
use rellaf.Prelude.{List, true, false, Option, none, some, Bytes, ◌≡◌, refl}
use rellaf.Prelude.Ints.{pos}
use rellaf.Cast.{Reals}
use rellaf.Model.{Model}
use rellaf.Outcome.{returned}
use rellaf.SqlExecutor.{SqlExecutor}
use rellaf.SqlBuilder.Execute.{first_row, select_impl}
use rellaf.MyResult.{Client, MyResult, init, next, row_count, new_result, my_api}
use rellaf.MysqlWorker.{Mysql, InnerResult, no_payload, rows, done, Memory, failed_status}
use rellaf.MysqlPool.{Pool, execute, read_rows, select_rows, select, status_ok}

-- The pool's answer as the executor of `SqlBuilder`.
abbrev pub answers {ℓ} : {R : Type ℓ} → Option (MyResult R) → SqlExecutor (MyResult R)
answers res = record { select = λ sql. res; execute = λ sql. (failed_status, 0) }

-- The statement has left no result set: it was not run, or it failed.
pub data IsFailure {ℓ} {R : Type ℓ} : Option (InnerResult R) → Type ℓ where
  not_run : IsFailure none
  no_rows : (r : InnerResult R) → r.payload ≡ no_payload → IsFailure (some r)

module _ {ℓ κ} {C : Type ℓ} {R : Type κ} (api : Mysql C R) (client : Client R) where
  read_rows-IsFailure :
      (result : Option (InnerResult R))
      → IsFailure result
      → read_rows client result new_result ≡ done (failed_status, new_result)
  unfolding read_rows init
  read_rows-IsFailure _ not_run = refl
  read_rows-IsFailure _ (no_rows r e) = rw (e, read_rows) refl

  init_ready :
      (set : R) (fields : List Bytes)
      → client.fetch_fields set ≡ some fields
      → init client (some set) new_result
        ≡ (true, record { index = 0; res = some set; row = none; fields = fields })
  unfolding init
  init_ready set fields e = rw (e, init) refl

  read_rows_empty :
      (r : InnerResult R) (set : R) (fields : List Bytes)
      → r.payload ≡ rows set
      → status_ok r ≡ true
      → client.fetch_fields set ≡ some fields
      → client.num_rows set ≡ 0
      → read_rows client (some r) new_result
        ≡ done (pos 0, record { index = 0; res = some set; row = none; fields = fields })
  unfolding read_rows row_count
  read_rows_empty r set fields e ok ef z = rw (e, read_rows, init_ready set fields ef, ok, z) refl

  -- `select` of the pool is used as a test although it returns a number. A statement that failed gives
  -- `SqlBuilder` an empty result, and `select_impl` returns 1 with nothing read; a SELECT without rows
  -- gives it a null pointer, and `select_impl` returns -1.
  pub select_impl_inverted :
      (r : Reals) (memory : Memory) (sql : Bytes) (pool pool' : Pool C)
      (result : Option (InnerResult R)) (ret : Model)
      → execute api memory sql pool ≡ done (result, pool')
      → (IsFailure result
          → (select api client memory sql pool ≡ done (some new_result, pool'))
            × (select_impl
                  (my_api client r)
                  (returned sql)
                  false
                  (some (answers (some new_result)))
                  ret
                ≡ returned (pos 1, ret)))
        × ((inner : InnerResult R) (set : R) (fields : List Bytes)
            → result ≡ some inner
            → inner.payload ≡ rows set
            → status_ok inner ≡ true
            → client.fetch_fields set ≡ some fields
            → client.num_rows set ≡ 0
            → (select api client memory sql pool ≡ done (none, pool'))
              × (select_impl (my_api client r) (returned sql) false (some (answers none)) ret
                  ≡ returned (failed_status, ret)))
  unfolding select select_rows select_impl first_row next
  select_impl_inverted r memory sql pool pool' result ret e = (
    (λ f. (rw (e, read_rows-IsFailure result f) refl, refl)),
    (λ inner set fields er ep ok ef z.
        (rw (e, er, read_rows_empty inner set fields ep ok ef z) refl, refl)),
  )
