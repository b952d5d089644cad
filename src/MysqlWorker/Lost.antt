-- ===== src/MysqlWorker/Lost.antt =====
-- A statement of a transaction that is tried again.
use rellaf.Prelude.{
  ℕ, zero, suc, ◌%◌, ◌^◌, false, Option, none, some, Bytes, codes, ◌≡◌, inl, inr, Bool-cases,
}
use rellaf.Prelude.Ints.{pos}
use rellaf.Numbers.{as_signed}
use rellaf.MysqlWorker.{
  Mysql, InnerResult, failed_status, new_inner, queries, verb_of, starts_word, retry, read_stored,
  key_payload, fill_result, attempts, run_task,
}

-- What a transaction is to the client: a connection that is made has none, and of the queries only
-- those that may begin one, such as START TRANSACTION and SET autocommit = 0, do so, and not the read
-- of the rows.
pub record IsOpen {ℓ κ ι β} {C : Type ℓ} {R : Type κ} (api : Mysql C R) (Begins : Bytes → Type β)
    (In : C → Type ι) : Type (ℓ ⊔ ι ⊔ β) where
  pub connected : (c : C) → ¬ In (api.real_connect (api.close c)).1
  pub queried : (c : C) (sql : Bytes) → ¬ Begins sql → ¬ In c → ¬ In (api.real_query c sql).1
  pub read : (c : C) → ¬ In c → ¬ In (api.store_result c).1

module _ {ℓ κ ι β} {C : Type ℓ} {R : Type κ} {api : Mysql C R} {Begins : Bytes → Type β}
    {In : C → Type ι} (laws : IsOpen api Begins In) where
  read_stored-closed :
      (r : InnerResult R) (read : Option R × C) → ¬ In read.1 → ¬ In (read_stored api r read).1
  read_stored-closed r (none, c) h = h
  read_stored-closed r (some res, c) h = h

  fill_result-closed :
      (sql : Bytes) (r : InnerResult R) (c : C) → ¬ In c → ¬ In (fill_result api sql r c).1
  unfolding fill_result
  fill_result-closed sql r c h = elim (Bool-cases (starts_word (codes "SELECT") sql)) [
    | inl e ↦
        rw (e, fill_result)
          (read_stored-closed
            (record r {
              row_count = as_signed (2 ^ 32) (api.affected_rows c % 2 ^ 32);
              payload = key_payload api sql c;
            })
            (api.store_result c) (laws.read c h))
    | inr e ↦ rw (e, fill_result) h
  ]

  attempts-closed :
      (count : ℕ) (sql : Bytes) (r : InnerResult R) (c : C)
      → ¬ Begins sql
      → ¬ In c
      → ¬ In (attempts api count sql r c).1
  unfolding attempts
  attempts-closed zero sql r c b h = h
  attempts-closed (suc count) sql r c b h = elim (Bool-cases (api.real_query c sql).0) [
    | inl e ↦
        rw (e, attempts)
          (fill_result-closed sql (record r { status = pos 0 }) (api.real_query c sql).1
            (laws.queried c sql b h))
    | inr e ↦
        rw (e, attempts)
          (attempts-closed count sql
            (record r { status = failed_status; message = api.error (api.real_query c sql).1 })
            (retry api (api.real_query c sql).1) b (laws.connected (api.real_query c sql).1))
  ]

  attempts-failed :
      (count : ℕ) (sql : Bytes) (r : InnerResult R) (c : C)
      → ¬ Begins sql
      → (api.real_query c sql).0 ≡ false
      → ¬ In (attempts api (suc count) sql r c).1
  unfolding attempts
  attempts-failed count sql r c b e =
      rw (e, attempts)
        (attempts-closed count sql
          (record r { status = failed_status; message = api.error (api.real_query c sql).1 })
          (retry api (api.real_query c sql).1) b (laws.connected (api.real_query c sql).1))

  -- A query that begins no transaction itself and whose first try fails leaves a connection without a
  -- transaction, also if it then succeeds: what the transaction did before is lost, and the statements
  -- behind run outside of it.
  pub run_task-lost :
      (sql : Bytes) (c : C)
      → verb_of sql ≡ queries
      → ¬ Begins sql
      → (api.real_query c sql).0 ≡ false
      → ¬ In (run_task api sql c).1
  unfolding run_task
  run_task-lost sql c v b e = rw (v, run_task) (attempts-failed 2 sql new_inner c b e)
