-- ===== src/MysqlWorker/Retry.antt =====
-- The tries of a statement.
use rellaf.Prelude.{ℕ, zero, suc, ◌<◌, true, false, Bytes, ◌≡◌, refl, arith}
use rellaf.Prelude.Ints.{pos}
use rellaf.MysqlWorker.{
  Mysql, InnerResult, failed_status, new_inner, queries, verb_of, retry, fill_result, attempts,
  run_task,
}

module _ {ℓ κ} {C : Type ℓ} {R : Type κ} (api : Mysql C R) (sql : Bytes) where
  abbrev pub failed_at : InnerResult R → C → InnerResult R
  failed_at r c = record r { status = failed_status; message = api.error (api.real_query c sql).1 }

  -- The statement fails `n` times from the connection `c` and the result `r` on, and the connection is
  -- made again each time.
  pub data Fails : C → InnerResult R → ℕ → C → InnerResult R → Type (ℓ ⊔ κ) where
    no_failure : (c : C) (r : InnerResult R) → Fails c r 0 c r
    failure :
        (c c' : C) (r r' : InnerResult R) (n : ℕ)
        → (api.real_query c sql).0 ≡ false
        → Fails (retry api (api.real_query c sql).1) (failed_at r c) n c' r'
        → Fails c r (suc n) c' r'

  attempts-success :
      (count n : ℕ) (c c' : C) (r r' : InnerResult R)
      → n < count
      → Fails c r n c' r'
      → (api.real_query c' sql).0 ≡ true
      → attempts api count sql r c
        ≡ fill_result api sql (record r' { status = pos 0 }) (api.real_query c' sql).1
  unfolding attempts
  attempts-success zero n c c' r r' lt f e = absurd (omega (arith, lt))
  attempts-success (suc count) _ c _ r _ lt (no_failure _ _) e = rw (e, attempts) refl
  attempts-success (suc count) (suc n) c c' r r' lt (failure _ _ _ _ _ e' f) e =
      rw (e', attempts)
        (attempts-success count n (retry api (api.real_query c sql).1) c' (failed_at r c) r'
          (omega (arith, lt)) f e)

  attempts-failure :
      (count : ℕ) (c c' : C) (r r' : InnerResult R)
      → Fails c r count c' r'
      → attempts api count sql r c ≡ (r', c')
  unfolding attempts
  attempts-failure _ c _ r _ (no_failure _ _) = refl
  attempts-failure (suc count) c c' r r' (failure _ _ _ _ _ e f) =
      rw (e, attempts)
        (attempts-failure count (retry api (api.real_query c sql).1) c' (failed_at r c) r' f)

  -- A statement that is none of BEGIN, COMMIT and ROLLBACK is tried at most three times, each time but
  -- the first on a connection that was closed and made again: if a try succeeds, the result has the
  -- status 0 and what that query left; if all three fail, it has what the last one left.
  pub run_task-Fails :
      (c c' : C) (r' : InnerResult R)
      → verb_of sql ≡ queries
      → ((n : ℕ)
          → n < 3
          → Fails c new_inner n c' r'
          → (api.real_query c' sql).0 ≡ true
          → run_task api sql c
            ≡ fill_result api sql (record r' { status = pos 0 }) (api.real_query c' sql).1)
        × (Fails c new_inner 3 c' r' → run_task api sql c ≡ (r', c'))
  unfolding run_task
  run_task-Fails c c' r' v = (
    (λ n lt f e. rw (v, run_task) (attempts-success 3 n c c' new_inner r' lt f e)),
    (λ f. rw (v, run_task) (attempts-failure 3 c c' new_inner r' f)),
  )
