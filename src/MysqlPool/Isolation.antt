-- ===== src/MysqlPool/Isolation.antt =====
-- What a statement changes of the pool.
use rellaf.Prelude.{
  ℕ, ◌%◌, Bool, true, false, Option, none, some, Bytes, ◌==◌, get_elem?, set, get_elem?-set_ne, ◌≡◌,
  ◌≢◌, refl, inl, inr, Option-cases, arith,
}
use rellaf.Prelude.Maps.{find, put_back, find-put_back, nat_eq}
use rellaf.MysqlWorker.{
  Mysql, InnerResult, MyThread, Call, done, hangs, crashes, ◌>>=◌, Memory, submit,
}
use rellaf.MysqlPool.{Pool, next_action, execute, tx_execute, run_sql}

-- A statement outside of a transaction changes the number of the calls and the next thread in turn; a
-- statement of a transaction changes the thread of that transaction.
abbrev pub Keeps {ℓ} : {C : Type ℓ} → Option ℕ → Pool C → Pool C → Type ℓ
Keeps none pool pool' =
    (pool'.tx_pool ≡ pool.tx_pool)
    × (pool'.thread_count ≡ pool.thread_count)
    × (pool'.action_idx ≡ next_action pool.action_idx)
    × ((j : ℕ)
        → j ≢ next_action pool.action_idx % pool.thread_count
        → get_elem? pool'.threads j ≡ get_elem? pool.threads j)
Keeps (some id) pool pool' =
    (pool'.threads ≡ pool.threads)
    × (pool'.thread_count ≡ pool.thread_count)
    × (pool'.action_idx ≡ pool.action_idx)
    × ((j : ℕ) → j ≢ id → find j pool'.tx_pool ≡ find j pool.tx_pool)

-- The pool that a call leaves, if it returns.
pub data Leaves {ℓ κ} {A : Type ℓ} {P : Type κ} (Post : P → Type κ)
    : Call (A × P) → Type (ℓ ⊔ κ) where
  left : (a : A) (p : P) → Post p → Leaves Post (done (a, p))
  stuck : Leaves Post hangs
  crashed : Leaves Post crashes

module _ {ℓ κ} {C : Type ℓ} {R : Type κ} (api : Mysql C R) (memory : Memory) (sql : Bytes) where
  -- A call that goes on with what `submit` returns.
  submit-Leaves :
      (Post : Pool C → Type ℓ) (f : MyThread C → Pool C)
      (call : Call (Bool × (Option (InnerResult R) × MyThread C)))
      → ((t : MyThread C) → Post (f t))
      → Leaves {A = Option (InnerResult R)} Post
          (call >>= λ (taken, (result, t')). done (result, f t'))
  submit-Leaves Post f (done (taken, (result, t'))) h = left result (f t') (h t')
  submit-Leaves Post f hangs h = stuck
  submit-Leaves Post f crashes h = crashed

  -- The thread in turn, if it is there.
  abbrev in_turn : Pool C → Option (Option (MyThread C))
  in_turn pool = get_elem? pool.threads (next_action pool.action_idx % pool.thread_count)

  execute-Keeps : (pool : Pool C) → Leaves (Keeps none pool) (execute api memory sql pool)
  unfolding execute
  execute-Keeps pool = go (pool.thread_count == 0) refl (in_turn pool) refl
    where
      go :
          (b : Bool)
          → (pool.thread_count == 0) ≡ b
          → (o : Option (Option (MyThread C))) → in_turn pool ≡ o
          → Leaves (Keeps none pool) (execute api memory sql pool)
      go true h o e = rw (h, execute) crashed
      go false h none e = rw (h, e, execute) crashed
      go false h (some none) e = rw (h, e, execute) crashed
      go false h (some (some t)) e =
          rw (h, e, execute)
            (submit-Leaves (Keeps none pool)
              (λ t'. record pool {
                action_idx = next_action pool.action_idx;
                threads =
                    set pool.threads (next_action pool.action_idx % pool.thread_count) (some t');
              })
              (submit api memory sql t)
              (λ t'. (
                refl,
                refl,
                refl,
                λ j ne.
                    get_elem?-set_ne pool.threads (next_action pool.action_idx % pool.thread_count)
                      j (some t') ne,
              )))

  tx_execute-Keeps :
      (id : ℕ) (pool : Pool C) → Leaves (Keeps (some id) pool) (tx_execute api memory id sql pool)
  unfolding tx_execute
  tx_execute-Keeps id pool = elim (Option-cases (find id pool.tx_pool)) [
    | inl e ↦ rw (e, tx_execute) (left none pool (refl, refl, refl, λ j ne. refl))
    | inr (t, e) ↦
        rw (e, tx_execute)
          (submit-Leaves (Keeps (some id) pool)
            (λ t'. record pool { tx_pool = put_back id t' pool.tx_pool }) (submit api memory sql t)
            (λ t'.
              (refl, refl, refl, λ j ne. ground (arith, find-put_back id j t' pool.tx_pool, ne))))
  ]

  -- A statement that returns leaves every transaction but its own as it was; outside of a transaction
  -- it takes the next thread in turn, and leaves all other threads and all transactions as they were.
  pub run_sql-Keeps :
      (tx : Option ℕ) (pool : Pool C) → Leaves (Keeps tx pool) (run_sql api memory sql tx pool)
  run_sql-Keeps none pool = execute-Keeps pool
  run_sql-Keeps (some id) pool = tx_execute-Keeps id pool
