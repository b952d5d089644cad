-- ===== src/MysqlPool/Startup.antt =====
-- `connect` of a pool that has no threads.
use rellaf.Prelude.{
  ℕ, zero, suc, ◌+◌, ◌<◌, ◌≤◌, [], ◌∷◌, ◌++◌, Bool, true, false, Option, none, some, replicate, ◌≡◌,
  refl, ap, inl, inr, Bool-cases, arith,
}
use rellaf.MysqlWorker.{Mysql, MyThread, done, crashes, start_thread}
use rellaf.MysqlPool.{Pool, stop_loop, stop, connect_loop, connect}

module _ {ℓ κ} {C : Type ℓ} {R : Type κ} (api : Mysql C R) where
  abbrev pub started : Option (MyThread C)
  started = some (start_thread api)

  replicate-append_one : (i : ℕ) → replicate i started ++ started ∷ [] ≡ replicate (suc i) started
  replicate-append_one zero = refl
  replicate-append_one (suc i) = ap (λ ts. started ∷ ts) (replicate-append_one i)

  stop_loop_short : (n i : ℕ) → i < n → stop_loop api n (replicate i started) ≡ crashes
  unfolding stop_loop
  stop_loop_short zero i h = absurd (omega (arith, h))
  stop_loop_short (suc n) zero h = refl
  stop_loop_short (suc n) (suc i) h = rw (stop_loop_short n i (omega (arith, h))) refl

  stop_loop_all : (n : ℕ) → stop_loop api n (replicate n started) ≡ done (replicate n none)
  unfolding stop_loop
  stop_loop_all zero = refl
  stop_loop_all (suc n) = rw (stop_loop_all n) refl

  -- The pool at the round `i`.
  abbrev at_round : ℕ → ℕ → Pool C → Pool C
  at_round count i pool = record pool { thread_count = count; threads = replicate i started }

  connect_loop_made :
      (made : ℕ → Bool) (count i n : ℕ) (pool : Pool C)
      → i + n ≡ count
      → ((j : ℕ) → j < count → made j ≡ true)
      → connect_loop api made i n (at_round count i pool) ≡ done (true, at_round count count pool)
  unfolding connect_loop
  connect_loop_made made count i zero pool e h =
      ap (λ (k : ℕ). done (true, at_round count k pool)) (omega (arith, e))
  connect_loop_made made count i (suc n) pool e h =
      rw (h i (omega (arith, e)), replicate-append_one i)
        (connect_loop_made made count (suc i) n pool (omega (arith, e)) h)

  -- A round that was made is another one.
  next_le : (i j : ℕ) (made : ℕ → Bool) → i ≤ j → made i ≡ true → made j ≡ false → suc i ≤ j
  next_le i j made le h f = ground (arith, le, h, f)

  connect_loop_failed :
      (made : ℕ → Bool) (count i n j : ℕ) (pool : Pool C)
      → i + n ≡ count
      → i ≤ j
      → j < count
      → made j ≡ false
      → connect_loop api made i n (at_round count i pool) ≡ crashes
  unfolding connect_loop stop
  connect_loop_failed made count i zero j pool e le lt f = absurd (omega (arith, e, le, lt))
  connect_loop_failed made count i (suc n) j pool e le lt f = elim (Bool-cases (made i)) [
    | inl h ↦
        rw (h, replicate-append_one i)
          (connect_loop_failed made count (suc i) n j pool (omega (arith, e))
            (next_le i j made le h f) lt f)
    | inr h ↦ rw (h, stop_loop_short count i (omega (arith, e))) refl
  ]

  -- `connect` of a pool without threads makes all of them and returns true if each thread can be made;
  -- if one cannot, the call of `stop` reads a thread that is not there. `stop` of all the threads
  -- leaves a null pointer for each.
  pub connect_all :
      (made : ℕ → Bool) (count : ℕ) (pool : Pool C)
      → pool.threads ≡ []
      → (((j : ℕ) → j < count → made j ≡ true)
          → connect api made count pool
            ≡ done (true, record pool { thread_count = count; threads = replicate count started }))
        × ((j : ℕ) → j < count → made j ≡ false → connect api made count pool ≡ crashes)
        × (stop api (record pool { thread_count = count; threads = replicate count started })
            ≡ done (record pool { thread_count = count; threads = replicate count none }))
  unfolding connect stop
  connect_all made count pool e = (
    (λ h. rw e (connect_loop_made made count 0 count pool (omega arith) h)),
    (λ j lt f.
        rw e (connect_loop_failed made count 0 count j pool (omega arith) (omega arith) lt f)),
    rw (stop_loop_all count) refl,
  )
