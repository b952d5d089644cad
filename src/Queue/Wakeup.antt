-- ===== src/Queue/Wakeup.antt =====
-- A wakeup can be lost: the flag of the condition is one for all waiting threads.
use rellaf.Prelude.{
  ℕ, ◌-◌, ◌^◌, ◌≤◌, List, [], ◌∷◌, Bool, true, false, none, some, ◌==◌, if◌then◌else◌, length, ◌≡◌,
  ◌≢◌, refl, ap, inl, arith,
}
use rellaf.Queue.{
  Queue, new_queue, succ, isfull, put, finish_add, finish_pop, Pc, idle, pop_wait, pop_woken, added,
  popped, System, update, adder, nobody, wakes, add_now, pop_sleep, pop_awake, pop_again, next_call,
  Reach, here, later,
}

-- An item is in the queue, and the thread `i` sleeps without a time limit in `pop`, with no signal set
-- and no other thread in a call.
pub record IsStuck {ℓ} {T : Type ℓ} (s : System T) (i : ℕ) : Type ℓ where
  pub waiting : s.queue.items ≢ []
  pub asleep : s.pc i ≡ pop_wait false
  pub no_signal : s.queue.empty_signal ≡ false
  pub others : (j : ℕ) → j ≢ i → s.pc j ≡ idle

module _ {ℓ} {T : Type ℓ} (size : ℕ) (fits : 2 ≤ size) (a b : T) where
  room :
      (xs : List T) (q : Queue T)
      → q.items ≡ xs
      → q.max_size ≡ size
      → length xs ≤ 1
      → isfull q ≡ false
  room xs q e m h = ground (arith, fits, e, ap length e, m, h)

  -- Two threads sleep in `pop`.
  asleep : System T
  asleep = record {
    queue = new_queue size;
    pc = update (update (λ _. idle) 1 (pop_wait false)) 2 (pop_wait false);
  }

  Reach-asleep : Reach size asleep
  unfolding asleep new_queue
  Reach-asleep =
      later (later here (pop_sleep 1 false refl refl refl)) (pop_sleep 2 false refl refl refl)

  abbrev full_size : ℕ
  full_size = if size == 0 then 2 ^ 64 - 1 else size

  -- The queue with these items.
  abbrev holding : List T → List T → List T → Bool → Bool → Queue T
  holding items accepted taken full_signal empty_signal = record {
    items = items;
    max_size = full_size;
    full_signal = full_signal;
    empty_signal = empty_signal;
    accepted = accepted;
    taken = taken;
  }

  full_size-eq : full_size ≡ size
  full_size-eq = ground (arith, fits)

  put_first :
      finish_add a true (holding [] [] [] false false)
      ≡ (succ, holding (a ∷ []) (a ∷ []) [] false true)
  unfolding finish_add
  put_first =
      rw (room [] (holding [] [] [] false false) refl full_size-eq (omega arith), put, finish_add)
        refl

  put_second :
      finish_add b true (holding (a ∷ []) (a ∷ []) [] false true)
      ≡ (succ, holding (a ∷ b ∷ []) (a ∷ b ∷ []) [] false true)
  unfolding finish_add
  put_second =
      rw
        (
          room (a ∷ []) (holding (a ∷ []) (a ∷ []) [] false true) refl full_size-eq (omega arith),
          put,
          finish_add,
        )
        refl

  abbrev two_sleep : ℕ → Pc T
  two_sleep = update (update (λ _. idle) 1 (pop_wait false)) 2 (pop_wait false)

  -- Behind both calls of `add`, each of which woke one thread.
  abbrev first_added : ℕ → Pc T
  first_added = update (update two_sleep 1 (pop_woken false)) 3 (added succ)

  abbrev both_added : ℕ → Pc T
  both_added = update (update first_added 2 (pop_woken false)) 4 (added succ)

  abbrev one_popped : ℕ → Pc T
  one_popped = update both_added 1 (popped succ (some a))

  abbrev quiet : ℕ → Pc T
  quiet = update (update (update (update one_popped 2 (pop_wait false)) 1 idle) 3 idle) 4 idle

  at_state : Queue T → (ℕ → Pc T) → System T
  at_state q pc = record { queue = q; pc = pc }

  Reach-first : Reach size (at_state (holding (a ∷ []) (a ∷ []) [] false true) first_added)
  unfolding asleep new_queue at_state
  Reach-first = rw put_first at (
      later Reach-asleep (
        add_now 3 a true (update two_sleep 1 (pop_woken false)) refl
          (inl (room [] (holding [] [] [] false false) refl full_size-eq (omega arith)))
          (wakes 1 (pop_woken false) refl)))

  Reach-both : Reach size (at_state (holding (a ∷ b ∷ []) (a ∷ b ∷ []) [] false true) both_added)
  unfolding at_state
  Reach-both = rw put_second at (
      later Reach-first (
        add_now 4 b true (update first_added 2 (pop_woken false)) refl
          (inl (
            room (a ∷ []) (holding (a ∷ []) (a ∷ []) [] false true) refl full_size-eq
              (omega arith)))
          (wakes 2 (pop_woken false) refl)))

  no_adder : (j : ℕ) → adder (both_added j) ≡ none
  no_adder j = ground arith

  Reach-popped :
      Reach size (at_state (holding (b ∷ []) (a ∷ b ∷ []) (a ∷ []) true false) one_popped)
  unfolding at_state finish_pop
  Reach-popped = later Reach-both (pop_awake 1 false both_added refl refl (nobody no_adder))

  Reach-quiet : Reach size (at_state (holding (b ∷ []) (a ∷ b ∷ []) (a ∷ []) true false) quiet)
  unfolding at_state
  Reach-quiet =
      later
        (later (later (later Reach-popped (pop_again 2 false refl refl)) (next_call 1 refl))
          (next_call 3 refl))
        (next_call 4 refl)

-- For a queue of a bound of 2 or more and any two values that are added, there is a reachable state in
-- which the second one is in the queue, a thread sleeps in `pop` without a time limit, no signal is set
-- and no other thread is in a call.
pub lost_wakeup {ℓ} :
    {T : Type ℓ} (size : ℕ) (a b : T)
    → 2 ≤ size
    → (s : System T) × Reach size s × (s.queue.items ≡ b ∷ []) × IsStuck s 2
unfolding at_state
lost_wakeup size a b fits = (
  _,
  Reach-quiet size fits a b,
  refl,
  record {
    waiting = λ e. cc e;
    asleep = refl;
    no_signal = refl;
    others = λ j ne. ground (arith, ne);
  },
)
