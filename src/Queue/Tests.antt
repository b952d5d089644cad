-- ===== src/Queue/Tests.antt =====
-- The queue's theorems at small inputs.
use rellaf.Prelude.{ℕ, [], ◌∷◌, true, none, ◌≡◌, refl, inl, arith}
use rellaf.Queue.{
  Queue, new_queue, finish_add, finish_pop, clear_queue, add_direct, pop_direct, failed, idle,
  System, nobody, Reach, here, later, add_now, pop_now,
}
use rellaf.Queue.Order.{IsQueue, Reach-IsQueue}
use rellaf.Queue.Wakeup.{IsStuck, lost_wakeup}

abbrev one_item : Queue ℕ
one_item = (add_direct 3 true (new_queue 1)).1

-- A queue of one item refuses a second one.
refuses : (add_direct 4 true one_item).0 ≡ failed
unfolding add_direct new_queue
refuses = refl

-- After `clear` nothing is left, and `pop` returns no node.
cleared : (pop_direct (clear_queue one_item)).0 ≡ none
unfolding pop_direct clear_queue add_direct new_queue
cleared = refl

-- Thread 1 adds 7 to a queue of one item, and thread 2 takes it.
abbrev filled : Queue ℕ
filled = (finish_add 7 true (new_queue 1)).1

Reach-IsQueue_example : IsQueue 1 (finish_pop filled).1
unfolding finish_add new_queue
Reach-IsQueue_example = Reach-IsQueue 1 (
    later (later here (add_now 1 7 true (λ _. idle) refl (inl refl) (nobody (λ _. refl))))
      (pop_now 2 _ refl (inl refl) (nobody (λ j. ground arith))))

lost_wakeup_example : (s : System ℕ) × Reach 2 s × (s.queue.items ≡ 20 ∷ []) × IsStuck s 2
lost_wakeup_example = lost_wakeup 2 10 20 (omega arith)
