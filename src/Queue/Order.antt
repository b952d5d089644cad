-- ===== src/Queue/Order.antt =====
-- In every reachable state the queue is within its bound and in the order of the calls.
use rellaf.Prelude.{
  ℕ, ◌-◌, ◌^◌, ◌≤◌, List, [], ◌∷◌, ◌++◌, append_assoc, append-nil, Bool, true, false, ◌==◌,
  if◌then◌else◌, length, length-append, ◌≡◌, refl, sym, ap, ◌∙◌, arith,
}
use rellaf.Queue.{
  Queue, new_queue, isfull, put, finish_add, pop_item, finish_pop, clear_queue, System, Step,
  add_now, add_sleep, add_awake, add_again, add_timeout, pop_now, pop_sleep, pop_awake, pop_again,
  pop_timeout, clears, spurious, next_call, Reach, here, later,
}

-- There is room for the items, and the values that were accepted are those that were taken and then
-- the items, each in the order in which it was accepted.
pub record IsQueue {ℓ} {T : Type ℓ} (size : ℕ) (q : Queue T) : Type ℓ where
  pub bound : q.max_size ≡ (if size == 0 then 2 ^ 64 - 1 else size)
  pub within : length q.items ≤ q.max_size
  pub order : q.accepted ≡ q.taken ++ q.items

module _ {ℓ} {T : Type ℓ} (size : ℕ) where
  put-IsQueue :
      (q : Queue T) (val : T) (allocated : Bool)
      → IsQueue size q
      → IsQueue size (put val allocated q).1
  unfolding put
  put-IsQueue q val allocated inv = go (isfull q) refl allocated
    where
      go :
          (full : Bool)
          → isfull q ≡ full
          → (allocated : Bool) → IsQueue size (put val allocated q).1
      go true e b = rw (e, put) inv
      go false e false = rw (e, put) inv
      go false e true =
          rw (e, put)
            (record {
              bound = inv.bound;
              within = ground (arith, e, length-append q.items (val ∷ []));
              order = rw inv.order (append_assoc q.taken q.items (val ∷ []));
            })

  -- The flags do not matter.
  flags :
      (q : Queue T) (full empty : Bool)
      → IsQueue size q
      → IsQueue size (record q { full_signal = full; empty_signal = empty })
  flags q full empty inv = record { bound = inv.bound; within = inv.within; order = inv.order }

  pop_item-IsQueue :
      (xs : List T) (q : Queue T) → q.items ≡ xs → IsQueue size q → IsQueue size (pop_item xs q).1
  unfolding pop_item
  pop_item-IsQueue [] q e inv = inv
  pop_item-IsQueue (x ∷ xs) q e inv = record {
    bound = inv.bound;
    within = ground (arith, inv.within, ap length e);
    order = inv.order ∙ rw (e, append_assoc q.taken (x ∷ []) xs) refl;
  }

  finish_add-IsQueue :
      (q : Queue T) (val : T) (allocated : Bool)
      → IsQueue size q
      → IsQueue size (finish_add val allocated q).1
  unfolding finish_add
  finish_add-IsQueue q val allocated inv = flags _ false true (put-IsQueue q val allocated inv)

  finish_pop-IsQueue : (q : Queue T) → IsQueue size q → IsQueue size (finish_pop q).1
  unfolding finish_pop
  finish_pop-IsQueue q inv = flags _ true false (pop_item-IsQueue q.items q refl inv)

  clear_queue-IsQueue : (q : Queue T) → IsQueue size q → IsQueue size (clear_queue q)
  unfolding clear_queue
  clear_queue-IsQueue q inv = record {
    bound = inv.bound;
    within = omega arith;
    order = inv.order ∙ sym (append-nil (q.taken ++ q.items));
  }

  Step-IsQueue : {s t : System T} → Step s t → IsQueue size s.queue → IsQueue size t.queue
  Step-IsQueue {s} (add_now i val allocated pc _ _ _) inv =
      finish_add-IsQueue s.queue val allocated inv
  Step-IsQueue {s} (add_awake i val timed allocated pc _ _ _) inv =
      finish_add-IsQueue s.queue val allocated inv
  Step-IsQueue {s} (pop_now i pc _ _ _) inv = finish_pop-IsQueue s.queue inv
  Step-IsQueue {s} (pop_awake i timed pc _ _ _) inv = finish_pop-IsQueue s.queue inv
  Step-IsQueue {s} (clears i pc pc' _ _ _) inv = clear_queue-IsQueue s.queue inv
  Step-IsQueue {s} (add_timeout i val _) inv = flags s.queue false s.queue.empty_signal inv
  Step-IsQueue {s} (pop_timeout i _) inv = flags s.queue s.queue.full_signal false inv
  Step-IsQueue (add_sleep i val timed _ _ _) inv = inv
  Step-IsQueue (add_again i val timed _ _) inv = inv
  Step-IsQueue (pop_sleep i timed _ _ _) inv = inv
  Step-IsQueue (pop_again i timed _ _) inv = inv
  Step-IsQueue (spurious i p _) inv = inv
  Step-IsQueue (next_call i _) inv = inv

  -- In every state that threads can reach from a new queue, the queue has at most the number of items
  -- that it was made for, 0 standing for no bound, and the values that left it are the first ones that
  -- were accepted, in their order: none is lost, repeated or overtaken.
  pub Reach-IsQueue : {s : System T} → Reach size s → IsQueue size s.queue
  Reach-IsQueue here =
      unfold new_queue in record { bound = refl; within = omega arith; order = refl }
  Reach-IsQueue (later r st) = Step-IsQueue st (Reach-IsQueue r)
