-- ===== src/Queue.antt =====
-- `Queue` of src/mysql/fqueue.hpp: a bounded queue that threads share. What a call does between two
-- waits holds the mutex, and is one step.
pub mod Order
pub mod Wakeup
mod Tests
use rellaf.Prelude.{
  ℕ, ◌-◌, ◌^◌, List, [], ◌∷◌, ◌++◌, Bool, true, false, not, Option, none, some, ◌==◌, leb,
  if◌then◌else◌, length, ◌≡◌, ◌⊎◌,
}

-- `_list` is a list of its values (LinkList has its nodes). `accepted` and `taken` are the values that
-- were added so far and those that have left, for the proofs.
pub record Queue {ℓ} (T : Type ℓ) : Type ℓ where
  pub items : List T
  pub max_size : ℕ
  pub full_signal : Bool
  pub empty_signal : Bool
  pub accepted : List T
  pub taken : List T

-- `Queue(size, true)`
unfoldable pub new_queue {ℓ} : {T : Type ℓ} → ℕ → Queue T
new_queue size = record {
  items = [];
  max_size = if size == 0 then 2 ^ 64 - 1 else size;
  full_signal = false;
  empty_signal = false;
  accepted = [];
  taken = [];
}

-- The results 0, -1 and 1.
pub data Code : Type 0 where
  succ failed timeout : Code

module _ {ℓ} {T : Type ℓ} where
  abbrev pub isempty : Queue T → Bool
  isempty q = length q.items == 0

  abbrev pub isfull : Queue T → Bool
  isfull q = leb q.max_size (length q.items)

  -- `_list.add_tail(val)`, where `allocated` is whether `new` succeeds.
  unfoldable pub put : T → Bool → Queue T → Code × Queue T
  put val allocated q =
      if not (isfull q)
      then (if allocated
          then (succ, record q { items = q.items ++ val ∷ []; accepted = q.accepted ++ val ∷ [] })
          else (failed, q))
      else (failed, q)

  -- `add_block` behind its wait.
  unfoldable pub finish_add : T → Bool → Queue T → Code × Queue T
  unfolding put
  finish_add val allocated q =
      let (code, q') = put val allocated q in
      (code, record q' { empty_signal = true; full_signal = false })

  -- `_list.pop_head()`
  unfoldable pub pop_item : List T → Queue T → Option T × Queue T
  pop_item [] q = (none, q)
  pop_item (x ∷ xs) q = (some x, record q { items = xs; taken = q.taken ++ x ∷ [] })

  -- `pop_block` behind its wait.
  unfoldable pub finish_pop : Queue T → Option T × Queue T
  unfolding pop_item
  finish_pop q =
      let (item, q') = pop_item q.items q in
      (item, record q' { full_signal = true; empty_signal = false })

  unfoldable pub clear_queue : Queue T → Queue T
  clear_queue q = record q {
    items = [];
    taken = q.taken ++ q.items;
    empty_signal = true;
    full_signal = true;
  }

  -- `add` and `pop` of a queue that does not block.
  unfoldable pub add_direct : T → Bool → Queue T → Code × Queue T
  unfolding put
  add_direct val allocated q = put val allocated q

  unfoldable pub pop_direct : Queue T → Option T × Queue T
  unfolding pop_item
  pop_direct q = pop_item q.items q

-- Where a thread stands: it sleeps in a wait, or was woken and has not got the mutex back. The flag says
-- whether the wait has a time limit.
pub data Pc {ℓ} (T : Type ℓ) : Type ℓ where
  idle : Pc T
  add_wait : T → Bool → Pc T
  add_woken : T → Bool → Pc T
  pop_wait : Bool → Pc T
  pop_woken : Bool → Pc T
  added : Code → Pc T
  popped : Code → Option T → Pc T

pub record System {ℓ} (T : Type ℓ) : Type ℓ where
  pub queue : Queue T
  pub pc : ℕ → Pc T

module _ {ℓ} {T : Type ℓ} where
  abbrev pub update : (ℕ → Pc T) → ℕ → Pc T → ℕ → Pc T
  update pc i p j = if i == j then p else pc j

  abbrev pub adder : Pc T → Option (Pc T)
  adder (add_wait v timed) = some (add_woken v timed)
  adder _ = none

  abbrev pub popper : Pc T → Option (Pc T)
  popper (pop_wait timed) = some (pop_woken timed)
  popper _ = none

  abbrev pub returned_call : Pc T → Bool
  returned_call (added code) = true
  returned_call (popped code item) = true
  returned_call _ = false

  -- `pthread_cond_signal`: one of the threads that sleep at the condition, if there is any, is woken.
  pub data Signal (sleeper : Pc T → Option (Pc T)) (pc : ℕ → Pc T) : (ℕ → Pc T) → Type ℓ where
    nobody : ((j : ℕ) → sleeper (pc j) ≡ none) → Signal sleeper pc pc
    wakes : (j : ℕ) (p : Pc T) → sleeper (pc j) ≡ some p → Signal sleeper pc (update pc j p)

  -- A step of the thread `i`.
  pub data Step (s : System T) : System T → Type ℓ where
    -- `add_block`
    add_now :
        (i : ℕ) (val : T) (allocated : Bool) (pc : ℕ → Pc T)
        → s.pc i ≡ idle
        → (isfull s.queue ≡ false) ⊎ (s.queue.full_signal ≡ true)
        → Signal popper s.pc pc
        → Step s (record {
          queue = (finish_add val allocated s.queue).1;
          pc = update pc i (added (finish_add val allocated s.queue).0);
        })
    add_sleep :
        (i : ℕ) (val : T) (timed : Bool)
        → s.pc i ≡ idle
        → isfull s.queue ≡ true
        → s.queue.full_signal ≡ false
        → Step s (record s { pc = update s.pc i (add_wait val timed) })
    add_awake :
        (i : ℕ) (val : T) (timed allocated : Bool) (pc : ℕ → Pc T)
        → s.pc i ≡ add_woken val timed
        → s.queue.full_signal ≡ true
        → Signal popper s.pc pc
        → Step s (record {
          queue = (finish_add val allocated s.queue).1;
          pc = update pc i (added (finish_add val allocated s.queue).0);
        })
    add_again :
        (i : ℕ) (val : T) (timed : Bool)
        → s.pc i ≡ add_woken val timed
        → s.queue.full_signal ≡ false
        → Step s (record s { pc = update s.pc i (add_wait val timed) })
    add_timeout :
        (i : ℕ) (val : T)
        → s.pc i ≡ add_wait val true
        → Step s (record {
          queue = record s.queue { full_signal = false };
          pc = update s.pc i (added timeout);
        })
    -- `pop_block`
    pop_now :
        (i : ℕ) (pc : ℕ → Pc T)
        → s.pc i ≡ idle
        → (isempty s.queue ≡ false) ⊎ (s.queue.empty_signal ≡ true)
        → Signal adder s.pc pc
        → Step s (record {
          queue = (finish_pop s.queue).1;
          pc = update pc i (popped succ (finish_pop s.queue).0);
        })
    pop_sleep :
        (i : ℕ) (timed : Bool)
        → s.pc i ≡ idle
        → isempty s.queue ≡ true
        → s.queue.empty_signal ≡ false
        → Step s (record s { pc = update s.pc i (pop_wait timed) })
    pop_awake :
        (i : ℕ) (timed : Bool) (pc : ℕ → Pc T)
        → s.pc i ≡ pop_woken timed
        → s.queue.empty_signal ≡ true
        → Signal adder s.pc pc
        → Step s (record {
          queue = (finish_pop s.queue).1;
          pc = update pc i (popped succ (finish_pop s.queue).0);
        })
    pop_again :
        (i : ℕ) (timed : Bool)
        → s.pc i ≡ pop_woken timed
        → s.queue.empty_signal ≡ false
        → Step s (record s { pc = update s.pc i (pop_wait timed) })
    pop_timeout :
        (i : ℕ)
        → s.pc i ≡ pop_wait true
        → Step s (record {
          queue = record s.queue { empty_signal = false };
          pc = update s.pc i (popped timeout none);
        })
    -- `clear`
    clears :
        (i : ℕ) (pc pc' : ℕ → Pc T)
        → s.pc i ≡ idle
        → Signal popper s.pc pc
        → Signal adder pc pc'
        → Step s (record { queue = clear_queue s.queue; pc = pc' })
    -- a wait may end with no signal
    spurious :
        (i : ℕ) (p : Pc T)
        → (popper (s.pc i) ≡ some p) ⊎ (adder (s.pc i) ≡ some p)
        → Step s (record s { pc = update s.pc i p })
    -- the next call
    next_call :
        (i : ℕ) → returned_call (s.pc i) ≡ true → Step s (record s { pc = update s.pc i idle })

  abbrev pub start : ℕ → System T
  start size = record { queue = new_queue size; pc = λ _. idle }

  pub data Reach (size : ℕ) : System T → Type ℓ where
    here : Reach size (start size)
    later : {s t : System T} → Reach size s → Step s t → Reach size t
