-- ===== src/Latch.antt =====
-- `Latch` of src/mysql/flatch.hpp: threads wait until `count_down` was called often enough. What a
-- thread does while it holds the mutex is one step; the decrement of the count holds no mutex.
pub mod Count
pub mod Stuck
mod Tests
use rellaf.Prelude.{
  ℕ, zero, suc, ◌+◌, ◌-◌, ◌%◌, ◌^◌, Bool, true, false, Option, none, some, ◌==◌, if◌then◌else◌, ◌≡◌,
  ◌≢◌,
}

-- Where a thread stands. `waiting` and `woken` are in the loop of `wait`, with whether there is a time
-- limit; `expired` has given the mutex back and not reset the signal yet; `last` has counted down to 0
-- and does not hold the mutex yet.
pub data Pc : Type 0 where
  idle : Pc
  waiting : Bool → Pc
  woken : Bool → Pc
  expired : Pc
  last : Pc
  waited : ℕ → Pc
  counted : Pc

-- `downs` is the number of calls of `count_down` so far, for the proofs.
pub record Latch : Type 0 where
  pub count : ℕ
  pub signal : Bool
  pub downs : ℕ
  pub pc : ℕ → Pc

abbrev pub new_latch : ℕ → Latch
new_latch count = record { count = count; signal = false; downs = 0; pc = λ _. idle }

abbrev pub move : (ℕ → Pc) → ℕ → Pc → ℕ → Pc
move pc i p j = if i == j then p else pc j

abbrev pub sleeping : Pc → Option Bool
sleeping (waiting timed) = some timed
sleeping _ = none

abbrev pub is_returned : Pc → Bool
is_returned (waited code) = true
is_returned counted = true
is_returned _ = false

-- `RELLAF_ATOMIC_DEC(_count)`, on 32 bits
unfoldable pub atomic_dec : ℕ → ℕ
atomic_dec count = (count + (2 ^ 32 - 1)) % 2 ^ 32

-- `pthread_cond_signal`: one of the threads that sleep, if there is any, is woken.
pub data Wakes (pc : ℕ → Pc) : (ℕ → Pc) → Type 0 where
  nobody : ((j : ℕ) → sleeping (pc j) ≡ none) → Wakes pc pc
  one : (j : ℕ) (timed : Bool) → sleeping (pc j) ≡ some timed → Wakes pc (move pc j (woken timed))

-- A step of the thread `i`.
pub data Step (s : Latch) : Latch → Type 0 where
  -- `wait`
  wait_open :
      (i : ℕ) → s.pc i ≡ idle → s.signal ≡ true → Step s (record s { pc = move s.pc i (waited 0) })
  wait_sleep :
      (i : ℕ) (timed : Bool)
      → s.pc i ≡ idle
      → s.signal ≡ false
      → Step s (record s { pc = move s.pc i (waiting timed) })
  wake_open :
      (i : ℕ) (timed : Bool)
      → s.pc i ≡ woken timed
      → s.signal ≡ true
      → Step s (record s { pc = move s.pc i (waited 0) })
  wake_again :
      (i : ℕ) (timed : Bool)
      → s.pc i ≡ woken timed
      → s.signal ≡ false
      → Step s (record s { pc = move s.pc i (waiting timed) })
  expire : (i : ℕ) → s.pc i ≡ waiting true → Step s (record s { pc = move s.pc i expired })
  give_up :
      (i : ℕ) → s.pc i ≡ expired → Step s (record s { signal = false; pc = move s.pc i (waited 1) })
  -- a wait may end with no signal
  spurious :
      (i : ℕ) (timed : Bool)
      → s.pc i ≡ waiting timed
      → Step s (record s { pc = move s.pc i (woken timed) })
  -- `count_down`
  down :
      (i : ℕ)
      → s.pc i ≡ idle
      → atomic_dec s.count ≢ 0
      → Step s (record {
        count = atomic_dec s.count;
        signal = s.signal;
        downs = suc s.downs;
        pc = move s.pc i counted;
      })
  down_last :
      (i : ℕ)
      → s.pc i ≡ idle
      → atomic_dec s.count ≡ 0
      → Step s (record {
        count = atomic_dec s.count;
        signal = s.signal;
        downs = suc s.downs;
        pc = move s.pc i last;
      })
  opens :
      (i : ℕ) (pc : ℕ → Pc)
      → s.pc i ≡ last
      → Wakes s.pc pc
      → Step s (record s { signal = true; pc = move pc i counted })
  -- the next call
  next_call : (i : ℕ) → is_returned (s.pc i) ≡ true → Step s (record s { pc = move s.pc i idle })

pub data Reach (count : ℕ) : Latch → Type 0 where
  here : Reach count (new_latch count)
  later : {s t : Latch} → Reach count s → Step s t → Reach count t
