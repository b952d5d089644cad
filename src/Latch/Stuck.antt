-- ===== src/Latch/Stuck.antt =====
-- `count_down` wakes one thread: another one may sleep on behind the last call.
use rellaf.Prelude.{ℕ, zero, suc, ◌-◌, ◌^◌, ◌≤◌, ◌<◌, true, false, ◌≡◌, ◌≢◌, refl, ap, ◌∙◌, arith}
use rellaf.Latch.{
  idle, waiting, woken, last, waited, counted, Latch, new_latch, move, sleeping, atomic_dec, one,
  wait_sleep, wake_open, down, down_last, opens, next_call, Reach, here, later,
}

-- Behind all calls of `count_down` the thread `i` sleeps without a time limit in `wait`, and no other
-- thread is in a call.
pub record IsStuck (count : ℕ) (s : Latch) (i : ℕ) : Type 0 where
  pub all_down : s.downs ≡ count
  pub asleep : s.pc i ≡ waiting false
  pub others : (j : ℕ) → j ≢ i → s.pc j ≡ idle

-- The threads 1 and 2 sleep, and `count_down` was called `k` times.
record TwoSleep (count k : ℕ) (s : Latch) : Type 0 where
  rest : s.count ≡ count - k
  downs : s.downs ≡ k
  signal : s.signal ≡ false
  first : s.pc 1 ≡ waiting false
  second : s.pc 2 ≡ waiting false
  others : (j : ℕ) → j ≢ 1 → j ≢ 2 → s.pc j ≡ idle

module _ (count : ℕ) (fits : count < 2 ^ 32) where
  both : Latch
  both = record (new_latch count) {
    pc = move (move (λ _. idle) 1 (waiting false)) 2 (waiting false);
  }

  both_sleep : Reach count both
  unfolding both
  both_sleep = later (later here (wait_sleep 1 false refl refl)) (wait_sleep 2 false refl refl)

  both-TwoSleep : TwoSleep count 0 both
  unfolding both
  both-TwoSleep = record {
    rest = omega arith;
    downs = refl;
    signal = refl;
    first = refl;
    second = refl;
    others = λ j n1 n2. ground (arith, n1, n2);
  }

  atomic_dec-left : (c : ℕ) → 1 ≤ c → c < 2 ^ 32 → atomic_dec c ≡ c - 1
  unfolding atomic_dec
  atomic_dec-left c h l = omega arith

  -- A call of `count_down` by the thread 3.
  called : Latch → Latch
  called s = record {
    count = atomic_dec s.count;
    signal = s.signal;
    downs = suc s.downs;
    pc = move (move s.pc 3 counted) 3 idle;
  }

  called-TwoSleep :
      (s : Latch) (k : ℕ) → suc k < count → TwoSleep count k s → TwoSleep count (suc k) (called s)
  unfolding called
  called-TwoSleep s k h t = record {
    rest =
        atomic_dec-left s.count (omega (arith, t.rest)) (omega (arith, t.rest))
        ∙ omega (arith, t.rest);
    downs = ap suc t.downs;
    signal = t.signal;
    first = t.first;
    second = t.second;
    others = λ j n1 n2. ground (arith, t.others j n1 n2);
  }

  called-Reach :
      (s : Latch) (k : ℕ)
      → suc k < count
      → TwoSleep count k s
      → Reach count s
      → Reach count (called s)
  unfolding called
  called-Reach s k h t r =
      later
        (later r (
          down 3 (t.others 3 (omega arith) (omega arith)) (λ e.
            (let e' = atomic_dec-left s.count (omega (arith, t.rest)) (omega (arith, t.rest)) in
              omega (arith, e, e', t.rest)))))
        (next_call 3 refl)

  counted_down : (k : ℕ) → k < count → (s : Latch) × Reach count s × TwoSleep count k s
  counted_down zero h = (both, both_sleep, both-TwoSleep)
  counted_down (suc k) h =
      let (s, r, t) = counted_down k (omega arith) in
      (called s, called-Reach s k h t r, called-TwoSleep s k h t)

  -- The last call, which wakes the thread 1.
  finished : Latch → Latch
  finished s = record {
    count = atomic_dec s.count;
    signal = true;
    downs = suc s.downs;
    pc =
        move
          (move (move (move (move (move s.pc 3 last) 1 (woken false)) 3 counted) 1 (waited 0)) 3
            idle)
          1 idle;
  }

  finished-Reach :
      (s : Latch) (k : ℕ)
      → suc k ≡ count
      → TwoSleep count k s
      → Reach count s
      → Reach count (finished s)
  unfolding finished
  finished-Reach s k h t r =
      later
        (later
          (later
            (later
              (later r (
                down_last 3 (t.others 3 (omega arith) (omega arith)) (
                  atomic_dec-left s.count (omega (arith, t.rest)) (omega (arith, t.rest))
                  ∙ omega (arith, t.rest))))
              (opens 3 (move (move s.pc 3 last) 1 (woken false)) refl
                (one 1 false (ap sleeping t.first))))
            (wake_open 1 false refl refl))
          (next_call 3 refl))
        (next_call 1 refl)

  finished-IsStuck :
      (s : Latch) (k : ℕ) → suc k ≡ count → TwoSleep count k s → IsStuck count (finished s) 2
  unfolding finished
  finished-IsStuck s k h t = record {
    all_down = ap suc t.downs ∙ h;
    asleep = t.second;
    others = λ j n2. ground (arith, n2, t.others j);
  }

  stuck :
      (k : ℕ) → suc k ≡ count → (s : Latch) × Reach count s × (s.signal ≡ true) × IsStuck count s 2
  unfolding finished
  stuck k h =
      let (s, r, t) = counted_down k (omega arith) in
      (finished s, finished-Reach s k h t r, refl, finished-IsStuck s k h t)

-- For every count from 1 to 2 ^ 32 - 1 there is a reachable state in which `count_down` was called as
-- often as the count says and the signal is set, a thread sleeps in `wait` without a time limit, and no
-- other thread is in a call.
pub lost_waiter :
    (count : ℕ)
    → 1 ≤ count
    → count < 2 ^ 32
    → (s : Latch) × Reach count s × (s.signal ≡ true) × IsStuck count s 2
lost_waiter count h l = stuck count l (count - 1) (omega arith)
