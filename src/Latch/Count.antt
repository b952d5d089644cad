-- ===== src/Latch/Count.antt =====
-- A wait that succeeds comes behind as many calls of `count_down` as the latch was made for.
use rellaf.Prelude.{
  ℕ, suc, ◌+◌, ◌%◌, ◌^◌, ◌≤◌, ◌<◌, Bool, true, false, ◌==◌, if◌then◌else◌, ◌≡◌, ap, arith,
}
use rellaf.Latch.{
  Pc, idle, waiting, woken, expired, last, waited, counted, Latch, move, atomic_dec, Wakes, nobody,
  one, Step, wait_open, wait_sleep, wake_open, wake_again, expire, give_up, spurious, down,
  down_last, opens, next_call, Reach, here, later,
}

-- A thread that has seen the count reach 0.
abbrev pub passed : Pc → Bool
passed last = true
passed (waited code) = code == 0
passed _ = false

-- The count is what is left, on 32 bits; if the signal is set or a thread has passed, `count_down` was
-- called often enough.
pub record IsLatch (count : ℕ) (s : Latch) : Type 0 where
  pub rest : (s.count + s.downs) % 2 ^ 32 ≡ count
  pub small : s.count < 2 ^ 32
  pub set : s.signal ≡ true → count ≤ s.downs
  pub through : (j : ℕ) → passed (s.pc j) ≡ true → count ≤ s.downs

module _ (count : ℕ) (fits : count < 2 ^ 32) where
  -- One thread moves on.
  moved :
      (pc : ℕ → Pc) (i : ℕ) (p : Pc) (n : ℕ)
      → (passed p ≡ true → count ≤ n)
      → ((j : ℕ) → passed (pc j) ≡ true → count ≤ n)
      → (j : ℕ) → passed (move pc i p j) ≡ true
      → count ≤ n
  moved pc i p n hp h j = go (i == j)
    where
      go : (b : Bool) → passed (if b then p else pc j) ≡ true → count ≤ n
      go true = hp
      go false = h j

  woken-passed :
      (pc pc' : ℕ → Pc) (n : ℕ)
      → Wakes pc pc'
      → ((j : ℕ) → passed (pc j) ≡ true → count ≤ n)
      → (j : ℕ) → passed (pc' j) ≡ true
      → count ≤ n
  woken-passed pc pc' n (nobody _) h = h
  woken-passed pc pc' n (one j timed _) h = moved pc j (woken timed) n (λ e. cc e) h

  -- A step that neither counts nor sets the signal.
  quiet :
      {s : Latch} (i : ℕ) (p : Pc)
      → (passed p ≡ true → count ≤ s.downs)
      → IsLatch count s
      → IsLatch count (record s { pc = move s.pc i p })
  quiet {s} i p hp inv = record {
    rest = inv.rest;
    small = inv.small;
    set = inv.set;
    through = moved s.pc i p s.downs hp inv.through;
  }

  atomic_dec-eq :
      (c d : ℕ)
      → c < 2 ^ 32
      → (c + d) % 2 ^ 32 ≡ count
      → ((atomic_dec c + suc d) % 2 ^ 32 ≡ count) × (atomic_dec c < 2 ^ 32)
  unfolding atomic_dec
  atomic_dec-eq c d h e = (omega arith, omega arith)

  enough : (d : ℕ) → (0 + d) % 2 ^ 32 ≡ count → count ≤ d
  enough d e = omega arith

  counting :
      {s : Latch} (i : ℕ) (p : Pc)
      → (passed p ≡ true → count ≤ suc s.downs)
      → IsLatch count s
      → IsLatch count (record {
        count = atomic_dec s.count;
        signal = s.signal;
        downs = suc s.downs;
        pc = move s.pc i p;
      })
  counting {s} i p hp inv = record {
    rest = (atomic_dec-eq s.count s.downs inv.small inv.rest).0;
    small = (atomic_dec-eq s.count s.downs inv.small inv.rest).1;
    set = λ e. (let h = inv.set e in omega arith);
    through = moved s.pc i p (suc s.downs) hp (λ j e. (let h = inv.through j e in omega arith));
  }

  Step-IsLatch : {s t : Latch} → Step s t → IsLatch count s → IsLatch count t
  Step-IsLatch (wait_open i _ e) inv = quiet i (waited 0) (λ _. inv.set e) inv
  Step-IsLatch (wait_sleep i timed _ _) inv = quiet i (waiting timed) (λ e. cc e) inv
  Step-IsLatch (wake_open i timed _ e) inv = quiet i (waited 0) (λ _. inv.set e) inv
  Step-IsLatch (wake_again i timed _ _) inv = quiet i (waiting timed) (λ e. cc e) inv
  Step-IsLatch (expire i _) inv = quiet i expired (λ e. cc e) inv
  Step-IsLatch {s} (give_up i _) inv = record {
    rest = inv.rest;
    small = inv.small;
    set = λ e. cc e;
    through = moved s.pc i (waited 1) s.downs (λ e. cc e) inv.through;
  }
  Step-IsLatch (spurious i timed _) inv = quiet i (woken timed) (λ e. cc e) inv
  Step-IsLatch (down i _ _) inv = counting i counted (λ e. cc e) inv
  Step-IsLatch {s} (down_last i _ z) inv =
      counting i last
        (λ _. (let h = (atomic_dec-eq s.count s.downs inv.small inv.rest).0 in omega arith)) inv
  Step-IsLatch {s} (opens i pc e w) inv = record {
    rest = inv.rest;
    small = inv.small;
    set = λ _. inv.through i (ap passed e);
    through = moved pc i counted s.downs (λ e. cc e) (woken-passed s.pc pc s.downs w inv.through);
  }
  Step-IsLatch (next_call i _) inv = quiet i idle (λ e. cc e) inv

  Reach-IsLatch : {s : Latch} → Reach count s → IsLatch count s
  Reach-IsLatch here = record {
    rest = omega arith;
    small = fits;
    set = λ e. cc e;
    through = λ j e. cc e;
  }
  Reach-IsLatch (later r st) = Step-IsLatch st (Reach-IsLatch r)

  -- In every state that threads can reach from a new latch, a thread whose `wait` has returned 0 has
  -- waited for at least as many calls of `count_down` as the count says, and the count is what was left
  -- by the calls so far, modulo 2 ^ 32.
  pub Reach-waited :
      {s : Latch}
      → Reach count s
      → ((i : ℕ) → s.pc i ≡ waited 0 → count ≤ s.downs) × ((s.count + s.downs) % 2 ^ 32 ≡ count)
  Reach-waited r = ((λ i e. (Reach-IsLatch r).through i (ap passed e)), (Reach-IsLatch r).rest)
