-- ===== src/Latch/Tests.antt =====
-- The latch's theorems at small counts.
use rellaf.Prelude.{ℕ, ◌+◌, ◌%◌, ◌^◌, ◌≤◌, true, ◌≡◌, refl, arith}
use rellaf.Latch.{
  Latch, idle, last, waited, counted, move, atomic_dec, nobody, down_last, opens, wait_open, Reach,
  here, later,
}
use rellaf.Latch.Count.{Reach-waited}
use rellaf.Latch.Stuck.{IsStuck, lost_waiter}

-- The thread 3 has counted down, and then the thread 1 has waited.
abbrev passed_by : Latch
passed_by = record {
  count = 0;
  signal = true;
  downs = 1;
  pc = move (move (move (λ _. idle) 3 last) 3 counted) 1 (waited 0);
}

Reach-waited_example :
    ((i : ℕ) → passed_by.pc i ≡ waited 0 → 1 ≤ passed_by.downs)
    × ((passed_by.count + passed_by.downs) % 2 ^ 32 ≡ 1)
unfolding atomic_dec
Reach-waited_example = Reach-waited 1 (omega arith) (
    later (later (later here (down_last 3 refl refl)) (opens 3 _ refl (nobody (λ j. ground arith))))
      (wait_open 1 refl refl))

lost_waiter_example : (s : Latch) × Reach 3 s × (s.signal ≡ true) × IsStuck 3 s 2
lost_waiter_example = lost_waiter 3 (omega arith) (omega arith)
