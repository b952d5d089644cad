-- ===== src/MysqlJoin/Race.antt =====
-- The worker may write over the order to stop.
use rellaf.Prelude.{◌≡◌, ◌≢◌, refl, arith}
use rellaf.MysqlJoin.{
  popping, ended, joining, Threads, behind_latch, Step, goes_on, leaves, marks, pops_nothing, stops,
  clears, joins, Reach, here, later,
}

-- The caller has given its order, which is gone, and the worker runs.
pub record IsLost (s : Threads) : Type 0 where
  pub status : s.status ≡ 2
  pub caller : s.caller ≡ joining
  pub running : s.worker ≢ ended

Step-IsLost : {s t : Threads} → Step s t → IsLost s → IsLost t
Step-IsLost (goes_on _ _) h = record { status = h.status; caller = h.caller; running = λ e. cc e }
Step-IsLost (leaves _ z) h = absurd (ground (arith, h.status, z))
Step-IsLost (marks _) h = record { status = refl; caller = h.caller; running = λ e. cc e }
Step-IsLost (pops_nothing _) h = record {
  status = h.status;
  caller = h.caller;
  running = λ e. cc e;
}
Step-IsLost (stops e) h = cc (e, h.caller)
Step-IsLost (clears e) h = cc (e, h.caller)
Step-IsLost (joins _ e) h = absurd (h.running e)

Reach-IsLost : {s t : Threads} → Reach s t → IsLost s → IsLost t
Reach-IsLost here h = h
Reach-IsLost (later r st) h = Step-IsLost st (Reach-IsLost r h)

abbrev lost : Threads
lost = record { status = 2; worker = popping; caller = joining }

-- From the state behind the latch a state can be reached in which the caller is in `pthread_join` and
-- from which no step brings it out again: whatever happens, the worker goes on with its loop.
pub Reach-joining :
    (s : Threads) × Reach behind_latch s
    × ((t : Threads) → Reach s t → (t.caller ≡ joining) × (t.worker ≢ ended))
Reach-joining = (
  lost,
  later (later (later (later here (goes_on refl (omega arith))) (stops refl)) (clears refl))
      (marks refl),
  λ t r.
      (let h = Reach-IsLost r (record { status = refl; caller = refl; running = λ e. cc e }) in
        (h.caller, h.running)),
)
