-- ===== src/SqlPattern/Faults.antt =====
-- A pattern whose first special byte is not ASCII makes `explode` read outside of its tables.
use rellaf.Prelude.{ℕ, [], ◌∷◌, ◌++◌, ◌≡◌, none, ◌≤◌, Bytes, All, ◌∙◌}
use rellaf.SqlPattern.{literal, init, round, run, explode, fault, Scan}
use rellaf.SqlPattern.Kinds.{round_init-far}
use rellaf.SqlPattern.Render.{IsPlain}
use rellaf.SqlPattern.Scanning.{scan}
use rellaf.SqlPattern.Complete.{run-init}

run-fault : (s : Scan) (c : ℕ) (cs : Bytes) → round s c ≡ fault → run s (c ∷ cs) ≡ none
unfolding run
run-fault s c cs e = rw (e, run)

-- After plain bytes, a byte from 128 on makes `explode` read outside of its tables, whatever follows.
pub explode_outside :
    (v rest : Bytes) (c : ℕ) → All IsPlain v → 128 ≤ c → explode (v ++ c ∷ rest) ≡ none
unfolding explode
explode_outside v rest c h far =
    run-init 0 [] v [] (c ∷ rest) h
    ∙ run-fault (scan init v literal 0 []) c rest (round_init-far (scan init v literal 0 []) c far)
