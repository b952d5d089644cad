-- ===== src/MyTxEx/Tests.antt =====
-- A transaction object on a small client.
use rellaf.Prelude.{List, [], ◌∷◌, true, false, none, length, replicate, ◌≡◌, refl}
use rellaf.Prelude.Ints.{pos}
use rellaf.Prelude.Maps.{emplace, nat_eq}
use rellaf.MysqlWorker.{done, run_task, serve, submit, verb_of, starts_word}
use rellaf.MysqlWorker.Sample.{Db, empty_db, sample}
use rellaf.MysqlPool.{Pool, begin}
use rellaf.MysqlPool.Session.{plenty}
use rellaf.MyTxEx.{MyTxEx, new_tx}
use rellaf.MyTxEx.Never.{Use, commits, rolls_back, sets_done, use_all, new_tx_never}

abbrev no_threads : Pool Db
no_threads = record { action_idx = 0; threads = []; thread_count = 0; tx_pool = [] }

abbrev begun : Pool Db
begun = record {
  action_idx = 1;
  threads = [];
  thread_count = 0;
  tx_pool =
      (1, record { connection = record empty_db { in_transaction = true }; live = true }) ∷ [];
}

abbrev object : MyTxEx
object = record { init = true; is_begin = false; finished = none; tx = 1 }

abbrev calls : List Use
calls = sets_done (pos 5) ∷ commits plenty ∷ rolls_back plenty ∷ []

new_tx_never_example :
    use_all sample calls object begun ≡ done (replicate (length calls) (true, none), begun)
unfolding new_tx begin submit serve run_task verb_of starts_word emplace
new_tx_never_example = new_tx_never sample true plenty calls object no_threads begun refl
