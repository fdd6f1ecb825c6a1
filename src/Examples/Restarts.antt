-- ===== src/Examples/Restarts.antt =====
-- The daemon after six errors in a row.
use omnipair_indexer.Base.{[], ◌∷◌, ◌++◌, ◌≡◌, ok, err, missing_fee_payer}
use omnipair_indexer.Daemon.{run_daemon_loop}
use omnipair_indexer.Daemon.Backoff.{errors, delays, run_daemon_loop-errors}

run_daemon_loop-errors_example :
    run_daemon_loop (errors 6 missing_fee_payer ++ ok tt ∷ err missing_fee_payer ∷ [])
    ≡ delays 0 6 ++ 1 ∷ run_daemon_loop (err missing_fee_payer ∷ [])
run_daemon_loop-errors_example =
    run_daemon_loop-errors 6 missing_fee_payer (err missing_fee_payer ∷ [])
