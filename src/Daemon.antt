-- ===== src/Daemon.antt =====
-- `run_daemon_loop` of indexer/src/main.rs: the pipeline is started again and again, with a delay
-- that doubles from one error to the next.
pub mod Backoff
use omnipair_indexer.Base.{ℕ, ◌*◌, min, List, [], ◌∷◌, CarbonResult, ok, err, panic}

-- The delays, in seconds, that the loop sleeps as its instances end in the given ways; a panic ends
-- the loop.
unfoldable pub daemon_loop : List (CarbonResult (Unit {0})) → (retry_delay : ℕ) → List ℕ
daemon_loop [] retry_delay = []
daemon_loop (ok _ ∷ results) retry_delay = 1 ∷ daemon_loop results 1
daemon_loop (err e ∷ results) retry_delay =
    retry_delay ∷ daemon_loop results (min (retry_delay * 2) 30)
daemon_loop (panic ∷ results) retry_delay = []

unfoldable pub run_daemon_loop : List (CarbonResult (Unit {0})) → List ℕ
unfolding daemon_loop
run_daemon_loop results = daemon_loop results 1
