-- ===== src/Daemon/Backoff.antt =====
-- How long the daemon waits.
use native.Mathlib.Numerals.{unary_clauses}
use omnipair_indexer.Base.{
  ℕ, zero, suc, ◌+◌, ◌*◌, ◌^◌, ◌≡◌, ◌∙◌, min, ap, List, [], ◌∷◌, ◌++◌, arith, CarbonResult, ok, err,
  Error,
}
use omnipair_indexer.Daemon.{daemon_loop, run_daemon_loop}

-- As many instances that end in an error.
abbrev pub errors : ℕ → Error → List (CarbonResult (Unit {0}))
errors zero e = []
errors (suc k) e = err e ∷ errors k e

-- The delays after the `i`-th error in a row and the `k - 1` that follow it.
abbrev pub delays : (i k : ℕ) → List ℕ
delays i zero = []
delays i (suc k) = min (2 ^ i) 30 ∷ delays (suc i) k

doubled : (i : ℕ) → min (min (2 ^ i) 30 * 2) 30 ≡ min (2 ^ suc i) 30
doubled i = simp unary_clauses (omega arith)

loop-errors :
    (k i : ℕ) (e : Error) (results : List (CarbonResult (Unit {0})))
    → daemon_loop (errors k e ++ results) (min (2 ^ i) 30)
      ≡ delays i k ++ daemon_loop results (min (2 ^ (i + k)) 30)
unfolding daemon_loop
loop-errors zero i e results = ap (λ j. daemon_loop results (min (2 ^ j) 30)) (omega arith)
loop-errors (suc k) i e results =
    ap (λ d. min (2 ^ i) 30 ∷ d)
      (ap (daemon_loop (errors k e ++ results)) (doubled i)
        ∙ loop-errors k (suc i) e results
        ∙ ap (λ j. delays (suc i) k ++ daemon_loop results (min (2 ^ j) 30)) (omega arith))

-- If the first `k` instances end in errors, the waits behind them are 1, 2, 4 and so on seconds, but
-- 30 at most; if the next one ends well, the wait is 1 second again.
pub run_daemon_loop-errors :
    (k : ℕ) (e : Error) (results : List (CarbonResult (Unit {0})))
    → run_daemon_loop (errors k e ++ ok tt ∷ results) ≡ delays 0 k ++ 1 ∷ run_daemon_loop results
unfolding run_daemon_loop daemon_loop
run_daemon_loop-errors k e results = loop-errors k 0 e (ok tt ∷ results)
