-- ===== src/Pipeline/Run/Shutdown.antt =====
-- When the loop of `Pipeline::run` ends, and what is then left in its queue.
use omnipair_indexer.Base.{
  true, false, none, some, List, [], ◌∷◌, ◌≡◌, ◌≢◌, refl, CarbonResult, ok, err, panic, sym, ◌∙◌,
  length,
}
use mathlib.Core.Path.{subst}
use omnipair_indexer.Datasource.{DatasourceId, Update}
use omnipair_indexer.Action.{pure, and_then}
use omnipair_indexer.Pipeline.{Pipeline}
use omnipair_indexer.Pipeline.Run.{
  ShutdownStrategy, process_pending, MetricsCollection, Control, continue, break, Loop, Event,
  token_cancelled, ctrl_c, tick, recv, senders_closed, arrives, on_update, stop, settle, on_ctrl_c,
  on_recv, handle, Enabled, Reach, here, next,
}

module _ {S : Type 0} (strategy : ShutdownStrategy) (metrics : MetricsCollection S)
    (p : Pipeline S) where
  settle-keeps :
      (l : Loop S) (r : CarbonResult Control × S)
      → let l' = settle strategy metrics p l r in
        (l'.queue ≡ l.queue) × (l'.cancelled ≡ l.cancelled)
  settle-keeps l (ok continue, s) = (refl, refl)
  settle-keeps l (ok break, s) = (refl, refl)
  settle-keeps l (err e, s) = (refl, refl)
  settle-keeps l (panic, s) = (refl, refl)

  settle-continue :
      (l : Loop S) (r : CarbonResult (Unit {0}) × S)
      → l.done ≡ none
      → (settle strategy metrics p l (and_then r (λ _. pure continue))).done ≢ some (ok tt)
  settle-continue l (ok a, s) h = λ e. cc
  settle-continue l (err x, s) h = λ e. cc
  settle-continue l (panic, s) h = λ e. cc

  -- A loop that was not cancelled and has returned without an error has nothing left in its queue.
  abbrev IsDrained : Loop S → Type 0
  IsDrained l = l.cancelled ≡ false → l.done ≡ some (ok tt) → l.queue ≡ []

  on_recv-IsDrained :
      (l : Loop S) (q : List (Update × DatasourceId))
      → l.queue ≡ q
      → l.done ≡ none
      → IsDrained (on_recv strategy metrics p q l)
  unfolding on_recv
  on_recv-IsDrained l [] q r c d = (settle-keeps l (stop strategy metrics p l.state)).0 ∙ q
  on_recv-IsDrained l ((u, id) ∷ rest) q r c d = absurd (
      settle-continue (record l { queue = rest })
        (on_update strategy metrics p u id (length rest) l.state) r d)

  handle-IsDrained :
      (e : Event) (l : Loop S)
      → l.done ≡ none
      → Enabled strategy metrics p e l
      → IsDrained (handle strategy metrics p e l)
  unfolding handle
  handle-IsDrained token_cancelled l r en c d =
      cc (en, (settle-keeps l (stop strategy metrics p l.state)).1)
  handle-IsDrained ctrl_c l r en c d =
      cc
        (settle-keeps (record l { cancelled = true })
          (on_ctrl_c strategy metrics p strategy l.state)).1
  handle-IsDrained tick l r en c d = absurd (settle-continue l (metrics.flush_metrics l.state) r d)
  handle-IsDrained recv l r en c d = on_recv-IsDrained l l.queue refl r c d
  handle-IsDrained senders_closed l r en c d = cc
  handle-IsDrained (arrives u) l r en c d = cc

  Reach-IsDrained :
      (start l : Loop S) → start.done ≡ none → Reach strategy metrics p start l → IsDrained l
  Reach-IsDrained start l r here c d = cc
  Reach-IsDrained start l r (next {l = before} e path running en eq) c d =
      subst IsDrained (sym eq) (handle-IsDrained e before running en) c d

  -- In every run that starts with the loop running, a loop that was not cancelled and that has
  -- returned without an error has nothing left in its queue.
  pub Reach-drained :
      (start l : Loop S)
      → start.done ≡ none
      → Reach strategy metrics p start l
      → l.cancelled ≡ false
      → l.done ≡ some (ok tt)
      → l.queue ≡ []
  Reach-drained start l r path = Reach-IsDrained start l r path

module _ {S : Type 0} (metrics : MetricsCollection S) (p : Pipeline S) where
  -- Under `ProcessPending`, whatever waits in the queue of a running loop, a SIGINT can be followed
  -- by the loop's return with no update processed and the queue as it was, if the metrics can be
  -- flushed and shut down.
  pub sigint_leaves_pending :
      (l : Loop S) {s₁ s₂ : S}
      → l.done ≡ none
      → metrics.flush_metrics l.state ≡ (ok tt, s₁)
      → metrics.shutdown_metrics s₁ ≡ (ok tt, s₂)
      → (l' : Loop S) × Reach process_pending metrics p l l'
        × (l'.done ≡ some (ok tt))
        × (l'.queue ≡ l.queue)
        × (l'.state ≡ s₂)
  unfolding handle
  sigint_leaves_pending l {s₁} {s₂} r flushed down = (
    record l { cancelled = true; done = some (ok tt); state = s₂ },
    next token_cancelled (next ctrl_c here r tt refl) r refl (rw (flushed, down)),
    refl,
    refl,
    refl,
  )
