-- ===== src/Pipeline/Run.antt =====
-- The loop of `Pipeline::run`, one `select!` branch at a time. Which of the ready branches runs is
-- not determined; updates arrive and the senders close at any time.
pub mod Shutdown
use omnipair_indexer.Base.{
  ℕ, Bool, true, false, Option, none, some, List, [], ◌∷◌, ◌++◌, ◌≡◌, ◌≢◌, String, CarbonResult, ok,
  err, panic, ◌⊎◌, length,
}
use omnipair_indexer.Datasource.{DatasourceId, Update}
use omnipair_indexer.Action.{Action, pure, ◌>>=◌, ◌>>◌}
use omnipair_indexer.Pipeline.{Pipeline, process}

pub data ShutdownStrategy : Type 0 where
  immediate process_pending : ShutdownStrategy

-- `MetricsCollection`; the values measured by the clock are left to it.
pub record MetricsCollection (S : Type 0) : Type 0 where
  pub increment_counter : String → ℕ → Action S (Unit {0})
  pub update_gauge : String → ℕ → Action S (Unit {0})
  pub record_histogram : String → Action S (Unit {0})
  pub flush_metrics : Action S (Unit {0})
  pub shutdown_metrics : Action S (Unit {0})

-- Whether the loop goes on.
pub data Control : Type 0 where
  continue break : Control

-- `done` is what `run` returned, once it has.
pub record Loop (S : Type 0) : Type 0 where
  pub queue : List (Update × DatasourceId)
  pub senders_open : Bool
  pub cancelled : Bool
  pub done : Option (CarbonResult (Unit {0}))
  pub state : S

-- The branches of `select!`, and what the datasources do.
pub data Event : Type 0 where
  token_cancelled ctrl_c tick recv senders_closed : Event
  arrives : Update × DatasourceId → Event

-- The value of a call that no `?` follows; a panic goes on.
abbrev pub outcome :
    {S : Type 0} → CarbonResult (Unit {0}) × S → CarbonResult (CarbonResult (Unit {0})) × S
outcome (ok a, s) = (ok (ok a), s)
outcome (err e, s) = (ok (err e), s)
outcome (panic, s) = (panic, s)

module _ {S : Type 0} (strategy : ShutdownStrategy) (metrics : MetricsCollection S)
    (p : Pipeline S) where
  -- The outcome of one update, counted.
  unfoldable pub count_result : CarbonResult (Unit {0}) → Action S (Unit {0})
  count_result (ok _) = metrics.increment_counter "updates_successful" 1
  count_result (err _) = metrics.increment_counter "updates_failed" 1
  count_result panic = λ s. (panic, s)

  -- `Some((update, datasource_id))`; `queued` is the length of the queue behind it.
  unfoldable pub on_update : Update → DatasourceId → ℕ → Action S (Unit {0})
  on_update update id queued = do
    metrics.increment_counter "updates_received" 1
    result ← λ s. outcome (process p id update s)
    metrics.record_histogram "updates_process_time_nanoseconds"
    metrics.record_histogram "updates_process_time_milliseconds"
    count_result result
    metrics.increment_counter "updates_processed" 1
    metrics.update_gauge "updates_queued" queued

  abbrev pub stop : Action S Control
  stop = metrics.flush_metrics >> metrics.shutdown_metrics >> pure break

  -- After a branch: `?` returns its error, `break` ends the loop.
  abbrev pub settle : Loop S → CarbonResult Control × S → Loop S
  settle l (ok continue, s) = record l { state = s }
  settle l (ok break, s) = record l { state = s; done = some (ok tt) }
  settle l (err e, s) = record l { state = s; done = some (err e) }
  settle l (panic, s) = record l { state = s; done = some panic }

  -- `_ = tokio::signal::ctrl_c()`, behind the call of `cancel`.
  abbrev pub on_ctrl_c : ShutdownStrategy → Action S Control
  on_ctrl_c immediate = stop
  on_ctrl_c process_pending = pure continue

  -- `update = update_receiver.recv()`, at the queue as it stands.
  unfoldable pub on_recv : List (Update × DatasourceId) → Loop S → Loop S
  on_recv [] l = settle l (stop l.state)
  on_recv ((update, id) ∷ rest) l =
      settle (record l { queue = rest })
        ((on_update update id (length rest) >> pure continue) l.state)

  unfoldable pub handle : Event → Loop S → Loop S
  handle token_cancelled l = settle l (stop l.state)
  handle ctrl_c l = settle (record l { cancelled = true }) (on_ctrl_c strategy l.state)
  handle tick l = settle l ((metrics.flush_metrics >> pure continue) l.state)
  handle recv l = on_recv l.queue l
  handle senders_closed l = record l { senders_open = false }
  handle (arrives u) l = record l { queue = l.queue ++ u ∷ [] }

  -- When an event can happen. `recv` is ready if an update waits or no sender is left.
  abbrev pub Enabled : Event → Loop S → Type 0
  Enabled token_cancelled l = l.cancelled ≡ true
  Enabled recv l = (l.queue ≢ []) ⊎ (l.senders_open ≡ false)
  Enabled (arrives u) l = l.senders_open ≡ true
  Enabled _ l = Unit

  -- The runs of the loop from `start`, as long as it has not returned.
  pub data Reach (start : Loop S) : Loop S → Type 0 where
    here : Reach start start
    next :
        {l l' : Loop S} (e : Event)
        → Reach start l
        → l.done ≡ none
        → Enabled e l
        → l' ≡ handle e l
        → Reach start l'
