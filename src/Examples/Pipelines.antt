-- ===== src/Examples/Pipelines.antt =====
-- Pipelines that run on concrete updates; their processors and counters keep a log of numbers.
use omnipair_indexer.Base.{ℕ, List, [], ◌∷◌, ◌++◌, ◌≡◌, none, some, refl, ok, map, true, false, inr}
use omnipair_indexer.Instruction.{
  InstructionsWithMetadata, NestedInstruction, NestedInstructions, cons, nil,
}
use omnipair_indexer.Action.{Action, ◌>>◌, for_each}
use omnipair_indexer.Datasource.{TransactionUpdate, transaction}
use omnipair_indexer.Transformers.{extract_instructions_with_metadata}
use omnipair_indexer.Pipes.{InstructionPipe, process_one, run_inner, run}
use omnipair_indexer.Pipes.Order.{visits, entry_of, run_inner-visits}
use omnipair_indexer.Pipeline.{Pipeline, try_from, process}
use omnipair_indexer.Pipeline.Process.{unfiltered, process-visits}
use omnipair_indexer.Filter.{new}
use omnipair_indexer.Pipeline.Filtered.{process-excluded}
use omnipair_indexer.Pipeline.Run.{
  MetricsCollection, Loop, Reach, here, next, immediate, process_pending, recv, senders_closed,
  handle, on_recv,
}
use omnipair_indexer.Pipeline.Run.Shutdown.{Reach-drained, sigint_leaves_pending}
use omnipair_indexer.Examples.{metadata, message, status_meta, message-IsCallTree, at}

abbrev log : ℕ → Action (List ℕ) (Unit {0})
log n s = (ok tt, s ++ n ∷ [])

-- It decodes the instructions of program 12.
abbrev logger : InstructionPipe (List ℕ) (List ℕ)
logger = record {
  decode_instruction =
      λ i. some (record { program_id = i.program_id; content = i.bytes; accounts = i.accounts });
  process = λ (m, d, inner, i). log m.stack_height;
  filters = [];
}

abbrev pipeline : Pipeline (List ℕ)
pipeline = record {
  account_pipes = [];
  account_deletion_pipes = [];
  block_details_pipes = [];
  instruction_pipes = unfiltered logger ∷ [];
  transaction_pipes = [];
  increment_counter = λ _ n. log n;
}

abbrev update : TransactionUpdate
update = record {
  signature = 77;
  message = message;
  status_meta = status_meta;
  is_vote = false;
  slot = 5;
  block_time = none;
  block_hash = none;
}

process-visits_example :
    (es : InstructionsWithMetadata) × (extract_instructions_with_metadata metadata message
        status_meta
      ≡ ok es)
    × (vs : List NestedInstruction) × (map entry_of vs ≡ es)
    × (process pipeline "rpc" (transaction update) []
        ≡ (for_each (process_one logger) vs >> log 1) [])
process-visits_example =
    process-visits logger pipeline "rpc" update [] {tm = metadata} (unfold try_from in refl)
      message-IsCallTree refl refl

-- The same pipe, only for updates of the datasource "rpc".
abbrev guarded : Pipeline (List ℕ)
guarded = record pipeline {
  instruction_pipes = record { filters = new "rpc" ∷ []; run = run logger } ∷ [];
}

process-excluded_example : process guarded "socket" (transaction update) [] ≡ (ok tt, 1 ∷ [])
process-excluded_example =
    process-excluded "socket" guarded (transaction update) [] tt tt tt
      (([], [], "rpc" ∷ [], refl, refl), tt) tt
      (metadata, unfold try_from in refl, message-IsCallTree)

abbrev nested : NestedInstructions
nested = cons (at 1 (0 ∷ [])) (cons (at 2 (0 ∷ 0 ∷ [])) nil nil) nil

run_inner-visits_example :
    run_inner logger nested [] ≡ for_each (process_one logger) (visits nested) []
run_inner-visits_example = run_inner-visits logger nested []

abbrev metrics : MetricsCollection (List ℕ)
metrics = record {
  increment_counter = λ _ n. log n;
  update_gauge = λ _ n. log n;
  record_histogram = λ _. log 0;
  flush_metrics = log 8;
  shutdown_metrics = log 9;
}

abbrev start : Loop (List ℕ)
start = record { queue = []; senders_open = true; cancelled = false; done = none; state = [] }

abbrev waiting : Loop (List ℕ)
waiting = record {
  queue = (transaction update, "rpc") ∷ [];
  senders_open = true;
  cancelled = false;
  done = none;
  state = [];
}

-- The last sender closes, and the loop ends.
abbrev ended : Loop (List ℕ)
ended = record {
  queue = [];
  senders_open = false;
  cancelled = false;
  done = some (ok tt);
  state = 8 ∷ 9 ∷ [];
}

ended-Reach : Reach immediate metrics pipeline start ended
unfolding handle on_recv
ended-Reach = next recv (next senders_closed here refl tt refl) refl (inr refl) refl

Reach-drained_example : ended.queue ≡ []
Reach-drained_example =
    Reach-drained immediate metrics pipeline start ended refl ended-Reach refl refl

sigint_leaves_pending_example :
    (l' : Loop (List ℕ)) × Reach process_pending metrics pipeline waiting l'
    × (l'.done ≡ some (ok tt))
    × (l'.queue ≡ waiting.queue)
    × (l'.state ≡ 8 ∷ 9 ∷ [])
sigint_leaves_pending_example =
    sigint_leaves_pending metrics pipeline waiting {s₁ = 8 ∷ []} {s₂ = 8 ∷ 9 ∷ []} refl refl refl
