-- ===== src/Pipeline/Builder.antt =====
-- `PipelineBuilder` of indexer/crates/core/src/pipeline.rs. `D`, `M` and `C` are the datasources, the
-- metrics and the cancellation tokens, which the builder only keeps.
pub mod Calls
pub mod Chain
use omnipair_indexer.Base.{ℕ, Option, none, some, List, [], ◌∷◌, ◌++◌, CarbonResult, ok}
use omnipair_indexer.Solana.{Account, Instruction}
use omnipair_indexer.Action.{Action}
use omnipair_indexer.Schema.{Collection, SchemaNodes, Output}
use omnipair_indexer.Instruction.{
  TransactionMetadata, InstructionMetadata, NestedInstruction, NestedInstructions,
}
use omnipair_indexer.Datasource.{DatasourceId, AccountMetadata, AccountDeletion, BlockDetails}
use omnipair_indexer.Filter.{Filter}
use omnipair_indexer.Pipes.{InstructionPipe, DecodedInstruction}
use omnipair_indexer.Pipes as Pipes
use omnipair_indexer.Pipes.Accounts.{
  DecodedAccount, AccountPipe, AccountDeletionPipe, BlockDetailsPipe, run_account,
  run_account_deletion, run_block_details,
}
use omnipair_indexer.Transaction.{TransactionPipe}
use omnipair_indexer.Transaction as Transaction
use omnipair_indexer.Pipeline.{Pipe}
use omnipair_indexer.Pipeline.Run.{ShutdownStrategy, process_pending}

pub record PipelineBuilder (S D M C : Type 0) : Type 0 where
  pub datasources : List (DatasourceId × D)
  pub account_pipes : List (Pipe S (AccountMetadata × Account))
  pub account_deletion_pipes : List (Pipe S AccountDeletion)
  pub block_details_pipes : List (Pipe S BlockDetails)
  pub instruction_pipes : List (Pipe S NestedInstruction)
  pub transaction_pipes : List (Pipe S (TransactionMetadata × NestedInstructions))
  pub metrics : List M
  pub metrics_flush_interval : Option ℕ
  pub datasource_cancellation_token : Option C
  pub shutdown_strategy : ShutdownStrategy
  pub channel_buffer_size : ℕ

-- The fields of `Pipeline`.
pub record Built (S D M C : Type 0) : Type 0 where
  pub datasources : List (DatasourceId × D)
  pub account_pipes : List (Pipe S (AccountMetadata × Account))
  pub account_deletion_pipes : List (Pipe S AccountDeletion)
  pub block_details_pipes : List (Pipe S BlockDetails)
  pub instruction_pipes : List (Pipe S NestedInstruction)
  pub transaction_pipes : List (Pipe S (TransactionMetadata × NestedInstructions))
  pub metrics : List M
  pub metrics_flush_interval : Option ℕ
  pub datasource_cancellation_token : Option C
  pub shutdown_strategy : ShutdownStrategy
  pub channel_buffer_size : ℕ

abbrev pub default_channel_buffer_size : ℕ
default_channel_buffer_size = 1000

module _ {S : Type 0} where
  -- A pipe behind its trait object.
  abbrev pub boxed_account : {T : Type 0} → AccountPipe S T → Pipe S (AccountMetadata × Account)
  boxed_account p = record { filters = p.filters; run = run_account p }

  abbrev pub boxed_account_deletion : AccountDeletionPipe S → Pipe S AccountDeletion
  boxed_account_deletion p = record { filters = p.filters; run = run_account_deletion p }

  abbrev pub boxed_block_details : BlockDetailsPipe S → Pipe S BlockDetails
  boxed_block_details p = record { filters = p.filters; run = run_block_details p }

  abbrev pub boxed_instruction : {T : Type 0} → InstructionPipe S T → Pipe S NestedInstruction
  boxed_instruction p = record { filters = p.filters; run = Pipes.run p }

  abbrev pub boxed_transaction :
      {T K U : Type 0} → TransactionPipe S T K U → Pipe S (TransactionMetadata × NestedInstructions)
  boxed_transaction p = record { filters = p.filters; run = Transaction.run p }

module _ {S D M C : Type 0} where
  -- `Pipeline::builder()`
  unfoldable pub builder : PipelineBuilder S D M C
  builder = record {
    datasources = [];
    account_pipes = [];
    account_deletion_pipes = [];
    block_details_pipes = [];
    instruction_pipes = [];
    transaction_pipes = [];
    metrics = [];
    metrics_flush_interval = none;
    datasource_cancellation_token = none;
    shutdown_strategy = process_pending;
    channel_buffer_size = default_channel_buffer_size;
  }

  -- `PipelineBuilder::new()`, the derived default: its number is 0.
  unfoldable pub new : PipelineBuilder S D M C
  new = record {
    datasources = [];
    account_pipes = [];
    account_deletion_pipes = [];
    block_details_pipes = [];
    instruction_pipes = [];
    transaction_pipes = [];
    metrics = [];
    metrics_flush_interval = none;
    datasource_cancellation_token = none;
    shutdown_strategy = process_pending;
    channel_buffer_size = 0;
  }

  unfoldable pub datasource_with_id :
      D → DatasourceId → PipelineBuilder S D M C → PipelineBuilder S D M C
  datasource_with_id d id b = record b { datasources = b.datasources ++ (id, d) ∷ [] }

  -- `unique` is what `DatasourceId::new_unique()` returns.
  unfoldable pub datasource : DatasourceId → D → PipelineBuilder S D M C → PipelineBuilder S D M C
  datasource unique d b = record b { datasources = b.datasources ++ (unique, d) ∷ [] }

  unfoldable pub set_shutdown_strategy :
      ShutdownStrategy → PipelineBuilder S D M C → PipelineBuilder S D M C
  set_shutdown_strategy strategy b = record b { shutdown_strategy = strategy }

  unfoldable pub account :
      {T : Type 0}
      → (Account → Option (DecodedAccount T))
      → (AccountMetadata × DecodedAccount T × Account → Action S (Unit {0}))
      → PipelineBuilder S D M C
      → PipelineBuilder S D M C
  account decoder processor b = record b {
    account_pipes =
        b.account_pipes
        ++ boxed_account (record { decode_account = decoder; process = processor; filters = [] })
          ∷ [];
  }

  unfoldable pub account_with_filters :
      {T : Type 0}
      → (Account → Option (DecodedAccount T))
      → (AccountMetadata × DecodedAccount T × Account → Action S (Unit {0}))
      → List Filter
      → PipelineBuilder S D M C
      → PipelineBuilder S D M C
  account_with_filters decoder processor filters b = record b {
    account_pipes =
        b.account_pipes
        ++ boxed_account
            (record { decode_account = decoder; process = processor; filters = filters })
          ∷ [];
  }

  unfoldable pub account_deletions :
      (AccountDeletion → Action S (Unit {0})) → PipelineBuilder S D M C → PipelineBuilder S D M C
  account_deletions processor b = record b {
    account_deletion_pipes =
        b.account_deletion_pipes
        ++ boxed_account_deletion (record { process = processor; filters = [] }) ∷ [];
  }

  unfoldable pub account_deletions_with_filters :
      (AccountDeletion → Action S (Unit {0}))
      → List Filter
      → PipelineBuilder S D M C
      → PipelineBuilder S D M C
  account_deletions_with_filters processor filters b = record b {
    account_deletion_pipes =
        b.account_deletion_pipes
        ++ boxed_account_deletion (record { process = processor; filters = filters }) ∷ [];
  }

  unfoldable pub block_details :
      (BlockDetails → Action S (Unit {0})) → PipelineBuilder S D M C → PipelineBuilder S D M C
  block_details processor b = record b {
    block_details_pipes =
        b.block_details_pipes
        ++ boxed_block_details (record { process = processor; filters = [] }) ∷ [];
  }

  unfoldable pub block_details_with_filters :
      (BlockDetails → Action S (Unit {0}))
      → List Filter
      → PipelineBuilder S D M C
      → PipelineBuilder S D M C
  block_details_with_filters processor filters b = record b {
    block_details_pipes =
        b.block_details_pipes
        ++ boxed_block_details (record { process = processor; filters = filters }) ∷ [];
  }

  unfoldable pub instruction :
      {T : Type 0}
      → (Instruction → Option (DecodedInstruction T))
      → (InstructionMetadata × DecodedInstruction T × NestedInstructions × Instruction
          → Action S (Unit {0}))
      → PipelineBuilder S D M C
      → PipelineBuilder S D M C
  instruction decoder processor b = record b {
    instruction_pipes =
        b.instruction_pipes
        ++ boxed_instruction
            (record { decode_instruction = decoder; process = processor; filters = [] })
          ∷ [];
  }

  unfoldable pub instruction_with_filters :
      {T : Type 0}
      → (Instruction → Option (DecodedInstruction T))
      → (InstructionMetadata × DecodedInstruction T × NestedInstructions × Instruction
          → Action S (Unit {0}))
      → List Filter
      → PipelineBuilder S D M C
      → PipelineBuilder S D M C
  instruction_with_filters decoder processor filters b = record b {
    instruction_pipes =
        b.instruction_pipes
        ++ boxed_instruction
            (record { decode_instruction = decoder; process = processor; filters = filters })
          ∷ [];
  }

  -- The types that the processor names determine `collection` and `deserialize`.
  unfoldable pub transaction :
      {T K U : Type 0}
      → Collection T K
      → (Option (Output T) → Option U)
      → (TransactionMetadata × List (InstructionMetadata × DecodedInstruction T) × Option U
          → Action S (Unit {0}))
      → Option (SchemaNodes K)
      → PipelineBuilder S D M C
      → PipelineBuilder S D M C
  transaction collection deserialize processor schema b = record b {
    transaction_pipes =
        b.transaction_pipes
        ++ boxed_transaction (record {
          collection = collection;
          schema = schema;
          deserialize = deserialize;
          process = processor;
          filters = [];
        })
          ∷ [];
  }

  unfoldable pub transaction_with_filters :
      {T K U : Type 0}
      → Collection T K
      → (Option (Output T) → Option U)
      → (TransactionMetadata × List (InstructionMetadata × DecodedInstruction T) × Option U
          → Action S (Unit {0}))
      → Option (SchemaNodes K)
      → List Filter
      → PipelineBuilder S D M C
      → PipelineBuilder S D M C
  transaction_with_filters collection deserialize processor schema filters b = record b {
    transaction_pipes =
        b.transaction_pipes
        ++ boxed_transaction (record {
          collection = collection;
          schema = schema;
          deserialize = deserialize;
          process = processor;
          filters = filters;
        })
          ∷ [];
  }

  unfoldable pub add_metrics : M → PipelineBuilder S D M C → PipelineBuilder S D M C
  add_metrics m b = record b { metrics = b.metrics ++ m ∷ [] }

  unfoldable pub set_metrics_flush_interval : ℕ → PipelineBuilder S D M C → PipelineBuilder S D M C
  set_metrics_flush_interval interval b = record b { metrics_flush_interval = some interval }

  unfoldable pub set_datasource_cancellation_token :
      C → PipelineBuilder S D M C → PipelineBuilder S D M C
  set_datasource_cancellation_token token b = record b {
    datasource_cancellation_token = some token;
  }

  unfoldable pub set_channel_buffer_size : ℕ → PipelineBuilder S D M C → PipelineBuilder S D M C
  set_channel_buffer_size size b = record b { channel_buffer_size = size }

  unfoldable pub build : PipelineBuilder S D M C → CarbonResult (Built S D M C)
  build b = ok (record {
    datasources = b.datasources;
    account_pipes = b.account_pipes;
    account_deletion_pipes = b.account_deletion_pipes;
    block_details_pipes = b.block_details_pipes;
    instruction_pipes = b.instruction_pipes;
    transaction_pipes = b.transaction_pipes;
    metrics = b.metrics;
    metrics_flush_interval = b.metrics_flush_interval;
    datasource_cancellation_token = b.datasource_cancellation_token;
    shutdown_strategy = b.shutdown_strategy;
    channel_buffer_size = b.channel_buffer_size;
  })

  -- The channel that `Pipeline::run` makes of that size. tokio's `channel` panics on a size of 0.
  unfoldable pub open_channel :
      (bounded : ℕ → CarbonResult (Unit {0})) → Built S D M C → CarbonResult (Unit {0})
  open_channel bounded p = bounded p.channel_buffer_size
