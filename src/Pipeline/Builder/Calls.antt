-- ===== src/Pipeline/Builder/Calls.antt =====
-- Chains of calls of a builder's methods.
use omnipair_indexer.Base.{ℕ, Option, none, some, List, [], ◌∷◌}
use omnipair_indexer.Solana.{Account, Instruction}
use omnipair_indexer.Action.{Action}
use omnipair_indexer.Schema.{Collection, SchemaNodes, Output}
use omnipair_indexer.Instruction.{TransactionMetadata, InstructionMetadata, NestedInstructions}
use omnipair_indexer.Datasource.{DatasourceId, AccountMetadata, AccountDeletion, BlockDetails}
use omnipair_indexer.Filter.{Filter}
use omnipair_indexer.Pipes.{DecodedInstruction}
use omnipair_indexer.Pipes.Accounts.{DecodedAccount}
use omnipair_indexer.Pipeline.Run.{ShutdownStrategy}
use omnipair_indexer.Pipeline.Builder.{
  PipelineBuilder, datasource_with_id, datasource, set_shutdown_strategy, account,
  account_with_filters, account_deletions, account_deletions_with_filters, block_details,
  block_details_with_filters, instruction, instruction_with_filters, transaction,
  transaction_with_filters, add_metrics, set_metrics_flush_interval,
  set_datasource_cancellation_token, set_channel_buffer_size,
}

-- One method with its arguments.
pub data Call (S D M C : Type 0) : Type 1 where
  call_datasource_with_id : D → DatasourceId → Call S D M C
  call_datasource : DatasourceId → D → Call S D M C
  call_set_shutdown_strategy : ShutdownStrategy → Call S D M C
  call_account :
      {T : Type 0}
      → (Account → Option (DecodedAccount T))
      → (AccountMetadata × DecodedAccount T × Account → Action S (Unit {0}))
      → Call S D M C
  call_account_with_filters :
      {T : Type 0}
      → (Account → Option (DecodedAccount T))
      → (AccountMetadata × DecodedAccount T × Account → Action S (Unit {0}))
      → List Filter
      → Call S D M C
  call_account_deletions : (AccountDeletion → Action S (Unit {0})) → Call S D M C
  call_account_deletions_with_filters :
      (AccountDeletion → Action S (Unit {0})) → List Filter → Call S D M C
  call_block_details : (BlockDetails → Action S (Unit {0})) → Call S D M C
  call_block_details_with_filters :
      (BlockDetails → Action S (Unit {0})) → List Filter → Call S D M C
  call_instruction :
      {T : Type 0}
      → (Instruction → Option (DecodedInstruction T))
      → (InstructionMetadata × DecodedInstruction T × NestedInstructions × Instruction
          → Action S (Unit {0}))
      → Call S D M C
  call_instruction_with_filters :
      {T : Type 0}
      → (Instruction → Option (DecodedInstruction T))
      → (InstructionMetadata × DecodedInstruction T × NestedInstructions × Instruction
          → Action S (Unit {0}))
      → List Filter
      → Call S D M C
  call_transaction :
      {T K U : Type 0}
      → Collection T K
      → (Option (Output T) → Option U)
      → (TransactionMetadata × List (InstructionMetadata × DecodedInstruction T) × Option U
          → Action S (Unit {0}))
      → Option (SchemaNodes K)
      → Call S D M C
  call_transaction_with_filters :
      {T K U : Type 0}
      → Collection T K
      → (Option (Output T) → Option U)
      → (TransactionMetadata × List (InstructionMetadata × DecodedInstruction T) × Option U
          → Action S (Unit {0}))
      → Option (SchemaNodes K)
      → List Filter
      → Call S D M C
  call_add_metrics : M → Call S D M C
  call_set_metrics_flush_interval : ℕ → Call S D M C
  call_set_datasource_cancellation_token : C → Call S D M C
  call_set_channel_buffer_size : ℕ → Call S D M C

module _ {S D M C : Type 0} where
  unfoldable pub apply : Call S D M C → PipelineBuilder S D M C → PipelineBuilder S D M C
  unfolding datasource_with_id datasource set_shutdown_strategy account account_with_filters
      account_deletions account_deletions_with_filters block_details block_details_with_filters
      instruction instruction_with_filters transaction transaction_with_filters add_metrics
      set_metrics_flush_interval set_datasource_cancellation_token set_channel_buffer_size
  apply (call_datasource_with_id d id) b = datasource_with_id d id b
  apply (call_datasource unique d) b = datasource unique d b
  apply (call_set_shutdown_strategy strategy) b = set_shutdown_strategy strategy b
  apply (call_account decoder processor) b = account decoder processor b
  apply (call_account_with_filters decoder processor filters) b =
      account_with_filters decoder processor filters b
  apply (call_account_deletions processor) b = account_deletions processor b
  apply (call_account_deletions_with_filters processor filters) b =
      account_deletions_with_filters processor filters b
  apply (call_block_details processor) b = block_details processor b
  apply (call_block_details_with_filters processor filters) b =
      block_details_with_filters processor filters b
  apply (call_instruction decoder processor) b = instruction decoder processor b
  apply (call_instruction_with_filters decoder processor filters) b =
      instruction_with_filters decoder processor filters b
  apply (call_transaction collection deserialize processor schema) b =
      transaction collection deserialize processor schema b
  apply (call_transaction_with_filters collection deserialize processor schema filters) b =
      transaction_with_filters collection deserialize processor schema filters b
  apply (call_add_metrics m) b = add_metrics m b
  apply (call_set_metrics_flush_interval interval) b = set_metrics_flush_interval interval b
  apply (call_set_datasource_cancellation_token token) b = set_datasource_cancellation_token token b
  apply (call_set_channel_buffer_size size) b = set_channel_buffer_size size b

  unfoldable pub applied : List (Call S D M C) → PipelineBuilder S D M C → PipelineBuilder S D M C
  applied [] b = b
  applied (c ∷ cs) b = applied cs (apply c b)

  -- What size of the channel a call sets.
  unfoldable pub channel_buffer_size_of : Call S D M C → Option (ℕ)
  channel_buffer_size_of (call_set_channel_buffer_size size) = some size
  channel_buffer_size_of _ = none
