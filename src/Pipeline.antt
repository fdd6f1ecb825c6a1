-- ===== src/Pipeline.antt =====
-- `Pipeline::process` of indexer/crates/core/src/pipeline.rs: one update goes through the pipes for
-- its kind. The state `S` is what the processors and the metrics own.
pub mod Process
pub mod Filtered
pub mod Transactions
pub mod Run
pub mod Builder
use omnipair_indexer.Base.{
  ℕ, Bool, List, [], ◌∷◌, String, all, CarbonResult, missing_fee_payer, ok, err,
}
use omnipair_indexer.Solana.{Account, static_account_keys}
use omnipair_indexer.Instruction.{
  TransactionMetadata, NestedInstruction, NestedInstructions, nil, cons,
}
use omnipair_indexer.Datasource.{
  DatasourceId, Update, account, transaction, account_deletion, block_details, TransactionUpdate,
  AccountMetadata, AccountDeletion, BlockDetails,
}
use omnipair_indexer.Filter.{Filter}
use omnipair_indexer.Action.{Action, lift, ◌>>=◌, ◌>>◌, for_each, when}
use omnipair_indexer.Nesting.{build}
use omnipair_indexer.Transformers.{extract_instructions_with_metadata}

-- A pipe behind its trait object: `filters()` and `run`.
pub record Pipe (S I : Type 0) : Type 0 where
  pub filters : List Filter
  pub run : I → Action S (Unit {0})

-- The fields of `Pipeline` that `process` reads; `increment_counter` is that of its metrics.
pub record Pipeline (S : Type 0) : Type 0 where
  pub account_pipes : List (Pipe S (AccountMetadata × Account))
  pub account_deletion_pipes : List (Pipe S AccountDeletion)
  pub block_details_pipes : List (Pipe S BlockDetails)
  pub instruction_pipes : List (Pipe S NestedInstruction)
  pub transaction_pipes : List (Pipe S (TransactionMetadata × NestedInstructions))
  pub increment_counter : String → ℕ → Action S (Unit {0})

-- `impl TryFrom<TransactionUpdate> for TransactionMetadata`
unfoldable pub try_from : TransactionUpdate → CarbonResult TransactionMetadata
try_from u = elim (static_account_keys u.message) [
  | [] ↦ err missing_fee_payer
  | fee_payer ∷ _ ↦ ok (record {
    slot = u.slot;
    signature = u.signature;
    fee_payer = fee_payer;
    status_meta = u.status_meta;
    message = u.message;
    block_time = u.block_time;
    block_hash = u.block_hash;
  })
]

-- `nested_instructions.iter()`
abbrev pub elements : NestedInstructions → List NestedInstruction
elements nil = []
elements (cons (m, ix) inner rest) =
    record { metadata = m; instruction = ix; inner_instructions = inner } ∷ elements rest

module _ {S : Type 0} where
  -- `if pipe.filters().iter().all(test) { pipe.run(input).await?; }`
  abbrev pub run_filtered : {I : Type 0} → (Filter → Bool) → I → Pipe S I → Action S (Unit {0})
  run_filtered test input pipe = when (all test pipe.filters) (pipe.run input)

  module _ (p : Pipeline S) (id : DatasourceId) where
    unfoldable pub process : Update → Action S (Unit {0})
    process (account u) = do
      let m : AccountMetadata = record {
        slot = u.slot;
        pubkey = u.pubkey;
        transaction_signature = u.transaction_signature;
      }
      for_each (run_filtered (λ f. f.filter_account id m u.account) (m, u.account)) p.account_pipes
      p.increment_counter "account_updates_processed" 1
    process (transaction u) = do
      tm ← lift (try_from u)
      es ← lift (extract_instructions_with_metadata tm u.message u.status_meta)
      nested ← lift (build es)
      for_each
          (λ pipe.
            for_each (λ n. run_filtered (λ f. f.filter_instruction id n) n pipe) (elements nested))
          p.instruction_pipes
      for_each (run_filtered (λ f. f.filter_transaction id tm nested) (tm, nested))
          p.transaction_pipes
      p.increment_counter "transaction_updates_processed" 1
    process (account_deletion d) = do
      for_each (run_filtered (λ f. f.filter_account_deletion id d) d) p.account_deletion_pipes
      p.increment_counter "account_deletions_processed" 1
    process (block_details d) = do
      for_each (run_filtered (λ f. f.filter_block_details id d) d) p.block_details_pipes
      p.increment_counter "block_details_processed" 1
