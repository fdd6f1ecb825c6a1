-- ===== src/Filter.antt =====
-- indexer/crates/core/src/filter.rs: the interface `Filter` and the filter by datasource.
use text.Mathlib.Text.{◌==◌ as str_eq}
use omnipair_indexer.Base.{Bool, List, [], ◌∷◌, any}
use omnipair_indexer.Solana.{Account}
use omnipair_indexer.Instruction.{TransactionMetadata, NestedInstruction, NestedInstructions}
use omnipair_indexer.Datasource.{DatasourceId, AccountMetadata, AccountDeletion, BlockDetails}

pub record Filter : Type 0 where
  pub filter_account : DatasourceId → AccountMetadata → Account → Bool
  pub filter_instruction : DatasourceId → NestedInstruction → Bool
  pub filter_transaction : DatasourceId → TransactionMetadata → NestedInstructions → Bool
  pub filter_account_deletion : DatasourceId → AccountDeletion → Bool
  pub filter_block_details : DatasourceId → BlockDetails → Bool

-- `allowed_datasources.contains(datasource_id)`
abbrev pub contains : List DatasourceId → DatasourceId → Bool
contains allowed id = any (λ a. str_eq a id) allowed

-- `DatasourceFilter::new_many` with its implementation of `Filter`.
abbrev pub new_many : List DatasourceId → Filter
new_many allowed = record {
  filter_account = λ id _ _. contains allowed id;
  filter_instruction = λ id _. contains allowed id;
  filter_transaction = λ id _ _. contains allowed id;
  filter_account_deletion = λ id _. contains allowed id;
  filter_block_details = λ id _. contains allowed id;
}

-- `DatasourceFilter::new`
abbrev pub new : DatasourceId → Filter
new id = new_many (id ∷ [])
