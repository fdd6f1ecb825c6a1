-- ===== src/Pipeline/Transactions.antt =====
-- What a transaction pipe of a pipeline is given.
use omnipair_indexer.Base.{[]}
use omnipair_indexer.Instruction.{TransactionMetadata, NestedInstructions}
use omnipair_indexer.Transaction as Transaction
use omnipair_indexer.Transaction.{TransactionPipe}
use omnipair_indexer.Pipeline.{Pipe, Pipeline}

module _ {S T K U : Type 0} (pipe : TransactionPipe S T K U) where
  -- The pipe behind its trait object, with no filters.
  abbrev pub unfiltered : Pipe S (TransactionMetadata × NestedInstructions)
  unfiltered = record { filters = []; run = Transaction.run pipe }
