-- ===== src/Examples.antt =====
-- Inputs that the examples share: a transaction with two instructions, the second of which calls
-- three others.
mod Hierarchies
mod Pipelines
mod Streams
mod Crawls
mod Restarts
mod Starts
mod Schemas
mod Decoding
mod Builders
mod Fetches
mod Stored
use omnipair_indexer.Base.{ℕ, none, some, List, [], ◌∷◌, false, true, arith}
use omnipair_indexer.Solana.{
  CompiledInstruction, InnerInstruction, VersionedMessage, legacy, TransactionStatusMeta,
}
use omnipair_indexer.Instruction.{TransactionMetadata, Entry}
use omnipair_indexer.Transformers.Hierarchy.{IsCallTree}

abbrev pub compiled : ℕ → CompiledInstruction
compiled n = record { program_id_index = 1; accounts = 0 ∷ 7 ∷ []; bytes = n ∷ [] }

abbrev pub called : (height n : ℕ) → InnerInstruction
called h n = record { instruction = compiled n; stack_height = some h }

abbrev pub message : VersionedMessage
message = legacy (record {
  account_keys = 11 ∷ 12 ∷ [];
  instructions = compiled 1 ∷ compiled 2 ∷ [];
  is_maybe_writable = λ _. true;
  is_signer = λ _. false;
})

abbrev pub status_meta : TransactionStatusMeta
status_meta = record {
  inner_instructions =
      some (record { index = 1; instructions = called 2 3 ∷ called 3 4 ∷ called 2 5 ∷ [] } ∷ []);
  loaded_addresses = record { writable = []; readonly = [] };
}

abbrev pub metadata : TransactionMetadata
metadata = record {
  slot = 5;
  signature = 77;
  fee_payer = 11;
  status_meta = status_meta;
  message = message;
  block_time = none;
  block_hash = none;
}

pub message-IsCallTree : IsCallTree message status_meta
message-IsCallTree = record {
  room = omega arith;
  groups = (
    (
      (
        omega arith,
        omega arith,
        omega arith,
        (omega arith, omega arith, omega arith, (omega arith, omega arith, omega arith, tt)),
      ),
      omega arith,
    ),
    tt,
  );
  one = (tt, tt);
}

-- An instruction of the given height that names its place.
abbrev pub at : (height : ℕ) → List ℕ → Entry
at h path = (
  record { transaction_metadata = metadata; stack_height = h; index = 0; absolute_path = path },
  record { program_id = 12; accounts = []; bytes = path },
)
