-- ===== src/Instruction.antt =====
-- The data of indexer/crates/core/src/instruction.rs and of transaction.rs: instructions with their
-- metadata, and the hierarchy in which they were called.
use omnipair_indexer.Base.{ℕ, suc, Option, List, [], ◌∷◌, ◌++◌}
use omnipair_indexer.Solana.{
  Pubkey, Signature, Hash, Instruction, TransactionStatusMeta, VersionedMessage,
}

pub record TransactionMetadata : Type 0 where
  pub slot : ℕ
  pub signature : Signature
  pub fee_payer : Pubkey
  pub status_meta : TransactionStatusMeta
  pub message : VersionedMessage
  pub block_time : Option ℕ
  pub block_hash : Option Hash

pub record InstructionMetadata : Type 0 where
  pub transaction_metadata : TransactionMetadata
  pub stack_height : ℕ
  pub index : ℕ
  pub absolute_path : List ℕ

-- One element of `InstructionsWithMetadata`.
abbrev pub Entry : Type 0
Entry = InstructionMetadata × Instruction

abbrev pub InstructionsWithMetadata : Type 0
InstructionsWithMetadata = List Entry

-- `NestedInstructions(Vec<NestedInstruction>)`. The first element of the vector, its inner
-- instructions and the rest of the vector are the fields of `cons`.
pub data NestedInstructions : Type 0 where
  nil : NestedInstructions
  cons : Entry → NestedInstructions → NestedInstructions → NestedInstructions

pub record NestedInstruction : Type 0 where
  pub metadata : InstructionMetadata
  pub instruction : Instruction
  pub inner_instructions : NestedInstructions

abbrev pub height_of : Entry → ℕ
height_of (m, _) = m.stack_height

-- `NestedInstructions::len`.
abbrev pub len : NestedInstructions → ℕ
len nil = 0
len (cons e inner rest) = suc (len rest)

-- `NestedInstructions::push`, of an instruction with no inner ones.
unfoldable pub push : Entry → NestedInstructions → NestedInstructions
push e nil = cons e nil nil
push e (cons x inner rest) = cons x inner (push e rest)

-- The instructions in the order of their calls: each before those that it calls.
abbrev pub preorder : NestedInstructions → List Entry
preorder nil = []
preorder (cons e inner rest) = e ∷ (preorder inner ++ preorder rest)
