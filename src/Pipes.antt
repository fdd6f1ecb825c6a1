-- ===== src/Pipes.antt =====
-- The instruction pipes of indexer/crates/core/src/instruction.rs: what one does with an instruction
-- that has passed its filters.
pub mod Order
pub mod Accounts
use omnipair_indexer.Base.{Option, none, some, List}
use omnipair_indexer.Solana.{Pubkey, AccountMeta, Instruction}
use omnipair_indexer.Instruction.{
  InstructionMetadata, NestedInstruction, NestedInstructions, nil, cons,
}
use omnipair_indexer.Filter.{Filter}
use omnipair_indexer.Action.{Action, pure, ◌>>=◌, ◌>>◌}

pub record DecodedInstruction (T : Type 0) : Type 0 where
  pub program_id : Pubkey
  pub content : T
  pub accounts : List AccountMeta

-- `InstructionPipe<T>`; the decoder and the processor are trait objects, the state `S` is what
-- the processors and the metrics own.
pub record InstructionPipe (S T : Type 0) : Type 0 where
  pub decode_instruction : Instruction → Option (DecodedInstruction T)
  pub process :
      InstructionMetadata × DecodedInstruction T × NestedInstructions × Instruction
      → Action S (Unit {0})
  pub filters : List Filter

module _ {S T : Type 0} (pipe : InstructionPipe S T) where
  -- The first half of `run`: one instruction, without those inside it.
  unfoldable pub process_one : NestedInstruction → Action S (Unit {0})
  process_one n = elim (pipe.decode_instruction n.instruction) [
    | none ↦ pure tt
    | some decoded ↦ pipe.process (n.metadata, decoded, n.inner_instructions, n.instruction)
  ]

  -- `for nested_inner_instruction in … { self.run(nested_inner_instruction).await?; }`
  unfoldable pub run_inner : NestedInstructions → Action S (Unit {0})
  run_inner nil = pure tt
  run_inner (cons (m, ix) inner rest) =
      process_one (record { metadata = m; instruction = ix; inner_instructions = inner })
      >> run_inner inner
      >> run_inner rest

  -- `InstructionPipe::run`
  unfoldable pub run : NestedInstruction → Action S (Unit {0})
  run n = process_one n >> run_inner n.inner_instructions
