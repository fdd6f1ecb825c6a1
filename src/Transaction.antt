-- ===== src/Transaction.antt =====
-- Transaction pipes, indexer/crates/core/src/transaction.rs, and `unnest_parsed_instructions` of
-- transformers.rs.
pub mod Decoded
use omnipair_indexer.Base.{ℕ, suc, ◌+◌, ◌%◌, ◌^◌, Option, none, some, List, [], ◌∷◌, ◌++◌}
use omnipair_indexer.Instruction.{
  TransactionMetadata, InstructionMetadata, NestedInstructions, nil, cons,
}
use omnipair_indexer.Action.{Action}
use omnipair_indexer.Filter.{Filter}
use omnipair_indexer.Pipes.{DecodedInstruction}
use omnipair_indexer.Schema.{Collection, SchemaNodes, ParsedInstructions, Output, match_nodes}

-- `extend`, on vectors of parsed instructions.
unfoldable pub extend :
    {T : Type 0} → ParsedInstructions T → ParsedInstructions T → ParsedInstructions T
extend ParsedInstructions.nil ys = ys
extend (ParsedInstructions.cons program decoded inner rest) ys =
    ParsedInstructions.cons program decoded inner (extend rest ys)

module _ {T K : Type 0} (c : Collection T K) where
  -- An instruction that is not parsed is replaced by what its inner instructions give, one after the
  -- other.
  unfoldable pub parse_instructions : NestedInstructions → ParsedInstructions T
  unfolding extend
  parse_instructions nil = ParsedInstructions.nil
  parse_instructions (cons (m, ix) inner rest) = elim (c.parse_instruction ix) [
    | some decoded ↦
        ParsedInstructions.cons ix.program_id decoded (parse_instructions inner)
          (parse_instructions rest)
    | none ↦ extend (parse_instructions inner) (parse_instructions rest)
  ]

module _ {T : Type 0} (tm : TransactionMetadata) where
  -- `for (ix_idx, parsed_instruction) in instructions.into_iter().enumerate()`, from `ix_idx` on.
  unfoldable pub unnest_from :
      (ix_idx : ℕ)
      → ParsedInstructions T
      → (stack_height : ℕ) → List (InstructionMetadata × DecodedInstruction T)
  unnest_from i ParsedInstructions.nil h = []
  unnest_from i (ParsedInstructions.cons program decoded inner rest) h =
      (
        record {
          transaction_metadata = tm;
          stack_height = h;
          index = (i % 2 ^ 32 + 1) % 2 ^ 32;
          absolute_path = [];
        },
        decoded,
      )
      ∷ (unnest_from 0 inner ((h + 1) % 2 ^ 32) ++ unnest_from (suc i) rest h)

  unfoldable pub unnest_parsed_instructions :
      ParsedInstructions T → (stack_height : ℕ) → List (InstructionMetadata × DecodedInstruction T)
  unfolding unnest_from
  unnest_parsed_instructions is h = unnest_from 0 is h

-- `TransactionPipe<T, U>`. `deserialize` is what serde makes of the map that was matched, if there is
-- one: `from_value(to_value(m).ok()?).ok()`.
pub record TransactionPipe (S T K U : Type 0) : Type 0 where
  pub collection : Collection T K
  pub schema : Option (SchemaNodes K)
  pub deserialize : Option (Output T) → Option U
  pub process :
      TransactionMetadata × List (InstructionMetadata × DecodedInstruction T) × Option U
      → Action S (Unit {0})
  pub filters : List Filter

module _ {S T K U : Type 0} (pipe : TransactionPipe S T K U) where
  unfoldable pub match_schema : SchemaNodes K → ParsedInstructions T → Option U
  match_schema nodes is = pipe.deserialize (match_nodes pipe.collection nodes is)

  unfoldable pub matches_schema : ParsedInstructions T → Option U
  unfolding match_schema
  matches_schema is = elim pipe.schema [ none ↦ none | some nodes ↦ match_schema nodes is ]

  -- `TransactionPipe::run`
  unfoldable pub run : TransactionMetadata × NestedInstructions → Action S (Unit {0})
  unfolding parse_instructions unnest_parsed_instructions matches_schema
  run (tm, instructions) =
      let parsed = parse_instructions pipe.collection instructions in
      pipe.process (tm, unnest_parsed_instructions tm parsed 0, matches_schema parsed)
