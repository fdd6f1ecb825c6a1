-- ===== src/Processors/Encoded.antt =====
-- The decoder and the processor together, as the indexer's instruction pipe has them.
use omnipair_indexer.Base.{List, [], ◌++◌, ℕ, ◌≡◌, refl, sym, ap, ok}
use mathlib.Core.List.{append_assoc, append-nil}
use omnipair_indexer.Instruction.{InstructionMetadata, NestedInstruction}
use omnipair_indexer.Pipes.{InstructionPipe, process_one}
use omnipair_indexer.Borsh.{Borsh}
use omnipair_indexer.Borsh.Layout.{Encodes}
use omnipair_indexer.Database.{Database, get_db_pool}
use omnipair_indexer.Database.Upserts.{
  upsert_swap_event, upsert_adjust_collateral_event, upsert_adjust_debt_event, upsert_burn_event,
  upsert_mint_event, upsert_pair_created_event, upsert_user_position_liquidated_event,
  upsert_user_position_updated_event, upsert_user_liquidity_position_updated_event, fee_paid0,
  fee_paid1,
}
use omnipair_indexer.Decoder.Instructions.{
  OmnipairInstruction, swap_event, adjust_collateral_event, adjust_debt_event, burn_event,
  mint_event, pair_created_event, user_position_liquidated_event, user_position_updated_event,
  user_liquidity_position_updated_event,
}
use omnipair_indexer.Decoder.Alternatives.{decode_instruction}
use omnipair_indexer.Decoder.Alternatives.Encoded.{
  alternative_of, fields, decode_instruction-encoded,
}
use omnipair_indexer.Processors.{Outside, process_event}
use omnipair_indexer.Processors.Rows.{World, Write, recording, noting, writes_of}

module _ {S : Type 0} (borsh : Borsh) (db : Database S) (outside : Outside S) where
  -- `.instruction(OmnipairDecoder, instruction_processor)`
  unfoldable pub omnipair_pipe : InstructionPipe S OmnipairInstruction
  omnipair_pipe = record {
    decode_instruction = decode_instruction borsh;
    process = λ (m, d, inner, ix). process_event db outside d.content m;
    filters = [];
  }

module _ (w : World) where
  -- The processor on the pool that keeps what it is told to write.
  process_event-writes :
      (v : OmnipairInstruction) (m : InstructionMetadata) (s : List Write)
      → process_event (recording w) (noting w) v m s ≡ (ok tt, s ++ writes_of w v m)
  unfolding process_event writes_of upsert_swap_event upsert_adjust_collateral_event
      upsert_adjust_debt_event upsert_burn_event upsert_mint_event upsert_pair_created_event
      upsert_user_position_liquidated_event upsert_user_position_updated_event
      upsert_user_liquidity_position_updated_event get_db_pool fee_paid0 fee_paid1
  process_event-writes (swap_event e) m s = refl
  process_event-writes (mint_event e) m s = refl
  process_event-writes (burn_event e) m s = refl
  process_event-writes (adjust_collateral_event e) m s = refl
  process_event-writes (adjust_debt_event e) m s = refl
  process_event-writes (user_position_updated_event e) m s =
      ap (λ t. (ok tt, t)) (append_assoc s _ _)
  process_event-writes (user_position_liquidated_event e) m s = refl
  process_event-writes (pair_created_event e) m s = ap (λ t. (ok tt, t)) (append_assoc s _ _)
  process_event-writes (user_liquidity_position_updated_event e) m s =
      ap (λ t. (ok tt, t)) (append_assoc s _ _)
  process_event-writes _ m s = ap (λ t. (ok tt, t)) (sym (append-nil s))

  -- With a pool that is initialized, whose queries succeed and whose clock stands still, an
  -- instruction whose data is the discriminator of an instruction or event of the program and the
  -- bytes of its fields is processed without an error and adds to what was written exactly the rows
  -- of that event: a row for a swap, mint, burn, liquidation and adjustment, two for the update of a
  -- position or of a liquidity position, one and a notification for a new pair, and nothing for the
  -- rest, each row in its table with the event's fields in the columns of their names.
  pub process_one-stores :
      (borsh : Borsh) (v : OmnipairInstruction) (bytes rest : List ℕ) (n : NestedInstruction)
      (s : List Write)
      → Encodes (fields borsh v) bytes
      → n.instruction.bytes ≡ (alternative_of borsh v).discriminator ++ (bytes ++ rest)
      → process_one (omnipair_pipe borsh (recording w) (noting w)) n s
        ≡ (ok tt, s ++ writes_of w v n.metadata)
  unfolding omnipair_pipe process_one
  process_one-stores borsh v bytes rest n s h e =
      rw (process_one, decode_instruction-encoded borsh v bytes rest n.instruction h e)
        (process_event-writes v n.metadata s)
