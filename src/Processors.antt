-- ===== src/Processors.antt =====
-- `OmnipairInstructionProcessor` of indexer/src/processors.rs: which event is stored by which upsert.
pub mod Rows
pub mod Encoded
pub mod Refused
use omnipair_indexer.Base.{String, ok}
use omnipair_indexer.Solana.{Pubkey, Signature}
use omnipair_indexer.Instruction.{InstructionMetadata}
use omnipair_indexer.Action.{Action, pure, ◌>>◌}
use omnipair_indexer.Database.{Database, as_i64}
use omnipair_indexer.Decoder.Events.{
  SwapEvent, AdjustCollateralEvent, AdjustDebtEvent, AdjustLiquidityEvent, BurnEvent, MintEvent,
  PairCreatedEvent, UpdatePairEvent, UserPositionCreatedEvent, UserPositionLiquidatedEvent,
  UserPositionUpdatedEvent, UserLiquidityPositionUpdatedEvent,
}
use omnipair_indexer.Decoder.Instructions.{
  OmnipairInstruction, swap_event, adjust_collateral_event, adjust_debt_event,
  adjust_liquidity_event, burn_event, mint_event, pair_created_event, update_pair_event,
  user_position_created_event, user_position_liquidated_event, user_position_updated_event,
  user_liquidity_position_updated_event,
}
use omnipair_indexer.Database.Upserts.{
  upsert_swap_event, upsert_adjust_collateral_event, upsert_adjust_debt_event, upsert_burn_event,
  upsert_mint_event, upsert_pair_created_event, upsert_user_position_liquidated_event,
  upsert_user_position_updated_event, upsert_user_liquidity_position_updated_event,
}

-- What else the processor calls: the text of a signature, and the notification of a new pair to a
-- web hook, of which it only logs the outcome.
pub record Outside (S : Type 0) : Type 0 where
  pub signature_to_string : Signature → String
  pub post : (pair token0 token1 : String) → S → S

module _ {S : Type 0} (db : Database S) (outside : Outside S) where
  abbrev pub notify : (pair token0 token1 : Pubkey) → Action S (Unit {0})
  notify pair token0 token1 s =
      (ok tt, outside.post (db.to_string pair) (db.to_string token0) (db.to_string token1) s)

  abbrev pub process_swap_event : SwapEvent → InstructionMetadata → Action S (Unit {0})
  process_swap_event event m =
      upsert_swap_event db event (outside.signature_to_string m.transaction_metadata.signature)
        (as_i64 m.transaction_metadata.slot)

  abbrev pub process_adjust_collateral_event :
      AdjustCollateralEvent → InstructionMetadata → Action S (Unit {0})
  process_adjust_collateral_event event m =
      upsert_adjust_collateral_event db event
        (outside.signature_to_string m.transaction_metadata.signature)
        (as_i64 m.transaction_metadata.slot)

  abbrev pub process_adjust_debt_event : AdjustDebtEvent → InstructionMetadata → Action S (Unit {0})
  process_adjust_debt_event event m =
      upsert_adjust_debt_event db event
        (outside.signature_to_string m.transaction_metadata.signature)
        (as_i64 m.transaction_metadata.slot)

  abbrev pub process_adjust_liquidity_event :
      AdjustLiquidityEvent → InstructionMetadata → Action S (Unit {0})
  process_adjust_liquidity_event event m = pure tt

  abbrev pub process_burn_event : BurnEvent → InstructionMetadata → Action S (Unit {0})
  process_burn_event event m =
      upsert_burn_event db event (outside.signature_to_string m.transaction_metadata.signature)
        (as_i64 m.transaction_metadata.slot)

  abbrev pub process_mint_event : MintEvent → InstructionMetadata → Action S (Unit {0})
  process_mint_event event m =
      upsert_mint_event db event (outside.signature_to_string m.transaction_metadata.signature)
        (as_i64 m.transaction_metadata.slot)

  abbrev pub process_pair_created_event :
      PairCreatedEvent → InstructionMetadata → Action S (Unit {0})
  process_pair_created_event event m =
      upsert_pair_created_event db event
        (outside.signature_to_string m.transaction_metadata.signature)
        (as_i64 m.transaction_metadata.slot)
      >> notify event.metadata.pair event.token0 event.token1

  abbrev pub process_update_pair_event : UpdatePairEvent → InstructionMetadata → Action S (Unit {0})
  process_update_pair_event event m = pure tt

  abbrev pub process_user_position_created_event :
      UserPositionCreatedEvent → InstructionMetadata → Action S (Unit {0})
  process_user_position_created_event event m = pure tt

  abbrev pub process_user_position_liquidated_event :
      UserPositionLiquidatedEvent → InstructionMetadata → Action S (Unit {0})
  process_user_position_liquidated_event event m =
      upsert_user_position_liquidated_event db event
        (outside.signature_to_string m.transaction_metadata.signature)
        (as_i64 m.transaction_metadata.slot)

  abbrev pub process_user_position_updated_event :
      UserPositionUpdatedEvent → InstructionMetadata → Action S (Unit {0})
  process_user_position_updated_event event m =
      upsert_user_position_updated_event db event
        (outside.signature_to_string m.transaction_metadata.signature)
        (as_i64 m.transaction_metadata.slot)

  abbrev pub process_user_liquidity_position_updated_event :
      UserLiquidityPositionUpdatedEvent → InstructionMetadata → Action S (Unit {0})
  process_user_liquidity_position_updated_event event m =
      upsert_user_liquidity_position_updated_event db event
        (outside.signature_to_string m.transaction_metadata.signature)
        (as_i64 m.transaction_metadata.slot)

  -- `process`. The instructions that no branch names are only logged.
  unfoldable pub process_event : OmnipairInstruction → InstructionMetadata → Action S (Unit {0})
  process_event (swap_event event) m = process_swap_event event m
  process_event (adjust_collateral_event event) m = process_adjust_collateral_event event m
  process_event (adjust_debt_event event) m = process_adjust_debt_event event m
  process_event (adjust_liquidity_event event) m = process_adjust_liquidity_event event m
  process_event (burn_event event) m = process_burn_event event m
  process_event (mint_event event) m = process_mint_event event m
  process_event (pair_created_event event) m = process_pair_created_event event m
  process_event (update_pair_event event) m = process_update_pair_event event m
  process_event (user_position_created_event event) m = process_user_position_created_event event m
  process_event (user_position_liquidated_event event) m =
      process_user_position_liquidated_event event m
  process_event (user_position_updated_event event) m = process_user_position_updated_event event m
  process_event (user_liquidity_position_updated_event event) m =
      process_user_liquidity_position_updated_event event m
  process_event _ m = pure tt
