-- ===== src/Decoder/Kinds.antt =====
-- `OmnipairInstructionType` and `get_instruction_type`, which the derive macro `InstructionType` of
-- indexer/crates/proc-macros/src/lib.rs generates from `OmnipairInstruction`.
use omnipair_indexer.Decoder.Instructions.{OmnipairInstruction}

pub data OmnipairInstructionType : Type 0 where
  add_collateral add_liquidity borrow claim_protocol_fees flashloan init_futarchy_authority
        initialize liquidate remove_collateral remove_liquidity repay set_global_reduce_only
        set_pair_reduce_only swap update_futarchy_authority update_protocol_revenue
        update_revenue_recipients view_pair_data view_user_position_data adjust_collateral_event
        adjust_debt_event adjust_liquidity_event burn_event claim_protocol_fees_event
        flashloan_event mint_event pair_created_event swap_event update_pair_event
        user_liquidity_position_updated_event user_position_created_event
        user_position_liquidated_event user_position_updated_event :
      OmnipairInstructionType

unfoldable pub get_instruction_type : OmnipairInstruction → OmnipairInstructionType
get_instruction_type (OmnipairInstruction.add_collateral _) = OmnipairInstructionType.add_collateral
get_instruction_type (OmnipairInstruction.add_liquidity _) = OmnipairInstructionType.add_liquidity
get_instruction_type (OmnipairInstruction.borrow _) = OmnipairInstructionType.borrow
get_instruction_type (OmnipairInstruction.claim_protocol_fees _) =
    OmnipairInstructionType.claim_protocol_fees
get_instruction_type (OmnipairInstruction.flashloan _) = OmnipairInstructionType.flashloan
get_instruction_type (OmnipairInstruction.init_futarchy_authority _) =
    OmnipairInstructionType.init_futarchy_authority
get_instruction_type (OmnipairInstruction.initialize _) = OmnipairInstructionType.initialize
get_instruction_type (OmnipairInstruction.liquidate _) = OmnipairInstructionType.liquidate
get_instruction_type (OmnipairInstruction.remove_collateral _) =
    OmnipairInstructionType.remove_collateral
get_instruction_type (OmnipairInstruction.remove_liquidity _) =
    OmnipairInstructionType.remove_liquidity
get_instruction_type (OmnipairInstruction.repay _) = OmnipairInstructionType.repay
get_instruction_type (OmnipairInstruction.set_global_reduce_only _) =
    OmnipairInstructionType.set_global_reduce_only
get_instruction_type (OmnipairInstruction.set_pair_reduce_only _) =
    OmnipairInstructionType.set_pair_reduce_only
get_instruction_type (OmnipairInstruction.swap _) = OmnipairInstructionType.swap
get_instruction_type (OmnipairInstruction.update_futarchy_authority _) =
    OmnipairInstructionType.update_futarchy_authority
get_instruction_type (OmnipairInstruction.update_protocol_revenue _) =
    OmnipairInstructionType.update_protocol_revenue
get_instruction_type (OmnipairInstruction.update_revenue_recipients _) =
    OmnipairInstructionType.update_revenue_recipients
get_instruction_type (OmnipairInstruction.view_pair_data _) = OmnipairInstructionType.view_pair_data
get_instruction_type (OmnipairInstruction.view_user_position_data _) =
    OmnipairInstructionType.view_user_position_data
get_instruction_type (OmnipairInstruction.adjust_collateral_event _) =
    OmnipairInstructionType.adjust_collateral_event
get_instruction_type (OmnipairInstruction.adjust_debt_event _) =
    OmnipairInstructionType.adjust_debt_event
get_instruction_type (OmnipairInstruction.adjust_liquidity_event _) =
    OmnipairInstructionType.adjust_liquidity_event
get_instruction_type (OmnipairInstruction.burn_event _) = OmnipairInstructionType.burn_event
get_instruction_type (OmnipairInstruction.claim_protocol_fees_event _) =
    OmnipairInstructionType.claim_protocol_fees_event
get_instruction_type (OmnipairInstruction.flashloan_event _) =
    OmnipairInstructionType.flashloan_event
get_instruction_type (OmnipairInstruction.mint_event _) = OmnipairInstructionType.mint_event
get_instruction_type (OmnipairInstruction.pair_created_event _) =
    OmnipairInstructionType.pair_created_event
get_instruction_type (OmnipairInstruction.swap_event _) = OmnipairInstructionType.swap_event
get_instruction_type (OmnipairInstruction.update_pair_event _) =
    OmnipairInstructionType.update_pair_event
get_instruction_type (OmnipairInstruction.user_liquidity_position_updated_event _) =
    OmnipairInstructionType.user_liquidity_position_updated_event
get_instruction_type (OmnipairInstruction.user_position_created_event _) =
    OmnipairInstructionType.user_position_created_event
get_instruction_type (OmnipairInstruction.user_position_liquidated_event _) =
    OmnipairInstructionType.user_position_liquidated_event
get_instruction_type (OmnipairInstruction.user_position_updated_event _) =
    OmnipairInstructionType.user_position_updated_event
