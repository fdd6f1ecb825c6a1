-- ===== src/Decoder/Instructions.antt =====
-- `OmnipairInstruction` of indexer/decoders/omnipair_decoder/instructions/mod.rs: an instruction or
-- event of the program, and how one is decoded.
use omnipair_indexer.Decoder.Calls.{
  AddCollateral, AddLiquidity, Borrow, ClaimProtocolFees, Flashloan, InitFutarchyAuthority,
  Initialize, Liquidate, RemoveCollateral, RemoveLiquidity, Repay, SetGlobalReduceOnly,
  SetPairReduceOnly, Swap, UpdateFutarchyAuthority, UpdateProtocolRevenue, UpdateRevenueRecipients,
  ViewPairData, ViewUserPositionData,
}
use omnipair_indexer.Decoder.Events.{
  AdjustCollateralEvent, AdjustDebtEvent, AdjustLiquidityEvent, BurnEvent, ClaimProtocolFeesEvent,
  FlashloanEvent, MintEvent, PairCreatedEvent, SwapEvent, UpdatePairEvent,
  UserLiquidityPositionUpdatedEvent, UserPositionCreatedEvent, UserPositionLiquidatedEvent,
  UserPositionUpdatedEvent,
}

pub data OmnipairInstruction : Type 0 where
  add_collateral : AddCollateral → OmnipairInstruction
  add_liquidity : AddLiquidity → OmnipairInstruction
  borrow : Borrow → OmnipairInstruction
  claim_protocol_fees : ClaimProtocolFees → OmnipairInstruction
  flashloan : Flashloan → OmnipairInstruction
  init_futarchy_authority : InitFutarchyAuthority → OmnipairInstruction
  initialize : Initialize → OmnipairInstruction
  liquidate : Liquidate → OmnipairInstruction
  remove_collateral : RemoveCollateral → OmnipairInstruction
  remove_liquidity : RemoveLiquidity → OmnipairInstruction
  repay : Repay → OmnipairInstruction
  set_global_reduce_only : SetGlobalReduceOnly → OmnipairInstruction
  set_pair_reduce_only : SetPairReduceOnly → OmnipairInstruction
  swap : Swap → OmnipairInstruction
  update_futarchy_authority : UpdateFutarchyAuthority → OmnipairInstruction
  update_protocol_revenue : UpdateProtocolRevenue → OmnipairInstruction
  update_revenue_recipients : UpdateRevenueRecipients → OmnipairInstruction
  view_pair_data : ViewPairData → OmnipairInstruction
  view_user_position_data : ViewUserPositionData → OmnipairInstruction
  adjust_collateral_event : AdjustCollateralEvent → OmnipairInstruction
  adjust_debt_event : AdjustDebtEvent → OmnipairInstruction
  adjust_liquidity_event : AdjustLiquidityEvent → OmnipairInstruction
  burn_event : BurnEvent → OmnipairInstruction
  claim_protocol_fees_event : ClaimProtocolFeesEvent → OmnipairInstruction
  flashloan_event : FlashloanEvent → OmnipairInstruction
  mint_event : MintEvent → OmnipairInstruction
  pair_created_event : PairCreatedEvent → OmnipairInstruction
  swap_event : SwapEvent → OmnipairInstruction
  update_pair_event : UpdatePairEvent → OmnipairInstruction
  user_liquidity_position_updated_event : UserLiquidityPositionUpdatedEvent → OmnipairInstruction
  user_position_created_event : UserPositionCreatedEvent → OmnipairInstruction
  user_position_liquidated_event : UserPositionLiquidatedEvent → OmnipairInstruction
  user_position_updated_event : UserPositionUpdatedEvent → OmnipairInstruction
