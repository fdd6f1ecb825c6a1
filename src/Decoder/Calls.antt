-- ===== src/Decoder/Calls.antt =====
-- The program's instructions: structs of indexer/decoders/omnipair_decoder/instructions, and their
-- derived readers.
pub mod Layout
use omnipair_indexer.Borsh.{Reader, Borsh, pure, ◌>>=◌}
use omnipair_indexer.Decoder.Types.{
  AdjustCollateralArgs, AddLiquidityArgs, AdjustDebtArgs, FlashloanArgs, InitFutarchyAuthorityArgs,
  InitializeAndBootstrapArgs, RemoveLiquidityArgs, SetGlobalReduceOnlyArgs, SetPairReduceOnlyArgs,
  SwapArgs, UpdateFutarchyAuthorityArgs, UpdateProtocolRevenueArgs, UpdateRevenueRecipientsArgs,
  PairViewKind, EmitValueArgs, UserPositionViewKind, read_adjust_collateral_args,
  read_add_liquidity_args, read_adjust_debt_args, read_flashloan_args,
  read_init_futarchy_authority_args, read_initialize_and_bootstrap_args, read_remove_liquidity_args,
  read_set_global_reduce_only_args, read_set_pair_reduce_only_args, read_swap_args,
  read_update_futarchy_authority_args, read_update_protocol_revenue_args,
  read_update_revenue_recipients_args, read_pair_view_kind, read_emit_value_args,
  read_user_position_view_kind,
}

pub record AddCollateral : Type 0 where
  pub args : AdjustCollateralArgs

pub record AddLiquidity : Type 0 where
  pub args : AddLiquidityArgs

pub record Borrow : Type 0 where
  pub args : AdjustDebtArgs

pub record ClaimProtocolFees : Type 0 where

pub record Flashloan : Type 0 where
  pub args : FlashloanArgs

pub record InitFutarchyAuthority : Type 0 where
  pub args : InitFutarchyAuthorityArgs

pub record Initialize : Type 0 where
  pub args : InitializeAndBootstrapArgs

pub record Liquidate : Type 0 where

pub record RemoveCollateral : Type 0 where
  pub args : AdjustCollateralArgs

pub record RemoveLiquidity : Type 0 where
  pub args : RemoveLiquidityArgs

pub record Repay : Type 0 where
  pub args : AdjustDebtArgs

pub record SetGlobalReduceOnly : Type 0 where
  pub args : SetGlobalReduceOnlyArgs

pub record SetPairReduceOnly : Type 0 where
  pub args : SetPairReduceOnlyArgs

pub record Swap : Type 0 where
  pub args : SwapArgs

pub record UpdateFutarchyAuthority : Type 0 where
  pub args : UpdateFutarchyAuthorityArgs

pub record UpdateProtocolRevenue : Type 0 where
  pub args : UpdateProtocolRevenueArgs

pub record UpdateRevenueRecipients : Type 0 where
  pub args : UpdateRevenueRecipientsArgs

pub record ViewPairData : Type 0 where
  pub getter : PairViewKind
  pub args : EmitValueArgs

pub record ViewUserPositionData : Type 0 where
  pub getter : UserPositionViewKind

module _ (borsh : Borsh) where
  unfoldable pub read_add_collateral : Reader AddCollateral
  read_add_collateral = do args ← read_adjust_collateral_args borsh; pure (record { args = args })

  unfoldable pub read_add_liquidity : Reader AddLiquidity
  read_add_liquidity = do args ← read_add_liquidity_args borsh; pure (record { args = args })

  unfoldable pub read_borrow : Reader Borrow
  read_borrow = do args ← read_adjust_debt_args borsh; pure (record { args = args })

  unfoldable pub read_claim_protocol_fees : Reader ClaimProtocolFees
  read_claim_protocol_fees = pure (record {})

  unfoldable pub read_flashloan : Reader Flashloan
  read_flashloan = do args ← read_flashloan_args borsh; pure (record { args = args })

  unfoldable pub read_init_futarchy_authority : Reader InitFutarchyAuthority
  read_init_futarchy_authority = do
    args ← read_init_futarchy_authority_args borsh
    pure (record { args = args })

  unfoldable pub read_initialize : Reader Initialize
  read_initialize = do
    args ← read_initialize_and_bootstrap_args borsh
    pure (record { args = args })

  unfoldable pub read_liquidate : Reader Liquidate
  read_liquidate = pure (record {})

  unfoldable pub read_remove_collateral : Reader RemoveCollateral
  read_remove_collateral = do
    args ← read_adjust_collateral_args borsh
    pure (record { args = args })

  unfoldable pub read_remove_liquidity : Reader RemoveLiquidity
  read_remove_liquidity = do args ← read_remove_liquidity_args borsh; pure (record { args = args })

  unfoldable pub read_repay : Reader Repay
  read_repay = do args ← read_adjust_debt_args borsh; pure (record { args = args })

  unfoldable pub read_set_global_reduce_only : Reader SetGlobalReduceOnly
  read_set_global_reduce_only = do
    args ← read_set_global_reduce_only_args borsh
    pure (record { args = args })

  unfoldable pub read_set_pair_reduce_only : Reader SetPairReduceOnly
  read_set_pair_reduce_only = do
    args ← read_set_pair_reduce_only_args borsh
    pure (record { args = args })

  unfoldable pub read_swap : Reader Swap
  read_swap = do args ← read_swap_args borsh; pure (record { args = args })

  unfoldable pub read_update_futarchy_authority : Reader UpdateFutarchyAuthority
  read_update_futarchy_authority = do
    args ← read_update_futarchy_authority_args borsh
    pure (record { args = args })

  unfoldable pub read_update_protocol_revenue : Reader UpdateProtocolRevenue
  read_update_protocol_revenue = do
    args ← read_update_protocol_revenue_args borsh
    pure (record { args = args })

  unfoldable pub read_update_revenue_recipients : Reader UpdateRevenueRecipients
  read_update_revenue_recipients = do
    args ← read_update_revenue_recipients_args borsh
    pure (record { args = args })

  unfoldable pub read_view_pair_data : Reader ViewPairData
  read_view_pair_data = do
    getter ← read_pair_view_kind borsh
    args ← read_emit_value_args borsh
    pure (record { getter = getter; args = args })

  unfoldable pub read_view_user_position_data : Reader ViewUserPositionData
  read_view_user_position_data = do
    getter ← read_user_position_view_kind borsh
    pure (record { getter = getter })
