-- ===== src/Decoder/Events.antt =====
-- The events that the program emits, as the decoder hands them over: the structs of
-- indexer/decoders/omnipair_decoder/instructions. An unsigned integer is a natural number.
pub mod Read
pub mod Layout
use omnipair_indexer.Base.{ℕ, Bool, Option, List}
use omnipair_indexer.Solana.{Pubkey}
use omnipair_indexer.Borsh.{ℤ}

pub record EventMetadata : Type 0 where
  pub signer : Pubkey
  pub pair : Pubkey
  pub slot : ℕ

pub record AdjustCollateralEvent : Type 0 where
  pub amount0 : ℤ
  pub amount1 : ℤ
  pub metadata : EventMetadata

pub record AdjustDebtEvent : Type 0 where
  pub amount0 : ℤ
  pub amount1 : ℤ
  pub metadata : EventMetadata

pub record AdjustLiquidityEvent : Type 0 where
  pub amount0 : ℕ
  pub amount1 : ℕ
  pub liquidity : ℕ
  pub metadata : EventMetadata

pub record BurnEvent : Type 0 where
  pub amount0 : ℕ
  pub amount1 : ℕ
  pub liquidity : ℕ
  pub metadata : EventMetadata

pub record ClaimProtocolFeesEvent : Type 0 where
  pub token0 : Pubkey
  pub token1 : Pubkey
  pub futarchy_treasury_amount0 : ℕ
  pub futarchy_treasury_amount1 : ℕ
  pub buybacks_vault_amount0 : ℕ
  pub buybacks_vault_amount1 : ℕ
  pub team_treasury_amount0 : ℕ
  pub team_treasury_amount1 : ℕ
  pub metadata : EventMetadata

pub record FlashloanEvent : Type 0 where
  pub amount0 : ℕ
  pub amount1 : ℕ
  pub fee0 : ℕ
  pub fee1 : ℕ
  pub receiver : Pubkey
  pub metadata : EventMetadata

pub record MintEvent : Type 0 where
  pub amount0 : ℕ
  pub amount1 : ℕ
  pub liquidity : ℕ
  pub metadata : EventMetadata

pub record PairCreatedEvent : Type 0 where
  pub token0 : Pubkey
  pub token1 : Pubkey
  pub lp_mint : Pubkey
  pub token0_decimals : ℕ
  pub token1_decimals : ℕ
  pub rate_model : Pubkey
  pub swap_fee_bps : ℕ
  pub half_life : ℕ
  pub fixed_cf_bps : Option ℕ
  pub target_util_start_bps : ℕ
  pub target_util_end_bps : ℕ
  pub rate_half_life_ms : ℕ
  pub min_rate_bps : ℕ
  pub max_rate_bps : ℕ
  pub params_hash : List ℕ
  pub version : ℕ
  pub metadata : EventMetadata

pub record SwapEvent : Type 0 where
  pub reserve0 : ℕ
  pub reserve1 : ℕ
  pub is_token0_in : Bool
  pub amount_in : ℕ
  pub amount_out : ℕ
  pub amount_in_after_fee : ℕ
  pub metadata : EventMetadata

pub record UpdatePairEvent : Type 0 where
  pub price0_ema : ℕ
  pub price1_ema : ℕ
  pub rate0 : ℕ
  pub rate1 : ℕ
  pub accrued_interest0 : ℕ
  pub accrued_interest1 : ℕ
  pub cash_reserve0 : ℕ
  pub cash_reserve1 : ℕ
  pub reserve0_after_interest : ℕ
  pub reserve1_after_interest : ℕ
  pub metadata : EventMetadata

pub record UserLiquidityPositionUpdatedEvent : Type 0 where
  pub token0_amount : ℕ
  pub token1_amount : ℕ
  pub lp_amount : ℕ
  pub cash_reserve0 : ℕ
  pub cash_reserve1 : ℕ
  pub token0_mint : Pubkey
  pub token1_mint : Pubkey
  pub lp_mint : Pubkey
  pub metadata : EventMetadata

pub record UserPositionCreatedEvent : Type 0 where
  pub position : Pubkey
  pub metadata : EventMetadata

pub record UserPositionLiquidatedEvent : Type 0 where
  pub position : Pubkey
  pub liquidator : Pubkey
  pub collateral0_liquidated : ℕ
  pub collateral1_liquidated : ℕ
  pub debt0_liquidated : ℕ
  pub debt1_liquidated : ℕ
  pub collateral_price : ℕ
  pub shortfall : ℕ
  pub liquidation_bonus_applied : ℕ
  pub k0 : ℕ
  pub k1 : ℕ
  pub metadata : EventMetadata

pub record UserPositionUpdatedEvent : Type 0 where
  pub position : Pubkey
  pub collateral0 : ℕ
  pub collateral1 : ℕ
  pub debt0_shares : ℕ
  pub debt1_shares : ℕ
  pub collateral0_max_cf_bps : ℕ
  pub collateral1_max_cf_bps : ℕ
  pub collateral0_liquidation_cf_bps : ℕ
  pub collateral1_liquidation_cf_bps : ℕ
  pub metadata : EventMetadata
