-- ===== src/Decoder/Types.antt =====
-- The arguments of the program's instructions: structs of
-- indexer/decoders/omnipair_decoder/types, and their derived readers.
pub mod Layout
use omnipair_indexer.Base.{ℕ, Bool, Option, List, [], ◌∷◌, String}
use omnipair_indexer.Solana.{Pubkey}
use omnipair_indexer.Borsh.{Reader, Borsh, pure, ◌>>=◌, read_variant}

pub record AdjustCollateralArgs : Type 0 where
  pub amount : ℕ

pub record AddLiquidityArgs : Type 0 where
  pub amount0_in : ℕ
  pub amount1_in : ℕ
  pub min_liquidity_out : ℕ

pub record AdjustDebtArgs : Type 0 where
  pub amount : ℕ

pub record FlashloanArgs : Type 0 where
  pub amount0 : ℕ
  pub amount1 : ℕ
  pub bytes : List ℕ

pub record InitFutarchyAuthorityArgs : Type 0 where
  pub authority : Pubkey
  pub swap_bps : ℕ
  pub interest_bps : ℕ
  pub futarchy_treasury : Pubkey
  pub futarchy_treasury_bps : ℕ
  pub buybacks_vault : Pubkey
  pub buybacks_vault_bps : ℕ
  pub team_treasury : Pubkey
  pub team_treasury_bps : ℕ

pub record InitializeAndBootstrapArgs : Type 0 where
  pub swap_fee_bps : ℕ
  pub half_life : ℕ
  pub fixed_cf_bps : Option ℕ
  pub target_util_start_bps : Option ℕ
  pub target_util_end_bps : Option ℕ
  pub rate_half_life_ms : Option ℕ
  pub min_rate_bps : Option ℕ
  pub max_rate_bps : Option ℕ
  pub initial_rate_bps : Option ℕ
  pub params_hash : List ℕ
  pub version : ℕ
  pub amount0_in : ℕ
  pub amount1_in : ℕ
  pub min_liquidity_out : ℕ
  pub lp_name : String
  pub lp_symbol : String
  pub lp_uri : String

pub record RemoveLiquidityArgs : Type 0 where
  pub liquidity_in : ℕ
  pub min_amount0_out : ℕ
  pub min_amount1_out : ℕ

pub record SetGlobalReduceOnlyArgs : Type 0 where
  pub reduce_only : Bool

pub record SetPairReduceOnlyArgs : Type 0 where
  pub reduce_only : Bool

pub record SwapArgs : Type 0 where
  pub amount_in : ℕ
  pub min_amount_out : ℕ

pub record UpdateFutarchyAuthorityArgs : Type 0 where
  pub new_authority : Pubkey

pub record RevenueDistribution : Type 0 where
  pub futarchy_treasury_bps : ℕ
  pub buybacks_vault_bps : ℕ
  pub team_treasury_bps : ℕ

pub record UpdateProtocolRevenueArgs : Type 0 where
  pub swap_bps : Option ℕ
  pub interest_bps : Option ℕ
  pub revenue_distribution : Option RevenueDistribution

pub record UpdateRevenueRecipientsArgs : Type 0 where
  pub futarchy_treasury : Option Pubkey
  pub buybacks_vault : Option Pubkey
  pub team_treasury : Option Pubkey

pub data PairViewKind : Type 0 where
  ema_price0_nad ema_price1_nad spot_price0_nad spot_price1_nad k get_rates
        get_borrow_limit_and_cf_bps_for_collateral reserves cash_reserves swap_quote :
      PairViewKind

pub record EmitValueArgs : Type 0 where
  pub amount : Option ℕ
  pub token_mint : Option Pubkey

pub data UserPositionViewKind : Type 0 where
  user_dynamic_borrow_limit user_dynamic_collateral_factor_bps user_liquidation_cf_bps
        user_debt_utilization_bps user_liquidation_price user_debt_with_interest
        user_is_liquidatable user_collateral_value_with_impact user_liquidation_borrow_limit :
      UserPositionViewKind

module _ (borsh : Borsh) where
  unfoldable pub read_adjust_collateral_args : Reader AdjustCollateralArgs
  read_adjust_collateral_args = do amount ← borsh.u64; pure (record { amount = amount })

  unfoldable pub read_add_liquidity_args : Reader AddLiquidityArgs
  read_add_liquidity_args = do
    amount0_in ← borsh.u64
    amount1_in ← borsh.u64
    min_liquidity_out ← borsh.u64
    pure (record {
      amount0_in = amount0_in;
      amount1_in = amount1_in;
      min_liquidity_out = min_liquidity_out;
    })

  unfoldable pub read_adjust_debt_args : Reader AdjustDebtArgs
  read_adjust_debt_args = do amount ← borsh.u64; pure (record { amount = amount })

  unfoldable pub read_flashloan_args : Reader FlashloanArgs
  read_flashloan_args = do
    amount0 ← borsh.u64
    amount1 ← borsh.u64
    bytes ← borsh.byte_vec
    pure (record { amount0 = amount0; amount1 = amount1; bytes = bytes })

  unfoldable pub read_init_futarchy_authority_args : Reader InitFutarchyAuthorityArgs
  read_init_futarchy_authority_args = do
    authority ← borsh.pubkey
    swap_bps ← borsh.u16
    interest_bps ← borsh.u16
    futarchy_treasury ← borsh.pubkey
    futarchy_treasury_bps ← borsh.u16
    buybacks_vault ← borsh.pubkey
    buybacks_vault_bps ← borsh.u16
    team_treasury ← borsh.pubkey
    team_treasury_bps ← borsh.u16
    pure (record {
      authority = authority;
      swap_bps = swap_bps;
      interest_bps = interest_bps;
      futarchy_treasury = futarchy_treasury;
      futarchy_treasury_bps = futarchy_treasury_bps;
      buybacks_vault = buybacks_vault;
      buybacks_vault_bps = buybacks_vault_bps;
      team_treasury = team_treasury;
      team_treasury_bps = team_treasury_bps;
    })

  unfoldable pub read_initialize_and_bootstrap_args : Reader InitializeAndBootstrapArgs
  read_initialize_and_bootstrap_args = do
    swap_fee_bps ← borsh.u16
    half_life ← borsh.u64
    fixed_cf_bps ← borsh.option borsh.u16
    target_util_start_bps ← borsh.option borsh.u64
    target_util_end_bps ← borsh.option borsh.u64
    rate_half_life_ms ← borsh.option borsh.u64
    min_rate_bps ← borsh.option borsh.u64
    max_rate_bps ← borsh.option borsh.u64
    initial_rate_bps ← borsh.option borsh.u64
    params_hash ← borsh.byte_array 32
    version ← borsh.u8
    amount0_in ← borsh.u64
    amount1_in ← borsh.u64
    min_liquidity_out ← borsh.u64
    lp_name ← borsh.string
    lp_symbol ← borsh.string
    lp_uri ← borsh.string
    pure (record {
      swap_fee_bps = swap_fee_bps;
      half_life = half_life;
      fixed_cf_bps = fixed_cf_bps;
      target_util_start_bps = target_util_start_bps;
      target_util_end_bps = target_util_end_bps;
      rate_half_life_ms = rate_half_life_ms;
      min_rate_bps = min_rate_bps;
      max_rate_bps = max_rate_bps;
      initial_rate_bps = initial_rate_bps;
      params_hash = params_hash;
      version = version;
      amount0_in = amount0_in;
      amount1_in = amount1_in;
      min_liquidity_out = min_liquidity_out;
      lp_name = lp_name;
      lp_symbol = lp_symbol;
      lp_uri = lp_uri;
    })

  unfoldable pub read_remove_liquidity_args : Reader RemoveLiquidityArgs
  read_remove_liquidity_args = do
    liquidity_in ← borsh.u64
    min_amount0_out ← borsh.u64
    min_amount1_out ← borsh.u64
    pure (record {
      liquidity_in = liquidity_in;
      min_amount0_out = min_amount0_out;
      min_amount1_out = min_amount1_out;
    })

  unfoldable pub read_set_global_reduce_only_args : Reader SetGlobalReduceOnlyArgs
  read_set_global_reduce_only_args = do
    reduce_only ← borsh.bool
    pure (record { reduce_only = reduce_only })

  unfoldable pub read_set_pair_reduce_only_args : Reader SetPairReduceOnlyArgs
  read_set_pair_reduce_only_args = do
    reduce_only ← borsh.bool
    pure (record { reduce_only = reduce_only })

  unfoldable pub read_swap_args : Reader SwapArgs
  read_swap_args = do
    amount_in ← borsh.u64
    min_amount_out ← borsh.u64
    pure (record { amount_in = amount_in; min_amount_out = min_amount_out })

  unfoldable pub read_update_futarchy_authority_args : Reader UpdateFutarchyAuthorityArgs
  read_update_futarchy_authority_args = do
    new_authority ← borsh.pubkey
    pure (record { new_authority = new_authority })

  unfoldable pub read_revenue_distribution : Reader RevenueDistribution
  read_revenue_distribution = do
    futarchy_treasury_bps ← borsh.u16
    buybacks_vault_bps ← borsh.u16
    team_treasury_bps ← borsh.u16
    pure (record {
      futarchy_treasury_bps = futarchy_treasury_bps;
      buybacks_vault_bps = buybacks_vault_bps;
      team_treasury_bps = team_treasury_bps;
    })

  unfoldable pub read_update_protocol_revenue_args : Reader UpdateProtocolRevenueArgs
  read_update_protocol_revenue_args = do
    swap_bps ← borsh.option borsh.u16
    interest_bps ← borsh.option borsh.u16
    revenue_distribution ← borsh.option read_revenue_distribution
    pure (record {
      swap_bps = swap_bps;
      interest_bps = interest_bps;
      revenue_distribution = revenue_distribution;
    })

  unfoldable pub read_update_revenue_recipients_args : Reader UpdateRevenueRecipientsArgs
  read_update_revenue_recipients_args = do
    futarchy_treasury ← borsh.option borsh.pubkey
    buybacks_vault ← borsh.option borsh.pubkey
    team_treasury ← borsh.option borsh.pubkey
    pure (record {
      futarchy_treasury = futarchy_treasury;
      buybacks_vault = buybacks_vault;
      team_treasury = team_treasury;
    })

  unfoldable pub read_pair_view_kind : Reader PairViewKind
  read_pair_view_kind = read_variant borsh (
      PairViewKind.ema_price0_nad ∷ PairViewKind.ema_price1_nad ∷ PairViewKind.spot_price0_nad
      ∷ PairViewKind.spot_price1_nad ∷ PairViewKind.k ∷ PairViewKind.get_rates
      ∷ PairViewKind.get_borrow_limit_and_cf_bps_for_collateral ∷ PairViewKind.reserves
      ∷ PairViewKind.cash_reserves ∷ PairViewKind.swap_quote ∷ [])

  unfoldable pub read_emit_value_args : Reader EmitValueArgs
  read_emit_value_args = do
    amount ← borsh.option borsh.u64
    token_mint ← borsh.option borsh.pubkey
    pure (record { amount = amount; token_mint = token_mint })

  unfoldable pub read_user_position_view_kind : Reader UserPositionViewKind
  read_user_position_view_kind = read_variant borsh (
      UserPositionViewKind.user_dynamic_borrow_limit
      ∷ UserPositionViewKind.user_dynamic_collateral_factor_bps
      ∷ UserPositionViewKind.user_liquidation_cf_bps
      ∷ UserPositionViewKind.user_debt_utilization_bps ∷ UserPositionViewKind.user_liquidation_price
      ∷ UserPositionViewKind.user_debt_with_interest ∷ UserPositionViewKind.user_is_liquidatable
      ∷ UserPositionViewKind.user_collateral_value_with_impact
      ∷ UserPositionViewKind.user_liquidation_borrow_limit ∷ [])
