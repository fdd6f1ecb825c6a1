-- ===== src/Decoder/Events/Read.antt =====
-- The derived readers of the events.
use omnipair_indexer.Borsh.{Reader, Borsh, pure, ◌>>=◌}
use omnipair_indexer.Decoder.Events.{
  EventMetadata, AdjustCollateralEvent, AdjustDebtEvent, AdjustLiquidityEvent, BurnEvent,
  ClaimProtocolFeesEvent, FlashloanEvent, MintEvent, PairCreatedEvent, SwapEvent, UpdatePairEvent,
  UserLiquidityPositionUpdatedEvent, UserPositionCreatedEvent, UserPositionLiquidatedEvent,
  UserPositionUpdatedEvent,
}

module _ (borsh : Borsh) where
  unfoldable pub read_event_metadata : Reader EventMetadata
  read_event_metadata = do
    signer ← borsh.pubkey
    pair ← borsh.pubkey
    slot ← borsh.u64
    pure (record { signer = signer; pair = pair; slot = slot })

  unfoldable pub read_adjust_collateral_event : Reader AdjustCollateralEvent
  read_adjust_collateral_event = do
    amount0 ← borsh.i64
    amount1 ← borsh.i64
    metadata ← read_event_metadata
    pure (record { amount0 = amount0; amount1 = amount1; metadata = metadata })

  unfoldable pub read_adjust_debt_event : Reader AdjustDebtEvent
  read_adjust_debt_event = do
    amount0 ← borsh.i64
    amount1 ← borsh.i64
    metadata ← read_event_metadata
    pure (record { amount0 = amount0; amount1 = amount1; metadata = metadata })

  unfoldable pub read_adjust_liquidity_event : Reader AdjustLiquidityEvent
  read_adjust_liquidity_event = do
    amount0 ← borsh.u64
    amount1 ← borsh.u64
    liquidity ← borsh.u64
    metadata ← read_event_metadata
    pure (record {
      amount0 = amount0;
      amount1 = amount1;
      liquidity = liquidity;
      metadata = metadata;
    })

  unfoldable pub read_burn_event : Reader BurnEvent
  read_burn_event = do
    amount0 ← borsh.u64
    amount1 ← borsh.u64
    liquidity ← borsh.u64
    metadata ← read_event_metadata
    pure (record {
      amount0 = amount0;
      amount1 = amount1;
      liquidity = liquidity;
      metadata = metadata;
    })

  unfoldable pub read_claim_protocol_fees_event : Reader ClaimProtocolFeesEvent
  read_claim_protocol_fees_event = do
    token0 ← borsh.pubkey
    token1 ← borsh.pubkey
    futarchy_treasury_amount0 ← borsh.u64
    futarchy_treasury_amount1 ← borsh.u64
    buybacks_vault_amount0 ← borsh.u64
    buybacks_vault_amount1 ← borsh.u64
    team_treasury_amount0 ← borsh.u64
    team_treasury_amount1 ← borsh.u64
    metadata ← read_event_metadata
    pure (record {
      token0 = token0;
      token1 = token1;
      futarchy_treasury_amount0 = futarchy_treasury_amount0;
      futarchy_treasury_amount1 = futarchy_treasury_amount1;
      buybacks_vault_amount0 = buybacks_vault_amount0;
      buybacks_vault_amount1 = buybacks_vault_amount1;
      team_treasury_amount0 = team_treasury_amount0;
      team_treasury_amount1 = team_treasury_amount1;
      metadata = metadata;
    })

  unfoldable pub read_flashloan_event : Reader FlashloanEvent
  read_flashloan_event = do
    amount0 ← borsh.u64
    amount1 ← borsh.u64
    fee0 ← borsh.u64
    fee1 ← borsh.u64
    receiver ← borsh.pubkey
    metadata ← read_event_metadata
    pure (record {
      amount0 = amount0;
      amount1 = amount1;
      fee0 = fee0;
      fee1 = fee1;
      receiver = receiver;
      metadata = metadata;
    })

  unfoldable pub read_mint_event : Reader MintEvent
  read_mint_event = do
    amount0 ← borsh.u64
    amount1 ← borsh.u64
    liquidity ← borsh.u64
    metadata ← read_event_metadata
    pure (record {
      amount0 = amount0;
      amount1 = amount1;
      liquidity = liquidity;
      metadata = metadata;
    })

  unfoldable pub read_pair_created_event : Reader PairCreatedEvent
  read_pair_created_event = do
    token0 ← borsh.pubkey
    token1 ← borsh.pubkey
    lp_mint ← borsh.pubkey
    token0_decimals ← borsh.u8
    token1_decimals ← borsh.u8
    rate_model ← borsh.pubkey
    swap_fee_bps ← borsh.u16
    half_life ← borsh.u64
    fixed_cf_bps ← borsh.option borsh.u16
    target_util_start_bps ← borsh.u64
    target_util_end_bps ← borsh.u64
    rate_half_life_ms ← borsh.u64
    min_rate_bps ← borsh.u64
    max_rate_bps ← borsh.u64
    params_hash ← borsh.byte_array 32
    version ← borsh.u8
    metadata ← read_event_metadata
    pure (record {
      token0 = token0;
      token1 = token1;
      lp_mint = lp_mint;
      token0_decimals = token0_decimals;
      token1_decimals = token1_decimals;
      rate_model = rate_model;
      swap_fee_bps = swap_fee_bps;
      half_life = half_life;
      fixed_cf_bps = fixed_cf_bps;
      target_util_start_bps = target_util_start_bps;
      target_util_end_bps = target_util_end_bps;
      rate_half_life_ms = rate_half_life_ms;
      min_rate_bps = min_rate_bps;
      max_rate_bps = max_rate_bps;
      params_hash = params_hash;
      version = version;
      metadata = metadata;
    })

  unfoldable pub read_swap_event : Reader SwapEvent
  read_swap_event = do
    reserve0 ← borsh.u64
    reserve1 ← borsh.u64
    is_token0_in ← borsh.bool
    amount_in ← borsh.u64
    amount_out ← borsh.u64
    amount_in_after_fee ← borsh.u64
    metadata ← read_event_metadata
    pure (record {
      reserve0 = reserve0;
      reserve1 = reserve1;
      is_token0_in = is_token0_in;
      amount_in = amount_in;
      amount_out = amount_out;
      amount_in_after_fee = amount_in_after_fee;
      metadata = metadata;
    })

  unfoldable pub read_update_pair_event : Reader UpdatePairEvent
  read_update_pair_event = do
    price0_ema ← borsh.u64
    price1_ema ← borsh.u64
    rate0 ← borsh.u64
    rate1 ← borsh.u64
    accrued_interest0 ← borsh.u128
    accrued_interest1 ← borsh.u128
    cash_reserve0 ← borsh.u64
    cash_reserve1 ← borsh.u64
    reserve0_after_interest ← borsh.u64
    reserve1_after_interest ← borsh.u64
    metadata ← read_event_metadata
    pure (record {
      price0_ema = price0_ema;
      price1_ema = price1_ema;
      rate0 = rate0;
      rate1 = rate1;
      accrued_interest0 = accrued_interest0;
      accrued_interest1 = accrued_interest1;
      cash_reserve0 = cash_reserve0;
      cash_reserve1 = cash_reserve1;
      reserve0_after_interest = reserve0_after_interest;
      reserve1_after_interest = reserve1_after_interest;
      metadata = metadata;
    })

  unfoldable pub read_user_liquidity_position_updated_event :
      Reader UserLiquidityPositionUpdatedEvent
  read_user_liquidity_position_updated_event = do
    token0_amount ← borsh.u64
    token1_amount ← borsh.u64
    lp_amount ← borsh.u64
    cash_reserve0 ← borsh.u64
    cash_reserve1 ← borsh.u64
    token0_mint ← borsh.pubkey
    token1_mint ← borsh.pubkey
    lp_mint ← borsh.pubkey
    metadata ← read_event_metadata
    pure (record {
      token0_amount = token0_amount;
      token1_amount = token1_amount;
      lp_amount = lp_amount;
      cash_reserve0 = cash_reserve0;
      cash_reserve1 = cash_reserve1;
      token0_mint = token0_mint;
      token1_mint = token1_mint;
      lp_mint = lp_mint;
      metadata = metadata;
    })

  unfoldable pub read_user_position_created_event : Reader UserPositionCreatedEvent
  read_user_position_created_event = do
    position ← borsh.pubkey
    metadata ← read_event_metadata
    pure (record { position = position; metadata = metadata })

  unfoldable pub read_user_position_liquidated_event : Reader UserPositionLiquidatedEvent
  read_user_position_liquidated_event = do
    position ← borsh.pubkey
    liquidator ← borsh.pubkey
    collateral0_liquidated ← borsh.u64
    collateral1_liquidated ← borsh.u64
    debt0_liquidated ← borsh.u64
    debt1_liquidated ← borsh.u64
    collateral_price ← borsh.u64
    shortfall ← borsh.u128
    liquidation_bonus_applied ← borsh.u64
    k0 ← borsh.u128
    k1 ← borsh.u128
    metadata ← read_event_metadata
    pure (record {
      position = position;
      liquidator = liquidator;
      collateral0_liquidated = collateral0_liquidated;
      collateral1_liquidated = collateral1_liquidated;
      debt0_liquidated = debt0_liquidated;
      debt1_liquidated = debt1_liquidated;
      collateral_price = collateral_price;
      shortfall = shortfall;
      liquidation_bonus_applied = liquidation_bonus_applied;
      k0 = k0;
      k1 = k1;
      metadata = metadata;
    })

  unfoldable pub read_user_position_updated_event : Reader UserPositionUpdatedEvent
  read_user_position_updated_event = do
    position ← borsh.pubkey
    collateral0 ← borsh.u64
    collateral1 ← borsh.u64
    debt0_shares ← borsh.u128
    debt1_shares ← borsh.u128
    collateral0_max_cf_bps ← borsh.u16
    collateral1_max_cf_bps ← borsh.u16
    collateral0_liquidation_cf_bps ← borsh.u16
    collateral1_liquidation_cf_bps ← borsh.u16
    metadata ← read_event_metadata
    pure (record {
      position = position;
      collateral0 = collateral0;
      collateral1 = collateral1;
      debt0_shares = debt0_shares;
      debt1_shares = debt1_shares;
      collateral0_max_cf_bps = collateral0_max_cf_bps;
      collateral1_max_cf_bps = collateral1_max_cf_bps;
      collateral0_liquidation_cf_bps = collateral0_liquidation_cf_bps;
      collateral1_liquidation_cf_bps = collateral1_liquidation_cf_bps;
      metadata = metadata;
    })
