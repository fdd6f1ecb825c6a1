-- ===== src/Decoder/Events/Layout.antt =====
-- The bytes of an event: its fields in the order they are declared.
use omnipair_indexer.Base.{ℕ, List, [], ◌∷◌}
use omnipair_indexer.Borsh.{Borsh}
use omnipair_indexer.Borsh.Reads.{Reads}
use omnipair_indexer.Borsh.Layout.{Field, field, Encodes, field-Reads, last-Reads, end-Reads}
use omnipair_indexer.Decoder.Events.{
  EventMetadata, AdjustCollateralEvent, AdjustDebtEvent, AdjustLiquidityEvent, BurnEvent,
  ClaimProtocolFeesEvent, FlashloanEvent, MintEvent, PairCreatedEvent, SwapEvent, UpdatePairEvent,
  UserLiquidityPositionUpdatedEvent, UserPositionCreatedEvent, UserPositionLiquidatedEvent,
  UserPositionUpdatedEvent,
}
use omnipair_indexer.Decoder.Events.Read.{
  read_event_metadata, read_adjust_collateral_event, read_adjust_debt_event,
  read_adjust_liquidity_event, read_burn_event, read_claim_protocol_fees_event,
  read_flashloan_event, read_mint_event, read_pair_created_event, read_swap_event,
  read_update_pair_event, read_user_liquidity_position_updated_event,
  read_user_position_created_event, read_user_position_liquidated_event,
  read_user_position_updated_event,
}

module _ (borsh : Borsh) where
  abbrev pub event_metadata_fields : EventMetadata → List Field
  event_metadata_fields e =
      field borsh.pubkey e.signer ∷ field borsh.pubkey e.pair ∷ field borsh.u64 e.slot ∷ []

  pub event_metadata-Reads :
      (e : EventMetadata) (bytes : List ℕ)
      → Encodes (event_metadata_fields e) bytes
      → Reads (read_event_metadata borsh) bytes e
  unfolding read_event_metadata
  event_metadata-Reads e bytes = field-Reads borsh.pubkey e.signer _ e _ bytes λ bytes.
      field-Reads borsh.pubkey e.pair _ e _ bytes
        λ bytes. field-Reads borsh.u64 e.slot _ e _ bytes λ bytes. end-Reads e bytes

  abbrev pub adjust_collateral_event_fields : AdjustCollateralEvent → List Field
  adjust_collateral_event_fields e =
      field borsh.i64 e.amount0 ∷ field borsh.i64 e.amount1 ∷ event_metadata_fields e.metadata

  pub adjust_collateral_event-Reads :
      (e : AdjustCollateralEvent) (bytes : List ℕ)
      → Encodes (adjust_collateral_event_fields e) bytes
      → Reads (read_adjust_collateral_event borsh) bytes e
  unfolding read_adjust_collateral_event
  adjust_collateral_event-Reads e bytes = field-Reads borsh.i64 e.amount0 _ e _ bytes λ bytes.
      field-Reads borsh.i64 e.amount1 _ e _ bytes λ bytes all.
        last-Reads (read_event_metadata borsh) e.metadata _ bytes
          (event_metadata-Reads e.metadata bytes all)

  abbrev pub adjust_debt_event_fields : AdjustDebtEvent → List Field
  adjust_debt_event_fields e =
      field borsh.i64 e.amount0 ∷ field borsh.i64 e.amount1 ∷ event_metadata_fields e.metadata

  pub adjust_debt_event-Reads :
      (e : AdjustDebtEvent) (bytes : List ℕ)
      → Encodes (adjust_debt_event_fields e) bytes
      → Reads (read_adjust_debt_event borsh) bytes e
  unfolding read_adjust_debt_event
  adjust_debt_event-Reads e bytes = field-Reads borsh.i64 e.amount0 _ e _ bytes λ bytes.
      field-Reads borsh.i64 e.amount1 _ e _ bytes λ bytes all.
        last-Reads (read_event_metadata borsh) e.metadata _ bytes
          (event_metadata-Reads e.metadata bytes all)

  abbrev pub adjust_liquidity_event_fields : AdjustLiquidityEvent → List Field
  adjust_liquidity_event_fields e =
      field borsh.u64 e.amount0
      ∷ field borsh.u64 e.amount1
      ∷ field borsh.u64 e.liquidity
      ∷ event_metadata_fields e.metadata

  pub adjust_liquidity_event-Reads :
      (e : AdjustLiquidityEvent) (bytes : List ℕ)
      → Encodes (adjust_liquidity_event_fields e) bytes
      → Reads (read_adjust_liquidity_event borsh) bytes e
  unfolding read_adjust_liquidity_event
  adjust_liquidity_event-Reads e bytes = field-Reads borsh.u64 e.amount0 _ e _ bytes λ bytes.
      field-Reads borsh.u64 e.amount1 _ e _ bytes λ bytes.
        field-Reads borsh.u64 e.liquidity _ e _ bytes λ bytes all.
          last-Reads (read_event_metadata borsh) e.metadata _ bytes
            (event_metadata-Reads e.metadata bytes all)

  abbrev pub burn_event_fields : BurnEvent → List Field
  burn_event_fields e =
      field borsh.u64 e.amount0
      ∷ field borsh.u64 e.amount1
      ∷ field borsh.u64 e.liquidity
      ∷ event_metadata_fields e.metadata

  pub burn_event-Reads :
      (e : BurnEvent) (bytes : List ℕ)
      → Encodes (burn_event_fields e) bytes
      → Reads (read_burn_event borsh) bytes e
  unfolding read_burn_event
  burn_event-Reads e bytes = field-Reads borsh.u64 e.amount0 _ e _ bytes λ bytes.
      field-Reads borsh.u64 e.amount1 _ e _ bytes λ bytes.
        field-Reads borsh.u64 e.liquidity _ e _ bytes λ bytes all.
          last-Reads (read_event_metadata borsh) e.metadata _ bytes
            (event_metadata-Reads e.metadata bytes all)

  abbrev pub claim_protocol_fees_event_fields : ClaimProtocolFeesEvent → List Field
  claim_protocol_fees_event_fields e =
      field borsh.pubkey e.token0
      ∷ field borsh.pubkey e.token1
      ∷ field borsh.u64 e.futarchy_treasury_amount0
      ∷ field borsh.u64 e.futarchy_treasury_amount1
      ∷ field borsh.u64 e.buybacks_vault_amount0
      ∷ field borsh.u64 e.buybacks_vault_amount1
      ∷ field borsh.u64 e.team_treasury_amount0
      ∷ field borsh.u64 e.team_treasury_amount1
      ∷ event_metadata_fields e.metadata

  pub claim_protocol_fees_event-Reads :
      (e : ClaimProtocolFeesEvent) (bytes : List ℕ)
      → Encodes (claim_protocol_fees_event_fields e) bytes
      → Reads (read_claim_protocol_fees_event borsh) bytes e
  unfolding read_claim_protocol_fees_event
  claim_protocol_fees_event-Reads e bytes = field-Reads borsh.pubkey e.token0 _ e _ bytes λ bytes.
      field-Reads borsh.pubkey e.token1 _ e _ bytes λ bytes.
        field-Reads borsh.u64 e.futarchy_treasury_amount0 _ e _ bytes λ bytes.
          field-Reads borsh.u64 e.futarchy_treasury_amount1 _ e _ bytes λ bytes.
            field-Reads borsh.u64 e.buybacks_vault_amount0 _ e _ bytes λ bytes.
              field-Reads borsh.u64 e.buybacks_vault_amount1 _ e _ bytes λ bytes.
                field-Reads borsh.u64 e.team_treasury_amount0 _ e _ bytes λ bytes.
                  field-Reads borsh.u64 e.team_treasury_amount1 _ e _ bytes λ bytes all.
                    last-Reads (read_event_metadata borsh) e.metadata _ bytes
                      (event_metadata-Reads e.metadata bytes all)

  abbrev pub flashloan_event_fields : FlashloanEvent → List Field
  flashloan_event_fields e =
      field borsh.u64 e.amount0
      ∷ field borsh.u64 e.amount1
      ∷ field borsh.u64 e.fee0
      ∷ field borsh.u64 e.fee1
      ∷ field borsh.pubkey e.receiver
      ∷ event_metadata_fields e.metadata

  pub flashloan_event-Reads :
      (e : FlashloanEvent) (bytes : List ℕ)
      → Encodes (flashloan_event_fields e) bytes
      → Reads (read_flashloan_event borsh) bytes e
  unfolding read_flashloan_event
  flashloan_event-Reads e bytes = field-Reads borsh.u64 e.amount0 _ e _ bytes λ bytes.
      field-Reads borsh.u64 e.amount1 _ e _ bytes λ bytes.
        field-Reads borsh.u64 e.fee0 _ e _ bytes λ bytes.
          field-Reads borsh.u64 e.fee1 _ e _ bytes λ bytes.
            field-Reads borsh.pubkey e.receiver _ e _ bytes λ bytes all.
              last-Reads (read_event_metadata borsh) e.metadata _ bytes
                (event_metadata-Reads e.metadata bytes all)

  abbrev pub mint_event_fields : MintEvent → List Field
  mint_event_fields e =
      field borsh.u64 e.amount0
      ∷ field borsh.u64 e.amount1
      ∷ field borsh.u64 e.liquidity
      ∷ event_metadata_fields e.metadata

  pub mint_event-Reads :
      (e : MintEvent) (bytes : List ℕ)
      → Encodes (mint_event_fields e) bytes
      → Reads (read_mint_event borsh) bytes e
  unfolding read_mint_event
  mint_event-Reads e bytes = field-Reads borsh.u64 e.amount0 _ e _ bytes λ bytes.
      field-Reads borsh.u64 e.amount1 _ e _ bytes λ bytes.
        field-Reads borsh.u64 e.liquidity _ e _ bytes λ bytes all.
          last-Reads (read_event_metadata borsh) e.metadata _ bytes
            (event_metadata-Reads e.metadata bytes all)

  abbrev pub pair_created_event_fields : PairCreatedEvent → List Field
  pair_created_event_fields e =
      field borsh.pubkey e.token0
      ∷ field borsh.pubkey e.token1
      ∷ field borsh.pubkey e.lp_mint
      ∷ field borsh.u8 e.token0_decimals
      ∷ field borsh.u8 e.token1_decimals
      ∷ field borsh.pubkey e.rate_model
      ∷ field borsh.u16 e.swap_fee_bps
      ∷ field borsh.u64 e.half_life
      ∷ field (borsh.option borsh.u16) e.fixed_cf_bps
      ∷ field borsh.u64 e.target_util_start_bps
      ∷ field borsh.u64 e.target_util_end_bps
      ∷ field borsh.u64 e.rate_half_life_ms
      ∷ field borsh.u64 e.min_rate_bps
      ∷ field borsh.u64 e.max_rate_bps
      ∷ field (borsh.byte_array 32) e.params_hash
      ∷ field borsh.u8 e.version
      ∷ event_metadata_fields e.metadata

  pub pair_created_event-Reads :
      (e : PairCreatedEvent) (bytes : List ℕ)
      → Encodes (pair_created_event_fields e) bytes
      → Reads (read_pair_created_event borsh) bytes e
  unfolding read_pair_created_event
  pair_created_event-Reads e bytes = field-Reads borsh.pubkey e.token0 _ e _ bytes λ bytes.
      field-Reads borsh.pubkey e.token1 _ e _ bytes λ bytes.
        field-Reads borsh.pubkey e.lp_mint _ e _ bytes λ bytes.
          field-Reads borsh.u8 e.token0_decimals _ e _ bytes λ bytes.
            field-Reads borsh.u8 e.token1_decimals _ e _ bytes λ bytes.
              field-Reads borsh.pubkey e.rate_model _ e _ bytes λ bytes.
                field-Reads borsh.u16 e.swap_fee_bps _ e _ bytes λ bytes.
                  field-Reads borsh.u64 e.half_life _ e _ bytes λ bytes.
                    field-Reads (borsh.option borsh.u16) e.fixed_cf_bps _ e _ bytes λ bytes.
                      field-Reads borsh.u64 e.target_util_start_bps _ e _ bytes λ bytes.
                        field-Reads borsh.u64 e.target_util_end_bps _ e _ bytes λ bytes.
                          field-Reads borsh.u64 e.rate_half_life_ms _ e _ bytes λ bytes.
                            field-Reads borsh.u64 e.min_rate_bps _ e _ bytes λ bytes.
                              field-Reads borsh.u64 e.max_rate_bps _ e _ bytes λ bytes.
                                field-Reads (borsh.byte_array 32) e.params_hash _ e _ bytes λ bytes.
                                  field-Reads borsh.u8 e.version _ e _ bytes λ bytes all.
                                    last-Reads (read_event_metadata borsh) e.metadata _ bytes
                                      (event_metadata-Reads e.metadata bytes all)

  abbrev pub swap_event_fields : SwapEvent → List Field
  swap_event_fields e =
      field borsh.u64 e.reserve0
      ∷ field borsh.u64 e.reserve1
      ∷ field borsh.bool e.is_token0_in
      ∷ field borsh.u64 e.amount_in
      ∷ field borsh.u64 e.amount_out
      ∷ field borsh.u64 e.amount_in_after_fee
      ∷ event_metadata_fields e.metadata

  pub swap_event-Reads :
      (e : SwapEvent) (bytes : List ℕ)
      → Encodes (swap_event_fields e) bytes
      → Reads (read_swap_event borsh) bytes e
  unfolding read_swap_event
  swap_event-Reads e bytes = field-Reads borsh.u64 e.reserve0 _ e _ bytes λ bytes.
      field-Reads borsh.u64 e.reserve1 _ e _ bytes λ bytes.
        field-Reads borsh.bool e.is_token0_in _ e _ bytes λ bytes.
          field-Reads borsh.u64 e.amount_in _ e _ bytes λ bytes.
            field-Reads borsh.u64 e.amount_out _ e _ bytes λ bytes.
              field-Reads borsh.u64 e.amount_in_after_fee _ e _ bytes λ bytes all.
                last-Reads (read_event_metadata borsh) e.metadata _ bytes
                  (event_metadata-Reads e.metadata bytes all)

  abbrev pub update_pair_event_fields : UpdatePairEvent → List Field
  update_pair_event_fields e =
      field borsh.u64 e.price0_ema
      ∷ field borsh.u64 e.price1_ema
      ∷ field borsh.u64 e.rate0
      ∷ field borsh.u64 e.rate1
      ∷ field borsh.u128 e.accrued_interest0
      ∷ field borsh.u128 e.accrued_interest1
      ∷ field borsh.u64 e.cash_reserve0
      ∷ field borsh.u64 e.cash_reserve1
      ∷ field borsh.u64 e.reserve0_after_interest
      ∷ field borsh.u64 e.reserve1_after_interest
      ∷ event_metadata_fields e.metadata

  pub update_pair_event-Reads :
      (e : UpdatePairEvent) (bytes : List ℕ)
      → Encodes (update_pair_event_fields e) bytes
      → Reads (read_update_pair_event borsh) bytes e
  unfolding read_update_pair_event
  update_pair_event-Reads e bytes = field-Reads borsh.u64 e.price0_ema _ e _ bytes λ bytes.
      field-Reads borsh.u64 e.price1_ema _ e _ bytes λ bytes.
        field-Reads borsh.u64 e.rate0 _ e _ bytes λ bytes.
          field-Reads borsh.u64 e.rate1 _ e _ bytes λ bytes.
            field-Reads borsh.u128 e.accrued_interest0 _ e _ bytes λ bytes.
              field-Reads borsh.u128 e.accrued_interest1 _ e _ bytes λ bytes.
                field-Reads borsh.u64 e.cash_reserve0 _ e _ bytes λ bytes.
                  field-Reads borsh.u64 e.cash_reserve1 _ e _ bytes λ bytes.
                    field-Reads borsh.u64 e.reserve0_after_interest _ e _ bytes λ bytes.
                      field-Reads borsh.u64 e.reserve1_after_interest _ e _ bytes λ bytes all.
                        last-Reads (read_event_metadata borsh) e.metadata _ bytes
                          (event_metadata-Reads e.metadata bytes all)

  abbrev pub user_liquidity_position_updated_event_fields :
      UserLiquidityPositionUpdatedEvent → List Field
  user_liquidity_position_updated_event_fields e =
      field borsh.u64 e.token0_amount
      ∷ field borsh.u64 e.token1_amount
      ∷ field borsh.u64 e.lp_amount
      ∷ field borsh.u64 e.cash_reserve0
      ∷ field borsh.u64 e.cash_reserve1
      ∷ field borsh.pubkey e.token0_mint
      ∷ field borsh.pubkey e.token1_mint
      ∷ field borsh.pubkey e.lp_mint
      ∷ event_metadata_fields e.metadata

  pub user_liquidity_position_updated_event-Reads :
      (e : UserLiquidityPositionUpdatedEvent) (bytes : List ℕ)
      → Encodes (user_liquidity_position_updated_event_fields e) bytes
      → Reads (read_user_liquidity_position_updated_event borsh) bytes e
  unfolding read_user_liquidity_position_updated_event
  user_liquidity_position_updated_event-Reads e bytes =
      field-Reads borsh.u64 e.token0_amount _ e _ bytes λ bytes.
        field-Reads borsh.u64 e.token1_amount _ e _ bytes λ bytes.
          field-Reads borsh.u64 e.lp_amount _ e _ bytes λ bytes.
            field-Reads borsh.u64 e.cash_reserve0 _ e _ bytes λ bytes.
              field-Reads borsh.u64 e.cash_reserve1 _ e _ bytes λ bytes.
                field-Reads borsh.pubkey e.token0_mint _ e _ bytes λ bytes.
                  field-Reads borsh.pubkey e.token1_mint _ e _ bytes λ bytes.
                    field-Reads borsh.pubkey e.lp_mint _ e _ bytes λ bytes all.
                      last-Reads (read_event_metadata borsh) e.metadata _ bytes
                        (event_metadata-Reads e.metadata bytes all)

  abbrev pub user_position_created_event_fields : UserPositionCreatedEvent → List Field
  user_position_created_event_fields e =
      field borsh.pubkey e.position ∷ event_metadata_fields e.metadata

  pub user_position_created_event-Reads :
      (e : UserPositionCreatedEvent) (bytes : List ℕ)
      → Encodes (user_position_created_event_fields e) bytes
      → Reads (read_user_position_created_event borsh) bytes e
  unfolding read_user_position_created_event
  user_position_created_event-Reads e bytes =
      field-Reads borsh.pubkey e.position _ e _ bytes λ bytes all.
        last-Reads (read_event_metadata borsh) e.metadata _ bytes
          (event_metadata-Reads e.metadata bytes all)

  abbrev pub user_position_liquidated_event_fields : UserPositionLiquidatedEvent → List Field
  user_position_liquidated_event_fields e =
      field borsh.pubkey e.position
      ∷ field borsh.pubkey e.liquidator
      ∷ field borsh.u64 e.collateral0_liquidated
      ∷ field borsh.u64 e.collateral1_liquidated
      ∷ field borsh.u64 e.debt0_liquidated
      ∷ field borsh.u64 e.debt1_liquidated
      ∷ field borsh.u64 e.collateral_price
      ∷ field borsh.u128 e.shortfall
      ∷ field borsh.u64 e.liquidation_bonus_applied
      ∷ field borsh.u128 e.k0
      ∷ field borsh.u128 e.k1
      ∷ event_metadata_fields e.metadata

  pub user_position_liquidated_event-Reads :
      (e : UserPositionLiquidatedEvent) (bytes : List ℕ)
      → Encodes (user_position_liquidated_event_fields e) bytes
      → Reads (read_user_position_liquidated_event borsh) bytes e
  unfolding read_user_position_liquidated_event
  user_position_liquidated_event-Reads e bytes =
      field-Reads borsh.pubkey e.position _ e _ bytes λ bytes.
        field-Reads borsh.pubkey e.liquidator _ e _ bytes λ bytes.
          field-Reads borsh.u64 e.collateral0_liquidated _ e _ bytes λ bytes.
            field-Reads borsh.u64 e.collateral1_liquidated _ e _ bytes λ bytes.
              field-Reads borsh.u64 e.debt0_liquidated _ e _ bytes λ bytes.
                field-Reads borsh.u64 e.debt1_liquidated _ e _ bytes λ bytes.
                  field-Reads borsh.u64 e.collateral_price _ e _ bytes λ bytes.
                    field-Reads borsh.u128 e.shortfall _ e _ bytes λ bytes.
                      field-Reads borsh.u64 e.liquidation_bonus_applied _ e _ bytes λ bytes.
                        field-Reads borsh.u128 e.k0 _ e _ bytes λ bytes.
                          field-Reads borsh.u128 e.k1 _ e _ bytes λ bytes all.
                            last-Reads (read_event_metadata borsh) e.metadata _ bytes
                              (event_metadata-Reads e.metadata bytes all)

  abbrev pub user_position_updated_event_fields : UserPositionUpdatedEvent → List Field
  user_position_updated_event_fields e =
      field borsh.pubkey e.position
      ∷ field borsh.u64 e.collateral0
      ∷ field borsh.u64 e.collateral1
      ∷ field borsh.u128 e.debt0_shares
      ∷ field borsh.u128 e.debt1_shares
      ∷ field borsh.u16 e.collateral0_max_cf_bps
      ∷ field borsh.u16 e.collateral1_max_cf_bps
      ∷ field borsh.u16 e.collateral0_liquidation_cf_bps
      ∷ field borsh.u16 e.collateral1_liquidation_cf_bps
      ∷ event_metadata_fields e.metadata

  pub user_position_updated_event-Reads :
      (e : UserPositionUpdatedEvent) (bytes : List ℕ)
      → Encodes (user_position_updated_event_fields e) bytes
      → Reads (read_user_position_updated_event borsh) bytes e
  unfolding read_user_position_updated_event
  user_position_updated_event-Reads e bytes =
      field-Reads borsh.pubkey e.position _ e _ bytes λ bytes.
        field-Reads borsh.u64 e.collateral0 _ e _ bytes λ bytes.
          field-Reads borsh.u64 e.collateral1 _ e _ bytes λ bytes.
            field-Reads borsh.u128 e.debt0_shares _ e _ bytes λ bytes.
              field-Reads borsh.u128 e.debt1_shares _ e _ bytes λ bytes.
                field-Reads borsh.u16 e.collateral0_max_cf_bps _ e _ bytes λ bytes.
                  field-Reads borsh.u16 e.collateral1_max_cf_bps _ e _ bytes λ bytes.
                    field-Reads borsh.u16 e.collateral0_liquidation_cf_bps _ e _ bytes λ bytes.
                      field-Reads borsh.u16 e.collateral1_liquidation_cf_bps _ e _ bytes
                        λ bytes all.
                          last-Reads (read_event_metadata borsh) e.metadata _ bytes
                            (event_metadata-Reads e.metadata bytes all)
