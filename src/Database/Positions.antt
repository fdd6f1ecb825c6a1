-- ===== src/Database/Positions.antt =====
-- The queries of indexer/src/database.rs on positions and pools, each with the values that are bound
-- to it.
use omnipair_indexer.Base.{ℕ, [], ◌∷◌, String}
use omnipair_indexer.Database.{
  Database, Statement, text, number, integer, time, optional, blob, as_i64,
}
use omnipair_indexer.Decoder.Events.{
  UserPositionUpdatedEvent, UserPositionLiquidatedEvent, PairCreatedEvent,
  UserLiquidityPositionUpdatedEvent,
}
use omnipair_indexer.Borsh.{ℤ}

module _ {S : Type 0} (db : Database S) where
  abbrev pub insert_user_position_updated_events :
      (event : UserPositionUpdatedEvent)
      → (tx_signature : String) → (slot : ℤ) → (event_timestamp : ℕ) → Statement
  insert_user_position_updated_events event tx_signature slot event_timestamp = record {
    table = "user_position_updated_events";
    columns =
        "pair" ∷ "signer" ∷ "position" ∷ "collateral0" ∷ "collateral1" ∷ "debt0_shares"
        ∷ "debt1_shares" ∷ "collateral0_liquidation_cf_bps" ∷ "collateral1_liquidation_cf_bps"
        ∷ "collateral0_max_cf_bps" ∷ "collateral1_max_cf_bps" ∷ "transaction_signature" ∷ "slot"
        ∷ "event_timestamp" ∷ [];
    values =
        text (db.to_string event.metadata.pair)
        ∷ text (db.to_string event.metadata.signer)
        ∷ text (db.to_string event.position)
        ∷ number event.collateral0
        ∷ number event.collateral1
        ∷ number event.debt0_shares
        ∷ number event.debt1_shares
        ∷ number event.collateral0_liquidation_cf_bps
        ∷ number event.collateral1_liquidation_cf_bps
        ∷ number event.collateral0_max_cf_bps
        ∷ number event.collateral1_max_cf_bps
        ∷ text tx_signature
        ∷ integer slot
        ∷ time event_timestamp
        ∷ [];
    conflict = "transaction_signature" ∷ [];
    excluded =
        "pair" ∷ "signer" ∷ "position" ∷ "collateral0" ∷ "collateral1" ∷ "debt0_shares"
        ∷ "debt1_shares" ∷ "collateral0_liquidation_cf_bps" ∷ "collateral1_liquidation_cf_bps"
        ∷ "collateral0_max_cf_bps" ∷ "collateral1_max_cf_bps" ∷ "slot" ∷ "event_timestamp" ∷ [];
    touched = [];
  }

  abbrev pub insert_user_borrow_positions :
      (event : UserPositionUpdatedEvent)
      → (slot : ℤ) → (event_timestamp : ℕ) → (now : ℕ) → Statement
  insert_user_borrow_positions event slot event_timestamp now = record {
    table = "user_borrow_positions";
    columns =
        "pair" ∷ "signer" ∷ "position" ∷ "collateral0" ∷ "collateral1" ∷ "debt0_shares"
        ∷ "debt1_shares" ∷ "collateral0_liquidation_cf_bps" ∷ "collateral1_liquidation_cf_bps"
        ∷ "collateral0_max_cf_bps" ∷ "collateral1_max_cf_bps" ∷ "slot" ∷ "event_timestamp"
        ∷ "updated_at" ∷ [];
    values =
        text (db.to_string event.metadata.pair)
        ∷ text (db.to_string event.metadata.signer)
        ∷ text (db.to_string event.position)
        ∷ number event.collateral0
        ∷ number event.collateral1
        ∷ number event.debt0_shares
        ∷ number event.debt1_shares
        ∷ number event.collateral0_liquidation_cf_bps
        ∷ number event.collateral1_liquidation_cf_bps
        ∷ number event.collateral0_max_cf_bps
        ∷ number event.collateral1_max_cf_bps
        ∷ integer slot
        ∷ time event_timestamp
        ∷ time now
        ∷ [];
    conflict = "pair" ∷ "signer" ∷ [];
    excluded =
        "position" ∷ "collateral0" ∷ "collateral1" ∷ "debt0_shares" ∷ "debt1_shares"
        ∷ "collateral0_liquidation_cf_bps" ∷ "collateral1_liquidation_cf_bps"
        ∷ "collateral0_max_cf_bps" ∷ "collateral1_max_cf_bps" ∷ "slot" ∷ "event_timestamp" ∷ [];
    touched = "updated_at" ∷ [];
  }

  abbrev pub insert_user_position_liquidated_events :
      (event : UserPositionLiquidatedEvent)
      → (tx_signature : String) → (slot : ℤ) → (now : ℕ) → Statement
  insert_user_position_liquidated_events event tx_signature slot now = record {
    table = "user_position_liquidated_events";
    columns =
        "pair" ∷ "signer" ∷ "position" ∷ "liquidator" ∷ "collateral0_liquidated"
        ∷ "collateral1_liquidated" ∷ "debt0_liquidated" ∷ "debt1_liquidated" ∷ "collateral_price"
        ∷ "shortfall" ∷ "liquidation_bonus_applied" ∷ "k0" ∷ "k1" ∷ "transaction_signature" ∷ "slot"
        ∷ "event_timestamp" ∷ [];
    values =
        text (db.to_string event.metadata.pair)
        ∷ text (db.to_string event.metadata.signer)
        ∷ text (db.to_string event.position)
        ∷ text (db.to_string event.liquidator)
        ∷ number event.collateral0_liquidated
        ∷ number event.collateral1_liquidated
        ∷ number event.debt0_liquidated
        ∷ number event.debt1_liquidated
        ∷ number event.collateral_price
        ∷ number event.shortfall
        ∷ number event.liquidation_bonus_applied
        ∷ number event.k0
        ∷ number event.k1
        ∷ text tx_signature
        ∷ integer slot
        ∷ time now
        ∷ [];
    conflict = "transaction_signature" ∷ [];
    excluded =
        "pair" ∷ "signer" ∷ "position" ∷ "liquidator" ∷ "collateral0_liquidated"
        ∷ "collateral1_liquidated" ∷ "debt0_liquidated" ∷ "debt1_liquidated" ∷ "collateral_price"
        ∷ "shortfall" ∷ "liquidation_bonus_applied" ∷ "k0" ∷ "k1" ∷ "slot" ∷ "event_timestamp" ∷ [];
    touched = [];
  }

  abbrev pub insert_pools : (event : PairCreatedEvent) → Statement
  insert_pools event = record {
    table = "pools";
    columns =
        "pair_address" ∷ "token0" ∷ "token1" ∷ "lp_mint" ∷ "rate_model" ∷ "swap_fee_bps"
        ∷ "half_life" ∷ "fixed_cf_bps" ∷ "params_hash" ∷ "version" ∷ "target_util_start_bps"
        ∷ "target_util_end_bps" ∷ "rate_half_life_ms" ∷ "min_rate_bps" ∷ "max_rate_bps" ∷ [];
    values =
        text (db.to_string event.metadata.pair)
        ∷ text (db.to_string event.token0)
        ∷ text (db.to_string event.token1)
        ∷ text (db.to_string event.lp_mint)
        ∷ text (db.to_string event.rate_model)
        ∷ number event.swap_fee_bps
        ∷ integer (as_i64 event.half_life)
        ∷ optional event.fixed_cf_bps
        ∷ blob event.params_hash
        ∷ number event.version
        ∷ integer (as_i64 event.target_util_start_bps)
        ∷ integer (as_i64 event.target_util_end_bps)
        ∷ integer (as_i64 event.rate_half_life_ms)
        ∷ integer (as_i64 event.min_rate_bps)
        ∷ integer (as_i64 event.max_rate_bps)
        ∷ [];
    conflict = "pair_address" ∷ [];
    excluded =
        "token0" ∷ "token1" ∷ "lp_mint" ∷ "rate_model" ∷ "swap_fee_bps" ∷ "half_life"
        ∷ "fixed_cf_bps" ∷ "params_hash" ∷ "version" ∷ "target_util_start_bps"
        ∷ "target_util_end_bps" ∷ "rate_half_life_ms" ∷ "min_rate_bps" ∷ "max_rate_bps" ∷ [];
    touched = [];
  }

  abbrev pub insert_user_lp_position_updated_events :
      (event : UserLiquidityPositionUpdatedEvent) → (event_timestamp : ℕ) → Statement
  insert_user_lp_position_updated_events event event_timestamp = record {
    table = "user_lp_position_updated_events";
    columns =
        "pair_address" ∷ "lp_amount" ∷ "amount0" ∷ "amount1" ∷ "signer" ∷ "timestamp" ∷ "slot" ∷ [];
    values =
        text (db.to_string event.metadata.pair)
        ∷ number event.lp_amount
        ∷ number event.token0_amount
        ∷ number event.token1_amount
        ∷ text (db.to_string event.metadata.signer)
        ∷ time event_timestamp
        ∷ number event.metadata.slot
        ∷ [];
    conflict = [];
    excluded = [];
    touched = [];
  }

  abbrev pub insert_user_liquidity_positions :
      (event : UserLiquidityPositionUpdatedEvent) → Statement
  insert_user_liquidity_positions event = record {
    table = "user_liquidity_positions";
    columns =
        "pair" ∷ "signer" ∷ "token0_mint" ∷ "token1_mint" ∷ "amount0" ∷ "amount1" ∷ "lp_mint"
        ∷ "lp_amount" ∷ "slot" ∷ [];
    values =
        text (db.to_string event.metadata.pair)
        ∷ text (db.to_string event.metadata.signer)
        ∷ text (db.to_string event.token0_mint)
        ∷ text (db.to_string event.token1_mint)
        ∷ number event.token0_amount
        ∷ number event.token1_amount
        ∷ text (db.to_string event.lp_mint)
        ∷ number event.lp_amount
        ∷ number event.metadata.slot
        ∷ [];
    conflict = "pair" ∷ "signer" ∷ [];
    excluded =
        "token0_mint" ∷ "token1_mint" ∷ "amount0" ∷ "amount1" ∷ "lp_mint" ∷ "lp_amount" ∷ "slot"
        ∷ [];
    touched = "updated_at" ∷ [];
  }
