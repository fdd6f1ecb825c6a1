-- ===== src/Processors/Rows.antt =====
-- A pool that keeps what it is told to write, for the processor of indexer/src/processors.rs and
-- indexer/src/database.rs, and the rows that belong to each event.
use omnipair_indexer.Base.{ℕ, List, [], ◌∷◌, ◌++◌, String, true, none, if◌then◌else◌}
use omnipair_indexer.Solana.{Pubkey, Signature}
use omnipair_indexer.Instruction.{InstructionMetadata}
use omnipair_indexer.Database.{
  Database, Value, text, boolean, number, integer, time, optional, blob, as_i64,
}
use omnipair_indexer.Database.Upserts.{fee_amount}
use omnipair_indexer.Processors.{Outside}
use omnipair_indexer.Decoder.Events.{
  SwapEvent, AdjustCollateralEvent, AdjustDebtEvent, BurnEvent, MintEvent, PairCreatedEvent,
  UserPositionLiquidatedEvent, UserPositionUpdatedEvent, UserLiquidityPositionUpdatedEvent,
}
use omnipair_indexer.Decoder.Instructions.{
  OmnipairInstruction, swap_event, adjust_collateral_event, adjust_debt_event, burn_event,
  mint_event, pair_created_event, user_position_liquidated_event, user_position_updated_event,
  user_liquidity_position_updated_event,
}

-- What is written: a row of a table, each column with its value, and the columns by which it
-- conflicts with another row; or the notification of a new pair.
pub data Write : Type 0 where
  row : (table : String) → List (String × Value) → (conflict : List String) → Write
  posted : (pair token0 token1 : String) → Write

-- The texts of keys, signatures and errors, the time, and the conversion of a fee.
pub record World : Type 0 where
  pub key : Pubkey → String
  pub signature : Signature → String
  pub format : (what error : String) → String
  pub now : ℕ
  pub convert : (a b fee : ℕ) → ℕ

-- Columns and their values, one by one.
abbrev pub paired : List String → List Value → List (String × Value)
paired (c ∷ cs) (v ∷ vs) = (c, v) ∷ paired cs vs
paired _ _ = []

-- A pool that is initialized, none of whose queries fails and whose clock stands still.
abbrev pub recording : World → Database (List Write)
recording w = record {
  initialized = λ _. true;
  execute = λ st s. (none, s ++ row st.table (paired st.columns st.values) st.conflict ∷ []);
  now = λ s. (w.now, s);
  to_string = w.key;
  format = w.format;
  convert = w.convert;
}

abbrev pub noting : World → Outside (List Write)
noting w = record {
  signature_to_string = w.signature;
  post = λ pair token0 token1 s. s ++ posted pair token0 token1 ∷ [];
}

module _ (w : World) where
  abbrev swap_row : SwapEvent → InstructionMetadata → Write
  swap_row e m =
      row "swaps"
        (("pair", text (w.key e.metadata.pair))
          ∷ ("user_address", text (w.key e.metadata.signer))
          ∷ ("is_token0_in", boolean e.is_token0_in)
          ∷ ("amount_in", number e.amount_in)
          ∷ ("amount_out", number e.amount_out)
          ∷ ("reserve0", number e.reserve0)
          ∷ ("reserve1", number e.reserve1)
          ∷ ("timestamp", time w.now)
          ∷ ("tx_sig", text (w.signature m.transaction_metadata.signature))
          ∷ ("slot", integer (as_i64 m.transaction_metadata.slot))
          ∷ (
            "fee_paid0",
            number (
                if e.is_token0_in
                then fee_amount e
                else w.convert e.reserve0 e.reserve1 (fee_amount e)),
          )
          ∷ (
            "fee_paid1",
            number (
                if e.is_token0_in
                then w.convert e.reserve1 e.reserve0 (fee_amount e)
                else fee_amount e),
          )
          ∷ [])
        ("tx_sig" ∷ "timestamp" ∷ [])

  abbrev mint_row : MintEvent → InstructionMetadata → Write
  mint_row e m =
      row "adjust_liquidity"
        (("pair", text (w.key e.metadata.pair))
          ∷ ("user_address", text (w.key e.metadata.signer))
          ∷ ("amount0", number e.amount0)
          ∷ ("amount1", number e.amount1)
          ∷ ("liquidity", number e.liquidity)
          ∷ ("tx_sig", text (w.signature m.transaction_metadata.signature))
          ∷ ("timestamp", time w.now)
          ∷ ("event_type", text "add")
          ∷ ("slot", number e.metadata.slot)
          ∷ [])
        ("tx_sig" ∷ "timestamp" ∷ [])

  abbrev burn_row : BurnEvent → InstructionMetadata → Write
  burn_row e m =
      row "adjust_liquidity"
        (("pair", text (w.key e.metadata.pair))
          ∷ ("user_address", text (w.key e.metadata.signer))
          ∷ ("amount0", number e.amount0)
          ∷ ("amount1", number e.amount1)
          ∷ ("liquidity", number e.liquidity)
          ∷ ("tx_sig", text (w.signature m.transaction_metadata.signature))
          ∷ ("timestamp", time w.now)
          ∷ ("event_type", text "remove")
          ∷ ("slot", number e.metadata.slot)
          ∷ [])
        ("tx_sig" ∷ "timestamp" ∷ [])

  abbrev collateral_row : AdjustCollateralEvent → InstructionMetadata → Write
  collateral_row e m =
      row "adjust_collateral_events"
        (("pair", text (w.key e.metadata.pair))
          ∷ ("signer", text (w.key e.metadata.signer))
          ∷ ("amount0", integer e.amount0)
          ∷ ("amount1", integer e.amount1)
          ∷ ("transaction_signature", text (w.signature m.transaction_metadata.signature))
          ∷ ("slot", integer (as_i64 m.transaction_metadata.slot))
          ∷ ("event_timestamp", time w.now)
          ∷ [])
        ("transaction_signature" ∷ [])

  abbrev debt_row : AdjustDebtEvent → InstructionMetadata → Write
  debt_row e m =
      row "adjust_debt_events"
        (("pair", text (w.key e.metadata.pair))
          ∷ ("signer", text (w.key e.metadata.signer))
          ∷ ("amount0", integer e.amount0)
          ∷ ("amount1", integer e.amount1)
          ∷ ("transaction_signature", text (w.signature m.transaction_metadata.signature))
          ∷ ("slot", integer (as_i64 m.transaction_metadata.slot))
          ∷ ("event_timestamp", time w.now)
          ∷ [])
        ("transaction_signature" ∷ [])

  abbrev position_row : UserPositionUpdatedEvent → InstructionMetadata → Write
  position_row e m =
      row "user_position_updated_events"
        (("pair", text (w.key e.metadata.pair))
          ∷ ("signer", text (w.key e.metadata.signer))
          ∷ ("position", text (w.key e.position))
          ∷ ("collateral0", number e.collateral0)
          ∷ ("collateral1", number e.collateral1)
          ∷ ("debt0_shares", number e.debt0_shares)
          ∷ ("debt1_shares", number e.debt1_shares)
          ∷ ("collateral0_liquidation_cf_bps", number e.collateral0_liquidation_cf_bps)
          ∷ ("collateral1_liquidation_cf_bps", number e.collateral1_liquidation_cf_bps)
          ∷ ("collateral0_max_cf_bps", number e.collateral0_max_cf_bps)
          ∷ ("collateral1_max_cf_bps", number e.collateral1_max_cf_bps)
          ∷ ("transaction_signature", text (w.signature m.transaction_metadata.signature))
          ∷ ("slot", integer (as_i64 m.transaction_metadata.slot))
          ∷ ("event_timestamp", time w.now)
          ∷ [])
        ("transaction_signature" ∷ [])

  abbrev pub borrow_row : UserPositionUpdatedEvent → InstructionMetadata → Write
  borrow_row e m =
      row "user_borrow_positions"
        (("pair", text (w.key e.metadata.pair))
          ∷ ("signer", text (w.key e.metadata.signer))
          ∷ ("position", text (w.key e.position))
          ∷ ("collateral0", number e.collateral0)
          ∷ ("collateral1", number e.collateral1)
          ∷ ("debt0_shares", number e.debt0_shares)
          ∷ ("debt1_shares", number e.debt1_shares)
          ∷ ("collateral0_liquidation_cf_bps", number e.collateral0_liquidation_cf_bps)
          ∷ ("collateral1_liquidation_cf_bps", number e.collateral1_liquidation_cf_bps)
          ∷ ("collateral0_max_cf_bps", number e.collateral0_max_cf_bps)
          ∷ ("collateral1_max_cf_bps", number e.collateral1_max_cf_bps)
          ∷ ("slot", integer (as_i64 m.transaction_metadata.slot))
          ∷ ("event_timestamp", time w.now)
          ∷ ("updated_at", time w.now)
          ∷ [])
        ("pair" ∷ "signer" ∷ [])

  abbrev liquidation_row : UserPositionLiquidatedEvent → InstructionMetadata → Write
  liquidation_row e m =
      row "user_position_liquidated_events"
        (("pair", text (w.key e.metadata.pair))
          ∷ ("signer", text (w.key e.metadata.signer))
          ∷ ("position", text (w.key e.position))
          ∷ ("liquidator", text (w.key e.liquidator))
          ∷ ("collateral0_liquidated", number e.collateral0_liquidated)
          ∷ ("collateral1_liquidated", number e.collateral1_liquidated)
          ∷ ("debt0_liquidated", number e.debt0_liquidated)
          ∷ ("debt1_liquidated", number e.debt1_liquidated)
          ∷ ("collateral_price", number e.collateral_price)
          ∷ ("shortfall", number e.shortfall)
          ∷ ("liquidation_bonus_applied", number e.liquidation_bonus_applied)
          ∷ ("k0", number e.k0)
          ∷ ("k1", number e.k1)
          ∷ ("transaction_signature", text (w.signature m.transaction_metadata.signature))
          ∷ ("slot", integer (as_i64 m.transaction_metadata.slot))
          ∷ ("event_timestamp", time w.now)
          ∷ [])
        ("transaction_signature" ∷ [])

  abbrev pool_row : PairCreatedEvent → Write
  pool_row e =
      row "pools"
        (("pair_address", text (w.key e.metadata.pair))
          ∷ ("token0", text (w.key e.token0))
          ∷ ("token1", text (w.key e.token1))
          ∷ ("lp_mint", text (w.key e.lp_mint))
          ∷ ("rate_model", text (w.key e.rate_model))
          ∷ ("swap_fee_bps", number e.swap_fee_bps)
          ∷ ("half_life", integer (as_i64 e.half_life))
          ∷ ("fixed_cf_bps", optional e.fixed_cf_bps)
          ∷ ("params_hash", blob e.params_hash)
          ∷ ("version", number e.version)
          ∷ ("target_util_start_bps", integer (as_i64 e.target_util_start_bps))
          ∷ ("target_util_end_bps", integer (as_i64 e.target_util_end_bps))
          ∷ ("rate_half_life_ms", integer (as_i64 e.rate_half_life_ms))
          ∷ ("min_rate_bps", integer (as_i64 e.min_rate_bps))
          ∷ ("max_rate_bps", integer (as_i64 e.max_rate_bps))
          ∷ [])
        ("pair_address" ∷ [])

  abbrev lp_event_row : UserLiquidityPositionUpdatedEvent → Write
  lp_event_row e =
      row "user_lp_position_updated_events"
        (("pair_address", text (w.key e.metadata.pair))
          ∷ ("lp_amount", number e.lp_amount)
          ∷ ("amount0", number e.token0_amount)
          ∷ ("amount1", number e.token1_amount)
          ∷ ("signer", text (w.key e.metadata.signer))
          ∷ ("timestamp", time w.now)
          ∷ ("slot", number e.metadata.slot)
          ∷ [])
        ([])

  abbrev pub lp_row : UserLiquidityPositionUpdatedEvent → Write
  lp_row e =
      row "user_liquidity_positions"
        (("pair", text (w.key e.metadata.pair))
          ∷ ("signer", text (w.key e.metadata.signer))
          ∷ ("token0_mint", text (w.key e.token0_mint))
          ∷ ("token1_mint", text (w.key e.token1_mint))
          ∷ ("amount0", number e.token0_amount)
          ∷ ("amount1", number e.token1_amount)
          ∷ ("lp_mint", text (w.key e.lp_mint))
          ∷ ("lp_amount", number e.lp_amount)
          ∷ ("slot", number e.metadata.slot)
          ∷ [])
        ("pair" ∷ "signer" ∷ [])

  -- What an instruction leaves behind: every event has its tables, and the rest have none.
  unfoldable pub writes_of : OmnipairInstruction → InstructionMetadata → List Write
  writes_of (swap_event e) m = swap_row e m ∷ []
  writes_of (mint_event e) m = mint_row e m ∷ []
  writes_of (burn_event e) m = burn_row e m ∷ []
  writes_of (adjust_collateral_event e) m = collateral_row e m ∷ []
  writes_of (adjust_debt_event e) m = debt_row e m ∷ []
  writes_of (user_position_updated_event e) m = position_row e m ∷ borrow_row e m ∷ []
  writes_of (user_position_liquidated_event e) m = liquidation_row e m ∷ []
  writes_of (pair_created_event e) m =
      pool_row e ∷ posted (w.key e.metadata.pair) (w.key e.token0) (w.key e.token1) ∷ []
  writes_of (user_liquidity_position_updated_event e) m = lp_event_row e ∷ lp_row e ∷ []
  writes_of _ m = []
