-- ===== src/Database/Upserts.antt =====
-- The upserts of indexer/src/database.rs: each takes the pool, reads the clock, runs its queries one
-- after the other and stops at the first error.
use omnipair_indexer.Base.{ℕ, ◌+◌, ◌-◌, ◌%◌, ◌^◌, String, if◌then◌else◌}
use omnipair_indexer.Action.{Action, ◌>>=◌, ◌>>◌}
use omnipair_indexer.Database.{Database, get_db_pool, query, clock}
use omnipair_indexer.Decoder.Events.{
  SwapEvent, MintEvent, BurnEvent, AdjustCollateralEvent, AdjustDebtEvent, UserPositionUpdatedEvent,
  UserPositionLiquidatedEvent, PairCreatedEvent, UserLiquidityPositionUpdatedEvent,
}
use omnipair_indexer.Borsh.{ℤ}
use omnipair_indexer.Database.Statements.{
  insert_swaps, insert_mint, insert_burn, insert_adjust_collateral_events,
  insert_adjust_debt_events,
}
use omnipair_indexer.Database.Positions.{
  insert_user_position_updated_events, insert_user_borrow_positions,
  insert_user_position_liquidated_events, insert_pools, insert_user_lp_position_updated_events,
  insert_user_liquidity_positions,
}

-- `amount_in - amount_in_after_fee` on 64 bits, as a release build has it: where the difference is
-- negative, it wraps around. A debug build panics there.
unfoldable pub fee_amount : SwapEvent → ℕ
fee_amount e = ((e.amount_in + 2 ^ 64) - e.amount_in_after_fee) % 2 ^ 64

module _ {S : Type 0} (db : Database S) where
  unfoldable pub fee_paid0 : SwapEvent → ℕ
  unfolding fee_amount
  fee_paid0 e =
      if e.is_token0_in then fee_amount e else db.convert e.reserve0 e.reserve1 (fee_amount e)

  unfoldable pub fee_paid1 : SwapEvent → ℕ
  unfolding fee_amount
  fee_paid1 e =
      if e.is_token0_in then db.convert e.reserve1 e.reserve0 (fee_amount e) else fee_amount e

  unfoldable pub upsert_swap_event :
      SwapEvent → (tx_signature : String) → (slot : ℤ) → Action S (Unit {0})
  unfolding fee_paid0 fee_paid1
  upsert_swap_event event tx_signature slot = do
    get_db_pool db
    now ← clock db
    query db "Failed to upsert swap"
        (insert_swaps db event tx_signature slot (fee_paid0 event) (fee_paid1 event) now)

  unfoldable pub upsert_mint_event :
      MintEvent → (tx_signature : String) → (slot : ℤ) → Action S (Unit {0})
  upsert_mint_event event tx_signature slot = do
    get_db_pool db
    now ← clock db
    query db "Failed to upsert mint event" (insert_mint db event tx_signature now)

  unfoldable pub upsert_burn_event :
      BurnEvent → (tx_signature : String) → (slot : ℤ) → Action S (Unit {0})
  upsert_burn_event event tx_signature slot = do
    get_db_pool db
    now ← clock db
    query db "Failed to upsert burn event" (insert_burn db event tx_signature now)

  unfoldable pub upsert_adjust_collateral_event :
      AdjustCollateralEvent → (tx_signature : String) → (slot : ℤ) → Action S (Unit {0})
  upsert_adjust_collateral_event event tx_signature slot = do
    get_db_pool db
    now ← clock db
    query db "Failed to upsert adjust collateral event"
        (insert_adjust_collateral_events db event tx_signature slot now)

  unfoldable pub upsert_adjust_debt_event :
      AdjustDebtEvent → (tx_signature : String) → (slot : ℤ) → Action S (Unit {0})
  upsert_adjust_debt_event event tx_signature slot = do
    get_db_pool db
    now ← clock db
    query db "Failed to upsert adjust debt event"
        (insert_adjust_debt_events db event tx_signature slot now)

  unfoldable pub upsert_user_position_updated_event :
      UserPositionUpdatedEvent → (tx_signature : String) → (slot : ℤ) → Action S (Unit {0})
  upsert_user_position_updated_event event tx_signature slot = do
    get_db_pool db
    event_timestamp ← clock db
    query db "Failed to upsert user position updated event"
        (insert_user_position_updated_events db event tx_signature slot event_timestamp)
    now ← clock db
    query db "Failed to upsert user borrow position"
        (insert_user_borrow_positions db event slot event_timestamp now)

  unfoldable pub upsert_user_position_liquidated_event :
      UserPositionLiquidatedEvent → (tx_signature : String) → (slot : ℤ) → Action S (Unit {0})
  upsert_user_position_liquidated_event event tx_signature slot = do
    get_db_pool db
    now ← clock db
    query db "Failed to upsert user position liquidated event"
        (insert_user_position_liquidated_events db event tx_signature slot now)

  unfoldable pub upsert_pair_created_event :
      PairCreatedEvent → (tx_signature : String) → (slot : ℤ) → Action S (Unit {0})
  upsert_pair_created_event event tx_signature slot = do
    get_db_pool db
    query db "Failed to upsert pair created event" (insert_pools db event)

  unfoldable pub upsert_user_liquidity_position_updated_event :
      UserLiquidityPositionUpdatedEvent → (tx_signature : String) → (slot : ℤ) → Action S (Unit {0})
  upsert_user_liquidity_position_updated_event event tx_signature slot = do
    get_db_pool db
    event_timestamp ← clock db
    query db "Failed to insert user liquidity position updated event"
        (insert_user_lp_position_updated_events db event event_timestamp)
    query db "Failed to upsert user liquidity position" (insert_user_liquidity_positions db event)
