-- ===== src/Database/Statements.antt =====
-- The queries of indexer/src/database.rs on swaps, liquidity, collateral and debt, each with the
-- values that are bound to it.
use omnipair_indexer.Base.{ℕ, [], ◌∷◌, String}
use omnipair_indexer.Database.{Database, Statement, text, boolean, number, integer, time}
use omnipair_indexer.Decoder.Events.{
  SwapEvent, MintEvent, BurnEvent, AdjustCollateralEvent, AdjustDebtEvent,
}
use omnipair_indexer.Borsh.{ℤ}

module _ {S : Type 0} (db : Database S) where
  abbrev pub insert_swaps :
      (swap_event : SwapEvent)
      → (tx_signature : String) → (slot : ℤ) → (fee_paid0 : ℕ) → (fee_paid1 : ℕ) → (now : ℕ)
      → Statement
  insert_swaps swap_event tx_signature slot fee_paid0 fee_paid1 now = record {
    table = "swaps";
    columns =
        "pair" ∷ "user_address" ∷ "is_token0_in" ∷ "amount_in" ∷ "amount_out" ∷ "reserve0"
        ∷ "reserve1" ∷ "timestamp" ∷ "tx_sig" ∷ "slot" ∷ "fee_paid0" ∷ "fee_paid1" ∷ [];
    values =
        text (db.to_string swap_event.metadata.pair)
        ∷ text (db.to_string swap_event.metadata.signer)
        ∷ boolean swap_event.is_token0_in
        ∷ number swap_event.amount_in
        ∷ number swap_event.amount_out
        ∷ number swap_event.reserve0
        ∷ number swap_event.reserve1
        ∷ time now
        ∷ text tx_signature
        ∷ integer slot
        ∷ number fee_paid0
        ∷ number fee_paid1
        ∷ [];
    conflict = "tx_sig" ∷ "timestamp" ∷ [];
    excluded =
        "pair" ∷ "user_address" ∷ "is_token0_in" ∷ "amount_in" ∷ "amount_out" ∷ "reserve0"
        ∷ "reserve1" ∷ "timestamp" ∷ "slot" ∷ "fee_paid0" ∷ "fee_paid1" ∷ [];
    touched = [];
  }

  abbrev pub insert_mint : (event : MintEvent) → (tx_signature : String) → (now : ℕ) → Statement
  insert_mint event tx_signature now = record {
    table = "adjust_liquidity";
    columns =
        "pair" ∷ "user_address" ∷ "amount0" ∷ "amount1" ∷ "liquidity" ∷ "tx_sig" ∷ "timestamp"
        ∷ "event_type" ∷ "slot" ∷ [];
    values =
        text (db.to_string event.metadata.pair)
        ∷ text (db.to_string event.metadata.signer)
        ∷ number event.amount0
        ∷ number event.amount1
        ∷ number event.liquidity
        ∷ text tx_signature
        ∷ time now
        ∷ text "add"
        ∷ number event.metadata.slot
        ∷ [];
    conflict = "tx_sig" ∷ "timestamp" ∷ [];
    excluded =
        "pair" ∷ "user_address" ∷ "amount0" ∷ "amount1" ∷ "liquidity" ∷ "timestamp" ∷ "event_type"
        ∷ "slot" ∷ [];
    touched = [];
  }

  abbrev pub insert_burn : (event : BurnEvent) → (tx_signature : String) → (now : ℕ) → Statement
  insert_burn event tx_signature now = record {
    table = "adjust_liquidity";
    columns =
        "pair" ∷ "user_address" ∷ "amount0" ∷ "amount1" ∷ "liquidity" ∷ "tx_sig" ∷ "timestamp"
        ∷ "event_type" ∷ "slot" ∷ [];
    values =
        text (db.to_string event.metadata.pair)
        ∷ text (db.to_string event.metadata.signer)
        ∷ number event.amount0
        ∷ number event.amount1
        ∷ number event.liquidity
        ∷ text tx_signature
        ∷ time now
        ∷ text "remove"
        ∷ number event.metadata.slot
        ∷ [];
    conflict = "tx_sig" ∷ "timestamp" ∷ [];
    excluded =
        "pair" ∷ "user_address" ∷ "amount0" ∷ "amount1" ∷ "liquidity" ∷ "timestamp" ∷ "event_type"
        ∷ "slot" ∷ [];
    touched = [];
  }

  abbrev pub insert_adjust_collateral_events :
      (event : AdjustCollateralEvent) → (tx_signature : String) → (slot : ℤ) → (now : ℕ) → Statement
  insert_adjust_collateral_events event tx_signature slot now = record {
    table = "adjust_collateral_events";
    columns =
        "pair" ∷ "signer" ∷ "amount0" ∷ "amount1" ∷ "transaction_signature" ∷ "slot"
        ∷ "event_timestamp" ∷ [];
    values =
        text (db.to_string event.metadata.pair)
        ∷ text (db.to_string event.metadata.signer)
        ∷ integer event.amount0
        ∷ integer event.amount1
        ∷ text tx_signature
        ∷ integer slot
        ∷ time now
        ∷ [];
    conflict = "transaction_signature" ∷ [];
    excluded = "pair" ∷ "signer" ∷ "amount0" ∷ "amount1" ∷ "slot" ∷ "event_timestamp" ∷ [];
    touched = [];
  }

  abbrev pub insert_adjust_debt_events :
      (event : AdjustDebtEvent) → (tx_signature : String) → (slot : ℤ) → (now : ℕ) → Statement
  insert_adjust_debt_events event tx_signature slot now = record {
    table = "adjust_debt_events";
    columns =
        "pair" ∷ "signer" ∷ "amount0" ∷ "amount1" ∷ "transaction_signature" ∷ "slot"
        ∷ "event_timestamp" ∷ [];
    values =
        text (db.to_string event.metadata.pair)
        ∷ text (db.to_string event.metadata.signer)
        ∷ integer event.amount0
        ∷ integer event.amount1
        ∷ text tx_signature
        ∷ integer slot
        ∷ time now
        ∷ [];
    conflict = "transaction_signature" ∷ [];
    excluded = "pair" ∷ "signer" ∷ "amount0" ∷ "amount1" ∷ "slot" ∷ "event_timestamp" ∷ [];
    touched = [];
  }
