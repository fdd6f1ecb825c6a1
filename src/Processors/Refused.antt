-- ===== src/Processors/Refused.antt =====
-- The processor of indexer/src/processors.rs where a query of indexer/src/database.rs fails.
use text.Mathlib.Text.{◌==◌ as str_eq}
use omnipair_indexer.Base.{
  Bool, false, none, some, List, [], ◌∷◌, ◌++◌, ◌||◌, ◌≡◌, ◌↔◌, ◌∙◌, refl, sym, inl, inr, ok,
  String, if◌then◌else◌, Bool-cases,
}
use mathlib.Core.List.{append_assoc, append-nil}
use omnipair_indexer.Instruction.{InstructionMetadata}
use omnipair_indexer.Action.{Action, ◌>>◌}
use omnipair_indexer.Database.{Database, Statement, get_db_pool, query, as_i64}
use omnipair_indexer.Database.Upserts.{
  upsert_swap_event, upsert_adjust_collateral_event, upsert_adjust_debt_event, upsert_burn_event,
  upsert_mint_event, upsert_pair_created_event, upsert_user_position_liquidated_event,
  upsert_user_position_updated_event, upsert_user_liquidity_position_updated_event, fee_paid0,
  fee_paid1,
}
use omnipair_indexer.Database.Statements.{
  insert_swaps, insert_mint, insert_burn, insert_adjust_collateral_events,
  insert_adjust_debt_events,
}
use omnipair_indexer.Database.Positions.{
  insert_user_position_updated_events, insert_user_borrow_positions,
  insert_user_position_liquidated_events, insert_pools, insert_user_lp_position_updated_events,
  insert_user_liquidity_positions,
}
use omnipair_indexer.Decoder.Instructions.{
  OmnipairInstruction, swap_event, adjust_collateral_event, adjust_debt_event, burn_event,
  mint_event, pair_created_event, user_position_liquidated_event, user_position_updated_event,
  user_liquidity_position_updated_event,
}
use omnipair_indexer.Processors.{process_event, notify}
use omnipair_indexer.Processors.Rows.{
  World, Write, row, posted, paired, borrow_row, lp_row, recording, noting, writes_of,
}

-- A pool that fails on every query to one table, with an error.
abbrev pub refusing : World → (table error : String) → Database (List Write)
refusing w t error = record (recording w) {
  execute = λ st s.
      if str_eq st.table t
      then (some error, s)
      else (none, s ++ row st.table (paired st.columns st.values) st.conflict ∷ []);
}

-- Some row is of the table.
abbrev pub touches : (table : String) → List Write → Bool
touches t [] = false
touches t (row table columns conflict ∷ ws) = str_eq table t || touches t ws
touches t (posted pair token0 token1 ∷ ws) = touches t ws

-- What is written before the first row of the table.
abbrev pub before : (table : String) → List Write → List Write
before t [] = []
before t (row table columns conflict ∷ ws) =
    if str_eq table t then [] else row table columns conflict ∷ before t ws
before t (posted pair token0 token1 ∷ ws) = posted pair token0 token1 ∷ before t ws

module _ (w : World) (t error : String) where
  -- The action makes these writes up to the first that is refused, and is fine if none is.
  abbrev Stops : Action (List Write) (Unit {0}) → List Write → Type 0
  Stops m ws =
      (s : List Write) → ((m s).1 ≡ s ++ before t ws) × (((m s).0 ≡ ok tt) ↔ (touches t ws ≡ false))

  abbrev row_of : Statement → Write
  row_of st = row st.table (paired st.columns st.values) st.conflict

  query-Stops :
      (what : String) (st : Statement) → Stops (query (refusing w t error) what st) (row_of st ∷ [])
  query-Stops what st s = elim (Bool-cases (str_eq st.table t)) [
    | inl hit ↦ rw hit (sym (append-nil s), (λ e. cc, λ e. cc))
    | inr free ↦ rw free (refl, (λ e. refl, λ e. refl))
  ]

  then-Stops :
      (what : String) (st : Statement) (k : Action (List Write) (Unit {0})) (us : List Write)
      → Stops k us
      → Stops (query (refusing w t error) what st >> k) (row_of st ∷ us)
  then-Stops what st k us h s = elim (Bool-cases (str_eq st.table t)) [
    | inl hit ↦ rw hit (sym (append-nil s), (λ e. cc, λ e. cc))
    | inr free ↦
        let (written, fine) = h (s ++ row_of st ∷ []) in
        rw free (written ∙ append_assoc s (row_of st ∷ []) (before t us), fine)
  ]

  process_event-Stops :
      (v : OmnipairInstruction) (m : InstructionMetadata)
      → Stops (process_event (refusing w t error) (noting w) v m) (writes_of w v m)
  unfolding process_event writes_of upsert_swap_event upsert_adjust_collateral_event
      upsert_adjust_debt_event upsert_burn_event upsert_mint_event upsert_pair_created_event
      upsert_user_position_liquidated_event upsert_user_position_updated_event
      upsert_user_liquidity_position_updated_event get_db_pool fee_paid0 fee_paid1
  process_event-Stops (swap_event e) m = query-Stops "Failed to upsert swap" (
      insert_swaps (refusing w t error) e (w.signature m.transaction_metadata.signature)
        (as_i64 m.transaction_metadata.slot) (fee_paid0 (refusing w t error) e)
        (fee_paid1 (refusing w t error) e) w.now)
  process_event-Stops (mint_event e) m =
      query-Stops "Failed to upsert mint event"
        (insert_mint (refusing w t error) e (w.signature m.transaction_metadata.signature) w.now)
  process_event-Stops (burn_event e) m =
      query-Stops "Failed to upsert burn event"
        (insert_burn (refusing w t error) e (w.signature m.transaction_metadata.signature) w.now)
  process_event-Stops (adjust_collateral_event e) m =
      query-Stops "Failed to upsert adjust collateral event" (
        insert_adjust_collateral_events (refusing w t error) e
          (w.signature m.transaction_metadata.signature) (as_i64 m.transaction_metadata.slot) w.now)
  process_event-Stops (adjust_debt_event e) m = query-Stops "Failed to upsert adjust debt event" (
      insert_adjust_debt_events (refusing w t error) e
        (w.signature m.transaction_metadata.signature) (as_i64 m.transaction_metadata.slot) w.now)
  process_event-Stops (user_position_updated_event e) m =
      then-Stops "Failed to upsert user position updated event"
        (insert_user_position_updated_events (refusing w t error) e
          (w.signature m.transaction_metadata.signature) (as_i64 m.transaction_metadata.slot) w.now)
        (query (refusing w t error) "Failed to upsert user borrow position" (
          insert_user_borrow_positions (refusing w t error) e (as_i64 m.transaction_metadata.slot)
            w.now w.now))
        (borrow_row w e m ∷ [])
        (query-Stops "Failed to upsert user borrow position" (
          insert_user_borrow_positions (refusing w t error) e (as_i64 m.transaction_metadata.slot)
            w.now w.now))
  process_event-Stops (user_position_liquidated_event e) m =
      query-Stops "Failed to upsert user position liquidated event" (
        insert_user_position_liquidated_events (refusing w t error) e
          (w.signature m.transaction_metadata.signature) (as_i64 m.transaction_metadata.slot) w.now)
  process_event-Stops (pair_created_event e) m =
      then-Stops "Failed to upsert pair created event" (insert_pools (refusing w t error) e)
        (notify (refusing w t error) (noting w) e.metadata.pair e.token0 e.token1)
        (posted (w.key e.metadata.pair) (w.key e.token0) (w.key e.token1) ∷ [])
        (λ s. (refl, (λ e. refl, λ e. refl)))
  process_event-Stops (user_liquidity_position_updated_event e) m =
      then-Stops "Failed to insert user liquidity position updated event"
        (insert_user_lp_position_updated_events (refusing w t error) e w.now)
        (query (refusing w t error) "Failed to upsert user liquidity position"
          (insert_user_liquidity_positions (refusing w t error) e))
        (lp_row w e ∷ [])
        (query-Stops "Failed to upsert user liquidity position"
          (insert_user_liquidity_positions (refusing w t error) e))
  process_event-Stops _ m = λ s. (sym (append-nil s), (λ e. refl, λ e. refl))

  -- If every query to one table fails and no other does, an instruction that is processed makes its
  -- writes in their order up to the first to that table and none from there on, also not the
  -- notification of a new pair; and the processor returns no error exactly if none of its writes is
  -- to that table.
  pub process_event-refused :
      (v : OmnipairInstruction) (m : InstructionMetadata) (s : List Write)
      → ((process_event (refusing w t error) (noting w) v m s).1 ≡ s ++ before t (writes_of w v m))
        × (((process_event (refusing w t error) (noting w) v m s).0 ≡ ok tt)
            ↔ (touches t (writes_of w v m) ≡ false))
  process_event-refused v m s = process_event-Stops v m s
