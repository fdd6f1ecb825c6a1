-- ===== src/Decoder/Alternatives/Encoded.antt =====
-- Decoding what the program encoded.
use omnipair_indexer.Base.{ℕ, none, some, List, ◌++◌, ◌≡◌, refl, ap, ◌∙◌, get_elem?}
use omnipair_indexer.Solana.{Instruction}
use omnipair_indexer.Borsh.{Borsh, value_of}
use omnipair_indexer.Borsh.Reads.{Reads}
use omnipair_indexer.Borsh.Layout.{Field, Encodes}
use omnipair_indexer.Decoder.{Alternative}
use omnipair_indexer.Decoder.Calls.Layout.{
  add_collateral_fields, add_collateral-Reads, add_liquidity_fields, add_liquidity-Reads,
  borrow_fields, borrow-Reads, claim_protocol_fees_fields, claim_protocol_fees-Reads,
  flashloan_fields, flashloan-Reads, init_futarchy_authority_fields, init_futarchy_authority-Reads,
  initialize_fields, initialize-Reads, liquidate_fields, liquidate-Reads, remove_collateral_fields,
  remove_collateral-Reads, remove_liquidity_fields, remove_liquidity-Reads, repay_fields,
  repay-Reads, set_global_reduce_only_fields, set_global_reduce_only-Reads,
  set_pair_reduce_only_fields, set_pair_reduce_only-Reads, swap_fields, swap-Reads,
  update_futarchy_authority_fields, update_futarchy_authority-Reads, update_protocol_revenue_fields,
  update_protocol_revenue-Reads, update_revenue_recipients_fields, update_revenue_recipients-Reads,
  view_pair_data_fields, view_pair_data-Reads, view_user_position_data_fields,
  view_user_position_data-Reads,
}
use omnipair_indexer.Decoder.Events.Layout.{
  adjust_collateral_event_fields, adjust_collateral_event-Reads, adjust_debt_event_fields,
  adjust_debt_event-Reads, adjust_liquidity_event_fields, adjust_liquidity_event-Reads,
  burn_event_fields, burn_event-Reads, claim_protocol_fees_event_fields,
  claim_protocol_fees_event-Reads, flashloan_event_fields, flashloan_event-Reads, mint_event_fields,
  mint_event-Reads, pair_created_event_fields, pair_created_event-Reads, swap_event_fields,
  swap_event-Reads, update_pair_event_fields, update_pair_event-Reads,
  user_liquidity_position_updated_event_fields, user_liquidity_position_updated_event-Reads,
  user_position_created_event_fields, user_position_created_event-Reads,
  user_position_liquidated_event_fields, user_position_liquidated_event-Reads,
  user_position_updated_event_fields, user_position_updated_event-Reads,
}
use omnipair_indexer.Decoder.Instructions.{
  OmnipairInstruction, add_collateral, add_liquidity, borrow, claim_protocol_fees, flashloan,
  init_futarchy_authority, initialize, liquidate, remove_collateral, remove_liquidity, repay,
  set_global_reduce_only, set_pair_reduce_only, swap, update_futarchy_authority,
  update_protocol_revenue, update_revenue_recipients, view_pair_data, view_user_position_data,
  adjust_collateral_event, adjust_debt_event, adjust_liquidity_event, burn_event,
  claim_protocol_fees_event, flashloan_event, mint_event, pair_created_event, swap_event,
  update_pair_event, user_liquidity_position_updated_event, user_position_created_event,
  user_position_liquidated_event, user_position_updated_event,
}
use omnipair_indexer.Decoder.Alternatives.{
  alternatives, decode_instruction, add_collateral_alternative, add_liquidity_alternative,
  borrow_alternative, claim_protocol_fees_alternative, flashloan_alternative,
  init_futarchy_authority_alternative, initialize_alternative, liquidate_alternative,
  remove_collateral_alternative, remove_liquidity_alternative, repay_alternative,
  set_global_reduce_only_alternative, set_pair_reduce_only_alternative, swap_alternative,
  update_futarchy_authority_alternative, update_protocol_revenue_alternative,
  update_revenue_recipients_alternative, view_pair_data_alternative,
  view_user_position_data_alternative, adjust_collateral_event_alternative,
  adjust_debt_event_alternative, adjust_liquidity_event_alternative, burn_event_alternative,
  claim_protocol_fees_event_alternative, flashloan_event_alternative, mint_event_alternative,
  pair_created_event_alternative, swap_event_alternative, update_pair_event_alternative,
  user_liquidity_position_updated_event_alternative, user_position_created_event_alternative,
  user_position_liquidated_event_alternative, user_position_updated_event_alternative,
}
use omnipair_indexer.Decoder.Alternatives.Dispatch.{delivered, decode_instruction-dispatch}

-- The type of an instruction, with its discriminator and its reader.
unfoldable pub alternative_of : Borsh → OmnipairInstruction → Alternative OmnipairInstruction
alternative_of borsh (add_collateral x) = add_collateral_alternative borsh
alternative_of borsh (add_liquidity x) = add_liquidity_alternative borsh
alternative_of borsh (borrow x) = borrow_alternative borsh
alternative_of borsh (claim_protocol_fees x) = claim_protocol_fees_alternative borsh
alternative_of borsh (flashloan x) = flashloan_alternative borsh
alternative_of borsh (init_futarchy_authority x) = init_futarchy_authority_alternative borsh
alternative_of borsh (initialize x) = initialize_alternative borsh
alternative_of borsh (liquidate x) = liquidate_alternative borsh
alternative_of borsh (remove_collateral x) = remove_collateral_alternative borsh
alternative_of borsh (remove_liquidity x) = remove_liquidity_alternative borsh
alternative_of borsh (repay x) = repay_alternative borsh
alternative_of borsh (set_global_reduce_only x) = set_global_reduce_only_alternative borsh
alternative_of borsh (set_pair_reduce_only x) = set_pair_reduce_only_alternative borsh
alternative_of borsh (swap x) = swap_alternative borsh
alternative_of borsh (update_futarchy_authority x) = update_futarchy_authority_alternative borsh
alternative_of borsh (update_protocol_revenue x) = update_protocol_revenue_alternative borsh
alternative_of borsh (update_revenue_recipients x) = update_revenue_recipients_alternative borsh
alternative_of borsh (view_pair_data x) = view_pair_data_alternative borsh
alternative_of borsh (view_user_position_data x) = view_user_position_data_alternative borsh
alternative_of borsh (adjust_collateral_event x) = adjust_collateral_event_alternative borsh
alternative_of borsh (adjust_debt_event x) = adjust_debt_event_alternative borsh
alternative_of borsh (adjust_liquidity_event x) = adjust_liquidity_event_alternative borsh
alternative_of borsh (burn_event x) = burn_event_alternative borsh
alternative_of borsh (claim_protocol_fees_event x) = claim_protocol_fees_event_alternative borsh
alternative_of borsh (flashloan_event x) = flashloan_event_alternative borsh
alternative_of borsh (mint_event x) = mint_event_alternative borsh
alternative_of borsh (pair_created_event x) = pair_created_event_alternative borsh
alternative_of borsh (swap_event x) = swap_event_alternative borsh
alternative_of borsh (update_pair_event x) = update_pair_event_alternative borsh
alternative_of borsh (user_liquidity_position_updated_event x) =
    user_liquidity_position_updated_event_alternative borsh
alternative_of borsh (user_position_created_event x) = user_position_created_event_alternative borsh
alternative_of borsh (user_position_liquidated_event x) =
    user_position_liquidated_event_alternative borsh
alternative_of borsh (user_position_updated_event x) = user_position_updated_event_alternative borsh

-- The fields of an instruction or event.
unfoldable pub fields : Borsh → OmnipairInstruction → List Field
fields borsh (add_collateral x) = add_collateral_fields borsh x
fields borsh (add_liquidity x) = add_liquidity_fields borsh x
fields borsh (borrow x) = borrow_fields borsh x
fields borsh (claim_protocol_fees x) = claim_protocol_fees_fields borsh x
fields borsh (flashloan x) = flashloan_fields borsh x
fields borsh (init_futarchy_authority x) = init_futarchy_authority_fields borsh x
fields borsh (initialize x) = initialize_fields borsh x
fields borsh (liquidate x) = liquidate_fields borsh x
fields borsh (remove_collateral x) = remove_collateral_fields borsh x
fields borsh (remove_liquidity x) = remove_liquidity_fields borsh x
fields borsh (repay x) = repay_fields borsh x
fields borsh (set_global_reduce_only x) = set_global_reduce_only_fields borsh x
fields borsh (set_pair_reduce_only x) = set_pair_reduce_only_fields borsh x
fields borsh (swap x) = swap_fields borsh x
fields borsh (update_futarchy_authority x) = update_futarchy_authority_fields borsh x
fields borsh (update_protocol_revenue x) = update_protocol_revenue_fields borsh x
fields borsh (update_revenue_recipients x) = update_revenue_recipients_fields borsh x
fields borsh (view_pair_data x) = view_pair_data_fields borsh x
fields borsh (view_user_position_data x) = view_user_position_data_fields borsh x
fields borsh (adjust_collateral_event x) = adjust_collateral_event_fields borsh x
fields borsh (adjust_debt_event x) = adjust_debt_event_fields borsh x
fields borsh (adjust_liquidity_event x) = adjust_liquidity_event_fields borsh x
fields borsh (burn_event x) = burn_event_fields borsh x
fields borsh (claim_protocol_fees_event x) = claim_protocol_fees_event_fields borsh x
fields borsh (flashloan_event x) = flashloan_event_fields borsh x
fields borsh (mint_event x) = mint_event_fields borsh x
fields borsh (pair_created_event x) = pair_created_event_fields borsh x
fields borsh (swap_event x) = swap_event_fields borsh x
fields borsh (update_pair_event x) = update_pair_event_fields borsh x
fields borsh (user_liquidity_position_updated_event x) =
    user_liquidity_position_updated_event_fields borsh x
fields borsh (user_position_created_event x) = user_position_created_event_fields borsh x
fields borsh (user_position_liquidated_event x) = user_position_liquidated_event_fields borsh x
fields borsh (user_position_updated_event x) = user_position_updated_event_fields borsh x

decoded :
    (borsh : Borsh) (i : ℕ) (a : Alternative OmnipairInstruction)
    → get_elem? (alternatives borsh) i ≡ some a
    → (x : a.Content) (bytes rest : List ℕ) → Reads a.read bytes x
    → (ix : Instruction) → ix.bytes ≡ a.discriminator ++ (bytes ++ rest)
    → decode_instruction borsh ix ≡ delivered ix (some (a.variant x))
decoded borsh i a found x bytes rest reads ix e =
    decode_instruction-dispatch borsh i a found ix (bytes ++ rest) e
    ∙ ap (λ o. delivered ix (elim (value_of o) [ none ↦ none | some c ↦ some (a.variant c) ]))
        (reads rest)

-- An instruction or event whose data is its discriminator followed by the bytes of its fields, in the
-- order they are declared, is decoded to itself, with the program and the accounts of the
-- instruction, whatever bytes follow.
pub decode_instruction-encoded :
    (borsh : Borsh) (v : OmnipairInstruction) (bytes rest : List ℕ) (ix : Instruction)
    → Encodes (fields borsh v) bytes
    → ix.bytes ≡ (alternative_of borsh v).discriminator ++ (bytes ++ rest)
    → decode_instruction borsh ix ≡ delivered ix (some v)
unfolding fields alternative_of alternatives add_collateral_alternative add_liquidity_alternative
    borrow_alternative claim_protocol_fees_alternative flashloan_alternative
    init_futarchy_authority_alternative initialize_alternative liquidate_alternative
    remove_collateral_alternative remove_liquidity_alternative repay_alternative
    set_global_reduce_only_alternative set_pair_reduce_only_alternative swap_alternative
    update_futarchy_authority_alternative update_protocol_revenue_alternative
    update_revenue_recipients_alternative view_pair_data_alternative
    view_user_position_data_alternative adjust_collateral_event_alternative
    adjust_debt_event_alternative adjust_liquidity_event_alternative burn_event_alternative
    claim_protocol_fees_event_alternative flashloan_event_alternative mint_event_alternative
    pair_created_event_alternative swap_event_alternative update_pair_event_alternative
    user_liquidity_position_updated_event_alternative user_position_created_event_alternative
    user_position_liquidated_event_alternative user_position_updated_event_alternative
decode_instruction-encoded borsh (add_collateral x) bytes rest ix h e =
    decoded borsh 0 (add_collateral_alternative borsh) refl x bytes rest
      (add_collateral-Reads borsh x bytes h) ix e
decode_instruction-encoded borsh (add_liquidity x) bytes rest ix h e =
    decoded borsh 1 (add_liquidity_alternative borsh) refl x bytes rest
      (add_liquidity-Reads borsh x bytes h) ix e
decode_instruction-encoded borsh (borrow x) bytes rest ix h e =
    decoded borsh 2 (borrow_alternative borsh) refl x bytes rest (borrow-Reads borsh x bytes h) ix e
decode_instruction-encoded borsh (claim_protocol_fees x) bytes rest ix h e =
    decoded borsh 3 (claim_protocol_fees_alternative borsh) refl x bytes rest
      (claim_protocol_fees-Reads borsh x bytes h) ix e
decode_instruction-encoded borsh (flashloan x) bytes rest ix h e =
    decoded borsh 4 (flashloan_alternative borsh) refl x bytes rest
      (flashloan-Reads borsh x bytes h) ix e
decode_instruction-encoded borsh (init_futarchy_authority x) bytes rest ix h e =
    decoded borsh 5 (init_futarchy_authority_alternative borsh) refl x bytes rest
      (init_futarchy_authority-Reads borsh x bytes h) ix e
decode_instruction-encoded borsh (initialize x) bytes rest ix h e =
    decoded borsh 6 (initialize_alternative borsh) refl x bytes rest
      (initialize-Reads borsh x bytes h) ix e
decode_instruction-encoded borsh (liquidate x) bytes rest ix h e =
    decoded borsh 7 (liquidate_alternative borsh) refl x bytes rest
      (liquidate-Reads borsh x bytes h) ix e
decode_instruction-encoded borsh (remove_collateral x) bytes rest ix h e =
    decoded borsh 8 (remove_collateral_alternative borsh) refl x bytes rest
      (remove_collateral-Reads borsh x bytes h) ix e
decode_instruction-encoded borsh (remove_liquidity x) bytes rest ix h e =
    decoded borsh 9 (remove_liquidity_alternative borsh) refl x bytes rest
      (remove_liquidity-Reads borsh x bytes h) ix e
decode_instruction-encoded borsh (repay x) bytes rest ix h e =
    decoded borsh 10 (repay_alternative borsh) refl x bytes rest (repay-Reads borsh x bytes h) ix e
decode_instruction-encoded borsh (set_global_reduce_only x) bytes rest ix h e =
    decoded borsh 11 (set_global_reduce_only_alternative borsh) refl x bytes rest
      (set_global_reduce_only-Reads borsh x bytes h) ix e
decode_instruction-encoded borsh (set_pair_reduce_only x) bytes rest ix h e =
    decoded borsh 12 (set_pair_reduce_only_alternative borsh) refl x bytes rest
      (set_pair_reduce_only-Reads borsh x bytes h) ix e
decode_instruction-encoded borsh (swap x) bytes rest ix h e =
    decoded borsh 13 (swap_alternative borsh) refl x bytes rest (swap-Reads borsh x bytes h) ix e
decode_instruction-encoded borsh (update_futarchy_authority x) bytes rest ix h e =
    decoded borsh 14 (update_futarchy_authority_alternative borsh) refl x bytes rest
      (update_futarchy_authority-Reads borsh x bytes h) ix e
decode_instruction-encoded borsh (update_protocol_revenue x) bytes rest ix h e =
    decoded borsh 15 (update_protocol_revenue_alternative borsh) refl x bytes rest
      (update_protocol_revenue-Reads borsh x bytes h) ix e
decode_instruction-encoded borsh (update_revenue_recipients x) bytes rest ix h e =
    decoded borsh 16 (update_revenue_recipients_alternative borsh) refl x bytes rest
      (update_revenue_recipients-Reads borsh x bytes h) ix e
decode_instruction-encoded borsh (view_pair_data x) bytes rest ix h e =
    decoded borsh 17 (view_pair_data_alternative borsh) refl x bytes rest
      (view_pair_data-Reads borsh x bytes h) ix e
decode_instruction-encoded borsh (view_user_position_data x) bytes rest ix h e =
    decoded borsh 18 (view_user_position_data_alternative borsh) refl x bytes rest
      (view_user_position_data-Reads borsh x bytes h) ix e
decode_instruction-encoded borsh (adjust_collateral_event x) bytes rest ix h e =
    decoded borsh 19 (adjust_collateral_event_alternative borsh) refl x bytes rest
      (adjust_collateral_event-Reads borsh x bytes h) ix e
decode_instruction-encoded borsh (adjust_debt_event x) bytes rest ix h e =
    decoded borsh 20 (adjust_debt_event_alternative borsh) refl x bytes rest
      (adjust_debt_event-Reads borsh x bytes h) ix e
decode_instruction-encoded borsh (adjust_liquidity_event x) bytes rest ix h e =
    decoded borsh 21 (adjust_liquidity_event_alternative borsh) refl x bytes rest
      (adjust_liquidity_event-Reads borsh x bytes h) ix e
decode_instruction-encoded borsh (burn_event x) bytes rest ix h e =
    decoded borsh 22 (burn_event_alternative borsh) refl x bytes rest
      (burn_event-Reads borsh x bytes h) ix e
decode_instruction-encoded borsh (claim_protocol_fees_event x) bytes rest ix h e =
    decoded borsh 23 (claim_protocol_fees_event_alternative borsh) refl x bytes rest
      (claim_protocol_fees_event-Reads borsh x bytes h) ix e
decode_instruction-encoded borsh (flashloan_event x) bytes rest ix h e =
    decoded borsh 24 (flashloan_event_alternative borsh) refl x bytes rest
      (flashloan_event-Reads borsh x bytes h) ix e
decode_instruction-encoded borsh (mint_event x) bytes rest ix h e =
    decoded borsh 25 (mint_event_alternative borsh) refl x bytes rest
      (mint_event-Reads borsh x bytes h) ix e
decode_instruction-encoded borsh (pair_created_event x) bytes rest ix h e =
    decoded borsh 26 (pair_created_event_alternative borsh) refl x bytes rest
      (pair_created_event-Reads borsh x bytes h) ix e
decode_instruction-encoded borsh (swap_event x) bytes rest ix h e =
    decoded borsh 27 (swap_event_alternative borsh) refl x bytes rest
      (swap_event-Reads borsh x bytes h) ix e
decode_instruction-encoded borsh (update_pair_event x) bytes rest ix h e =
    decoded borsh 28 (update_pair_event_alternative borsh) refl x bytes rest
      (update_pair_event-Reads borsh x bytes h) ix e
decode_instruction-encoded borsh (user_liquidity_position_updated_event x) bytes rest ix h e =
    decoded borsh 29 (user_liquidity_position_updated_event_alternative borsh) refl x bytes rest
      (user_liquidity_position_updated_event-Reads borsh x bytes h) ix e
decode_instruction-encoded borsh (user_position_created_event x) bytes rest ix h e =
    decoded borsh 30 (user_position_created_event_alternative borsh) refl x bytes rest
      (user_position_created_event-Reads borsh x bytes h) ix e
decode_instruction-encoded borsh (user_position_liquidated_event x) bytes rest ix h e =
    decoded borsh 31 (user_position_liquidated_event_alternative borsh) refl x bytes rest
      (user_position_liquidated_event-Reads borsh x bytes h) ix e
decode_instruction-encoded borsh (user_position_updated_event x) bytes rest ix h e =
    decoded borsh 32 (user_position_updated_event_alternative borsh) refl x bytes rest
      (user_position_updated_event-Reads borsh x bytes h) ix e
