-- ===== src/Decoder/Calls/Layout.antt =====
-- The bytes of an instruction after its discriminator.
use omnipair_indexer.Base.{ℕ, List, [], ◌∷◌}
use omnipair_indexer.Borsh.{Borsh}
use omnipair_indexer.Borsh.Reads.{Reads}
use omnipair_indexer.Borsh.Layout.{Field, field, Encodes, field-Reads, last-Reads, end-Reads}
use omnipair_indexer.Decoder.Types.{
  read_adjust_collateral_args, read_add_liquidity_args, read_adjust_debt_args, read_flashloan_args,
  read_init_futarchy_authority_args, read_initialize_and_bootstrap_args, read_remove_liquidity_args,
  read_set_global_reduce_only_args, read_set_pair_reduce_only_args, read_swap_args,
  read_update_futarchy_authority_args, read_update_protocol_revenue_args,
  read_update_revenue_recipients_args, read_pair_view_kind, read_emit_value_args,
  read_user_position_view_kind,
}
use omnipair_indexer.Decoder.Types.Layout.{
  adjust_collateral_args_fields, adjust_collateral_args-Reads, add_liquidity_args_fields,
  add_liquidity_args-Reads, adjust_debt_args_fields, adjust_debt_args-Reads, flashloan_args_fields,
  flashloan_args-Reads, init_futarchy_authority_args_fields, init_futarchy_authority_args-Reads,
  initialize_and_bootstrap_args_fields, initialize_and_bootstrap_args-Reads,
  remove_liquidity_args_fields, remove_liquidity_args-Reads, set_global_reduce_only_args_fields,
  set_global_reduce_only_args-Reads, set_pair_reduce_only_args_fields,
  set_pair_reduce_only_args-Reads, swap_args_fields, swap_args-Reads,
  update_futarchy_authority_args_fields, update_futarchy_authority_args-Reads,
  update_protocol_revenue_args_fields, update_protocol_revenue_args-Reads,
  update_revenue_recipients_args_fields, update_revenue_recipients_args-Reads,
  emit_value_args_fields, emit_value_args-Reads,
}
use omnipair_indexer.Decoder.Calls.{
  AddCollateral, AddLiquidity, Borrow, ClaimProtocolFees, Flashloan, InitFutarchyAuthority,
  Initialize, Liquidate, RemoveCollateral, RemoveLiquidity, Repay, SetGlobalReduceOnly,
  SetPairReduceOnly, Swap, UpdateFutarchyAuthority, UpdateProtocolRevenue, UpdateRevenueRecipients,
  ViewPairData, ViewUserPositionData, read_add_collateral, read_add_liquidity, read_borrow,
  read_claim_protocol_fees, read_flashloan, read_init_futarchy_authority, read_initialize,
  read_liquidate, read_remove_collateral, read_remove_liquidity, read_repay,
  read_set_global_reduce_only, read_set_pair_reduce_only, read_swap, read_update_futarchy_authority,
  read_update_protocol_revenue, read_update_revenue_recipients, read_view_pair_data,
  read_view_user_position_data,
}

module _ (borsh : Borsh) where
  abbrev pub add_collateral_fields : AddCollateral → List Field
  add_collateral_fields e = adjust_collateral_args_fields borsh e.args

  pub add_collateral-Reads :
      (e : AddCollateral) (bytes : List ℕ)
      → Encodes (add_collateral_fields e) bytes
      → Reads (read_add_collateral borsh) bytes e
  unfolding read_add_collateral
  add_collateral-Reads e bytes all =
      last-Reads (read_adjust_collateral_args borsh) e.args _ bytes
        (adjust_collateral_args-Reads borsh e.args bytes all)

  abbrev pub add_liquidity_fields : AddLiquidity → List Field
  add_liquidity_fields e = add_liquidity_args_fields borsh e.args

  pub add_liquidity-Reads :
      (e : AddLiquidity) (bytes : List ℕ)
      → Encodes (add_liquidity_fields e) bytes
      → Reads (read_add_liquidity borsh) bytes e
  unfolding read_add_liquidity
  add_liquidity-Reads e bytes all =
      last-Reads (read_add_liquidity_args borsh) e.args _ bytes
        (add_liquidity_args-Reads borsh e.args bytes all)

  abbrev pub borrow_fields : Borrow → List Field
  borrow_fields e = adjust_debt_args_fields borsh e.args

  pub borrow-Reads :
      (e : Borrow) (bytes : List ℕ)
      → Encodes (borrow_fields e) bytes
      → Reads (read_borrow borsh) bytes e
  unfolding read_borrow
  borrow-Reads e bytes all =
      last-Reads (read_adjust_debt_args borsh) e.args _ bytes
        (adjust_debt_args-Reads borsh e.args bytes all)

  abbrev pub claim_protocol_fees_fields : ClaimProtocolFees → List Field
  claim_protocol_fees_fields _ = []

  pub claim_protocol_fees-Reads :
      (e : ClaimProtocolFees) (bytes : List ℕ)
      → Encodes (claim_protocol_fees_fields e) bytes
      → Reads (read_claim_protocol_fees borsh) bytes e
  unfolding read_claim_protocol_fees
  claim_protocol_fees-Reads e bytes = end-Reads e bytes

  abbrev pub flashloan_fields : Flashloan → List Field
  flashloan_fields e = flashloan_args_fields borsh e.args

  pub flashloan-Reads :
      (e : Flashloan) (bytes : List ℕ)
      → Encodes (flashloan_fields e) bytes
      → Reads (read_flashloan borsh) bytes e
  unfolding read_flashloan
  flashloan-Reads e bytes all =
      last-Reads (read_flashloan_args borsh) e.args _ bytes
        (flashloan_args-Reads borsh e.args bytes all)

  abbrev pub init_futarchy_authority_fields : InitFutarchyAuthority → List Field
  init_futarchy_authority_fields e = init_futarchy_authority_args_fields borsh e.args

  pub init_futarchy_authority-Reads :
      (e : InitFutarchyAuthority) (bytes : List ℕ)
      → Encodes (init_futarchy_authority_fields e) bytes
      → Reads (read_init_futarchy_authority borsh) bytes e
  unfolding read_init_futarchy_authority
  init_futarchy_authority-Reads e bytes all =
      last-Reads (read_init_futarchy_authority_args borsh) e.args _ bytes
        (init_futarchy_authority_args-Reads borsh e.args bytes all)

  abbrev pub initialize_fields : Initialize → List Field
  initialize_fields e = initialize_and_bootstrap_args_fields borsh e.args

  pub initialize-Reads :
      (e : Initialize) (bytes : List ℕ)
      → Encodes (initialize_fields e) bytes
      → Reads (read_initialize borsh) bytes e
  unfolding read_initialize
  initialize-Reads e bytes all =
      last-Reads (read_initialize_and_bootstrap_args borsh) e.args _ bytes
        (initialize_and_bootstrap_args-Reads borsh e.args bytes all)

  abbrev pub liquidate_fields : Liquidate → List Field
  liquidate_fields _ = []

  pub liquidate-Reads :
      (e : Liquidate) (bytes : List ℕ)
      → Encodes (liquidate_fields e) bytes
      → Reads (read_liquidate borsh) bytes e
  unfolding read_liquidate
  liquidate-Reads e bytes = end-Reads e bytes

  abbrev pub remove_collateral_fields : RemoveCollateral → List Field
  remove_collateral_fields e = adjust_collateral_args_fields borsh e.args

  pub remove_collateral-Reads :
      (e : RemoveCollateral) (bytes : List ℕ)
      → Encodes (remove_collateral_fields e) bytes
      → Reads (read_remove_collateral borsh) bytes e
  unfolding read_remove_collateral
  remove_collateral-Reads e bytes all =
      last-Reads (read_adjust_collateral_args borsh) e.args _ bytes
        (adjust_collateral_args-Reads borsh e.args bytes all)

  abbrev pub remove_liquidity_fields : RemoveLiquidity → List Field
  remove_liquidity_fields e = remove_liquidity_args_fields borsh e.args

  pub remove_liquidity-Reads :
      (e : RemoveLiquidity) (bytes : List ℕ)
      → Encodes (remove_liquidity_fields e) bytes
      → Reads (read_remove_liquidity borsh) bytes e
  unfolding read_remove_liquidity
  remove_liquidity-Reads e bytes all =
      last-Reads (read_remove_liquidity_args borsh) e.args _ bytes
        (remove_liquidity_args-Reads borsh e.args bytes all)

  abbrev pub repay_fields : Repay → List Field
  repay_fields e = adjust_debt_args_fields borsh e.args

  pub repay-Reads :
      (e : Repay) (bytes : List ℕ)
      → Encodes (repay_fields e) bytes
      → Reads (read_repay borsh) bytes e
  unfolding read_repay
  repay-Reads e bytes all =
      last-Reads (read_adjust_debt_args borsh) e.args _ bytes
        (adjust_debt_args-Reads borsh e.args bytes all)

  abbrev pub set_global_reduce_only_fields : SetGlobalReduceOnly → List Field
  set_global_reduce_only_fields e = set_global_reduce_only_args_fields borsh e.args

  pub set_global_reduce_only-Reads :
      (e : SetGlobalReduceOnly) (bytes : List ℕ)
      → Encodes (set_global_reduce_only_fields e) bytes
      → Reads (read_set_global_reduce_only borsh) bytes e
  unfolding read_set_global_reduce_only
  set_global_reduce_only-Reads e bytes all =
      last-Reads (read_set_global_reduce_only_args borsh) e.args _ bytes
        (set_global_reduce_only_args-Reads borsh e.args bytes all)

  abbrev pub set_pair_reduce_only_fields : SetPairReduceOnly → List Field
  set_pair_reduce_only_fields e = set_pair_reduce_only_args_fields borsh e.args

  pub set_pair_reduce_only-Reads :
      (e : SetPairReduceOnly) (bytes : List ℕ)
      → Encodes (set_pair_reduce_only_fields e) bytes
      → Reads (read_set_pair_reduce_only borsh) bytes e
  unfolding read_set_pair_reduce_only
  set_pair_reduce_only-Reads e bytes all =
      last-Reads (read_set_pair_reduce_only_args borsh) e.args _ bytes
        (set_pair_reduce_only_args-Reads borsh e.args bytes all)

  abbrev pub swap_fields : Swap → List Field
  swap_fields e = swap_args_fields borsh e.args

  pub swap-Reads :
      (e : Swap) (bytes : List ℕ) → Encodes (swap_fields e) bytes → Reads (read_swap borsh) bytes e
  unfolding read_swap
  swap-Reads e bytes all =
      last-Reads (read_swap_args borsh) e.args _ bytes (swap_args-Reads borsh e.args bytes all)

  abbrev pub update_futarchy_authority_fields : UpdateFutarchyAuthority → List Field
  update_futarchy_authority_fields e = update_futarchy_authority_args_fields borsh e.args

  pub update_futarchy_authority-Reads :
      (e : UpdateFutarchyAuthority) (bytes : List ℕ)
      → Encodes (update_futarchy_authority_fields e) bytes
      → Reads (read_update_futarchy_authority borsh) bytes e
  unfolding read_update_futarchy_authority
  update_futarchy_authority-Reads e bytes all =
      last-Reads (read_update_futarchy_authority_args borsh) e.args _ bytes
        (update_futarchy_authority_args-Reads borsh e.args bytes all)

  abbrev pub update_protocol_revenue_fields : UpdateProtocolRevenue → List Field
  update_protocol_revenue_fields e = update_protocol_revenue_args_fields borsh e.args

  pub update_protocol_revenue-Reads :
      (e : UpdateProtocolRevenue) (bytes : List ℕ)
      → Encodes (update_protocol_revenue_fields e) bytes
      → Reads (read_update_protocol_revenue borsh) bytes e
  unfolding read_update_protocol_revenue
  update_protocol_revenue-Reads e bytes all =
      last-Reads (read_update_protocol_revenue_args borsh) e.args _ bytes
        (update_protocol_revenue_args-Reads borsh e.args bytes all)

  abbrev pub update_revenue_recipients_fields : UpdateRevenueRecipients → List Field
  update_revenue_recipients_fields e = update_revenue_recipients_args_fields borsh e.args

  pub update_revenue_recipients-Reads :
      (e : UpdateRevenueRecipients) (bytes : List ℕ)
      → Encodes (update_revenue_recipients_fields e) bytes
      → Reads (read_update_revenue_recipients borsh) bytes e
  unfolding read_update_revenue_recipients
  update_revenue_recipients-Reads e bytes all =
      last-Reads (read_update_revenue_recipients_args borsh) e.args _ bytes
        (update_revenue_recipients_args-Reads borsh e.args bytes all)

  abbrev pub view_pair_data_fields : ViewPairData → List Field
  view_pair_data_fields e =
      field (read_pair_view_kind borsh) e.getter ∷ emit_value_args_fields borsh e.args

  pub view_pair_data-Reads :
      (e : ViewPairData) (bytes : List ℕ)
      → Encodes (view_pair_data_fields e) bytes
      → Reads (read_view_pair_data borsh) bytes e
  unfolding read_view_pair_data
  view_pair_data-Reads e bytes =
      field-Reads (read_pair_view_kind borsh) e.getter _ e _ bytes λ bytes all.
        last-Reads (read_emit_value_args borsh) e.args _ bytes
          (emit_value_args-Reads borsh e.args bytes all)

  abbrev pub view_user_position_data_fields : ViewUserPositionData → List Field
  view_user_position_data_fields e = field (read_user_position_view_kind borsh) e.getter ∷ []

  pub view_user_position_data-Reads :
      (e : ViewUserPositionData) (bytes : List ℕ)
      → Encodes (view_user_position_data_fields e) bytes
      → Reads (read_view_user_position_data borsh) bytes e
  unfolding read_view_user_position_data
  view_user_position_data-Reads e bytes =
      field-Reads (read_user_position_view_kind borsh) e.getter _ e _ bytes
        λ bytes. end-Reads e bytes
