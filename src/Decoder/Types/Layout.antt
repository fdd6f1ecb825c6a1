-- ===== src/Decoder/Types/Layout.antt =====
-- The bytes of the arguments of an instruction: their fields in the order they are declared.
use omnipair_indexer.Base.{ℕ, List, [], ◌∷◌}
use omnipair_indexer.Borsh.{Borsh}
use omnipair_indexer.Borsh.Reads.{Reads}
use omnipair_indexer.Borsh.Layout.{Field, field, Encodes, field-Reads, end-Reads}
use omnipair_indexer.Decoder.Types.{
  AdjustCollateralArgs, AddLiquidityArgs, AdjustDebtArgs, FlashloanArgs, InitFutarchyAuthorityArgs,
  InitializeAndBootstrapArgs, RemoveLiquidityArgs, SetGlobalReduceOnlyArgs, SetPairReduceOnlyArgs,
  SwapArgs, UpdateFutarchyAuthorityArgs, RevenueDistribution, UpdateProtocolRevenueArgs,
  UpdateRevenueRecipientsArgs, EmitValueArgs, read_adjust_collateral_args, read_add_liquidity_args,
  read_adjust_debt_args, read_flashloan_args, read_init_futarchy_authority_args,
  read_initialize_and_bootstrap_args, read_remove_liquidity_args, read_set_global_reduce_only_args,
  read_set_pair_reduce_only_args, read_swap_args, read_update_futarchy_authority_args,
  read_revenue_distribution, read_update_protocol_revenue_args, read_update_revenue_recipients_args,
  read_emit_value_args,
}

module _ (borsh : Borsh) where
  abbrev pub adjust_collateral_args_fields : AdjustCollateralArgs → List Field
  adjust_collateral_args_fields e = field borsh.u64 e.amount ∷ []

  pub adjust_collateral_args-Reads :
      (e : AdjustCollateralArgs) (bytes : List ℕ)
      → Encodes (adjust_collateral_args_fields e) bytes
      → Reads (read_adjust_collateral_args borsh) bytes e
  unfolding read_adjust_collateral_args
  adjust_collateral_args-Reads e bytes =
      field-Reads borsh.u64 e.amount _ e _ bytes λ bytes. end-Reads e bytes

  abbrev pub add_liquidity_args_fields : AddLiquidityArgs → List Field
  add_liquidity_args_fields e =
      field borsh.u64 e.amount0_in
      ∷ field borsh.u64 e.amount1_in
      ∷ field borsh.u64 e.min_liquidity_out
      ∷ []

  pub add_liquidity_args-Reads :
      (e : AddLiquidityArgs) (bytes : List ℕ)
      → Encodes (add_liquidity_args_fields e) bytes
      → Reads (read_add_liquidity_args borsh) bytes e
  unfolding read_add_liquidity_args
  add_liquidity_args-Reads e bytes = field-Reads borsh.u64 e.amount0_in _ e _ bytes λ bytes.
      field-Reads borsh.u64 e.amount1_in _ e _ bytes
        λ bytes. field-Reads borsh.u64 e.min_liquidity_out _ e _ bytes λ bytes. end-Reads e bytes

  abbrev pub adjust_debt_args_fields : AdjustDebtArgs → List Field
  adjust_debt_args_fields e = field borsh.u64 e.amount ∷ []

  pub adjust_debt_args-Reads :
      (e : AdjustDebtArgs) (bytes : List ℕ)
      → Encodes (adjust_debt_args_fields e) bytes
      → Reads (read_adjust_debt_args borsh) bytes e
  unfolding read_adjust_debt_args
  adjust_debt_args-Reads e bytes =
      field-Reads borsh.u64 e.amount _ e _ bytes λ bytes. end-Reads e bytes

  abbrev pub flashloan_args_fields : FlashloanArgs → List Field
  flashloan_args_fields e =
      field borsh.u64 e.amount0 ∷ field borsh.u64 e.amount1 ∷ field borsh.byte_vec e.bytes ∷ []

  pub flashloan_args-Reads :
      (e : FlashloanArgs) (bytes : List ℕ)
      → Encodes (flashloan_args_fields e) bytes
      → Reads (read_flashloan_args borsh) bytes e
  unfolding read_flashloan_args
  flashloan_args-Reads e bytes = field-Reads borsh.u64 e.amount0 _ e _ bytes λ bytes.
      field-Reads borsh.u64 e.amount1 _ e _ bytes
        λ bytes. field-Reads borsh.byte_vec e.bytes _ e _ bytes λ bytes. end-Reads e bytes

  abbrev pub init_futarchy_authority_args_fields : InitFutarchyAuthorityArgs → List Field
  init_futarchy_authority_args_fields e =
      field borsh.pubkey e.authority
      ∷ field borsh.u16 e.swap_bps
      ∷ field borsh.u16 e.interest_bps
      ∷ field borsh.pubkey e.futarchy_treasury
      ∷ field borsh.u16 e.futarchy_treasury_bps
      ∷ field borsh.pubkey e.buybacks_vault
      ∷ field borsh.u16 e.buybacks_vault_bps
      ∷ field borsh.pubkey e.team_treasury
      ∷ field borsh.u16 e.team_treasury_bps
      ∷ []

  pub init_futarchy_authority_args-Reads :
      (e : InitFutarchyAuthorityArgs) (bytes : List ℕ)
      → Encodes (init_futarchy_authority_args_fields e) bytes
      → Reads (read_init_futarchy_authority_args borsh) bytes e
  unfolding read_init_futarchy_authority_args
  init_futarchy_authority_args-Reads e bytes =
      field-Reads borsh.pubkey e.authority _ e _ bytes λ bytes.
        field-Reads borsh.u16 e.swap_bps _ e _ bytes λ bytes.
          field-Reads borsh.u16 e.interest_bps _ e _ bytes λ bytes.
            field-Reads borsh.pubkey e.futarchy_treasury _ e _ bytes λ bytes.
              field-Reads borsh.u16 e.futarchy_treasury_bps _ e _ bytes λ bytes.
                field-Reads borsh.pubkey e.buybacks_vault _ e _ bytes λ bytes.
                  field-Reads borsh.u16 e.buybacks_vault_bps _ e _ bytes λ bytes.
                    field-Reads borsh.pubkey e.team_treasury _ e _ bytes λ bytes.
                      field-Reads borsh.u16 e.team_treasury_bps _ e _ bytes
                        λ bytes. end-Reads e bytes

  abbrev pub initialize_and_bootstrap_args_fields : InitializeAndBootstrapArgs → List Field
  initialize_and_bootstrap_args_fields e =
      field borsh.u16 e.swap_fee_bps
      ∷ field borsh.u64 e.half_life
      ∷ field (borsh.option borsh.u16) e.fixed_cf_bps
      ∷ field (borsh.option borsh.u64) e.target_util_start_bps
      ∷ field (borsh.option borsh.u64) e.target_util_end_bps
      ∷ field (borsh.option borsh.u64) e.rate_half_life_ms
      ∷ field (borsh.option borsh.u64) e.min_rate_bps
      ∷ field (borsh.option borsh.u64) e.max_rate_bps
      ∷ field (borsh.option borsh.u64) e.initial_rate_bps
      ∷ field (borsh.byte_array 32) e.params_hash
      ∷ field borsh.u8 e.version
      ∷ field borsh.u64 e.amount0_in
      ∷ field borsh.u64 e.amount1_in
      ∷ field borsh.u64 e.min_liquidity_out
      ∷ field borsh.string e.lp_name
      ∷ field borsh.string e.lp_symbol
      ∷ field borsh.string e.lp_uri
      ∷ []

  pub initialize_and_bootstrap_args-Reads :
      (e : InitializeAndBootstrapArgs) (bytes : List ℕ)
      → Encodes (initialize_and_bootstrap_args_fields e) bytes
      → Reads (read_initialize_and_bootstrap_args borsh) bytes e
  unfolding read_initialize_and_bootstrap_args
  initialize_and_bootstrap_args-Reads e bytes =
      field-Reads borsh.u16 e.swap_fee_bps _ e _ bytes λ bytes.
        field-Reads borsh.u64 e.half_life _ e _ bytes λ bytes.
          field-Reads (borsh.option borsh.u16) e.fixed_cf_bps _ e _ bytes λ bytes.
            field-Reads (borsh.option borsh.u64) e.target_util_start_bps _ e _ bytes λ bytes.
              field-Reads (borsh.option borsh.u64) e.target_util_end_bps _ e _ bytes λ bytes.
                field-Reads (borsh.option borsh.u64) e.rate_half_life_ms _ e _ bytes λ bytes.
                  field-Reads (borsh.option borsh.u64) e.min_rate_bps _ e _ bytes λ bytes.
                    field-Reads (borsh.option borsh.u64) e.max_rate_bps _ e _ bytes λ bytes.
                      field-Reads (borsh.option borsh.u64) e.initial_rate_bps _ e _ bytes λ bytes.
                        field-Reads (borsh.byte_array 32) e.params_hash _ e _ bytes λ bytes.
                          field-Reads borsh.u8 e.version _ e _ bytes λ bytes.
                            field-Reads borsh.u64 e.amount0_in _ e _ bytes λ bytes.
                              field-Reads borsh.u64 e.amount1_in _ e _ bytes λ bytes.
                                field-Reads borsh.u64 e.min_liquidity_out _ e _ bytes λ bytes.
                                  field-Reads borsh.string e.lp_name _ e _ bytes λ bytes.
                                    field-Reads borsh.string e.lp_symbol _ e _ bytes λ bytes.
                                      field-Reads borsh.string e.lp_uri _ e _ bytes
                                        λ bytes. end-Reads e bytes

  abbrev pub remove_liquidity_args_fields : RemoveLiquidityArgs → List Field
  remove_liquidity_args_fields e =
      field borsh.u64 e.liquidity_in
      ∷ field borsh.u64 e.min_amount0_out
      ∷ field borsh.u64 e.min_amount1_out
      ∷ []

  pub remove_liquidity_args-Reads :
      (e : RemoveLiquidityArgs) (bytes : List ℕ)
      → Encodes (remove_liquidity_args_fields e) bytes
      → Reads (read_remove_liquidity_args borsh) bytes e
  unfolding read_remove_liquidity_args
  remove_liquidity_args-Reads e bytes = field-Reads borsh.u64 e.liquidity_in _ e _ bytes λ bytes.
      field-Reads borsh.u64 e.min_amount0_out _ e _ bytes
        λ bytes. field-Reads borsh.u64 e.min_amount1_out _ e _ bytes λ bytes. end-Reads e bytes

  abbrev pub set_global_reduce_only_args_fields : SetGlobalReduceOnlyArgs → List Field
  set_global_reduce_only_args_fields e = field borsh.bool e.reduce_only ∷ []

  pub set_global_reduce_only_args-Reads :
      (e : SetGlobalReduceOnlyArgs) (bytes : List ℕ)
      → Encodes (set_global_reduce_only_args_fields e) bytes
      → Reads (read_set_global_reduce_only_args borsh) bytes e
  unfolding read_set_global_reduce_only_args
  set_global_reduce_only_args-Reads e bytes =
      field-Reads borsh.bool e.reduce_only _ e _ bytes λ bytes. end-Reads e bytes

  abbrev pub set_pair_reduce_only_args_fields : SetPairReduceOnlyArgs → List Field
  set_pair_reduce_only_args_fields e = field borsh.bool e.reduce_only ∷ []

  pub set_pair_reduce_only_args-Reads :
      (e : SetPairReduceOnlyArgs) (bytes : List ℕ)
      → Encodes (set_pair_reduce_only_args_fields e) bytes
      → Reads (read_set_pair_reduce_only_args borsh) bytes e
  unfolding read_set_pair_reduce_only_args
  set_pair_reduce_only_args-Reads e bytes =
      field-Reads borsh.bool e.reduce_only _ e _ bytes λ bytes. end-Reads e bytes

  abbrev pub swap_args_fields : SwapArgs → List Field
  swap_args_fields e = field borsh.u64 e.amount_in ∷ field borsh.u64 e.min_amount_out ∷ []

  pub swap_args-Reads :
      (e : SwapArgs) (bytes : List ℕ)
      → Encodes (swap_args_fields e) bytes
      → Reads (read_swap_args borsh) bytes e
  unfolding read_swap_args
  swap_args-Reads e bytes =
      field-Reads borsh.u64 e.amount_in _ e _ bytes
        λ bytes. field-Reads borsh.u64 e.min_amount_out _ e _ bytes λ bytes. end-Reads e bytes

  abbrev pub update_futarchy_authority_args_fields : UpdateFutarchyAuthorityArgs → List Field
  update_futarchy_authority_args_fields e = field borsh.pubkey e.new_authority ∷ []

  pub update_futarchy_authority_args-Reads :
      (e : UpdateFutarchyAuthorityArgs) (bytes : List ℕ)
      → Encodes (update_futarchy_authority_args_fields e) bytes
      → Reads (read_update_futarchy_authority_args borsh) bytes e
  unfolding read_update_futarchy_authority_args
  update_futarchy_authority_args-Reads e bytes =
      field-Reads borsh.pubkey e.new_authority _ e _ bytes λ bytes. end-Reads e bytes

  abbrev pub revenue_distribution_fields : RevenueDistribution → List Field
  revenue_distribution_fields e =
      field borsh.u16 e.futarchy_treasury_bps
      ∷ field borsh.u16 e.buybacks_vault_bps
      ∷ field borsh.u16 e.team_treasury_bps
      ∷ []

  pub revenue_distribution-Reads :
      (e : RevenueDistribution) (bytes : List ℕ)
      → Encodes (revenue_distribution_fields e) bytes
      → Reads (read_revenue_distribution borsh) bytes e
  unfolding read_revenue_distribution
  revenue_distribution-Reads e bytes =
      field-Reads borsh.u16 e.futarchy_treasury_bps _ e _ bytes λ bytes.
        field-Reads borsh.u16 e.buybacks_vault_bps _ e _ bytes
          λ bytes. field-Reads borsh.u16 e.team_treasury_bps _ e _ bytes λ bytes. end-Reads e bytes

  abbrev pub update_protocol_revenue_args_fields : UpdateProtocolRevenueArgs → List Field
  update_protocol_revenue_args_fields e =
      field (borsh.option borsh.u16) e.swap_bps
      ∷ field (borsh.option borsh.u16) e.interest_bps
      ∷ field (borsh.option (read_revenue_distribution borsh)) e.revenue_distribution
      ∷ []

  pub update_protocol_revenue_args-Reads :
      (e : UpdateProtocolRevenueArgs) (bytes : List ℕ)
      → Encodes (update_protocol_revenue_args_fields e) bytes
      → Reads (read_update_protocol_revenue_args borsh) bytes e
  unfolding read_update_protocol_revenue_args
  update_protocol_revenue_args-Reads e bytes =
      field-Reads (borsh.option borsh.u16) e.swap_bps _ e _ bytes λ bytes.
        field-Reads (borsh.option borsh.u16) e.interest_bps _ e _ bytes λ bytes.
          field-Reads (borsh.option (read_revenue_distribution borsh)) e.revenue_distribution _ e _
            bytes λ bytes. end-Reads e bytes

  abbrev pub update_revenue_recipients_args_fields : UpdateRevenueRecipientsArgs → List Field
  update_revenue_recipients_args_fields e =
      field (borsh.option borsh.pubkey) e.futarchy_treasury
      ∷ field (borsh.option borsh.pubkey) e.buybacks_vault
      ∷ field (borsh.option borsh.pubkey) e.team_treasury
      ∷ []

  pub update_revenue_recipients_args-Reads :
      (e : UpdateRevenueRecipientsArgs) (bytes : List ℕ)
      → Encodes (update_revenue_recipients_args_fields e) bytes
      → Reads (read_update_revenue_recipients_args borsh) bytes e
  unfolding read_update_revenue_recipients_args
  update_revenue_recipients_args-Reads e bytes =
      field-Reads (borsh.option borsh.pubkey) e.futarchy_treasury _ e _ bytes λ bytes.
        field-Reads (borsh.option borsh.pubkey) e.buybacks_vault _ e _ bytes λ bytes.
          field-Reads (borsh.option borsh.pubkey) e.team_treasury _ e _ bytes
            λ bytes. end-Reads e bytes

  abbrev pub emit_value_args_fields : EmitValueArgs → List Field
  emit_value_args_fields e =
      field (borsh.option borsh.u64) e.amount ∷ field (borsh.option borsh.pubkey) e.token_mint ∷ []

  pub emit_value_args-Reads :
      (e : EmitValueArgs) (bytes : List ℕ)
      → Encodes (emit_value_args_fields e) bytes
      → Reads (read_emit_value_args borsh) bytes e
  unfolding read_emit_value_args
  emit_value_args-Reads e bytes = field-Reads (borsh.option borsh.u64) e.amount _ e _ bytes λ bytes.
      field-Reads (borsh.option borsh.pubkey) e.token_mint _ e _ bytes λ bytes. end-Reads e bytes
