-- ===== src/Decoder/Alternatives.antt =====
-- Which bytes decode to which instruction: the discriminator of each type, and `decode_instruction`
-- of indexer/decoders/omnipair_decoder/instructions/mod.rs.
pub mod Encoded
pub mod Dispatch
pub mod Genuine
use omnipair_indexer.Base.{Option, List, [], ◌∷◌}
use omnipair_indexer.Solana.{Instruction}
use omnipair_indexer.Pipes.{DecodedInstruction}
use omnipair_indexer.Borsh.{Borsh}
use omnipair_indexer.Decoder.{Alternative, try_decode_instructions}
use omnipair_indexer.Decoder.Calls.{
  AddCollateral, AddLiquidity, Borrow, ClaimProtocolFees, Flashloan, InitFutarchyAuthority,
  Initialize, Liquidate, RemoveCollateral, RemoveLiquidity, Repay, SetGlobalReduceOnly,
  SetPairReduceOnly, Swap, UpdateFutarchyAuthority, UpdateProtocolRevenue, UpdateRevenueRecipients,
  ViewPairData, ViewUserPositionData, read_add_collateral, read_add_liquidity, read_borrow,
  read_claim_protocol_fees, read_flashloan, read_init_futarchy_authority, read_initialize,
  read_liquidate, read_remove_collateral, read_remove_liquidity, read_repay,
  read_set_global_reduce_only, read_set_pair_reduce_only, read_swap, read_update_futarchy_authority,
  read_update_protocol_revenue, read_update_revenue_recipients, read_view_pair_data,
  read_view_user_position_data,
}
use omnipair_indexer.Decoder.Events.{
  AdjustCollateralEvent, AdjustDebtEvent, AdjustLiquidityEvent, BurnEvent, ClaimProtocolFeesEvent,
  FlashloanEvent, MintEvent, PairCreatedEvent, SwapEvent, UpdatePairEvent,
  UserLiquidityPositionUpdatedEvent, UserPositionCreatedEvent, UserPositionLiquidatedEvent,
  UserPositionUpdatedEvent,
}
use omnipair_indexer.Decoder.Events.Read.{
  read_adjust_collateral_event, read_adjust_debt_event, read_adjust_liquidity_event,
  read_burn_event, read_claim_protocol_fees_event, read_flashloan_event, read_mint_event,
  read_pair_created_event, read_swap_event, read_update_pair_event,
  read_user_liquidity_position_updated_event, read_user_position_created_event,
  read_user_position_liquidated_event, read_user_position_updated_event,
}
use omnipair_indexer.Decoder.Instructions.{
  OmnipairInstruction, add_collateral, add_liquidity, borrow, claim_protocol_fees, flashloan,
  init_futarchy_authority, initialize, liquidate, remove_collateral, remove_liquidity, repay,
  set_global_reduce_only, set_pair_reduce_only, swap, update_futarchy_authority,
  update_protocol_revenue, update_revenue_recipients, view_pair_data, view_user_position_data,
  adjust_collateral_event, adjust_debt_event, adjust_liquidity_event, burn_event,
  claim_protocol_fees_event, flashloan_event, mint_event, pair_created_event, swap_event,
  update_pair_event, user_liquidity_position_updated_event, user_position_created_event,
  user_position_liquidated_event, user_position_updated_event,
}

-- The types with their discriminators, each in the order of its bytes.
module _ (borsh : Borsh) where
  unfoldable pub add_collateral_alternative : Alternative OmnipairInstruction
  add_collateral_alternative = record {
    Content = AddCollateral;
    variant = add_collateral;
    discriminator = 127 ∷ 82 ∷ 121 ∷ 42 ∷ 161 ∷ 176 ∷ 249 ∷ 206 ∷ [];
    read = read_add_collateral borsh;
  }

  unfoldable pub add_liquidity_alternative : Alternative OmnipairInstruction
  add_liquidity_alternative = record {
    Content = AddLiquidity;
    variant = add_liquidity;
    discriminator = 181 ∷ 157 ∷ 89 ∷ 67 ∷ 143 ∷ 182 ∷ 52 ∷ 72 ∷ [];
    read = read_add_liquidity borsh;
  }

  unfoldable pub borrow_alternative : Alternative OmnipairInstruction
  borrow_alternative = record {
    Content = Borrow;
    variant = borrow;
    discriminator = 228 ∷ 253 ∷ 131 ∷ 202 ∷ 207 ∷ 116 ∷ 89 ∷ 18 ∷ [];
    read = read_borrow borsh;
  }

  unfoldable pub claim_protocol_fees_alternative : Alternative OmnipairInstruction
  claim_protocol_fees_alternative = record {
    Content = ClaimProtocolFees;
    variant = claim_protocol_fees;
    discriminator = 34 ∷ 142 ∷ 219 ∷ 112 ∷ 109 ∷ 54 ∷ 133 ∷ 23 ∷ [];
    read = read_claim_protocol_fees borsh;
  }

  unfoldable pub flashloan_alternative : Alternative OmnipairInstruction
  flashloan_alternative = record {
    Content = Flashloan;
    variant = flashloan;
    discriminator = 105 ∷ 33 ∷ 1 ∷ 3 ∷ 42 ∷ 158 ∷ 246 ∷ 67 ∷ [];
    read = read_flashloan borsh;
  }

  unfoldable pub init_futarchy_authority_alternative : Alternative OmnipairInstruction
  init_futarchy_authority_alternative = record {
    Content = InitFutarchyAuthority;
    variant = init_futarchy_authority;
    discriminator = 133 ∷ 110 ∷ 154 ∷ 29 ∷ 240 ∷ 206 ∷ 71 ∷ 100 ∷ [];
    read = read_init_futarchy_authority borsh;
  }

  unfoldable pub initialize_alternative : Alternative OmnipairInstruction
  initialize_alternative = record {
    Content = Initialize;
    variant = initialize;
    discriminator = 175 ∷ 175 ∷ 109 ∷ 31 ∷ 13 ∷ 152 ∷ 155 ∷ 237 ∷ [];
    read = read_initialize borsh;
  }

  unfoldable pub liquidate_alternative : Alternative OmnipairInstruction
  liquidate_alternative = record {
    Content = Liquidate;
    variant = liquidate;
    discriminator = 223 ∷ 179 ∷ 226 ∷ 125 ∷ 48 ∷ 46 ∷ 39 ∷ 74 ∷ [];
    read = read_liquidate borsh;
  }

  unfoldable pub remove_collateral_alternative : Alternative OmnipairInstruction
  remove_collateral_alternative = record {
    Content = RemoveCollateral;
    variant = remove_collateral;
    discriminator = 86 ∷ 222 ∷ 130 ∷ 86 ∷ 92 ∷ 20 ∷ 72 ∷ 65 ∷ [];
    read = read_remove_collateral borsh;
  }

  unfoldable pub remove_liquidity_alternative : Alternative OmnipairInstruction
  remove_liquidity_alternative = record {
    Content = RemoveLiquidity;
    variant = remove_liquidity;
    discriminator = 80 ∷ 85 ∷ 209 ∷ 72 ∷ 24 ∷ 206 ∷ 177 ∷ 108 ∷ [];
    read = read_remove_liquidity borsh;
  }

  unfoldable pub repay_alternative : Alternative OmnipairInstruction
  repay_alternative = record {
    Content = Repay;
    variant = repay;
    discriminator = 234 ∷ 103 ∷ 67 ∷ 82 ∷ 208 ∷ 234 ∷ 219 ∷ 166 ∷ [];
    read = read_repay borsh;
  }

  unfoldable pub set_global_reduce_only_alternative : Alternative OmnipairInstruction
  set_global_reduce_only_alternative = record {
    Content = SetGlobalReduceOnly;
    variant = set_global_reduce_only;
    discriminator = 242 ∷ 151 ∷ 123 ∷ 139 ∷ 239 ∷ 87 ∷ 249 ∷ 98 ∷ [];
    read = read_set_global_reduce_only borsh;
  }

  unfoldable pub set_pair_reduce_only_alternative : Alternative OmnipairInstruction
  set_pair_reduce_only_alternative = record {
    Content = SetPairReduceOnly;
    variant = set_pair_reduce_only;
    discriminator = 147 ∷ 113 ∷ 16 ∷ 50 ∷ 64 ∷ 88 ∷ 175 ∷ 18 ∷ [];
    read = read_set_pair_reduce_only borsh;
  }

  unfoldable pub swap_alternative : Alternative OmnipairInstruction
  swap_alternative = record {
    Content = Swap;
    variant = swap;
    discriminator = 248 ∷ 198 ∷ 158 ∷ 145 ∷ 225 ∷ 117 ∷ 135 ∷ 200 ∷ [];
    read = read_swap borsh;
  }

  unfoldable pub update_futarchy_authority_alternative : Alternative OmnipairInstruction
  update_futarchy_authority_alternative = record {
    Content = UpdateFutarchyAuthority;
    variant = update_futarchy_authority;
    discriminator = 15 ∷ 196 ∷ 157 ∷ 217 ∷ 113 ∷ 226 ∷ 89 ∷ 25 ∷ [];
    read = read_update_futarchy_authority borsh;
  }

  unfoldable pub update_protocol_revenue_alternative : Alternative OmnipairInstruction
  update_protocol_revenue_alternative = record {
    Content = UpdateProtocolRevenue;
    variant = update_protocol_revenue;
    discriminator = 176 ∷ 139 ∷ 131 ∷ 197 ∷ 40 ∷ 225 ∷ 125 ∷ 200 ∷ [];
    read = read_update_protocol_revenue borsh;
  }

  unfoldable pub update_revenue_recipients_alternative : Alternative OmnipairInstruction
  update_revenue_recipients_alternative = record {
    Content = UpdateRevenueRecipients;
    variant = update_revenue_recipients;
    discriminator = 116 ∷ 179 ∷ 137 ∷ 47 ∷ 118 ∷ 167 ∷ 65 ∷ 217 ∷ [];
    read = read_update_revenue_recipients borsh;
  }

  unfoldable pub view_pair_data_alternative : Alternative OmnipairInstruction
  view_pair_data_alternative = record {
    Content = ViewPairData;
    variant = view_pair_data;
    discriminator = 30 ∷ 231 ∷ 169 ∷ 73 ∷ 19 ∷ 161 ∷ 44 ∷ 252 ∷ [];
    read = read_view_pair_data borsh;
  }

  unfoldable pub view_user_position_data_alternative : Alternative OmnipairInstruction
  view_user_position_data_alternative = record {
    Content = ViewUserPositionData;
    variant = view_user_position_data;
    discriminator = 203 ∷ 218 ∷ 173 ∷ 213 ∷ 43 ∷ 31 ∷ 211 ∷ 152 ∷ [];
    read = read_view_user_position_data borsh;
  }

  unfoldable pub adjust_collateral_event_alternative : Alternative OmnipairInstruction
  adjust_collateral_event_alternative = record {
    Content = AdjustCollateralEvent;
    variant = adjust_collateral_event;
    discriminator =
        228 ∷ 69 ∷ 165 ∷ 46 ∷ 81 ∷ 203 ∷ 154 ∷ 29 ∷ 99 ∷ 246 ∷ 67 ∷ 126 ∷ 44 ∷ 252 ∷ 193 ∷ 33 ∷ [];
    read = read_adjust_collateral_event borsh;
  }

  unfoldable pub adjust_debt_event_alternative : Alternative OmnipairInstruction
  adjust_debt_event_alternative = record {
    Content = AdjustDebtEvent;
    variant = adjust_debt_event;
    discriminator =
        228 ∷ 69 ∷ 165 ∷ 46 ∷ 81 ∷ 203 ∷ 154 ∷ 29 ∷ 153 ∷ 8 ∷ 169 ∷ 116 ∷ 207 ∷ 116 ∷ 155 ∷ 128
        ∷ [];
    read = read_adjust_debt_event borsh;
  }

  unfoldable pub adjust_liquidity_event_alternative : Alternative OmnipairInstruction
  adjust_liquidity_event_alternative = record {
    Content = AdjustLiquidityEvent;
    variant = adjust_liquidity_event;
    discriminator =
        228 ∷ 69 ∷ 165 ∷ 46 ∷ 81 ∷ 203 ∷ 154 ∷ 29 ∷ 229 ∷ 162 ∷ 211 ∷ 39 ∷ 159 ∷ 251 ∷ 24 ∷ 78 ∷ [];
    read = read_adjust_liquidity_event borsh;
  }

  unfoldable pub burn_event_alternative : Alternative OmnipairInstruction
  burn_event_alternative = record {
    Content = BurnEvent;
    variant = burn_event;
    discriminator =
        228 ∷ 69 ∷ 165 ∷ 46 ∷ 81 ∷ 203 ∷ 154 ∷ 29 ∷ 33 ∷ 89 ∷ 47 ∷ 117 ∷ 82 ∷ 124 ∷ 238 ∷ 250 ∷ [];
    read = read_burn_event borsh;
  }

  unfoldable pub claim_protocol_fees_event_alternative : Alternative OmnipairInstruction
  claim_protocol_fees_event_alternative = record {
    Content = ClaimProtocolFeesEvent;
    variant = claim_protocol_fees_event;
    discriminator =
        228 ∷ 69 ∷ 165 ∷ 46 ∷ 81 ∷ 203 ∷ 154 ∷ 29 ∷ 131 ∷ 163 ∷ 209 ∷ 112 ∷ 123 ∷ 133 ∷ 105 ∷ 235
        ∷ [];
    read = read_claim_protocol_fees_event borsh;
  }

  unfoldable pub flashloan_event_alternative : Alternative OmnipairInstruction
  flashloan_event_alternative = record {
    Content = FlashloanEvent;
    variant = flashloan_event;
    discriminator =
        228 ∷ 69 ∷ 165 ∷ 46 ∷ 81 ∷ 203 ∷ 154 ∷ 29 ∷ 34 ∷ 49 ∷ 239 ∷ 242 ∷ 228 ∷ 45 ∷ 20 ∷ 97 ∷ [];
    read = read_flashloan_event borsh;
  }

  unfoldable pub mint_event_alternative : Alternative OmnipairInstruction
  mint_event_alternative = record {
    Content = MintEvent;
    variant = mint_event;
    discriminator =
        228 ∷ 69 ∷ 165 ∷ 46 ∷ 81 ∷ 203 ∷ 154 ∷ 29 ∷ 197 ∷ 144 ∷ 146 ∷ 149 ∷ 66 ∷ 164 ∷ 95 ∷ 16 ∷ [];
    read = read_mint_event borsh;
  }

  unfoldable pub pair_created_event_alternative : Alternative OmnipairInstruction
  pair_created_event_alternative = record {
    Content = PairCreatedEvent;
    variant = pair_created_event;
    discriminator =
        228 ∷ 69 ∷ 165 ∷ 46 ∷ 81 ∷ 203 ∷ 154 ∷ 29 ∷ 118 ∷ 0 ∷ 50 ∷ 196 ∷ 55 ∷ 255 ∷ 121 ∷ 43 ∷ [];
    read = read_pair_created_event borsh;
  }

  unfoldable pub swap_event_alternative : Alternative OmnipairInstruction
  swap_event_alternative = record {
    Content = SwapEvent;
    variant = swap_event;
    discriminator =
        228 ∷ 69 ∷ 165 ∷ 46 ∷ 81 ∷ 203 ∷ 154 ∷ 29 ∷ 64 ∷ 198 ∷ 205 ∷ 232 ∷ 38 ∷ 8 ∷ 113 ∷ 226 ∷ [];
    read = read_swap_event borsh;
  }

  unfoldable pub update_pair_event_alternative : Alternative OmnipairInstruction
  update_pair_event_alternative = record {
    Content = UpdatePairEvent;
    variant = update_pair_event;
    discriminator =
        228 ∷ 69 ∷ 165 ∷ 46 ∷ 81 ∷ 203 ∷ 154 ∷ 29 ∷ 44 ∷ 6 ∷ 60 ∷ 245 ∷ 142 ∷ 38 ∷ 166 ∷ 247 ∷ [];
    read = read_update_pair_event borsh;
  }

  unfoldable pub user_liquidity_position_updated_event_alternative : Alternative OmnipairInstruction
  user_liquidity_position_updated_event_alternative = record {
    Content = UserLiquidityPositionUpdatedEvent;
    variant = user_liquidity_position_updated_event;
    discriminator =
        228 ∷ 69 ∷ 165 ∷ 46 ∷ 81 ∷ 203 ∷ 154 ∷ 29 ∷ 255 ∷ 227 ∷ 32 ∷ 107 ∷ 211 ∷ 246 ∷ 39 ∷ 78 ∷ [];
    read = read_user_liquidity_position_updated_event borsh;
  }

  unfoldable pub user_position_created_event_alternative : Alternative OmnipairInstruction
  user_position_created_event_alternative = record {
    Content = UserPositionCreatedEvent;
    variant = user_position_created_event;
    discriminator =
        228 ∷ 69 ∷ 165 ∷ 46 ∷ 81 ∷ 203 ∷ 154 ∷ 29 ∷ 240 ∷ 132 ∷ 92 ∷ 227 ∷ 209 ∷ 72 ∷ 178 ∷ 169
        ∷ [];
    read = read_user_position_created_event borsh;
  }

  unfoldable pub user_position_liquidated_event_alternative : Alternative OmnipairInstruction
  user_position_liquidated_event_alternative = record {
    Content = UserPositionLiquidatedEvent;
    variant = user_position_liquidated_event;
    discriminator =
        228 ∷ 69 ∷ 165 ∷ 46 ∷ 81 ∷ 203 ∷ 154 ∷ 29 ∷ 220 ∷ 137 ∷ 217 ∷ 3 ∷ 242 ∷ 190 ∷ 238 ∷ 216
        ∷ [];
    read = read_user_position_liquidated_event borsh;
  }

  unfoldable pub user_position_updated_event_alternative : Alternative OmnipairInstruction
  user_position_updated_event_alternative = record {
    Content = UserPositionUpdatedEvent;
    variant = user_position_updated_event;
    discriminator =
        228 ∷ 69 ∷ 165 ∷ 46 ∷ 81 ∷ 203 ∷ 154 ∷ 29 ∷ 83 ∷ 168 ∷ 197 ∷ 88 ∷ 89 ∷ 42 ∷ 58 ∷ 102 ∷ [];
    read = read_user_position_updated_event borsh;
  }

  -- The lines of `try_decode_instructions!`, in their order.
  unfoldable pub alternatives : List (Alternative OmnipairInstruction)
  alternatives =
      add_collateral_alternative ∷ add_liquidity_alternative ∷ borrow_alternative
      ∷ claim_protocol_fees_alternative ∷ flashloan_alternative
      ∷ init_futarchy_authority_alternative ∷ initialize_alternative ∷ liquidate_alternative
      ∷ remove_collateral_alternative ∷ remove_liquidity_alternative ∷ repay_alternative
      ∷ set_global_reduce_only_alternative ∷ set_pair_reduce_only_alternative ∷ swap_alternative
      ∷ update_futarchy_authority_alternative ∷ update_protocol_revenue_alternative
      ∷ update_revenue_recipients_alternative ∷ view_pair_data_alternative
      ∷ view_user_position_data_alternative ∷ adjust_collateral_event_alternative
      ∷ adjust_debt_event_alternative ∷ adjust_liquidity_event_alternative ∷ burn_event_alternative
      ∷ claim_protocol_fees_event_alternative ∷ flashloan_event_alternative ∷ mint_event_alternative
      ∷ pair_created_event_alternative ∷ swap_event_alternative ∷ update_pair_event_alternative
      ∷ user_liquidity_position_updated_event_alternative ∷ user_position_created_event_alternative
      ∷ user_position_liquidated_event_alternative ∷ user_position_updated_event_alternative ∷ []

  unfoldable pub decode_instruction : Instruction → Option (DecodedInstruction OmnipairInstruction)
  unfolding alternatives
  decode_instruction ix = try_decode_instructions alternatives ix
