-- ===== src/Arrange/Governance/Keys.antt =====
-- The keys that `arrange_accounts` names, in the order of the fields.
use omnipair_indexer.Base.{List, [], ◌∷◌, ◌≡◌, refl, map}
use mathlib.Core.Option
use omnipair_indexer.Solana.{Pubkey, AccountMeta}
use omnipair_indexer.Arrange.Order.{exactly, key_of, Arranges, next-Arranges, end-Arranges}
use omnipair_indexer.Arrange.Governance.{
  ClaimProtocolFeesInstructionAccounts, arrange_claim_protocol_fees,
  InitFutarchyAuthorityInstructionAccounts, arrange_init_futarchy_authority,
  SetGlobalReduceOnlyInstructionAccounts, arrange_set_global_reduce_only,
  SetPairReduceOnlyInstructionAccounts, arrange_set_pair_reduce_only,
  UpdateFutarchyAuthorityInstructionAccounts, arrange_update_futarchy_authority,
  UpdateProtocolRevenueInstructionAccounts, arrange_update_protocol_revenue,
  UpdateRevenueRecipientsInstructionAccounts, arrange_update_revenue_recipients,
  ViewPairDataInstructionAccounts, arrange_view_pair_data, ViewUserPositionDataInstructionAccounts,
  arrange_view_user_position_data,
}

abbrev pub claim_protocol_fees_keys : ClaimProtocolFeesInstructionAccounts → List Pubkey
claim_protocol_fees_keys a =
    a.caller ∷ a.pair ∷ a.rate_model ∷ a.futarchy_authority ∷ a.reserve0_vault ∷ a.reserve1_vault
    ∷ a.token0_mint ∷ a.token1_mint ∷ a.futarchy_treasury_token0 ∷ a.futarchy_treasury_token1
    ∷ a.futarchy_treasury ∷ a.buybacks_vault_token0 ∷ a.buybacks_vault_token1 ∷ a.buybacks_vault
    ∷ a.team_treasury_token0 ∷ a.team_treasury_token1 ∷ a.team_treasury ∷ a.token_program
    ∷ a.token_2022_program ∷ a.associated_token_program ∷ a.system_program ∷ []

pub claim_protocol_fees-arranged :
    (accounts : List AccountMeta)
    → Option.map claim_protocol_fees_keys (arrange_claim_protocol_fees accounts)
      ≡ Option.map (λ keys. keys) (exactly 21 (map key_of accounts))
unfolding Arranges arrange_claim_protocol_fees
claim_protocol_fees-arranged = next-Arranges claim_protocol_fees_keys _ _ 20 λ caller.
    next-Arranges claim_protocol_fees_keys _ _ 19 λ pair.
      next-Arranges claim_protocol_fees_keys _ _ 18 λ rate_model.
        next-Arranges claim_protocol_fees_keys _ _ 17 λ futarchy_authority.
          next-Arranges claim_protocol_fees_keys _ _ 16 λ reserve0_vault.
            next-Arranges claim_protocol_fees_keys _ _ 15 λ reserve1_vault.
              next-Arranges claim_protocol_fees_keys _ _ 14 λ token0_mint.
                next-Arranges claim_protocol_fees_keys _ _ 13 λ token1_mint.
                  next-Arranges claim_protocol_fees_keys _ _ 12 λ futarchy_treasury_token0.
                    next-Arranges claim_protocol_fees_keys _ _ 11 λ futarchy_treasury_token1.
                      next-Arranges claim_protocol_fees_keys _ _ 10 λ futarchy_treasury.
                        next-Arranges claim_protocol_fees_keys _ _ 9 λ buybacks_vault_token0.
                          next-Arranges claim_protocol_fees_keys _ _ 8 λ buybacks_vault_token1.
                            next-Arranges claim_protocol_fees_keys _ _ 7 λ buybacks_vault.
                              next-Arranges claim_protocol_fees_keys _ _ 6 λ team_treasury_token0.
                                next-Arranges claim_protocol_fees_keys _ _ 5 λ team_treasury_token1.
                                  next-Arranges claim_protocol_fees_keys _ _ 4 λ team_treasury.
                                    next-Arranges claim_protocol_fees_keys _ _ 3 λ token_program.
                                      next-Arranges claim_protocol_fees_keys _ _ 2
                                        λ token_2022_program.
                                          next-Arranges claim_protocol_fees_keys _ _ 1
                                            λ associated_token_program.
                                              next-Arranges claim_protocol_fees_keys _ _ 0
                                                λ system_program.
                                                  end-Arranges claim_protocol_fees_keys _ _ refl

abbrev pub init_futarchy_authority_keys : InitFutarchyAuthorityInstructionAccounts → List Pubkey
init_futarchy_authority_keys a =
    a.deployer ∷ a.futarchy_authority ∷ a.program_data ∷ a.system_program ∷ []

pub init_futarchy_authority-arranged :
    (accounts : List AccountMeta)
    → Option.map init_futarchy_authority_keys (arrange_init_futarchy_authority accounts)
      ≡ Option.map (λ keys. keys) (exactly 4 (map key_of accounts))
unfolding Arranges arrange_init_futarchy_authority
init_futarchy_authority-arranged = next-Arranges init_futarchy_authority_keys _ _ 3 λ deployer.
    next-Arranges init_futarchy_authority_keys _ _ 2 λ futarchy_authority.
      next-Arranges init_futarchy_authority_keys _ _ 1 λ program_data.
        next-Arranges init_futarchy_authority_keys _ _ 0
          λ system_program. end-Arranges init_futarchy_authority_keys _ _ refl

abbrev pub set_global_reduce_only_keys : SetGlobalReduceOnlyInstructionAccounts → List Pubkey
set_global_reduce_only_keys a = a.authority_signer ∷ a.futarchy_authority ∷ a.system_program ∷ []

pub set_global_reduce_only-arranged :
    (accounts : List AccountMeta)
    → Option.map set_global_reduce_only_keys (arrange_set_global_reduce_only accounts)
      ≡ Option.map (λ keys. keys) (exactly 3 (map key_of accounts))
unfolding Arranges arrange_set_global_reduce_only
set_global_reduce_only-arranged =
    next-Arranges set_global_reduce_only_keys _ _ 2 λ authority_signer.
      next-Arranges set_global_reduce_only_keys _ _ 1 λ futarchy_authority.
        next-Arranges set_global_reduce_only_keys _ _ 0
          λ system_program. end-Arranges set_global_reduce_only_keys _ _ refl

abbrev pub set_pair_reduce_only_keys : SetPairReduceOnlyInstructionAccounts → List Pubkey
set_pair_reduce_only_keys a =
    a.authority_signer ∷ a.futarchy_authority ∷ a.pair ∷ a.system_program ∷ []

pub set_pair_reduce_only-arranged :
    (accounts : List AccountMeta)
    → Option.map set_pair_reduce_only_keys (arrange_set_pair_reduce_only accounts)
      ≡ Option.map (λ keys. keys) (exactly 4 (map key_of accounts))
unfolding Arranges arrange_set_pair_reduce_only
set_pair_reduce_only-arranged = next-Arranges set_pair_reduce_only_keys _ _ 3 λ authority_signer.
    next-Arranges set_pair_reduce_only_keys _ _ 2 λ futarchy_authority.
      next-Arranges set_pair_reduce_only_keys _ _ 1 λ pair.
        next-Arranges set_pair_reduce_only_keys _ _ 0
          λ system_program. end-Arranges set_pair_reduce_only_keys _ _ refl

abbrev pub update_futarchy_authority_keys : UpdateFutarchyAuthorityInstructionAccounts → List Pubkey
update_futarchy_authority_keys a = a.authority_signer ∷ a.futarchy_authority ∷ a.system_program ∷ []

pub update_futarchy_authority-arranged :
    (accounts : List AccountMeta)
    → Option.map update_futarchy_authority_keys (arrange_update_futarchy_authority accounts)
      ≡ Option.map (λ keys. keys) (exactly 3 (map key_of accounts))
unfolding Arranges arrange_update_futarchy_authority
update_futarchy_authority-arranged =
    next-Arranges update_futarchy_authority_keys _ _ 2 λ authority_signer.
      next-Arranges update_futarchy_authority_keys _ _ 1 λ futarchy_authority.
        next-Arranges update_futarchy_authority_keys _ _ 0
          λ system_program. end-Arranges update_futarchy_authority_keys _ _ refl

abbrev pub update_protocol_revenue_keys : UpdateProtocolRevenueInstructionAccounts → List Pubkey
update_protocol_revenue_keys a = a.authority_signer ∷ a.futarchy_authority ∷ a.system_program ∷ []

pub update_protocol_revenue-arranged :
    (accounts : List AccountMeta)
    → Option.map update_protocol_revenue_keys (arrange_update_protocol_revenue accounts)
      ≡ Option.map (λ keys. keys) (exactly 3 (map key_of accounts))
unfolding Arranges arrange_update_protocol_revenue
update_protocol_revenue-arranged =
    next-Arranges update_protocol_revenue_keys _ _ 2 λ authority_signer.
      next-Arranges update_protocol_revenue_keys _ _ 1 λ futarchy_authority.
        next-Arranges update_protocol_revenue_keys _ _ 0
          λ system_program. end-Arranges update_protocol_revenue_keys _ _ refl

abbrev pub update_revenue_recipients_keys : UpdateRevenueRecipientsInstructionAccounts → List Pubkey
update_revenue_recipients_keys a = a.authority_signer ∷ a.futarchy_authority ∷ a.system_program ∷ []

pub update_revenue_recipients-arranged :
    (accounts : List AccountMeta)
    → Option.map update_revenue_recipients_keys (arrange_update_revenue_recipients accounts)
      ≡ Option.map (λ keys. keys) (exactly 3 (map key_of accounts))
unfolding Arranges arrange_update_revenue_recipients
update_revenue_recipients-arranged =
    next-Arranges update_revenue_recipients_keys _ _ 2 λ authority_signer.
      next-Arranges update_revenue_recipients_keys _ _ 1 λ futarchy_authority.
        next-Arranges update_revenue_recipients_keys _ _ 0
          λ system_program. end-Arranges update_revenue_recipients_keys _ _ refl

abbrev pub view_pair_data_keys : ViewPairDataInstructionAccounts → List Pubkey
view_pair_data_keys a = a.pair ∷ a.rate_model ∷ a.futarchy_authority ∷ []

pub view_pair_data-arranged :
    (accounts : List AccountMeta)
    → Option.map view_pair_data_keys (arrange_view_pair_data accounts)
      ≡ Option.map (λ keys. keys) (exactly 3 (map key_of accounts))
unfolding Arranges arrange_view_pair_data
view_pair_data-arranged = next-Arranges view_pair_data_keys _ _ 2 λ pair.
    next-Arranges view_pair_data_keys _ _ 1 λ rate_model.
      next-Arranges view_pair_data_keys _ _ 0
        λ futarchy_authority. end-Arranges view_pair_data_keys _ _ refl

abbrev pub view_user_position_data_keys : ViewUserPositionDataInstructionAccounts → List Pubkey
view_user_position_data_keys a = a.pair ∷ a.user_position ∷ a.rate_model ∷ a.futarchy_authority ∷ []

pub view_user_position_data-arranged :
    (accounts : List AccountMeta)
    → Option.map view_user_position_data_keys (arrange_view_user_position_data accounts)
      ≡ Option.map (λ keys. keys) (exactly 4 (map key_of accounts))
unfolding Arranges arrange_view_user_position_data
view_user_position_data-arranged = next-Arranges view_user_position_data_keys _ _ 3 λ pair.
    next-Arranges view_user_position_data_keys _ _ 2 λ user_position.
      next-Arranges view_user_position_data_keys _ _ 1 λ rate_model.
        next-Arranges view_user_position_data_keys _ _ 0
          λ futarchy_authority. end-Arranges view_user_position_data_keys _ _ refl
