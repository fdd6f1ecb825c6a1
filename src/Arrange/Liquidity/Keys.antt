-- ===== src/Arrange/Liquidity/Keys.antt =====
-- The keys that `arrange_accounts` names, in the order of the fields.
use omnipair_indexer.Base.{List, [], ◌∷◌, ◌≡◌, refl, map}
use mathlib.Core.Option
use omnipair_indexer.Solana.{Pubkey, AccountMeta}
use omnipair_indexer.Arrange.Order.{exactly, key_of, Arranges, next-Arranges, end-Arranges}
use omnipair_indexer.Arrange.Liquidity.{
  InitializeInstructionAccounts, arrange_initialize, AddLiquidityInstructionAccounts,
  arrange_add_liquidity, RemoveLiquidityInstructionAccounts, arrange_remove_liquidity,
  SwapInstructionAccounts, arrange_swap, FlashloanInstructionAccounts, arrange_flashloan,
}

abbrev pub initialize_keys : InitializeInstructionAccounts → List Pubkey
initialize_keys a =
    a.deployer ∷ a.token0_mint ∷ a.token1_mint ∷ a.pair ∷ a.futarchy_authority ∷ a.rate_model
    ∷ a.lp_mint ∷ a.lp_token_metadata ∷ a.deployer_lp_token_account ∷ a.reserve0_vault
    ∷ a.reserve1_vault ∷ a.collateral0_vault ∷ a.collateral1_vault ∷ a.deployer_token0_account
    ∷ a.deployer_token1_account ∷ a.team_treasury ∷ a.team_treasury_wsol_account ∷ a.system_program
    ∷ a.token_program ∷ a.token_2022_program ∷ a.token_metadata_program ∷ a.associated_token_program
    ∷ a.rent ∷ a.event_authority ∷ a.program ∷ []

pub initialize-arranged :
    (accounts : List AccountMeta)
    → Option.map initialize_keys (arrange_initialize accounts)
      ≡ Option.map (λ keys. keys) (exactly 25 (map key_of accounts))
unfolding Arranges arrange_initialize
initialize-arranged = next-Arranges initialize_keys _ _ 24 λ deployer.
    next-Arranges initialize_keys _ _ 23 λ token0_mint.
      next-Arranges initialize_keys _ _ 22 λ token1_mint.
        next-Arranges initialize_keys _ _ 21 λ pair.
          next-Arranges initialize_keys _ _ 20 λ futarchy_authority.
            next-Arranges initialize_keys _ _ 19 λ rate_model.
              next-Arranges initialize_keys _ _ 18 λ lp_mint.
                next-Arranges initialize_keys _ _ 17 λ lp_token_metadata.
                  next-Arranges initialize_keys _ _ 16 λ deployer_lp_token_account.
                    next-Arranges initialize_keys _ _ 15 λ reserve0_vault.
                      next-Arranges initialize_keys _ _ 14 λ reserve1_vault.
                        next-Arranges initialize_keys _ _ 13 λ collateral0_vault.
                          next-Arranges initialize_keys _ _ 12 λ collateral1_vault.
                            next-Arranges initialize_keys _ _ 11 λ deployer_token0_account.
                              next-Arranges initialize_keys _ _ 10 λ deployer_token1_account.
                                next-Arranges initialize_keys _ _ 9 λ team_treasury.
                                  next-Arranges initialize_keys _ _ 8 λ team_treasury_wsol_account.
                                    next-Arranges initialize_keys _ _ 7 λ system_program.
                                      next-Arranges initialize_keys _ _ 6 λ token_program.
                                        next-Arranges initialize_keys _ _ 5 λ token_2022_program.
                                          next-Arranges initialize_keys _ _ 4
                                            λ token_metadata_program.
                                              next-Arranges initialize_keys _ _ 3
                                                λ associated_token_program.
                                                  next-Arranges initialize_keys _ _ 2 λ rent.
                                                    next-Arranges initialize_keys _ _ 1
                                                      λ event_authority.
                                                        next-Arranges initialize_keys _ _ 0
                                                          λ program.
                                                            end-Arranges initialize_keys _ _ refl

abbrev pub add_liquidity_keys : AddLiquidityInstructionAccounts → List Pubkey
add_liquidity_keys a =
    a.pair ∷ a.rate_model ∷ a.futarchy_authority ∷ a.reserve0_vault ∷ a.reserve1_vault
    ∷ a.user_token0_account ∷ a.user_token1_account ∷ a.token0_mint ∷ a.token1_mint ∷ a.lp_mint
    ∷ a.user_lp_token_account ∷ a.user ∷ a.token_program ∷ a.token_2022_program
    ∷ a.associated_token_program ∷ a.system_program ∷ a.event_authority ∷ a.program ∷ []

pub add_liquidity-arranged :
    (accounts : List AccountMeta)
    → Option.map add_liquidity_keys (arrange_add_liquidity accounts)
      ≡ Option.map (λ keys. keys) (exactly 18 (map key_of accounts))
unfolding Arranges arrange_add_liquidity
add_liquidity-arranged = next-Arranges add_liquidity_keys _ _ 17 λ pair.
    next-Arranges add_liquidity_keys _ _ 16 λ rate_model.
      next-Arranges add_liquidity_keys _ _ 15 λ futarchy_authority.
        next-Arranges add_liquidity_keys _ _ 14 λ reserve0_vault.
          next-Arranges add_liquidity_keys _ _ 13 λ reserve1_vault.
            next-Arranges add_liquidity_keys _ _ 12 λ user_token0_account.
              next-Arranges add_liquidity_keys _ _ 11 λ user_token1_account.
                next-Arranges add_liquidity_keys _ _ 10 λ token0_mint.
                  next-Arranges add_liquidity_keys _ _ 9 λ token1_mint.
                    next-Arranges add_liquidity_keys _ _ 8 λ lp_mint.
                      next-Arranges add_liquidity_keys _ _ 7 λ user_lp_token_account.
                        next-Arranges add_liquidity_keys _ _ 6 λ user.
                          next-Arranges add_liquidity_keys _ _ 5 λ token_program.
                            next-Arranges add_liquidity_keys _ _ 4 λ token_2022_program.
                              next-Arranges add_liquidity_keys _ _ 3 λ associated_token_program.
                                next-Arranges add_liquidity_keys _ _ 2 λ system_program.
                                  next-Arranges add_liquidity_keys _ _ 1 λ event_authority.
                                    next-Arranges add_liquidity_keys _ _ 0
                                      λ program. end-Arranges add_liquidity_keys _ _ refl

abbrev pub remove_liquidity_keys : RemoveLiquidityInstructionAccounts → List Pubkey
remove_liquidity_keys a =
    a.pair ∷ a.rate_model ∷ a.futarchy_authority ∷ a.reserve0_vault ∷ a.reserve1_vault
    ∷ a.user_token0_account ∷ a.user_token1_account ∷ a.token0_mint ∷ a.token1_mint ∷ a.lp_mint
    ∷ a.user_lp_token_account ∷ a.user ∷ a.token_program ∷ a.token_2022_program
    ∷ a.associated_token_program ∷ a.system_program ∷ a.event_authority ∷ a.program ∷ []

pub remove_liquidity-arranged :
    (accounts : List AccountMeta)
    → Option.map remove_liquidity_keys (arrange_remove_liquidity accounts)
      ≡ Option.map (λ keys. keys) (exactly 18 (map key_of accounts))
unfolding Arranges arrange_remove_liquidity
remove_liquidity-arranged = next-Arranges remove_liquidity_keys _ _ 17 λ pair.
    next-Arranges remove_liquidity_keys _ _ 16 λ rate_model.
      next-Arranges remove_liquidity_keys _ _ 15 λ futarchy_authority.
        next-Arranges remove_liquidity_keys _ _ 14 λ reserve0_vault.
          next-Arranges remove_liquidity_keys _ _ 13 λ reserve1_vault.
            next-Arranges remove_liquidity_keys _ _ 12 λ user_token0_account.
              next-Arranges remove_liquidity_keys _ _ 11 λ user_token1_account.
                next-Arranges remove_liquidity_keys _ _ 10 λ token0_mint.
                  next-Arranges remove_liquidity_keys _ _ 9 λ token1_mint.
                    next-Arranges remove_liquidity_keys _ _ 8 λ lp_mint.
                      next-Arranges remove_liquidity_keys _ _ 7 λ user_lp_token_account.
                        next-Arranges remove_liquidity_keys _ _ 6 λ user.
                          next-Arranges remove_liquidity_keys _ _ 5 λ token_program.
                            next-Arranges remove_liquidity_keys _ _ 4 λ token_2022_program.
                              next-Arranges remove_liquidity_keys _ _ 3 λ associated_token_program.
                                next-Arranges remove_liquidity_keys _ _ 2 λ system_program.
                                  next-Arranges remove_liquidity_keys _ _ 1 λ event_authority.
                                    next-Arranges remove_liquidity_keys _ _ 0
                                      λ program. end-Arranges remove_liquidity_keys _ _ refl

abbrev pub swap_keys : SwapInstructionAccounts → List Pubkey
swap_keys a =
    a.pair ∷ a.rate_model ∷ a.futarchy_authority ∷ a.token_in_vault ∷ a.token_out_vault
    ∷ a.user_token_in_account ∷ a.user_token_out_account ∷ a.token_in_mint ∷ a.token_out_mint
    ∷ a.user ∷ a.token_program ∷ a.token_2022_program ∷ a.event_authority ∷ a.program ∷ []

pub swap-arranged :
    (accounts : List AccountMeta)
    → Option.map swap_keys (arrange_swap accounts)
      ≡ Option.map (λ keys. keys) (exactly 14 (map key_of accounts))
unfolding Arranges arrange_swap
swap-arranged = next-Arranges swap_keys _ _ 13 λ pair. next-Arranges swap_keys _ _ 12 λ rate_model.
    next-Arranges swap_keys _ _ 11 λ futarchy_authority.
      next-Arranges swap_keys _ _ 10 λ token_in_vault.
        next-Arranges swap_keys _ _ 9 λ token_out_vault.
          next-Arranges swap_keys _ _ 8 λ user_token_in_account.
            next-Arranges swap_keys _ _ 7 λ user_token_out_account.
              next-Arranges swap_keys _ _ 6 λ token_in_mint.
                next-Arranges swap_keys _ _ 5 λ token_out_mint.
                  next-Arranges swap_keys _ _ 4 λ user.
                    next-Arranges swap_keys _ _ 3 λ token_program.
                      next-Arranges swap_keys _ _ 2 λ token_2022_program.
                        next-Arranges swap_keys _ _ 1 λ event_authority.
                          next-Arranges swap_keys _ _ 0 λ program. end-Arranges swap_keys _ _ refl

abbrev pub flashloan_keys : FlashloanInstructionAccounts → List Pubkey
flashloan_keys a =
    a.pair ∷ a.rate_model ∷ a.futarchy_authority ∷ a.reserve0_vault ∷ a.reserve1_vault
    ∷ a.token0_mint ∷ a.token1_mint ∷ a.receiver_token0_account ∷ a.receiver_token1_account
    ∷ a.receiver_program ∷ a.user ∷ a.token_program ∷ a.token_2022_program ∷ a.system_program
    ∷ a.event_authority ∷ a.program ∷ []

pub flashloan-arranged :
    (accounts : List AccountMeta)
    → Option.map flashloan_keys (arrange_flashloan accounts)
      ≡ Option.map (λ keys. keys) (exactly 16 (map key_of accounts))
unfolding Arranges arrange_flashloan
flashloan-arranged = next-Arranges flashloan_keys _ _ 15 λ pair.
    next-Arranges flashloan_keys _ _ 14 λ rate_model.
      next-Arranges flashloan_keys _ _ 13 λ futarchy_authority.
        next-Arranges flashloan_keys _ _ 12 λ reserve0_vault.
          next-Arranges flashloan_keys _ _ 11 λ reserve1_vault.
            next-Arranges flashloan_keys _ _ 10 λ token0_mint.
              next-Arranges flashloan_keys _ _ 9 λ token1_mint.
                next-Arranges flashloan_keys _ _ 8 λ receiver_token0_account.
                  next-Arranges flashloan_keys _ _ 7 λ receiver_token1_account.
                    next-Arranges flashloan_keys _ _ 6 λ receiver_program.
                      next-Arranges flashloan_keys _ _ 5 λ user.
                        next-Arranges flashloan_keys _ _ 4 λ token_program.
                          next-Arranges flashloan_keys _ _ 3 λ token_2022_program.
                            next-Arranges flashloan_keys _ _ 2 λ system_program.
                              next-Arranges flashloan_keys _ _ 1 λ event_authority.
                                next-Arranges flashloan_keys _ _ 0
                                  λ program. end-Arranges flashloan_keys _ _ refl
