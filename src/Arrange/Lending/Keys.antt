-- ===== src/Arrange/Lending/Keys.antt =====
-- The keys that `arrange_accounts` names, in the order of the fields.
use omnipair_indexer.Base.{List, [], ◌∷◌, ◌≡◌, refl, map}
use mathlib.Core.Option
use omnipair_indexer.Solana.{Pubkey, AccountMeta}
use omnipair_indexer.Arrange.Order.{exactly, key_of, Arranges, next-Arranges, end-Arranges}
use omnipair_indexer.Arrange.Lending.{
  AddCollateralInstructionAccounts, arrange_add_collateral, RemoveCollateralInstructionAccounts,
  arrange_remove_collateral, BorrowInstructionAccounts, arrange_borrow, RepayInstructionAccounts,
  arrange_repay, LiquidateInstructionAccounts, arrange_liquidate,
}

abbrev pub add_collateral_keys : AddCollateralInstructionAccounts → List Pubkey
add_collateral_keys a =
    a.pair ∷ a.rate_model ∷ a.futarchy_authority ∷ a.user_position ∷ a.collateral_vault
    ∷ a.user_collateral_token_account ∷ a.collateral_token_mint ∷ a.user ∷ a.token_program
    ∷ a.token_2022_program ∷ a.system_program ∷ a.event_authority ∷ a.program ∷ []

pub add_collateral-arranged :
    (accounts : List AccountMeta)
    → Option.map add_collateral_keys (arrange_add_collateral accounts)
      ≡ Option.map (λ keys. keys) (exactly 13 (map key_of accounts))
unfolding Arranges arrange_add_collateral
add_collateral-arranged = next-Arranges add_collateral_keys _ _ 12 λ pair.
    next-Arranges add_collateral_keys _ _ 11 λ rate_model.
      next-Arranges add_collateral_keys _ _ 10 λ futarchy_authority.
        next-Arranges add_collateral_keys _ _ 9 λ user_position.
          next-Arranges add_collateral_keys _ _ 8 λ collateral_vault.
            next-Arranges add_collateral_keys _ _ 7 λ user_collateral_token_account.
              next-Arranges add_collateral_keys _ _ 6 λ collateral_token_mint.
                next-Arranges add_collateral_keys _ _ 5 λ user.
                  next-Arranges add_collateral_keys _ _ 4 λ token_program.
                    next-Arranges add_collateral_keys _ _ 3 λ token_2022_program.
                      next-Arranges add_collateral_keys _ _ 2 λ system_program.
                        next-Arranges add_collateral_keys _ _ 1 λ event_authority.
                          next-Arranges add_collateral_keys _ _ 0
                            λ program. end-Arranges add_collateral_keys _ _ refl

abbrev pub remove_collateral_keys : RemoveCollateralInstructionAccounts → List Pubkey
remove_collateral_keys a =
    a.pair ∷ a.user_position ∷ a.rate_model ∷ a.futarchy_authority ∷ a.collateral_vault
    ∷ a.user_collateral_token_account ∷ a.collateral_token_mint ∷ a.user ∷ a.token_program
    ∷ a.token_2022_program ∷ a.system_program ∷ a.event_authority ∷ a.program ∷ []

pub remove_collateral-arranged :
    (accounts : List AccountMeta)
    → Option.map remove_collateral_keys (arrange_remove_collateral accounts)
      ≡ Option.map (λ keys. keys) (exactly 13 (map key_of accounts))
unfolding Arranges arrange_remove_collateral
remove_collateral-arranged = next-Arranges remove_collateral_keys _ _ 12 λ pair.
    next-Arranges remove_collateral_keys _ _ 11 λ user_position.
      next-Arranges remove_collateral_keys _ _ 10 λ rate_model.
        next-Arranges remove_collateral_keys _ _ 9 λ futarchy_authority.
          next-Arranges remove_collateral_keys _ _ 8 λ collateral_vault.
            next-Arranges remove_collateral_keys _ _ 7 λ user_collateral_token_account.
              next-Arranges remove_collateral_keys _ _ 6 λ collateral_token_mint.
                next-Arranges remove_collateral_keys _ _ 5 λ user.
                  next-Arranges remove_collateral_keys _ _ 4 λ token_program.
                    next-Arranges remove_collateral_keys _ _ 3 λ token_2022_program.
                      next-Arranges remove_collateral_keys _ _ 2 λ system_program.
                        next-Arranges remove_collateral_keys _ _ 1 λ event_authority.
                          next-Arranges remove_collateral_keys _ _ 0
                            λ program. end-Arranges remove_collateral_keys _ _ refl

abbrev pub borrow_keys : BorrowInstructionAccounts → List Pubkey
borrow_keys a =
    a.pair ∷ a.user_position ∷ a.rate_model ∷ a.futarchy_authority ∷ a.reserve_vault
    ∷ a.user_reserve_token_account ∷ a.reserve_token_mint ∷ a.user ∷ a.token_program
    ∷ a.token_2022_program ∷ a.system_program ∷ a.event_authority ∷ a.program ∷ []

pub borrow-arranged :
    (accounts : List AccountMeta)
    → Option.map borrow_keys (arrange_borrow accounts)
      ≡ Option.map (λ keys. keys) (exactly 13 (map key_of accounts))
unfolding Arranges arrange_borrow
borrow-arranged = next-Arranges borrow_keys _ _ 12 λ pair.
    next-Arranges borrow_keys _ _ 11 λ user_position. next-Arranges borrow_keys _ _ 10 λ rate_model.
      next-Arranges borrow_keys _ _ 9 λ futarchy_authority.
        next-Arranges borrow_keys _ _ 8 λ reserve_vault.
          next-Arranges borrow_keys _ _ 7 λ user_reserve_token_account.
            next-Arranges borrow_keys _ _ 6 λ reserve_token_mint.
              next-Arranges borrow_keys _ _ 5 λ user.
                next-Arranges borrow_keys _ _ 4 λ token_program.
                  next-Arranges borrow_keys _ _ 3 λ token_2022_program.
                    next-Arranges borrow_keys _ _ 2 λ system_program.
                      next-Arranges borrow_keys _ _ 1 λ event_authority.
                        next-Arranges borrow_keys _ _ 0 λ program. end-Arranges borrow_keys _ _ refl

abbrev pub repay_keys : RepayInstructionAccounts → List Pubkey
repay_keys a =
    a.pair ∷ a.user_position ∷ a.rate_model ∷ a.futarchy_authority ∷ a.reserve_vault
    ∷ a.user_reserve_token_account ∷ a.reserve_token_mint ∷ a.user ∷ a.token_program
    ∷ a.token_2022_program ∷ a.system_program ∷ a.event_authority ∷ a.program ∷ []

pub repay-arranged :
    (accounts : List AccountMeta)
    → Option.map repay_keys (arrange_repay accounts)
      ≡ Option.map (λ keys. keys) (exactly 13 (map key_of accounts))
unfolding Arranges arrange_repay
repay-arranged = next-Arranges repay_keys _ _ 12 λ pair.
    next-Arranges repay_keys _ _ 11 λ user_position. next-Arranges repay_keys _ _ 10 λ rate_model.
      next-Arranges repay_keys _ _ 9 λ futarchy_authority.
        next-Arranges repay_keys _ _ 8 λ reserve_vault.
          next-Arranges repay_keys _ _ 7 λ user_reserve_token_account.
            next-Arranges repay_keys _ _ 6 λ reserve_token_mint.
              next-Arranges repay_keys _ _ 5 λ user. next-Arranges repay_keys _ _ 4 λ token_program.
                next-Arranges repay_keys _ _ 3 λ token_2022_program.
                  next-Arranges repay_keys _ _ 2 λ system_program.
                    next-Arranges repay_keys _ _ 1 λ event_authority.
                      next-Arranges repay_keys _ _ 0 λ program. end-Arranges repay_keys _ _ refl

abbrev pub liquidate_keys : LiquidateInstructionAccounts → List Pubkey
liquidate_keys a =
    a.pair ∷ a.user_position ∷ a.rate_model ∷ a.futarchy_authority ∷ a.collateral_vault
    ∷ a.caller_token_account ∷ a.collateral_token_mint ∷ a.reserve_vault ∷ a.position_owner
    ∷ a.payer ∷ a.token_program ∷ a.token_2022_program ∷ a.system_program ∷ a.event_authority
    ∷ a.program ∷ []

pub liquidate-arranged :
    (accounts : List AccountMeta)
    → Option.map liquidate_keys (arrange_liquidate accounts)
      ≡ Option.map (λ keys. keys) (exactly 15 (map key_of accounts))
unfolding Arranges arrange_liquidate
liquidate-arranged = next-Arranges liquidate_keys _ _ 14 λ pair.
    next-Arranges liquidate_keys _ _ 13 λ user_position.
      next-Arranges liquidate_keys _ _ 12 λ rate_model.
        next-Arranges liquidate_keys _ _ 11 λ futarchy_authority.
          next-Arranges liquidate_keys _ _ 10 λ collateral_vault.
            next-Arranges liquidate_keys _ _ 9 λ caller_token_account.
              next-Arranges liquidate_keys _ _ 8 λ collateral_token_mint.
                next-Arranges liquidate_keys _ _ 7 λ reserve_vault.
                  next-Arranges liquidate_keys _ _ 6 λ position_owner.
                    next-Arranges liquidate_keys _ _ 5 λ payer.
                      next-Arranges liquidate_keys _ _ 4 λ token_program.
                        next-Arranges liquidate_keys _ _ 3 λ token_2022_program.
                          next-Arranges liquidate_keys _ _ 2 λ system_program.
                            next-Arranges liquidate_keys _ _ 1 λ event_authority.
                              next-Arranges liquidate_keys _ _ 0
                                λ program. end-Arranges liquidate_keys _ _ refl
