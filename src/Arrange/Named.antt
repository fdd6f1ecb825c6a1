-- ===== src/Arrange/Named.antt =====
-- Which accounts `arrange_accounts` names, for each instruction.
use omnipair_indexer.Base.{ℕ, Option, List, ◌≡◌, ◌∙◌, map}
use mathlib.Core.Option
use omnipair_indexer.Solana.{Pubkey, AccountMeta}
use omnipair_indexer.Arrange.Order.{exactly, key_of, map_id}
use omnipair_indexer.Arrange.Liquidity.{
  arrange_initialize, arrange_add_liquidity, arrange_remove_liquidity, arrange_swap,
  arrange_flashloan,
}
use omnipair_indexer.Arrange.Liquidity.Keys.{
  initialize_keys, initialize-arranged, add_liquidity_keys, add_liquidity-arranged,
  remove_liquidity_keys, remove_liquidity-arranged, swap_keys, swap-arranged, flashloan_keys,
  flashloan-arranged,
}
use omnipair_indexer.Arrange.Lending.{
  arrange_add_collateral, arrange_remove_collateral, arrange_borrow, arrange_repay,
  arrange_liquidate,
}
use omnipair_indexer.Arrange.Lending.Keys.{
  add_collateral_keys, add_collateral-arranged, remove_collateral_keys, remove_collateral-arranged,
  borrow_keys, borrow-arranged, repay_keys, repay-arranged, liquidate_keys, liquidate-arranged,
}
use omnipair_indexer.Arrange.Governance.{
  arrange_claim_protocol_fees, arrange_init_futarchy_authority, arrange_set_global_reduce_only,
  arrange_set_pair_reduce_only, arrange_update_futarchy_authority, arrange_update_protocol_revenue,
  arrange_update_revenue_recipients, arrange_view_pair_data, arrange_view_user_position_data,
}
use omnipair_indexer.Arrange.Governance.Keys.{
  claim_protocol_fees_keys, claim_protocol_fees-arranged, init_futarchy_authority_keys,
  init_futarchy_authority-arranged, set_global_reduce_only_keys, set_global_reduce_only-arranged,
  set_pair_reduce_only_keys, set_pair_reduce_only-arranged, update_futarchy_authority_keys,
  update_futarchy_authority-arranged, update_protocol_revenue_keys,
  update_protocol_revenue-arranged, update_revenue_recipients_keys,
  update_revenue_recipients-arranged, view_pair_data_keys, view_pair_data-arranged,
  view_user_position_data_keys, view_user_position_data-arranged,
}

-- The instructions whose accounts have names.
pub data Arranged : Type 0 where
  add_collateral add_liquidity borrow claim_protocol_fees flashloan init_futarchy_authority
        initialize liquidate remove_collateral remove_liquidity repay set_global_reduce_only
        set_pair_reduce_only swap update_futarchy_authority update_protocol_revenue
        update_revenue_recipients view_pair_data view_user_position_data :
      Arranged

-- How many accounts an instruction needs.
unfoldable pub account_count : Arranged → ℕ
account_count add_collateral = 13
account_count add_liquidity = 18
account_count borrow = 13
account_count claim_protocol_fees = 21
account_count flashloan = 16
account_count init_futarchy_authority = 4
account_count initialize = 25
account_count liquidate = 15
account_count remove_collateral = 13
account_count remove_liquidity = 18
account_count repay = 13
account_count set_global_reduce_only = 3
account_count set_pair_reduce_only = 4
account_count swap = 14
account_count update_futarchy_authority = 3
account_count update_protocol_revenue = 3
account_count update_revenue_recipients = 3
account_count view_pair_data = 3
account_count view_user_position_data = 4

-- The keys that `arrange_accounts` names, in the order of the fields.
unfoldable pub arranged_keys : Arranged → List AccountMeta → Option (List Pubkey)
arranged_keys add_collateral accounts =
    Option.map add_collateral_keys (arrange_add_collateral accounts)
arranged_keys add_liquidity accounts =
    Option.map add_liquidity_keys (arrange_add_liquidity accounts)
arranged_keys borrow accounts = Option.map borrow_keys (arrange_borrow accounts)
arranged_keys claim_protocol_fees accounts =
    Option.map claim_protocol_fees_keys (arrange_claim_protocol_fees accounts)
arranged_keys flashloan accounts = Option.map flashloan_keys (arrange_flashloan accounts)
arranged_keys init_futarchy_authority accounts =
    Option.map init_futarchy_authority_keys (arrange_init_futarchy_authority accounts)
arranged_keys initialize accounts = Option.map initialize_keys (arrange_initialize accounts)
arranged_keys liquidate accounts = Option.map liquidate_keys (arrange_liquidate accounts)
arranged_keys remove_collateral accounts =
    Option.map remove_collateral_keys (arrange_remove_collateral accounts)
arranged_keys remove_liquidity accounts =
    Option.map remove_liquidity_keys (arrange_remove_liquidity accounts)
arranged_keys repay accounts = Option.map repay_keys (arrange_repay accounts)
arranged_keys set_global_reduce_only accounts =
    Option.map set_global_reduce_only_keys (arrange_set_global_reduce_only accounts)
arranged_keys set_pair_reduce_only accounts =
    Option.map set_pair_reduce_only_keys (arrange_set_pair_reduce_only accounts)
arranged_keys swap accounts = Option.map swap_keys (arrange_swap accounts)
arranged_keys update_futarchy_authority accounts =
    Option.map update_futarchy_authority_keys (arrange_update_futarchy_authority accounts)
arranged_keys update_protocol_revenue accounts =
    Option.map update_protocol_revenue_keys (arrange_update_protocol_revenue accounts)
arranged_keys update_revenue_recipients accounts =
    Option.map update_revenue_recipients_keys (arrange_update_revenue_recipients accounts)
arranged_keys view_pair_data accounts =
    Option.map view_pair_data_keys (arrange_view_pair_data accounts)
arranged_keys view_user_position_data accounts =
    Option.map view_user_position_data_keys (arrange_view_user_position_data accounts)

-- The accounts of an instruction are named whenever there are as many as it needs, and then the
-- names, in the order of the fields, are the keys of its first accounts in their order: accounts
-- beyond them are ignored.
pub arranged_keys-exactly :
    (i : Arranged) (accounts : List AccountMeta)
    → arranged_keys i accounts ≡ exactly (account_count i) (map key_of accounts)
unfolding arranged_keys account_count
arranged_keys-exactly add_collateral accounts = add_collateral-arranged accounts ∙ map_id _
arranged_keys-exactly add_liquidity accounts = add_liquidity-arranged accounts ∙ map_id _
arranged_keys-exactly borrow accounts = borrow-arranged accounts ∙ map_id _
arranged_keys-exactly claim_protocol_fees accounts =
    claim_protocol_fees-arranged accounts ∙ map_id _
arranged_keys-exactly flashloan accounts = flashloan-arranged accounts ∙ map_id _
arranged_keys-exactly init_futarchy_authority accounts =
    init_futarchy_authority-arranged accounts ∙ map_id _
arranged_keys-exactly initialize accounts = initialize-arranged accounts ∙ map_id _
arranged_keys-exactly liquidate accounts = liquidate-arranged accounts ∙ map_id _
arranged_keys-exactly remove_collateral accounts = remove_collateral-arranged accounts ∙ map_id _
arranged_keys-exactly remove_liquidity accounts = remove_liquidity-arranged accounts ∙ map_id _
arranged_keys-exactly repay accounts = repay-arranged accounts ∙ map_id _
arranged_keys-exactly set_global_reduce_only accounts =
    set_global_reduce_only-arranged accounts ∙ map_id _
arranged_keys-exactly set_pair_reduce_only accounts =
    set_pair_reduce_only-arranged accounts ∙ map_id _
arranged_keys-exactly swap accounts = swap-arranged accounts ∙ map_id _
arranged_keys-exactly update_futarchy_authority accounts =
    update_futarchy_authority-arranged accounts ∙ map_id _
arranged_keys-exactly update_protocol_revenue accounts =
    update_protocol_revenue-arranged accounts ∙ map_id _
arranged_keys-exactly update_revenue_recipients accounts =
    update_revenue_recipients-arranged accounts ∙ map_id _
arranged_keys-exactly view_pair_data accounts = view_pair_data-arranged accounts ∙ map_id _
arranged_keys-exactly view_user_position_data accounts =
    view_user_position_data-arranged accounts ∙ map_id _
