-- ===== src/Arrange/Lending.antt =====
-- `arrange_accounts` of the instructions of indexer/decoders/omnipair_decoder/instructions.
pub mod Keys
use omnipair_indexer.Base.{Option, List}
use omnipair_indexer.Solana.{Pubkey, AccountMeta}
use omnipair_indexer.Borsh.{pure, ◌>>=◌}
use omnipair_indexer.Arrange.{arranged, next_account}

pub record AddCollateralInstructionAccounts : Type 0 where
  pub pair : Pubkey
  pub rate_model : Pubkey
  pub futarchy_authority : Pubkey
  pub user_position : Pubkey
  pub collateral_vault : Pubkey
  pub user_collateral_token_account : Pubkey
  pub collateral_token_mint : Pubkey
  pub user : Pubkey
  pub token_program : Pubkey
  pub token_2022_program : Pubkey
  pub system_program : Pubkey
  pub event_authority : Pubkey
  pub program : Pubkey

unfoldable pub arrange_add_collateral : List AccountMeta → Option AddCollateralInstructionAccounts
arrange_add_collateral = arranged do
  pair ← next_account
  rate_model ← next_account
  futarchy_authority ← next_account
  user_position ← next_account
  collateral_vault ← next_account
  user_collateral_token_account ← next_account
  collateral_token_mint ← next_account
  user ← next_account
  token_program ← next_account
  token_2022_program ← next_account
  system_program ← next_account
  event_authority ← next_account
  program ← next_account
  pure (record {
    pair = pair;
    rate_model = rate_model;
    futarchy_authority = futarchy_authority;
    user_position = user_position;
    collateral_vault = collateral_vault;
    user_collateral_token_account = user_collateral_token_account;
    collateral_token_mint = collateral_token_mint;
    user = user;
    token_program = token_program;
    token_2022_program = token_2022_program;
    system_program = system_program;
    event_authority = event_authority;
    program = program;
  })

pub record RemoveCollateralInstructionAccounts : Type 0 where
  pub pair : Pubkey
  pub user_position : Pubkey
  pub rate_model : Pubkey
  pub futarchy_authority : Pubkey
  pub collateral_vault : Pubkey
  pub user_collateral_token_account : Pubkey
  pub collateral_token_mint : Pubkey
  pub user : Pubkey
  pub token_program : Pubkey
  pub token_2022_program : Pubkey
  pub system_program : Pubkey
  pub event_authority : Pubkey
  pub program : Pubkey

unfoldable pub arrange_remove_collateral :
    List AccountMeta → Option RemoveCollateralInstructionAccounts
arrange_remove_collateral = arranged do
  pair ← next_account
  user_position ← next_account
  rate_model ← next_account
  futarchy_authority ← next_account
  collateral_vault ← next_account
  user_collateral_token_account ← next_account
  collateral_token_mint ← next_account
  user ← next_account
  token_program ← next_account
  token_2022_program ← next_account
  system_program ← next_account
  event_authority ← next_account
  program ← next_account
  pure (record {
    pair = pair;
    user_position = user_position;
    rate_model = rate_model;
    futarchy_authority = futarchy_authority;
    collateral_vault = collateral_vault;
    user_collateral_token_account = user_collateral_token_account;
    collateral_token_mint = collateral_token_mint;
    user = user;
    token_program = token_program;
    token_2022_program = token_2022_program;
    system_program = system_program;
    event_authority = event_authority;
    program = program;
  })

pub record BorrowInstructionAccounts : Type 0 where
  pub pair : Pubkey
  pub user_position : Pubkey
  pub rate_model : Pubkey
  pub futarchy_authority : Pubkey
  pub reserve_vault : Pubkey
  pub user_reserve_token_account : Pubkey
  pub reserve_token_mint : Pubkey
  pub user : Pubkey
  pub token_program : Pubkey
  pub token_2022_program : Pubkey
  pub system_program : Pubkey
  pub event_authority : Pubkey
  pub program : Pubkey

unfoldable pub arrange_borrow : List AccountMeta → Option BorrowInstructionAccounts
arrange_borrow = arranged do
  pair ← next_account
  user_position ← next_account
  rate_model ← next_account
  futarchy_authority ← next_account
  reserve_vault ← next_account
  user_reserve_token_account ← next_account
  reserve_token_mint ← next_account
  user ← next_account
  token_program ← next_account
  token_2022_program ← next_account
  system_program ← next_account
  event_authority ← next_account
  program ← next_account
  pure (record {
    pair = pair;
    user_position = user_position;
    rate_model = rate_model;
    futarchy_authority = futarchy_authority;
    reserve_vault = reserve_vault;
    user_reserve_token_account = user_reserve_token_account;
    reserve_token_mint = reserve_token_mint;
    user = user;
    token_program = token_program;
    token_2022_program = token_2022_program;
    system_program = system_program;
    event_authority = event_authority;
    program = program;
  })

pub record RepayInstructionAccounts : Type 0 where
  pub pair : Pubkey
  pub user_position : Pubkey
  pub rate_model : Pubkey
  pub futarchy_authority : Pubkey
  pub reserve_vault : Pubkey
  pub user_reserve_token_account : Pubkey
  pub reserve_token_mint : Pubkey
  pub user : Pubkey
  pub token_program : Pubkey
  pub token_2022_program : Pubkey
  pub system_program : Pubkey
  pub event_authority : Pubkey
  pub program : Pubkey

unfoldable pub arrange_repay : List AccountMeta → Option RepayInstructionAccounts
arrange_repay = arranged do
  pair ← next_account
  user_position ← next_account
  rate_model ← next_account
  futarchy_authority ← next_account
  reserve_vault ← next_account
  user_reserve_token_account ← next_account
  reserve_token_mint ← next_account
  user ← next_account
  token_program ← next_account
  token_2022_program ← next_account
  system_program ← next_account
  event_authority ← next_account
  program ← next_account
  pure (record {
    pair = pair;
    user_position = user_position;
    rate_model = rate_model;
    futarchy_authority = futarchy_authority;
    reserve_vault = reserve_vault;
    user_reserve_token_account = user_reserve_token_account;
    reserve_token_mint = reserve_token_mint;
    user = user;
    token_program = token_program;
    token_2022_program = token_2022_program;
    system_program = system_program;
    event_authority = event_authority;
    program = program;
  })

pub record LiquidateInstructionAccounts : Type 0 where
  pub pair : Pubkey
  pub user_position : Pubkey
  pub rate_model : Pubkey
  pub futarchy_authority : Pubkey
  pub collateral_vault : Pubkey
  pub caller_token_account : Pubkey
  pub collateral_token_mint : Pubkey
  pub reserve_vault : Pubkey
  pub position_owner : Pubkey
  pub payer : Pubkey
  pub token_program : Pubkey
  pub token_2022_program : Pubkey
  pub system_program : Pubkey
  pub event_authority : Pubkey
  pub program : Pubkey

unfoldable pub arrange_liquidate : List AccountMeta → Option LiquidateInstructionAccounts
arrange_liquidate = arranged do
  pair ← next_account
  user_position ← next_account
  rate_model ← next_account
  futarchy_authority ← next_account
  collateral_vault ← next_account
  caller_token_account ← next_account
  collateral_token_mint ← next_account
  reserve_vault ← next_account
  position_owner ← next_account
  payer ← next_account
  token_program ← next_account
  token_2022_program ← next_account
  system_program ← next_account
  event_authority ← next_account
  program ← next_account
  pure (record {
    pair = pair;
    user_position = user_position;
    rate_model = rate_model;
    futarchy_authority = futarchy_authority;
    collateral_vault = collateral_vault;
    caller_token_account = caller_token_account;
    collateral_token_mint = collateral_token_mint;
    reserve_vault = reserve_vault;
    position_owner = position_owner;
    payer = payer;
    token_program = token_program;
    token_2022_program = token_2022_program;
    system_program = system_program;
    event_authority = event_authority;
    program = program;
  })
