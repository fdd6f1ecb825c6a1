-- ===== src/Arrange/Liquidity.antt =====
-- `arrange_accounts` of the instructions of indexer/decoders/omnipair_decoder/instructions.
pub mod Keys
use omnipair_indexer.Base.{Option, List}
use omnipair_indexer.Solana.{Pubkey, AccountMeta}
use omnipair_indexer.Borsh.{pure, ◌>>=◌}
use omnipair_indexer.Arrange.{arranged, next_account}

pub record InitializeInstructionAccounts : Type 0 where
  pub deployer : Pubkey
  pub token0_mint : Pubkey
  pub token1_mint : Pubkey
  pub pair : Pubkey
  pub futarchy_authority : Pubkey
  pub rate_model : Pubkey
  pub lp_mint : Pubkey
  pub lp_token_metadata : Pubkey
  pub deployer_lp_token_account : Pubkey
  pub reserve0_vault : Pubkey
  pub reserve1_vault : Pubkey
  pub collateral0_vault : Pubkey
  pub collateral1_vault : Pubkey
  pub deployer_token0_account : Pubkey
  pub deployer_token1_account : Pubkey
  pub team_treasury : Pubkey
  pub team_treasury_wsol_account : Pubkey
  pub system_program : Pubkey
  pub token_program : Pubkey
  pub token_2022_program : Pubkey
  pub token_metadata_program : Pubkey
  pub associated_token_program : Pubkey
  pub rent : Pubkey
  pub event_authority : Pubkey
  pub program : Pubkey

unfoldable pub arrange_initialize : List AccountMeta → Option InitializeInstructionAccounts
arrange_initialize = arranged do
  deployer ← next_account
  token0_mint ← next_account
  token1_mint ← next_account
  pair ← next_account
  futarchy_authority ← next_account
  rate_model ← next_account
  lp_mint ← next_account
  lp_token_metadata ← next_account
  deployer_lp_token_account ← next_account
  reserve0_vault ← next_account
  reserve1_vault ← next_account
  collateral0_vault ← next_account
  collateral1_vault ← next_account
  deployer_token0_account ← next_account
  deployer_token1_account ← next_account
  team_treasury ← next_account
  team_treasury_wsol_account ← next_account
  system_program ← next_account
  token_program ← next_account
  token_2022_program ← next_account
  token_metadata_program ← next_account
  associated_token_program ← next_account
  rent ← next_account
  event_authority ← next_account
  program ← next_account
  pure (record {
    deployer = deployer;
    token0_mint = token0_mint;
    token1_mint = token1_mint;
    pair = pair;
    futarchy_authority = futarchy_authority;
    rate_model = rate_model;
    lp_mint = lp_mint;
    lp_token_metadata = lp_token_metadata;
    deployer_lp_token_account = deployer_lp_token_account;
    reserve0_vault = reserve0_vault;
    reserve1_vault = reserve1_vault;
    collateral0_vault = collateral0_vault;
    collateral1_vault = collateral1_vault;
    deployer_token0_account = deployer_token0_account;
    deployer_token1_account = deployer_token1_account;
    team_treasury = team_treasury;
    team_treasury_wsol_account = team_treasury_wsol_account;
    system_program = system_program;
    token_program = token_program;
    token_2022_program = token_2022_program;
    token_metadata_program = token_metadata_program;
    associated_token_program = associated_token_program;
    rent = rent;
    event_authority = event_authority;
    program = program;
  })

pub record AddLiquidityInstructionAccounts : Type 0 where
  pub pair : Pubkey
  pub rate_model : Pubkey
  pub futarchy_authority : Pubkey
  pub reserve0_vault : Pubkey
  pub reserve1_vault : Pubkey
  pub user_token0_account : Pubkey
  pub user_token1_account : Pubkey
  pub token0_mint : Pubkey
  pub token1_mint : Pubkey
  pub lp_mint : Pubkey
  pub user_lp_token_account : Pubkey
  pub user : Pubkey
  pub token_program : Pubkey
  pub token_2022_program : Pubkey
  pub associated_token_program : Pubkey
  pub system_program : Pubkey
  pub event_authority : Pubkey
  pub program : Pubkey

unfoldable pub arrange_add_liquidity : List AccountMeta → Option AddLiquidityInstructionAccounts
arrange_add_liquidity = arranged do
  pair ← next_account
  rate_model ← next_account
  futarchy_authority ← next_account
  reserve0_vault ← next_account
  reserve1_vault ← next_account
  user_token0_account ← next_account
  user_token1_account ← next_account
  token0_mint ← next_account
  token1_mint ← next_account
  lp_mint ← next_account
  user_lp_token_account ← next_account
  user ← next_account
  token_program ← next_account
  token_2022_program ← next_account
  associated_token_program ← next_account
  system_program ← next_account
  event_authority ← next_account
  program ← next_account
  pure (record {
    pair = pair;
    rate_model = rate_model;
    futarchy_authority = futarchy_authority;
    reserve0_vault = reserve0_vault;
    reserve1_vault = reserve1_vault;
    user_token0_account = user_token0_account;
    user_token1_account = user_token1_account;
    token0_mint = token0_mint;
    token1_mint = token1_mint;
    lp_mint = lp_mint;
    user_lp_token_account = user_lp_token_account;
    user = user;
    token_program = token_program;
    token_2022_program = token_2022_program;
    associated_token_program = associated_token_program;
    system_program = system_program;
    event_authority = event_authority;
    program = program;
  })

pub record RemoveLiquidityInstructionAccounts : Type 0 where
  pub pair : Pubkey
  pub rate_model : Pubkey
  pub futarchy_authority : Pubkey
  pub reserve0_vault : Pubkey
  pub reserve1_vault : Pubkey
  pub user_token0_account : Pubkey
  pub user_token1_account : Pubkey
  pub token0_mint : Pubkey
  pub token1_mint : Pubkey
  pub lp_mint : Pubkey
  pub user_lp_token_account : Pubkey
  pub user : Pubkey
  pub token_program : Pubkey
  pub token_2022_program : Pubkey
  pub associated_token_program : Pubkey
  pub system_program : Pubkey
  pub event_authority : Pubkey
  pub program : Pubkey

unfoldable pub arrange_remove_liquidity :
    List AccountMeta → Option RemoveLiquidityInstructionAccounts
arrange_remove_liquidity = arranged do
  pair ← next_account
  rate_model ← next_account
  futarchy_authority ← next_account
  reserve0_vault ← next_account
  reserve1_vault ← next_account
  user_token0_account ← next_account
  user_token1_account ← next_account
  token0_mint ← next_account
  token1_mint ← next_account
  lp_mint ← next_account
  user_lp_token_account ← next_account
  user ← next_account
  token_program ← next_account
  token_2022_program ← next_account
  associated_token_program ← next_account
  system_program ← next_account
  event_authority ← next_account
  program ← next_account
  pure (record {
    pair = pair;
    rate_model = rate_model;
    futarchy_authority = futarchy_authority;
    reserve0_vault = reserve0_vault;
    reserve1_vault = reserve1_vault;
    user_token0_account = user_token0_account;
    user_token1_account = user_token1_account;
    token0_mint = token0_mint;
    token1_mint = token1_mint;
    lp_mint = lp_mint;
    user_lp_token_account = user_lp_token_account;
    user = user;
    token_program = token_program;
    token_2022_program = token_2022_program;
    associated_token_program = associated_token_program;
    system_program = system_program;
    event_authority = event_authority;
    program = program;
  })

pub record SwapInstructionAccounts : Type 0 where
  pub pair : Pubkey
  pub rate_model : Pubkey
  pub futarchy_authority : Pubkey
  pub token_in_vault : Pubkey
  pub token_out_vault : Pubkey
  pub user_token_in_account : Pubkey
  pub user_token_out_account : Pubkey
  pub token_in_mint : Pubkey
  pub token_out_mint : Pubkey
  pub user : Pubkey
  pub token_program : Pubkey
  pub token_2022_program : Pubkey
  pub event_authority : Pubkey
  pub program : Pubkey

unfoldable pub arrange_swap : List AccountMeta → Option SwapInstructionAccounts
arrange_swap = arranged do
  pair ← next_account
  rate_model ← next_account
  futarchy_authority ← next_account
  token_in_vault ← next_account
  token_out_vault ← next_account
  user_token_in_account ← next_account
  user_token_out_account ← next_account
  token_in_mint ← next_account
  token_out_mint ← next_account
  user ← next_account
  token_program ← next_account
  token_2022_program ← next_account
  event_authority ← next_account
  program ← next_account
  pure (record {
    pair = pair;
    rate_model = rate_model;
    futarchy_authority = futarchy_authority;
    token_in_vault = token_in_vault;
    token_out_vault = token_out_vault;
    user_token_in_account = user_token_in_account;
    user_token_out_account = user_token_out_account;
    token_in_mint = token_in_mint;
    token_out_mint = token_out_mint;
    user = user;
    token_program = token_program;
    token_2022_program = token_2022_program;
    event_authority = event_authority;
    program = program;
  })

pub record FlashloanInstructionAccounts : Type 0 where
  pub pair : Pubkey
  pub rate_model : Pubkey
  pub futarchy_authority : Pubkey
  pub reserve0_vault : Pubkey
  pub reserve1_vault : Pubkey
  pub token0_mint : Pubkey
  pub token1_mint : Pubkey
  pub receiver_token0_account : Pubkey
  pub receiver_token1_account : Pubkey
  pub receiver_program : Pubkey
  pub user : Pubkey
  pub token_program : Pubkey
  pub token_2022_program : Pubkey
  pub system_program : Pubkey
  pub event_authority : Pubkey
  pub program : Pubkey

unfoldable pub arrange_flashloan : List AccountMeta → Option FlashloanInstructionAccounts
arrange_flashloan = arranged do
  pair ← next_account
  rate_model ← next_account
  futarchy_authority ← next_account
  reserve0_vault ← next_account
  reserve1_vault ← next_account
  token0_mint ← next_account
  token1_mint ← next_account
  receiver_token0_account ← next_account
  receiver_token1_account ← next_account
  receiver_program ← next_account
  user ← next_account
  token_program ← next_account
  token_2022_program ← next_account
  system_program ← next_account
  event_authority ← next_account
  program ← next_account
  pure (record {
    pair = pair;
    rate_model = rate_model;
    futarchy_authority = futarchy_authority;
    reserve0_vault = reserve0_vault;
    reserve1_vault = reserve1_vault;
    token0_mint = token0_mint;
    token1_mint = token1_mint;
    receiver_token0_account = receiver_token0_account;
    receiver_token1_account = receiver_token1_account;
    receiver_program = receiver_program;
    user = user;
    token_program = token_program;
    token_2022_program = token_2022_program;
    system_program = system_program;
    event_authority = event_authority;
    program = program;
  })
