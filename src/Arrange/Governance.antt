-- ===== src/Arrange/Governance.antt =====
-- `arrange_accounts` of the instructions of indexer/decoders/omnipair_decoder/instructions.
pub mod Keys
use omnipair_indexer.Base.{Option, List}
use omnipair_indexer.Solana.{Pubkey, AccountMeta}
use omnipair_indexer.Borsh.{pure, ◌>>=◌}
use omnipair_indexer.Arrange.{arranged, next_account}

pub record ClaimProtocolFeesInstructionAccounts : Type 0 where
  pub caller : Pubkey
  pub pair : Pubkey
  pub rate_model : Pubkey
  pub futarchy_authority : Pubkey
  pub reserve0_vault : Pubkey
  pub reserve1_vault : Pubkey
  pub token0_mint : Pubkey
  pub token1_mint : Pubkey
  pub futarchy_treasury_token0 : Pubkey
  pub futarchy_treasury_token1 : Pubkey
  pub futarchy_treasury : Pubkey
  pub buybacks_vault_token0 : Pubkey
  pub buybacks_vault_token1 : Pubkey
  pub buybacks_vault : Pubkey
  pub team_treasury_token0 : Pubkey
  pub team_treasury_token1 : Pubkey
  pub team_treasury : Pubkey
  pub token_program : Pubkey
  pub token_2022_program : Pubkey
  pub associated_token_program : Pubkey
  pub system_program : Pubkey

unfoldable pub arrange_claim_protocol_fees :
    List AccountMeta → Option ClaimProtocolFeesInstructionAccounts
arrange_claim_protocol_fees = arranged do
  caller ← next_account
  pair ← next_account
  rate_model ← next_account
  futarchy_authority ← next_account
  reserve0_vault ← next_account
  reserve1_vault ← next_account
  token0_mint ← next_account
  token1_mint ← next_account
  futarchy_treasury_token0 ← next_account
  futarchy_treasury_token1 ← next_account
  futarchy_treasury ← next_account
  buybacks_vault_token0 ← next_account
  buybacks_vault_token1 ← next_account
  buybacks_vault ← next_account
  team_treasury_token0 ← next_account
  team_treasury_token1 ← next_account
  team_treasury ← next_account
  token_program ← next_account
  token_2022_program ← next_account
  associated_token_program ← next_account
  system_program ← next_account
  pure (record {
    caller = caller;
    pair = pair;
    rate_model = rate_model;
    futarchy_authority = futarchy_authority;
    reserve0_vault = reserve0_vault;
    reserve1_vault = reserve1_vault;
    token0_mint = token0_mint;
    token1_mint = token1_mint;
    futarchy_treasury_token0 = futarchy_treasury_token0;
    futarchy_treasury_token1 = futarchy_treasury_token1;
    futarchy_treasury = futarchy_treasury;
    buybacks_vault_token0 = buybacks_vault_token0;
    buybacks_vault_token1 = buybacks_vault_token1;
    buybacks_vault = buybacks_vault;
    team_treasury_token0 = team_treasury_token0;
    team_treasury_token1 = team_treasury_token1;
    team_treasury = team_treasury;
    token_program = token_program;
    token_2022_program = token_2022_program;
    associated_token_program = associated_token_program;
    system_program = system_program;
  })

pub record InitFutarchyAuthorityInstructionAccounts : Type 0 where
  pub deployer : Pubkey
  pub futarchy_authority : Pubkey
  pub program_data : Pubkey
  pub system_program : Pubkey

unfoldable pub arrange_init_futarchy_authority :
    List AccountMeta → Option InitFutarchyAuthorityInstructionAccounts
arrange_init_futarchy_authority = arranged do
  deployer ← next_account
  futarchy_authority ← next_account
  program_data ← next_account
  system_program ← next_account
  pure (record {
    deployer = deployer;
    futarchy_authority = futarchy_authority;
    program_data = program_data;
    system_program = system_program;
  })

pub record SetGlobalReduceOnlyInstructionAccounts : Type 0 where
  pub authority_signer : Pubkey
  pub futarchy_authority : Pubkey
  pub system_program : Pubkey

unfoldable pub arrange_set_global_reduce_only :
    List AccountMeta → Option SetGlobalReduceOnlyInstructionAccounts
arrange_set_global_reduce_only = arranged do
  authority_signer ← next_account
  futarchy_authority ← next_account
  system_program ← next_account
  pure (record {
    authority_signer = authority_signer;
    futarchy_authority = futarchy_authority;
    system_program = system_program;
  })

pub record SetPairReduceOnlyInstructionAccounts : Type 0 where
  pub authority_signer : Pubkey
  pub futarchy_authority : Pubkey
  pub pair : Pubkey
  pub system_program : Pubkey

unfoldable pub arrange_set_pair_reduce_only :
    List AccountMeta → Option SetPairReduceOnlyInstructionAccounts
arrange_set_pair_reduce_only = arranged do
  authority_signer ← next_account
  futarchy_authority ← next_account
  pair ← next_account
  system_program ← next_account
  pure (record {
    authority_signer = authority_signer;
    futarchy_authority = futarchy_authority;
    pair = pair;
    system_program = system_program;
  })

pub record UpdateFutarchyAuthorityInstructionAccounts : Type 0 where
  pub authority_signer : Pubkey
  pub futarchy_authority : Pubkey
  pub system_program : Pubkey

unfoldable pub arrange_update_futarchy_authority :
    List AccountMeta → Option UpdateFutarchyAuthorityInstructionAccounts
arrange_update_futarchy_authority = arranged do
  authority_signer ← next_account
  futarchy_authority ← next_account
  system_program ← next_account
  pure (record {
    authority_signer = authority_signer;
    futarchy_authority = futarchy_authority;
    system_program = system_program;
  })

pub record UpdateProtocolRevenueInstructionAccounts : Type 0 where
  pub authority_signer : Pubkey
  pub futarchy_authority : Pubkey
  pub system_program : Pubkey

unfoldable pub arrange_update_protocol_revenue :
    List AccountMeta → Option UpdateProtocolRevenueInstructionAccounts
arrange_update_protocol_revenue = arranged do
  authority_signer ← next_account
  futarchy_authority ← next_account
  system_program ← next_account
  pure (record {
    authority_signer = authority_signer;
    futarchy_authority = futarchy_authority;
    system_program = system_program;
  })

pub record UpdateRevenueRecipientsInstructionAccounts : Type 0 where
  pub authority_signer : Pubkey
  pub futarchy_authority : Pubkey
  pub system_program : Pubkey

unfoldable pub arrange_update_revenue_recipients :
    List AccountMeta → Option UpdateRevenueRecipientsInstructionAccounts
arrange_update_revenue_recipients = arranged do
  authority_signer ← next_account
  futarchy_authority ← next_account
  system_program ← next_account
  pure (record {
    authority_signer = authority_signer;
    futarchy_authority = futarchy_authority;
    system_program = system_program;
  })

pub record ViewPairDataInstructionAccounts : Type 0 where
  pub pair : Pubkey
  pub rate_model : Pubkey
  pub futarchy_authority : Pubkey

unfoldable pub arrange_view_pair_data : List AccountMeta → Option ViewPairDataInstructionAccounts
arrange_view_pair_data = arranged do
  pair ← next_account
  rate_model ← next_account
  futarchy_authority ← next_account
  pure (record { pair = pair; rate_model = rate_model; futarchy_authority = futarchy_authority })

pub record ViewUserPositionDataInstructionAccounts : Type 0 where
  pub pair : Pubkey
  pub user_position : Pubkey
  pub rate_model : Pubkey
  pub futarchy_authority : Pubkey

unfoldable pub arrange_view_user_position_data :
    List AccountMeta → Option ViewUserPositionDataInstructionAccounts
arrange_view_user_position_data = arranged do
  pair ← next_account
  user_position ← next_account
  rate_model ← next_account
  futarchy_authority ← next_account
  pure (record {
    pair = pair;
    user_position = user_position;
    rate_model = rate_model;
    futarchy_authority = futarchy_authority;
  })
