-- ===== src/Decoder/Accounts.antt =====
-- The accounts of the program and how one is decoded: indexer/decoders/omnipair_decoder/accounts.
pub mod Dispatch
pub mod Decode
use omnipair_indexer.Base.{ℕ, Bool, Option, List}
use omnipair_indexer.Solana.{Pubkey}
use omnipair_indexer.Borsh.{Reader, Borsh, pure, ◌>>=◌}
use omnipair_indexer.Decoder.Types.{RevenueDistribution, read_revenue_distribution}

pub record RevenueRecipients : Type 0 where
  pub futarchy_treasury : Pubkey
  pub buybacks_vault : Pubkey
  pub team_treasury : Pubkey

pub record RevenueShare : Type 0 where
  pub swap_bps : ℕ
  pub interest_bps : ℕ

pub record LastPriceEma : Type 0 where
  pub symmetric : ℕ
  pub directional : ℕ

pub record VaultBumps : Type 0 where
  pub reserve0 : ℕ
  pub reserve1 : ℕ
  pub collateral0 : ℕ
  pub collateral1 : ℕ

pub record FutarchyAuthority : Type 0 where
  pub version : ℕ
  pub authority : Pubkey
  pub recipients : RevenueRecipients
  pub revenue_share : RevenueShare
  pub revenue_distribution : RevenueDistribution
  pub global_reduce_only : Bool
  pub bump : ℕ

pub record Pair : Type 0 where
  pub token0 : Pubkey
  pub token1 : Pubkey
  pub lp_mint : Pubkey
  pub rate_model : Pubkey
  pub swap_fee_bps : ℕ
  pub half_life : ℕ
  pub fixed_cf_bps : Option ℕ
  pub reserve0 : ℕ
  pub reserve1 : ℕ
  pub cash_reserve0 : ℕ
  pub cash_reserve1 : ℕ
  pub last_price0_ema : LastPriceEma
  pub last_price1_ema : LastPriceEma
  pub last_update : ℕ
  pub last_rate0 : ℕ
  pub last_rate1 : ℕ
  pub total_debt0 : ℕ
  pub total_debt1 : ℕ
  pub total_debt0_shares : ℕ
  pub total_debt1_shares : ℕ
  pub total_supply : ℕ
  pub total_collateral0 : ℕ
  pub total_collateral1 : ℕ
  pub token0_decimals : ℕ
  pub token1_decimals : ℕ
  pub params_hash : List ℕ
  pub version : ℕ
  pub bump : ℕ
  pub vault_bumps : VaultBumps
  pub reduce_only : Bool

pub record RateModel : Type 0 where
  pub exp_rate : ℕ
  pub target_util_start : ℕ
  pub target_util_end : ℕ
  pub half_life_ms : ℕ
  pub min_rate : ℕ
  pub max_rate : ℕ
  pub initial_rate : ℕ

pub record UserPosition : Type 0 where
  pub owner : Pubkey
  pub pair : Pubkey
  pub collateral0_liquidation_cf_bps : ℕ
  pub collateral1_liquidation_cf_bps : ℕ
  pub collateral0 : ℕ
  pub collateral1 : ℕ
  pub debt0_shares : ℕ
  pub debt1_shares : ℕ
  pub bump : ℕ

module _ (borsh : Borsh) where
  unfoldable pub read_revenue_recipients : Reader RevenueRecipients
  read_revenue_recipients = do
    futarchy_treasury ← borsh.pubkey
    buybacks_vault ← borsh.pubkey
    team_treasury ← borsh.pubkey
    pure (record {
      futarchy_treasury = futarchy_treasury;
      buybacks_vault = buybacks_vault;
      team_treasury = team_treasury;
    })

  unfoldable pub read_revenue_share : Reader RevenueShare
  read_revenue_share = do
    swap_bps ← borsh.u16
    interest_bps ← borsh.u16
    pure (record { swap_bps = swap_bps; interest_bps = interest_bps })

  unfoldable pub read_last_price_ema : Reader LastPriceEma
  read_last_price_ema = do
    symmetric ← borsh.u64
    directional ← borsh.u64
    pure (record { symmetric = symmetric; directional = directional })

  unfoldable pub read_vault_bumps : Reader VaultBumps
  read_vault_bumps = do
    reserve0 ← borsh.u8
    reserve1 ← borsh.u8
    collateral0 ← borsh.u8
    collateral1 ← borsh.u8
    pure (record {
      reserve0 = reserve0;
      reserve1 = reserve1;
      collateral0 = collateral0;
      collateral1 = collateral1;
    })

  unfoldable pub read_futarchy_authority : Reader FutarchyAuthority
  read_futarchy_authority = do
    version ← borsh.u8
    authority ← borsh.pubkey
    recipients ← read_revenue_recipients
    revenue_share ← read_revenue_share
    revenue_distribution ← read_revenue_distribution borsh
    global_reduce_only ← borsh.bool
    bump ← borsh.u8
    pure (record {
      version = version;
      authority = authority;
      recipients = recipients;
      revenue_share = revenue_share;
      revenue_distribution = revenue_distribution;
      global_reduce_only = global_reduce_only;
      bump = bump;
    })

  unfoldable pub read_pair : Reader Pair
  read_pair = do
    token0 ← borsh.pubkey
    token1 ← borsh.pubkey
    lp_mint ← borsh.pubkey
    rate_model ← borsh.pubkey
    swap_fee_bps ← borsh.u16
    half_life ← borsh.u64
    fixed_cf_bps ← borsh.option borsh.u16
    reserve0 ← borsh.u64
    reserve1 ← borsh.u64
    cash_reserve0 ← borsh.u64
    cash_reserve1 ← borsh.u64
    last_price0_ema ← read_last_price_ema
    last_price1_ema ← read_last_price_ema
    last_update ← borsh.u64
    last_rate0 ← borsh.u64
    last_rate1 ← borsh.u64
    total_debt0 ← borsh.u64
    total_debt1 ← borsh.u64
    total_debt0_shares ← borsh.u128
    total_debt1_shares ← borsh.u128
    total_supply ← borsh.u64
    total_collateral0 ← borsh.u64
    total_collateral1 ← borsh.u64
    token0_decimals ← borsh.u8
    token1_decimals ← borsh.u8
    params_hash ← borsh.byte_array 32
    version ← borsh.u8
    bump ← borsh.u8
    vault_bumps ← read_vault_bumps
    reduce_only ← borsh.bool
    pure (record {
      token0 = token0;
      token1 = token1;
      lp_mint = lp_mint;
      rate_model = rate_model;
      swap_fee_bps = swap_fee_bps;
      half_life = half_life;
      fixed_cf_bps = fixed_cf_bps;
      reserve0 = reserve0;
      reserve1 = reserve1;
      cash_reserve0 = cash_reserve0;
      cash_reserve1 = cash_reserve1;
      last_price0_ema = last_price0_ema;
      last_price1_ema = last_price1_ema;
      last_update = last_update;
      last_rate0 = last_rate0;
      last_rate1 = last_rate1;
      total_debt0 = total_debt0;
      total_debt1 = total_debt1;
      total_debt0_shares = total_debt0_shares;
      total_debt1_shares = total_debt1_shares;
      total_supply = total_supply;
      total_collateral0 = total_collateral0;
      total_collateral1 = total_collateral1;
      token0_decimals = token0_decimals;
      token1_decimals = token1_decimals;
      params_hash = params_hash;
      version = version;
      bump = bump;
      vault_bumps = vault_bumps;
      reduce_only = reduce_only;
    })

  unfoldable pub read_rate_model : Reader RateModel
  read_rate_model = do
    exp_rate ← borsh.u64
    target_util_start ← borsh.u64
    target_util_end ← borsh.u64
    half_life_ms ← borsh.u64
    min_rate ← borsh.u64
    max_rate ← borsh.u64
    initial_rate ← borsh.u64
    pure (record {
      exp_rate = exp_rate;
      target_util_start = target_util_start;
      target_util_end = target_util_end;
      half_life_ms = half_life_ms;
      min_rate = min_rate;
      max_rate = max_rate;
      initial_rate = initial_rate;
    })

  unfoldable pub read_user_position : Reader UserPosition
  read_user_position = do
    owner ← borsh.pubkey
    pair ← borsh.pubkey
    collateral0_liquidation_cf_bps ← borsh.u16
    collateral1_liquidation_cf_bps ← borsh.u16
    collateral0 ← borsh.u64
    collateral1 ← borsh.u64
    debt0_shares ← borsh.u128
    debt1_shares ← borsh.u128
    bump ← borsh.u8
    pure (record {
      owner = owner;
      pair = pair;
      collateral0_liquidation_cf_bps = collateral0_liquidation_cf_bps;
      collateral1_liquidation_cf_bps = collateral1_liquidation_cf_bps;
      collateral0 = collateral0;
      collateral1 = collateral1;
      debt0_shares = debt0_shares;
      debt1_shares = debt1_shares;
      bump = bump;
    })
