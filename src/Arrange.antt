-- ===== src/Arrange.antt =====
-- `ArrangeAccounts`: naming the accounts of an instruction, by the `next_account` of
-- indexer/crates/core/src/account_utils.rs.
pub mod Order
pub mod Named
pub mod Liquidity
pub mod Lending
pub mod Governance
use omnipair_indexer.Base.{Option, none, some, List, [], ◌∷◌}
use omnipair_indexer.Solana.{Pubkey, AccountMeta}
use omnipair_indexer.Borsh.{Parser, value_of}

-- `next_account(&mut iter)?`
abbrev pub next_account : Parser AccountMeta Pubkey
next_account [] = none
next_account (a ∷ rest) = some (a.pubkey, rest)

-- `accounts.iter()`, with what the iterator has left at the end forgotten.
abbrev pub arranged : {A : Type 0} → Parser AccountMeta A → List AccountMeta → Option A
arranged p accounts = value_of (p accounts)
