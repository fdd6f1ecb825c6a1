-- ===== src/Datasource.antt =====
-- indexer/crates/core/src/datasource.rs and account.rs: the updates that datasources send.
use omnipair_indexer.Base.{ℕ, Bool, Option, String}
use omnipair_indexer.Solana.{
  Pubkey, Signature, Hash, Account, TransactionStatusMeta, VersionedMessage,
}

abbrev pub DatasourceId : Type 0
DatasourceId = String

pub record AccountUpdate : Type 0 where
  pub pubkey : Pubkey
  pub account : Account
  pub slot : ℕ
  pub transaction_signature : Option Signature

-- Rewards are carried along and read by nothing below.
pub record BlockDetails : Type 0 where
  pub slot : ℕ
  pub block_hash : Option Hash
  pub previous_block_hash : Option Hash
  pub num_reward_partitions : Option ℕ
  pub block_time : Option ℕ
  pub block_height : Option ℕ

pub record AccountDeletion : Type 0 where
  pub pubkey : Pubkey
  pub slot : ℕ
  pub transaction_signature : Option Signature

-- `message` is the message of the field `transaction`.
pub record TransactionUpdate : Type 0 where
  pub signature : Signature
  pub message : VersionedMessage
  pub status_meta : TransactionStatusMeta
  pub is_vote : Bool
  pub slot : ℕ
  pub block_time : Option ℕ
  pub block_hash : Option Hash

pub data Update : Type 0 where
  account : AccountUpdate → Update
  transaction : TransactionUpdate → Update
  account_deletion : AccountDeletion → Update
  block_details : BlockDetails → Update

pub record AccountMetadata : Type 0 where
  pub slot : ℕ
  pub pubkey : Pubkey
  pub transaction_signature : Option Signature
