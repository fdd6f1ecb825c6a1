-- ===== src/Pipes/Accounts.antt =====
-- The pipes for accounts, for their deletions and for blocks: account.rs, account_deletion.rs and
-- block_details.rs in indexer/crates/core/src.
use omnipair_indexer.Base.{ℕ, Bool, Option, none, some, List}
use omnipair_indexer.Solana.{Pubkey, Account}
use omnipair_indexer.Datasource.{AccountMetadata, AccountDeletion, BlockDetails}
use omnipair_indexer.Filter.{Filter}
use omnipair_indexer.Action.{Action, pure}

pub record DecodedAccount (T : Type 0) : Type 0 where
  pub lamports : ℕ
  pub content : T
  pub owner : Pubkey
  pub executable : Bool
  pub rent_epoch : ℕ

-- `AccountPipe<T>`; the decoder and the processor are trait objects.
pub record AccountPipe (S T : Type 0) : Type 0 where
  pub decode_account : Account → Option (DecodedAccount T)
  pub process : AccountMetadata × DecodedAccount T × Account → Action S (Unit {0})
  pub filters : List Filter

unfoldable pub run_account :
    {S T : Type 0} → AccountPipe S T → AccountMetadata × Account → Action S (Unit {0})
run_account pipe (m, account) = elim (pipe.decode_account account) [
  | none ↦ pure tt
  | some decoded ↦ pipe.process (m, decoded, account)
]

pub record AccountDeletionPipe (S : Type 0) : Type 0 where
  pub process : AccountDeletion → Action S (Unit {0})
  pub filters : List Filter

unfoldable pub run_account_deletion :
    {S : Type 0} → AccountDeletionPipe S → AccountDeletion → Action S (Unit {0})
run_account_deletion pipe deletion = pipe.process deletion

pub record BlockDetailsPipe (S : Type 0) : Type 0 where
  pub process : BlockDetails → Action S (Unit {0})
  pub filters : List Filter

unfoldable pub run_block_details :
    {S : Type 0} → BlockDetailsPipe S → BlockDetails → Action S (Unit {0})
run_block_details pipe block = pipe.process block
