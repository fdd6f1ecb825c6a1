-- ===== src/Solana.antt =====
-- The parts of the Solana crates' types that the code reads. A method of those crates stands as a
-- field of the value that it is called on: the crates are not part of the repository.
use omnipair_indexer.Base.{ℕ, Bool, Option, List}

-- A 32-byte key and a 64-byte signature, as the numbers that their bytes write.
abbrev pub Pubkey : Type 0
Pubkey = ℕ

abbrev pub Signature : Type 0
Signature = ℕ

abbrev pub Hash : Type 0
Hash = ℕ

-- `Pubkey::default()`, 32 zero bytes.
abbrev pub default_pubkey : Pubkey
default_pubkey = 0

pub record AccountMeta : Type 0 where
  pub pubkey : Pubkey
  pub is_signer : Bool
  pub is_writable : Bool

pub record Instruction : Type 0 where
  pub program_id : Pubkey
  pub accounts : List AccountMeta
  pub bytes : List ℕ

-- Indices of a compiled instruction are bytes.
pub record CompiledInstruction : Type 0 where
  pub program_id_index : ℕ
  pub accounts : List ℕ
  pub bytes : List ℕ

pub record InnerInstruction : Type 0 where
  pub instruction : CompiledInstruction
  pub stack_height : Option ℕ

pub record InnerInstructions : Type 0 where
  pub index : ℕ
  pub instructions : List InnerInstruction

pub record LoadedAddresses : Type 0 where
  pub writable : List Pubkey
  pub readonly : List Pubkey

-- `is_maybe_writable i` is the call `is_maybe_writable(i, None)`.
pub record LegacyMessage : Type 0 where
  pub account_keys : List Pubkey
  pub instructions : List CompiledInstruction
  pub is_maybe_writable : ℕ → Bool
  pub is_signer : ℕ → Bool

pub record V0Message : Type 0 where
  pub num_required_signatures : ℕ
  pub account_keys : List Pubkey
  pub instructions : List CompiledInstruction

pub data VersionedMessage : Type 0 where
  legacy : LegacyMessage → VersionedMessage
  v0 : V0Message → VersionedMessage

-- `static_account_keys()`: the keys that the message itself lists.
abbrev pub static_account_keys : VersionedMessage → List Pubkey
static_account_keys (legacy m) = m.account_keys
static_account_keys (v0 m) = m.account_keys

-- The other fields are carried along and read by nothing below.
pub record TransactionStatusMeta : Type 0 where
  pub inner_instructions : Option (List InnerInstructions)
  pub loaded_addresses : LoadedAddresses

pub record Account : Type 0 where
  pub lamports : ℕ
  pub bytes : List ℕ
  pub owner : Pubkey
  pub executable : Bool
  pub rent_epoch : ℕ
