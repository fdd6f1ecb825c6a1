-- ===== src/Crawler/Updates.antt =====
-- The third task of the crawler, `task_processor`, which makes updates of the fetched transactions,
-- and `transaction_metadata_from_original_meta` of indexer/crates/core/src/transformers.rs.
pub mod Wanted
pub mod Sent
use omnipair_indexer.Base.{
  unwrap_or, ℕ, Bool, true, false, Option, none, some, List, [], ◌∷◌, ◌++◌, String, map, any, ◌==◌,
  if◌then◌else◌,
}
use omnipair_indexer.Solana.{
  Pubkey, Signature, default_pubkey, InnerInstruction, TransactionStatusMeta, VersionedMessage,
  static_account_keys,
}
use omnipair_indexer.Datasource.{TransactionUpdate}

-- `UiInstruction`; the parsed ones are not read.
pub data UiInstruction : Type 0 where
  compiled :
      (program_id_index : ℕ) (accounts : List ℕ) (text : String) (stack_height : Option ℕ)
      → UiInstruction
  parsed : UiInstruction

pub record UiInnerInstructions : Type 0 where
  pub index : ℕ
  pub instructions : List UiInstruction

pub record UiLoadedAddresses : Type 0 where
  pub writable : List String
  pub readonly : List String

-- The fields of `UiTransactionStatusMeta` that are read here; `failed` is `status.is_err()`.
pub record UiTransactionStatusMeta : Type 0 where
  pub failed : Bool
  pub inner_instructions : Option (List UiInnerInstructions)
  pub loaded_addresses : Option UiLoadedAddresses

-- An encoded transaction with its slot, its time and its metadata.
pub record Fetched (E : Type 0) : Type 0 where
  pub encoded : E
  pub meta : Option UiTransactionStatusMeta
  pub slot : ℕ
  pub block_time : Option ℕ

-- What the code calls: `Pubkey::from_str`, `bs58::decode`, and `decode` of a transaction.
pub record Parsing (E : Type 0) : Type 0 where
  pub from_str : String → Option Pubkey
  pub bs58 : String → Option (List ℕ)
  pub decode : E → Option VersionedMessage

abbrev pub filter_map : {A B : Type 0} → (A → Option B) → List A → List B
filter_map f [] = []
filter_map f (x ∷ xs) = elim (f x) [ none ↦ filter_map f xs | some y ↦ y ∷ filter_map f xs ]

module _ {E : Type 0} (c : Parsing E) where
  unfoldable pub inner_instruction : UiInstruction → InnerInstruction
  inner_instruction (compiled program_id_index accounts text stack_height) = record {
    instruction = record {
      program_id_index = program_id_index;
      accounts = accounts;
      bytes = unwrap_or (c.bs58 text) [];
    };
    stack_height = stack_height;
  }
  inner_instruction parsed = record {
    instruction = record { program_id_index = 0; accounts = []; bytes = [] };
    stack_height = none;
  }

  abbrev pub loaded_of : UiTransactionStatusMeta → UiLoadedAddresses
  loaded_of meta = unwrap_or meta.loaded_addresses (record { writable = []; readonly = [] })

  abbrev pub pubkey_or_default : String → Pubkey
  pubkey_or_default s = unwrap_or (c.from_str s) default_pubkey

  -- Of its result, the fields that the pipeline reads.
  unfoldable pub transaction_metadata_from_original_meta :
      UiTransactionStatusMeta → TransactionStatusMeta
  unfolding inner_instruction
  transaction_metadata_from_original_meta meta = record {
    inner_instructions = some (
        map
          (λ (group : UiInnerInstructions). record {
            index = group.index;
            instructions = map inner_instruction group.instructions;
          })
          (unwrap_or meta.inner_instructions []));
    loaded_addresses = record {
      writable = map pubkey_or_default (loaded_of meta).writable;
      readonly = map pubkey_or_default (loaded_of meta).readonly;
    };
  }

  -- `static_accounts.iter().cloned().chain(…).chain(…)`
  abbrev pub all_accounts : VersionedMessage → UiTransactionStatusMeta → List Pubkey
  all_accounts message meta =
      static_account_keys message
      ++ (filter_map c.from_str (loaded_of meta).writable
          ++ filter_map c.from_str (loaded_of meta).readonly)

  -- `filters.accounts`
  unfoldable pub passes : Option (List Pubkey) → VersionedMessage → UiTransactionStatusMeta → Bool
  passes none message meta = true
  passes (some accounts) message meta =
      any (λ account. any (λ a. account == a) accounts) (all_accounts message meta)

  -- One received transaction, up to the sending; every `continue` is `none`.
  unfoldable pub update_of : Option (List Pubkey) → Signature × Fetched E → Option TransactionUpdate
  unfolding passes transaction_metadata_from_original_meta
  update_of accounts (signature, fetched) = elim fetched.meta [
    | none ↦ none
    | some meta ↦ elim meta.failed [
      | true ↦ none
      | false ↦ elim (c.decode fetched.encoded) [
        | none ↦ none
        | some message ↦
            if passes accounts message meta
            then some (record {
              signature = signature;
              message = message;
              status_meta = transaction_metadata_from_original_meta meta;
              is_vote = false;
              slot = fetched.slot;
              block_time = fetched.block_time;
              block_hash = none;
            })
            else none
      ]
    ]
  ]

  -- The loop on the received transactions; `sends` is whether the pipeline's channel takes an update.
  unfoldable pub task_processor :
      Option (List Pubkey)
      → (TransactionUpdate → Bool)
      → List (Signature × Fetched E)
      → List TransactionUpdate
  unfolding update_of
  task_processor accounts sends [] = []
  task_processor accounts sends (received ∷ rest) =
      let others = task_processor accounts sends rest in
      elim (update_of accounts received) [
        | none ↦ others
        | some update ↦ if sends update then update ∷ others else others
      ]
