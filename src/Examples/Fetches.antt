-- ===== src/Examples/Fetches.antt =====
-- A transaction that the crawler has fetched.
use omnipair_indexer.Base.{ℕ, [], ◌∷◌, none, some, true, false}
use omnipair_indexer.Datasource.{TransactionUpdate}
use omnipair_indexer.Crawler.Updates.{
  Fetched, Parsing, compiled, task_processor, transaction_metadata_from_original_meta,
  UiTransactionStatusMeta,
}
use omnipair_indexer.Crawler.Updates.Sent.{Sends, task_processor-Sends}
use omnipair_indexer.Examples.{message}

-- Every text is the key 5 or data of one byte, and what is encoded is the shared message.
abbrev parsing : Parsing ℕ
parsing = record { from_str = λ s. some 5; bs58 = λ s. some (9 ∷ []); decode = λ e. some message }

abbrev meta : UiTransactionStatusMeta
meta = record {
  failed = false;
  inner_instructions =
      some (record { index = 1; instructions = compiled 1 (0 ∷ []) "k" (some 2) ∷ [] } ∷ []);
  loaded_addresses = some (record { writable = "w" ∷ []; readonly = [] });
}

abbrev fetched : Fetched ℕ
fetched = record { encoded = 3; meta = some meta; slot = 8; block_time = none }

abbrev update : TransactionUpdate
update = record {
  signature = 77;
  message = message;
  status_meta = transaction_metadata_from_original_meta parsing meta;
  is_vote = false;
  slot = 8;
  block_time = none;
  block_hash = none;
}

-- The same transaction, failed.
abbrev failed : Fetched ℕ
failed = record fetched { meta = some (record meta { failed = true }) }

task_processor-Sends_example :
    Sends parsing (some (5 ∷ [])) (λ _. true) ((78, failed) ∷ (77, fetched) ∷ []) (update ∷ [])
unfolding task_processor
task_processor-Sends_example =
    task_processor-Sends parsing (some (5 ∷ [])) (λ _. true) ((78, failed) ∷ (77, fetched) ∷ [])
