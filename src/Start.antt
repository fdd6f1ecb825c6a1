-- ===== src/Start.antt =====
-- Where the transaction crawler starts: `create_transaction_crawler_datasource` of
-- indexer/src/datasources.rs and what it calls there.
pub mod Page
pub mod Search
pub mod Sweep
use omnipair_indexer.Base.{
  ℕ, zero, suc, Bool, true, false, Option, none, some, List, [], ◌∷◌, String, leb, ◌==◌,
  if◌then◌else◌,
}

-- The fields of a signature's status that the search reads.
pub record SignatureInfo : Type 0 where
  pub signature : String
  pub slot : ℕ

-- What the code calls: `str::parse` into a signature, the RPC server's signatures of the program
-- before a given one, at most `limit` of them, and whether it has a block.
pub record Rpc : Type 0 where
  pub parse : String → Option String
  pub signatures_before : (limit : ℕ) → Option String → Option (List SignatureInfo)
  pub has_block : ℕ → Bool

unfoldable pub get_slot_for_block : Rpc → ℕ → Option ℕ
get_slot_for_block r block_number = if r.has_block block_number then some block_number else none

-- `for sig_info in &signatures`
unfoldable pub first_at : (target_slot : ℕ) → List SignatureInfo → Option SignatureInfo
first_at target [] = none
first_at target (info ∷ rest) = if leb info.slot target then some info else first_at target rest

-- `signatures.last()`
unfoldable pub last : List SignatureInfo → Option SignatureInfo
last [] = none
last (info ∷ []) = some info
last (info ∷ (next ∷ rest)) = last (next ∷ rest)

-- One page of signatures that is not empty; `go_on` searches behind the last of them.
unfoldable pub on_page :
    Rpc → (target_slot : ℕ) → List SignatureInfo → (String → Option String) → Option String
unfolding first_at last
on_page r target signatures go_on = elim (first_at target signatures) [
  | some info ↦ r.parse info.signature
  | none ↦ elim (last signatures) [
    | none ↦ none
    | some info ↦ elim (r.parse info.signature) [ none ↦ none | some signature ↦ go_on signature ]
  ]
]

-- `while !found_signature && attempts < MAX_ATTEMPTS`, with the attempts that are left;
-- `found_signature` is never set.
unfoldable pub search_loop :
    Rpc → (limit target_slot : ℕ) → (left : ℕ) → (before_signature : Option String) → Option String
unfolding on_page
search_loop r limit target zero before = none
search_loop r limit target (suc left) before =
    let go_on = λ (s : String). search_loop r limit target left (some s) in
    elim (r.signatures_before limit before) [
      | none ↦ none
      | some [] ↦ none
      | some (info ∷ rest) ↦ on_page r target (info ∷ rest) go_on
    ]

abbrev pub max_attempts : ℕ
max_attempts = 10

abbrev pub search_limit : ℕ
search_limit = 1000

unfoldable pub find_signature_at_slot : Rpc → (target_slot : ℕ) → Option String
unfolding search_loop
find_signature_at_slot r target = search_loop r search_limit target max_attempts none

-- The `until_signature` that the crawler is created with.
unfoldable pub until_signature : Rpc → (start_block : Option ℕ) → Option String
unfolding get_slot_for_block find_signature_at_slot
until_signature r none = none
until_signature r (some block_number) = elim (block_number == 0) [
  | true ↦ none
  | false ↦ elim (get_slot_for_block r block_number) [
    | none ↦ none
    | some slot ↦ find_signature_at_slot r slot
  ]
]
