-- ===== src/Schema.antt =====
-- Transaction schemas, indexer/crates/core/src/schema.rs, and the interface of a collection of
-- instruction decoders, collection.rs.
pub mod Matching
pub mod Sound
pub mod Complete
pub mod Spaced
use omnipair_indexer.Base.{Bool, true, false, Option, none, some, List, [], String}
use omnipair_indexer.Solana.{Pubkey, AccountMeta, Instruction}
use omnipair_indexer.Pipes.{DecodedInstruction}
use omnipair_indexer.Dictionary.{insert, merge}

-- `InstructionDecoderCollection`, with the equality of its instruction types.
pub record Collection (T K : Type 0) : Type 0 where
  pub parse_instruction : Instruction → Option (DecodedInstruction T)
  pub get_type : T → K
  pub same_type : K → K → Bool

-- `Vec<SchemaNode<T>>`: the constructor of the first node carries the rest of the vector.
pub data SchemaNodes (K : Type 0) : Type 0 where
  nil : SchemaNodes K
  any : SchemaNodes K → SchemaNodes K
  instruction : (ix_type : K) (name : String) (inner rest : SchemaNodes K) → SchemaNodes K

-- `Vec<ParsedInstruction<T>>`, the first one's program, data and inner instructions, and the rest.
pub data ParsedInstructions (T : Type 0) : Type 0 where
  nil : ParsedInstructions T
  cons :
      Pubkey
      → DecodedInstruction T
      → ParsedInstructions T
      → ParsedInstructions T
      → ParsedInstructions T

-- `HashMap<String, (T, Vec<AccountMeta>)>`
abbrev pub Output : Type 0 → Type 0
Output T = List (String × (T × List AccountMeta))

abbrev pub is_empty : {K : Type 0} → SchemaNodes K → Bool
is_empty nil = true
is_empty _ = false

module _ {T K : Type 0} (c : Collection T K) where
  -- The inner `while let`: the first instruction of the type, in front of which `Any` passes over
  -- others. `nested` matches the inner nodes, `go_on` the nodes that follow.
  unfoldable pub scan :
      K
      → String
      → (nested : ParsedInstructions T → Option (Output T))
      → (go_on : ParsedInstructions T → Output T → Option (Output T)) → Bool
      → ParsedInstructions T
      → Output T
      → Option (Output T)
  unfolding merge insert
  scan t name nested go_on passes nil out = none
  scan t name nested go_on passes (cons program decoded inner rest) out =
      elim (c.same_type (c.get_type decoded.content) t) [
        | false ↦ elim passes [ false ↦ none | true ↦ scan t name nested go_on true rest out ]
        | true ↦ elim (nested inner) [
          | none ↦ none
          | some found ↦
              go_on rest (merge (insert name (decoded.content, decoded.accounts) out) found)
        ]
      ]

  -- The outer `while let`. A node with no inner nodes is not matched further, and adds nothing.
  unfoldable pub match_loop :
      SchemaNodes K → Bool → ParsedInstructions T → Output T → Option (Output T)
  unfolding scan
  match_loop nil passes is out = some out
  match_loop (any rest) passes is out = match_loop rest true is out
  match_loop (instruction t name inner rest) passes is out =
      scan t name
        (λ nested. elim (is_empty inner) [
          | true ↦ some []
          | false ↦ match_loop inner false nested []
        ])
        (λ later found. match_loop rest false later found) passes is out

  unfoldable pub match_nodes : SchemaNodes K → ParsedInstructions T → Option (Output T)
  unfolding match_loop
  match_nodes nodes is = match_loop nodes false is []
