-- ===== src/Examples/Schemas.antt =====
-- A schema on concrete instructions.
use omnipair_indexer.Base.{
  ℕ, List, [], ◌∷◌, ◌≡◌, refl, String, none, some, ◌==◌, map, false, ok, ◌++◌, length, ◌↔◌,
}
use omnipair_indexer.Instruction.{NestedInstructions, nil, cons, InstructionMetadata}
use omnipair_indexer.Pipes.{DecodedInstruction}
use omnipair_indexer.Dictionary.{lookup, remove}
use omnipair_indexer.Schema.{Collection, SchemaNodes, ParsedInstructions, Output, match_nodes}
use omnipair_indexer.Schema.Matching.{Matches, last_binding}
use omnipair_indexer.Schema.Sound.{match_nodes_sound}
use omnipair_indexer.Schema.Spaced.{Occur, spaced, match_nodes-spaced}
use omnipair_indexer.Transaction.{parse_instructions, unnest_parsed_instructions}
use omnipair_indexer.Transaction.Decoded.{unnest-parse}
use omnipair_indexer.Action.{Action}
use omnipair_indexer.Datasource.{TransactionUpdate}
use omnipair_indexer.Pipeline.{Pipeline, process}
use omnipair_indexer.Transaction.{TransactionPipe}
use omnipair_indexer.Pipeline.Transactions.{unfiltered}
use omnipair_indexer.Examples.{metadata, message, status_meta, at}

-- It parses the instructions of program 12 to the length of their data.
abbrev collection : Collection (List ℕ) (List ℕ)
collection = record {
  parse_instruction = λ i. elim i.bytes [
    | [] ↦ none
    | b ∷ bs ↦ some (record { program_id = i.program_id; content = b ∷ bs; accounts = i.accounts })
  ];
  get_type = λ t. t;
  same_type = λ s t. elim s [ [] ↦ false | x ∷ xs ↦ elim t [ [] ↦ false | y ∷ ys ↦ x == y ] ];
}

abbrev parsed : ℕ → DecodedInstruction (List ℕ)
parsed n = record { program_id = 12; content = n ∷ []; accounts = [] }

abbrev inner : ParsedInstructions (List ℕ)
inner = ParsedInstructions.cons 12 (parsed 4) ParsedInstructions.nil ParsedInstructions.nil

abbrev instructions : ParsedInstructions (List ℕ)
instructions =
    ParsedInstructions.cons 12 (parsed 1) ParsedInstructions.nil
      (ParsedInstructions.cons 12 (parsed 2) inner ParsedInstructions.nil)

-- Anything, then an instruction of type 2 that calls one of type 4.
abbrev schema : SchemaNodes (List ℕ)
schema = SchemaNodes.any (
    SchemaNodes.instruction (2 ∷ []) "outer"
      (SchemaNodes.instruction (4 ∷ []) "inner" SchemaNodes.nil SchemaNodes.nil) SchemaNodes.nil)

abbrev bindings : Output (List ℕ)
bindings = ("outer", (2 ∷ [], [])) ∷ (("inner", (4 ∷ [], [])) ∷ [])

abbrev matched : Output (List ℕ)
matched = ("inner", (4 ∷ [], [])) ∷ (("outer", (2 ∷ [], [])) ∷ [])

match_nodes_sound_example :
    (bs : Output (List ℕ)) × Matches collection schema false instructions bs
    × ((k : String) → lookup k matched ≡ last_binding k bs)
unfolding match_nodes remove
match_nodes_sound_example = match_nodes_sound collection schema instructions matched refl

-- Types, and instructions of type 2, 1 and 2.
abbrev types : List (List ℕ × String)
types = (1 ∷ [], "first") ∷ (2 ∷ [], "second") ∷ []

abbrev mixed : ParsedInstructions (List ℕ)
mixed = ParsedInstructions.cons 12 (parsed 2) ParsedInstructions.nil instructions

match_nodes-spaced_example : Occur collection types mixed ↔ (
    (out : Output (List ℕ)) × (match_nodes collection (spaced collection types) mixed ≡ some out))
match_nodes-spaced_example = match_nodes-spaced collection types mixed

abbrev tree : NestedInstructions
tree = cons (at 1 (0 ∷ [])) nil (cons (at 1 []) (cons (at 2 (1 ∷ 0 ∷ [])) nil nil) nil)

unnest-parse_example :
    map
      (λ (x : InstructionMetadata × DecodedInstruction (List ℕ)). x.1)
      (unnest_parsed_instructions metadata (parse_instructions collection tree) 0)
    ≡ parsed 0 ∷ (record { program_id = 12; content = 1 ∷ 0 ∷ []; accounts = [] } ∷ [])
unnest-parse_example = unnest-parse collection metadata 0 tree

abbrev log : ℕ → Action (List ℕ) (Unit {0})
log n s = (ok tt, s ++ n ∷ [])

-- It logs how many instructions it is given.
abbrev counting : TransactionPipe (List ℕ) (List ℕ) (List ℕ) ℕ
counting = record {
  collection = collection;
  schema = none;
  deserialize = λ o. elim o [ none ↦ none | some m ↦ some (length m) ];
  process = λ (tm, is, matched). log (length is);
  filters = [];
}

abbrev pipeline : Pipeline (List ℕ)
pipeline = record {
  account_pipes = [];
  account_deletion_pipes = [];
  block_details_pipes = [];
  instruction_pipes = [];
  transaction_pipes = unfiltered counting ∷ [];
  increment_counter = λ _ n. log n;
}

abbrev update : TransactionUpdate
update = record {
  signature = 77;
  message = message;
  status_meta = status_meta;
  is_vote = false;
  slot = 5;
  block_time = none;
  block_hash = none;
}
