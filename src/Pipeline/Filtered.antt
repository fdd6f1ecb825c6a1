-- ===== src/Pipeline/Filtered.antt =====
-- Pipes with a DatasourceFilter (indexer/crates/core/src/filter.rs) in `Pipeline::process`.
use omnipair_indexer.Base.{Bool, false, List, [], ◌∷◌, ◌++◌, ◌≡◌, refl, String, all, All, ok, arith}
use omnipair_indexer.Instruction.{
  TransactionMetadata, NestedInstruction, NestedInstructions, nil, cons,
}
use omnipair_indexer.Datasource.{
  DatasourceId, Update, account, transaction, account_deletion, block_details,
}
use omnipair_indexer.Filter.{Filter, new_many, contains}
use omnipair_indexer.Action.{for_each}
use omnipair_indexer.Transformers.Hierarchy.{IsCallTree, extract-build}
use omnipair_indexer.Pipeline.{Pipe, Pipeline, try_from, elements, run_filtered, process}

-- Among the filters is a DatasourceFilter that does not allow the datasource.
abbrev pub Excludes : DatasourceId → List Filter → Type 0
Excludes id filters =
    (first rest : List Filter) × (allowed : List DatasourceId) × (filters
      ≡ first ++ new_many allowed ∷ rest)
    × (contains allowed id ≡ false)

-- An account, a deletion, a block; of a transaction, one with a fee payer and a call tree.
abbrev pub IsReadable : Update → Type 0
IsReadable (account u) = Unit
IsReadable (transaction u) =
    (tm : TransactionMetadata) × (try_from u ≡ ok tm) × IsCallTree u.message u.status_meta
IsReadable (account_deletion d) = Unit
IsReadable (block_details d) = Unit

abbrev pub counter_of : Update → String
counter_of (account u) = "account_updates_processed"
counter_of (transaction u) = "transaction_updates_processed"
counter_of (account_deletion d) = "account_deletions_processed"
counter_of (block_details d) = "block_details_processed"

all-one :
    (test : Filter → Bool) (f : Filter) (first rest : List Filter)
    → test f ≡ false
    → all test (first ++ f ∷ rest) ≡ false
all-one test f [] rest h = ground (arith, h)
all-one test f (g ∷ first) rest h = ground (arith, all-one test f first rest h)

module _ {S : Type 0} (id : DatasourceId) where
  -- All pipes pass over the input.
  for_each-excluded :
      {I : Type 0} (test : Filter → Bool) (input : I)
      → ((allowed : List DatasourceId) → test (new_many allowed) ≡ contains allowed id)
      → (pipes : List (Pipe S I)) → All (λ (pipe : Pipe S I). Excludes id pipe.filters) pipes
      → (s : S) → for_each (run_filtered test input) pipes s ≡ (ok tt, s)
  unfolding for_each
  for_each-excluded test input same [] h s = refl
  for_each-excluded test input same (pipe ∷ pipes) h s =
      let (first, rest, allowed, filters, out) = h.0 in
      let no : all test pipe.filters ≡ false =
        rw filters
          (all-one test (new_many allowed) first rest (ground (arith, same allowed, out))) in
      rw no (for_each-excluded test input same pipes h.1 s)

  elements-excluded :
      (t : NestedInstructions) (pipe : Pipe S NestedInstruction)
      → Excludes id pipe.filters
      → (s : S)
      → for_each (λ n. run_filtered (λ f. f.filter_instruction id n) n pipe) (elements t) s
        ≡ (ok tt, s)
  unfolding for_each
  elements-excluded nil pipe h s = refl
  elements-excluded (cons (m, ix) inner rest) pipe h s =
      let (first, later, allowed, filters, out) = h in
      let n : NestedInstruction = record {
        metadata = m;
        instruction = ix;
        inner_instructions = inner;
      } in
      let no : all (λ (f : Filter). f.filter_instruction id n) pipe.filters ≡ false =
        rw filters (
          all-one (λ (f : Filter). f.filter_instruction id n) (new_many allowed) first later out) in
      rw no (elements-excluded rest pipe h s)

  instruction_pipes-excluded :
      (t : NestedInstructions) (pipes : List (Pipe S NestedInstruction))
      → All (λ (pipe : Pipe S NestedInstruction). Excludes id pipe.filters) pipes
      → (s : S)
      → for_each
          (λ (pipe : Pipe S NestedInstruction).
            for_each (λ n. run_filtered (λ f. f.filter_instruction id n) n pipe) (elements t))
          pipes
          s
        ≡ (ok tt, s)
  unfolding for_each
  instruction_pipes-excluded t [] h s = refl
  instruction_pipes-excluded t (pipe ∷ pipes) h s =
      rw (elements-excluded t pipe h.0 s) (instruction_pipes-excluded t pipes h.1 s)

  -- If each of the pipes has a DatasourceFilter that does not allow the datasource, an update from it
  -- is counted and nothing else is done: no pipe runs. This holds for accounts, deletions and blocks,
  -- and for a transaction with a fee payer whose inner instructions form a call tree.
  pub process-excluded :
      (p : Pipeline S) (u : Update) (s : S)
      → All (λ (pipe : Pipe S _). Excludes id pipe.filters) p.account_pipes
      → All (λ (pipe : Pipe S _). Excludes id pipe.filters) p.account_deletion_pipes
      → All (λ (pipe : Pipe S _). Excludes id pipe.filters) p.block_details_pipes
      → All (λ (pipe : Pipe S _). Excludes id pipe.filters) p.instruction_pipes
      → All (λ (pipe : Pipe S _). Excludes id pipe.filters) p.transaction_pipes
      → IsReadable u
      → process p id u s ≡ p.increment_counter (counter_of u) 1 s
  unfolding process
  process-excluded p (account u) s ha hd hb hi ht readable =
      rw (for_each-excluded _ _ (λ allowed. refl) p.account_pipes ha s) refl
  process-excluded p (transaction u) s ha hd hb hi ht (tm, payer, tree) =
      let (es, extracted, t, built, order, located) =
        extract-build tm u.message u.status_meta tree in
      rw
        (
          payer,
          extracted,
          built,
          instruction_pipes-excluded t p.instruction_pipes hi s,
          for_each-excluded (λ (f : Filter). f.filter_transaction id tm t) (tm, t) (λ allowed. refl)
              p.transaction_pipes ht s,
        )
        refl
  process-excluded p (account_deletion d) s ha hd hb hi ht readable =
      rw (for_each-excluded _ _ (λ allowed. refl) p.account_deletion_pipes hd s) refl
  process-excluded p (block_details d) s ha hd hb hi ht readable =
      rw (for_each-excluded _ _ (λ allowed. refl) p.block_details_pipes hb s) refl
