-- ===== src/Pipeline/Process.antt =====
-- What `process` does with an update.
use omnipair_indexer.Base.{
  Bool, List, [], ◌∷◌, ◌≡◌, refl, ap, ◌∙◌, map, CarbonResult, ok, err, panic,
}
use mathlib.Core.Path.{fun_ext}
use omnipair_indexer.Instruction.{
  InstructionsWithMetadata, NestedInstruction, NestedInstructions, nil, cons, TransactionMetadata,
}
use omnipair_indexer.Datasource.{DatasourceId, transaction, TransactionUpdate}
use omnipair_indexer.Filter.{Filter}
use omnipair_indexer.Action.{Action, pure, and_then, for_each, ◌>>◌}
use omnipair_indexer.Transformers.{extract_instructions_with_metadata}
use omnipair_indexer.Transformers.Hierarchy.{IsCallTree, extract-build}
use omnipair_indexer.Pipes.{InstructionPipe, process_one, run_inner, run}
use omnipair_indexer.Pipes.Order.{visits, entry_of, visits-preorder, run_inner-visits}
use omnipair_indexer.Pipeline.{Pipe, Pipeline, try_from, elements, run_filtered, process}

module _ {S T : Type 0} (ip : InstructionPipe S T) where
  -- The pipe behind its trait object, with no filters.
  abbrev pub unfiltered : Pipe S NestedInstruction
  unfiltered = record { filters = []; run = run ip }

  for_each-elements :
      (t : NestedInstructions) (test : NestedInstruction → Filter → Bool) (s : S)
      → for_each (λ n. run_filtered (test n) n unfiltered) (elements t) s ≡ run_inner ip t s
  unfolding for_each run_inner run
  for_each-elements nil test s = refl
  for_each-elements (cons (m, ix) inner rest) test s =
      ap
        (λ (k : Action S (Unit {0})).
          and_then
            (run ip (record { metadata = m; instruction = ix; inner_instructions = inner }) s)
            (λ _. k))
        (fun_ext (for_each-elements rest test))

  for_each-one :
      (t : NestedInstructions) (test : NestedInstruction → Filter → Bool) (s : S)
      → for_each
          (λ pipe. for_each (λ n. run_filtered (test n) n pipe) (elements t))
          (unfiltered ∷ [])
          s
        ≡ and_then (for_each (process_one ip) (visits t) s) (λ _. pure tt)
  unfolding for_each
  for_each-one t test s =
      ap (λ r. and_then r (λ _. pure tt)) (for_each-elements t test s ∙ run_inner-visits ip t s)

  and_then-pure : (r : CarbonResult (Unit {0}) × S) → and_then r (λ _. pure tt) ≡ r
  and_then-pure (ok tt, s) = refl
  and_then-pure (err e, s) = refl
  and_then-pure (panic, s) = refl

  -- For a transaction with a fee payer whose inner instructions form a call tree, whatever its account
  -- indices, a pipeline with one instruction pipe, which has no filters, and no transaction pipe hands
  -- every extracted instruction to that pipe once, in the order of the calls, up to the first error,
  -- and then counts the update.
  pub process-visits :
      (p : Pipeline S) (id : DatasourceId) (u : TransactionUpdate) (s : S)
      {tm : TransactionMetadata}
      → try_from u ≡ ok tm
      → IsCallTree u.message u.status_meta
      → p.instruction_pipes ≡ unfiltered ∷ []
      → p.transaction_pipes ≡ []
      → (es : InstructionsWithMetadata) × (extract_instructions_with_metadata tm u.message
            u.status_meta
          ≡ ok es)
        × (vs : List NestedInstruction) × (map entry_of vs ≡ es)
        × (process p id (transaction u) s
            ≡ (for_each (process_one ip) vs
                  >> p.increment_counter "transaction_updates_processed" 1)
                s)
  unfolding process for_each
  process-visits p id u s {tm} payer tree one no_other =
      let (es, extracted, t, built, order, located) =
        extract-build tm u.message u.status_meta tree in
      (
        es,
        extracted,
        visits t,
        visits-preorder t ∙ order,
        rw (payer, extracted, built, one, no_other)
            (ap (λ r. and_then r (λ _. p.increment_counter "transaction_updates_processed" 1))
              (for_each-one t (λ n f. f.filter_instruction id n) s ∙ and_then-pure _)),
      )
