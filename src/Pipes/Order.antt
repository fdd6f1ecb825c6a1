-- ===== src/Pipes/Order.antt =====
-- The order in which an instruction pipe goes through a hierarchy.
use mathlib.Core.Path.{fun_ext}
use mathlib.Core.List.{map-append}
use omnipair_indexer.Base.{CarbonResult, ok, err, panic, List, [], ◌∷◌, ◌++◌, ◌≡◌, refl, sym, map}
use omnipair_indexer.Instruction.{Entry, NestedInstruction, NestedInstructions, nil, cons, preorder}
use omnipair_indexer.Action.{and_then, for_each, for_each-append}
use omnipair_indexer.Pipes.{InstructionPipe, process_one, run_inner}

-- Every nested instruction of a hierarchy, each before those inside it.
abbrev pub visits : NestedInstructions → List NestedInstruction
visits nil = []
visits (cons (m, ix) inner rest) =
    record { metadata = m; instruction = ix; inner_instructions = inner }
    ∷ (visits inner ++ visits rest)

abbrev pub entry_of : NestedInstruction → Entry
entry_of n = (n.metadata, n.instruction)

pub visits-preorder : (t : NestedInstructions) → map entry_of (visits t) ≡ preorder t
visits-preorder nil = refl
visits-preorder (cons (m, ix) inner rest) =
    simp (map-append, visits-preorder inner, visits-preorder rest)

module _ {S T : Type 0} (pipe : InstructionPipe S T) where
  split_cons :
      (xs ys : NestedInstructions)
      → ((s : S) → run_inner pipe xs s ≡ for_each (process_one pipe) (visits xs) s)
      → ((s : S) → run_inner pipe ys s ≡ for_each (process_one pipe) (visits ys) s)
      → (r : CarbonResult (Unit {0}) × S)
      → and_then (and_then r (λ _. run_inner pipe xs)) (λ _. run_inner pipe ys)
        ≡ and_then r (λ _. for_each (process_one pipe) (visits xs ++ visits ys))
  split_cons xs ys hx hy (ok a, s) =
      rw (hx s)
        (rw (fun_ext hy) (sym (for_each-append (process_one pipe) (visits xs) (visits ys) s)))
  split_cons xs ys hx hy (err e, s) = refl
  split_cons xs ys hx hy (panic, s) = refl

  -- The recursion through inner instructions is one loop over them all in the order of calls, up to
  -- the first error.
  pub run_inner-visits :
      (t : NestedInstructions) (s : S)
      → run_inner pipe t s ≡ for_each (process_one pipe) (visits t) s
  unfolding run_inner for_each
  run_inner-visits nil s = refl
  run_inner-visits (cons (m, ix) inner rest) s =
      split_cons inner rest (run_inner-visits inner) (run_inner-visits rest) _
