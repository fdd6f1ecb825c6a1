-- ===== src/Examples/Hierarchies.antt =====
-- Hierarchies that are built from concrete transactions.
use omnipair_indexer.Base.{
  List, [], ◌∷◌, ◌++◌, ◌≡◌, refl, All, arith, ok, panic, some, map, true, false,
}
use omnipair_indexer.Instruction.{Entry, InstructionsWithMetadata, NestedInstructions, preorder}
use omnipair_indexer.Nesting.{build}
use omnipair_indexer.Nesting.Depth.{HasDepth}
use omnipair_indexer.Nesting.Located.{IsLocated}
use omnipair_indexer.Nesting.Build.{preorder-build, build-roundtrip, build-panics, kept, HasHeight}
use omnipair_indexer.Nesting.Follow.{build-IsLocated, FollowsPaths}
use omnipair_indexer.Transformers.{
  extract_instructions_with_metadata, process_instructions, build_instruction,
}
use omnipair_indexer.Transformers.Contents.{summary, built, process_instructions-calls}
use omnipair_indexer.Solana.{InnerInstructions}
use omnipair_indexer.Transformers.Hierarchy.{extract-FollowsPaths, extract-build}
use omnipair_indexer.Examples.{
  message, status_meta, metadata, message-IsCallTree, at, compiled, called,
}

-- The last one skips two levels, and is dropped.
abbrev calls : List Entry
calls = at 1 (0 ∷ []) ∷ at 2 (0 ∷ 0 ∷ []) ∷ at 3 (0 ∷ 0 ∷ 0 ∷ []) ∷ at 1 (1 ∷ []) ∷ []

abbrev orphan : Entry
orphan = at 4 (1 ∷ 0 ∷ 0 ∷ 0 ∷ [])

positions : All HasHeight calls
positions = (
  (omega arith, omega arith),
  ((omega arith, omega arith), ((omega arith, omega arith), ((omega arith, omega arith), tt))),
)

preorder-build_example :
    (t : NestedInstructions) × (build (orphan ∷ calls) ≡ ok t)
    × (preorder t ≡ kept 0 (orphan ∷ calls))
    × HasDepth 1 t
preorder-build_example = preorder-build (orphan ∷ calls) ((omega arith, omega arith), positions)

build-roundtrip_example : (t : NestedInstructions) × (build calls ≡ ok t) × (preorder t ≡ calls)
build-roundtrip_example =
    build-roundtrip calls positions (omega arith, (omega arith, (omega arith, (omega arith, tt))))

build-panics_example : build (calls ++ at 6 [] ∷ calls) ≡ panic
build-panics_example =
    build-panics calls (at 6 []) calls positions (λ (h : HasHeight (at 6 [])). omega (arith, h))

build-IsLocated_example :
    (t : NestedInstructions) × (build calls ≡ ok t) × (preorder t ≡ calls) × IsLocated [] 0 t
build-IsLocated_example = build-IsLocated calls (
  omega arith,
  omega arith,
  omega arith,
  refl,
  (
    omega arith,
    omega arith,
    omega arith,
    refl,
    (
      omega arith,
      omega arith,
      omega arith,
      refl,
      (omega arith, omega arith, omega arith, refl, tt),
    ),
  ),
)

extract-FollowsPaths_example :
    (es : InstructionsWithMetadata) × (extract_instructions_with_metadata metadata message
        status_meta
      ≡ ok es)
    × FollowsPaths [] es
extract-FollowsPaths_example = extract-FollowsPaths metadata message status_meta message-IsCallTree

extract-build_example :
    (es : InstructionsWithMetadata) × (extract_instructions_with_metadata metadata message
        status_meta
      ≡ ok es)
    × (t : NestedInstructions) × (build es ≡ ok t)
    × (preorder t ≡ es)
    × IsLocated [] 0 t
extract-build_example = extract-build metadata message status_meta message-IsCallTree

-- Two groups of the second instruction; the third group belongs to none.
abbrev groups : List InnerInstructions
groups =
    record { index = 1; instructions = called 2 3 ∷ called 5 4 ∷ [] }
    ∷ record { index = 1; instructions = called 3 6 ∷ [] }
    ∷ record { index = 9; instructions = called 2 5 ∷ [] }
    ∷ []

process_instructions-calls_example :
    (es : InstructionsWithMetadata) × (process_instructions
        (11 ∷ 12 ∷ [])
        (compiled 1 ∷ compiled 2 ∷ [])
        (some groups)
        metadata
        (λ key i. true)
        (λ key i. false)
      ≡ ok es)
    × (map summary es
        ≡ map (built (build_instruction (11 ∷ 12 ∷ []) (λ key i. true) (λ key i. false))) (
            (1, compiled 1)
            ∷ (1, compiled 2)
            ∷ (2, compiled 3)
            ∷ (5, compiled 4)
            ∷ (3, compiled 6)
            ∷ []))
process_instructions-calls_example =
    process_instructions-calls metadata (11 ∷ 12 ∷ []) (compiled 1 ∷ compiled 2 ∷ []) (some groups)
      (λ key i. true) (λ key i. false)
      (
        ((omega arith, omega arith), ((omega arith, omega arith), tt)),
        (((omega arith, omega arith), tt), (((omega arith, omega arith), tt), tt)),
      )
