-- ===== src/Transformers/Hierarchy.antt =====
-- From the message of a transaction to the hierarchy of its instructions.
use omnipair_indexer.Base.{◌≤◌, ◌≡◌, refl, [], ◌++◌, List, arith, length, ok, All, ltb}
use omnipair_indexer.Solana.{
  CompiledInstruction, VersionedMessage, legacy, v0, TransactionStatusMeta,
}
use omnipair_indexer.Instruction.{
  TransactionMetadata, InstructionsWithMetadata, NestedInstructions, preorder,
}
use omnipair_indexer.Nesting.{build}
use omnipair_indexer.Nesting.Located.{IsLocated}
use omnipair_indexer.Nesting.Follow.{FollowsPaths, build-IsLocated}
use omnipair_indexer.Transformers.{
  unwrap_or, process_instructions, build_instruction, extract_instructions_with_metadata,
  contains_key,
}
use omnipair_indexer.Transformers.Groups.{IsGroup, HasOneGroupEach, outer_loop-Follows}

abbrev pub instructions_of : VersionedMessage → List CompiledInstruction
instructions_of (legacy m) = m.instructions
instructions_of (v0 m) = m.instructions

-- A call tree: at most 256 top-level instructions, one group of inner ones for each of them at most,
-- and inner stack heights from 2 to 5 that rise by at most one at a time.
pub record IsCallTree (message : VersionedMessage) (s : TransactionStatusMeta) : Type 0 where
  pub room : length (instructions_of message) ≤ 256
  pub groups : All IsGroup (unwrap_or s.inner_instructions [])
  pub one : HasOneGroupEach (unwrap_or s.inner_instructions [])

-- If a transaction's inner instructions form a call tree, extraction succeeds, whatever its account
-- indices, the stack heights of what it returns lie between 1 and 5 and rise by at most one at a
-- time, and each absolute path is the successor of the one before.
pub extract-FollowsPaths :
    (tm : TransactionMetadata) (message : VersionedMessage) (s : TransactionStatusMeta)
    → IsCallTree message s
    → (es : InstructionsWithMetadata) × (extract_instructions_with_metadata tm message s ≡ ok es)
      × FollowsPaths [] es
unfolding extract_instructions_with_metadata process_instructions
extract-FollowsPaths tm (legacy m) s h =
    outer_loop-Follows tm
      (build_instruction m.account_keys (λ _ i. m.is_maybe_writable i) (λ _ i. m.is_signer i)) 0
      m.instructions s.inner_instructions [] h.groups h.one (omega (arith, h.room)) refl
extract-FollowsPaths tm (v0 m) s h =
    outer_loop-Follows tm
      (build_instruction
        (m.account_keys ++ (s.loaded_addresses.writable ++ s.loaded_addresses.readonly))
        (λ key _. contains_key s.loaded_addresses.writable key)
        (λ _ i. ltb i m.num_required_signatures))
      0 m.instructions s.inner_instructions [] h.groups h.one (omega (arith, h.room)) refl

-- For a transaction whose inner instructions form a call tree, extraction succeeds, whatever its
-- account indices, `build` returns a hierarchy that holds the extracted instructions in the order of
-- their calls, and the absolute path of each is its place in that hierarchy.
pub extract-build :
    (tm : TransactionMetadata) (message : VersionedMessage) (s : TransactionStatusMeta)
    → IsCallTree message s
    → (es : InstructionsWithMetadata) × (extract_instructions_with_metadata tm message s ≡ ok es)
      × (t : NestedInstructions) × (build es ≡ ok t)
      × (preorder t ≡ es)
      × IsLocated [] 0 t
extract-build tm message s h =
    let (es, run, f) = extract-FollowsPaths tm message s h in
    let (t, built, order, located) = build-IsLocated es f in (es, run, t, built, order, located)
