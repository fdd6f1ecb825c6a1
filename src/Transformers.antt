-- ===== src/Transformers.antt =====
-- indexer/crates/core/src/transformers.rs: the instructions of a transaction, each with its
-- metadata, in the order of their calls.
pub mod Array
pub mod Paths
pub mod Groups
pub mod Contents
pub mod Hierarchy
use omnipair_indexer.Base.{
  unwrap_or, ℕ, suc, ◌+◌, ◌-◌, ◌%◌, ◌^◌, Bool, Option, none, some, List, [], ◌∷◌, ◌++◌, ltb, ◌==◌,
  if◌then◌else◌, get_elem?, set, get_or, take, any, CarbonResult, ok, assert, ◌>>=◌, ◌>>◌,
}
use mathlib.Core.Option
use omnipair_indexer.Solana.{
  Pubkey, default_pubkey, AccountMeta, Instruction, CompiledInstruction, InnerInstruction,
  InnerInstructions, VersionedMessage, legacy, v0, TransactionStatusMeta,
}
use omnipair_indexer.Instruction.{TransactionMetadata, Entry, InstructionsWithMetadata}

-- `accounts.iter().filter_map(…)`: an index that names no key is left out.
account_metas : List Pubkey → (Pubkey → ℕ → Bool) → (Pubkey → ℕ → Bool) → List ℕ → List AccountMeta
account_metas keys is_writable is_signer [] = []
account_metas keys is_writable is_signer (i ∷ is) = elim (get_elem? keys i) [
  | none ↦ account_metas keys is_writable is_signer is
  | some key ↦
      record { pubkey = key; is_signer = is_signer key i; is_writable = is_writable key i }
      ∷ account_metas keys is_writable is_signer is
]

unfoldable pub build_instruction :
    List Pubkey → (Pubkey → ℕ → Bool) → (Pubkey → ℕ → Bool) → CompiledInstruction → Instruction
unfolding account_metas
build_instruction keys is_writable is_signer c = record {
  program_id = get_or keys c.program_id_index default_pubkey;
  accounts = account_metas keys is_writable is_signer c.accounts;
  bytes = c.bytes;
}

-- `path_stack` after an inner instruction of the given height. The array has five bytes; an index
-- outside it panics, and `+= 1` wraps.
unfoldable pub next_path : List ℕ → (prev_height stack_height : ℕ) → CarbonResult (List ℕ)
next_path path prev h = do
  assert (ltb 0 h)
  assert (ltb (h - 1) 5)
  ok (set path (h - 1) (if ltb prev h then 0 else (get_or path (h - 1) 0 + 1) % 256))

module _ (tm : TransactionMetadata) (instruction_of : CompiledInstruction → Instruction) where
  abbrev pub entry : (stack_height index : ℕ) → List ℕ → CompiledInstruction → Entry
  entry h i path c = (
    record { transaction_metadata = tm; stack_height = h; index = i; absolute_path = path },
    instruction_of c,
  )

  -- `for inner_inst in &inner_tx.instructions`
  unfoldable pub inner_loop : ℕ → List InnerInstruction → List ℕ → ℕ → CarbonResult (List Entry)
  inner_loop index [] path prev = ok []
  inner_loop index (inst ∷ insts) path prev = do
    let h = unwrap_or inst.stack_height 1
    path' ← next_path path prev h
    rest ← inner_loop index insts path' h
    ok (entry h index (take h path') inst.instruction ∷ rest)

  -- `for inner_tx in inner_instructions`, at the top-level instruction `i`
  unfoldable pub group_loop : ℕ → List InnerInstructions → CarbonResult (List Entry)
  group_loop i [] = ok []
  group_loop i (g ∷ gs) = do
    es ←
        if g.index == i
        then inner_loop g.index g.instructions (g.index ∷ 0 ∷ 0 ∷ 0 ∷ 0 ∷ []) 0
        else ok []
    rest ← group_loop i gs
    ok (es ++ rest)

  -- `for (i, compiled_instruction) in instructions.iter().enumerate()`, from index `i` on
  unfoldable pub outer_loop :
      ℕ → List CompiledInstruction → Option (List InnerInstructions) → CarbonResult (List Entry)
  outer_loop i [] inner = ok []
  outer_loop i (c ∷ cs) inner = do
    es ← group_loop i (unwrap_or inner [])
    rest ← outer_loop (suc i) cs inner
    ok (entry 1 (i % 2 ^ 32) ((i % 256) ∷ []) c ∷ (es ++ rest))

-- `process_instructions`, with the two closures as arguments.
unfoldable pub process_instructions :
    List Pubkey
    → List CompiledInstruction
    → Option (List InnerInstructions)
    → TransactionMetadata
    → (is_writable is_signer : Pubkey → ℕ → Bool) → CarbonResult InstructionsWithMetadata
process_instructions keys instructions inner tm is_writable is_signer =
    outer_loop tm (build_instruction keys is_writable is_signer) 0 instructions inner

-- `slice.contains(key)`
abbrev pub contains_key : List Pubkey → Pubkey → Bool
contains_key keys key = any (λ k. k == key) keys

unfoldable pub extract_instructions_with_metadata :
    TransactionMetadata
    → VersionedMessage
    → TransactionStatusMeta
    → CarbonResult InstructionsWithMetadata
extract_instructions_with_metadata tm (legacy m) s =
    process_instructions m.account_keys m.instructions s.inner_instructions tm
      (λ _ i. m.is_maybe_writable i) (λ _ i. m.is_signer i)
extract_instructions_with_metadata tm (v0 m) s =
    process_instructions
      (m.account_keys ++ (s.loaded_addresses.writable ++ s.loaded_addresses.readonly))
      m.instructions s.inner_instructions tm (λ key _. contains_key s.loaded_addresses.writable key)
      (λ _ i. ltb i m.num_required_signatures)
