-- ===== src/Transformers/Contents.antt =====
-- Which instructions `process_instructions` of indexer/crates/core/src/transformers.rs returns.
use omnipair_indexer.Base.{
  unwrap_or, Bool, ◌+◌, ◌-◌, ◌%◌, ◌^◌, ℕ, suc, ◌≤◌, ◌<◌, ◌≡◌, refl, ap, inl, inr, Option, List, [],
  ◌∷◌, ◌++◌, map, arith, set, take, ltb, get_or, ◌==◌, Bool-cases, if◌then◌else◌, CarbonResult, ok,
  All,
}
use mathlib.Core.List.{map-append}
use omnipair_indexer.Solana.{
  Pubkey, CompiledInstruction, Instruction, InnerInstruction, InnerInstructions,
}
use omnipair_indexer.Instruction.{TransactionMetadata, Entry, InstructionsWithMetadata, height_of}
use omnipair_indexer.Transformers.{
  inner_loop, group_loop, outer_loop, entry, next_path, process_instructions, build_instruction,
}

-- Inner heights from 1 to 5; one that is missing counts as 1.
abbrev pub IsCall : InnerInstruction → Type 0
IsCall inst = (0 < unwrap_or inst.stack_height 1) × (unwrap_or inst.stack_height 1 ≤ 5)

abbrev call : InnerInstruction → ℕ × CompiledInstruction
call inst = (unwrap_or inst.stack_height 1, inst.instruction)

-- What the top-level instruction `i` calls.
abbrev pub calls_of : ℕ → List InnerInstructions → List (ℕ × CompiledInstruction)
calls_of i [] = []
calls_of i (g ∷ gs) = (if g.index == i then map call g.instructions else []) ++ calls_of i gs

-- Each of the instructions, the first of which is at index `i`, in front of those it calls.
abbrev pub all_calls :
    ℕ → List CompiledInstruction → List InnerInstructions → List (ℕ × CompiledInstruction)
all_calls i [] groups = []
all_calls i (c ∷ cs) groups = (1, c) ∷ (calls_of i groups ++ all_calls (suc i) cs groups)

next_path-runs :
    (path : List ℕ) (prev h : ℕ) → 0 < h → h ≤ 5 → (p : List ℕ) × (next_path path prev h ≡ ok p)
unfolding next_path
next_path-runs path prev h pos kb =
    (set path (h - 1) (if ltb prev h then 0 else (get_or path (h - 1) 0 + 1) % 256), ground arith)

-- The height of an instruction and what it is.
abbrev pub summary : Entry → ℕ × Instruction
summary e = (height_of e, e.1)

-- A call with its instruction built.
abbrev pub built : (CompiledInstruction → Instruction) → ℕ × CompiledInstruction → ℕ × Instruction
built instruction_of (h, c) = (h, instruction_of c)

module _ (tm : TransactionMetadata) (instruction_of : CompiledInstruction → Instruction) where
  -- The call returns these calls.
  abbrev Gives : CarbonResult (List Entry) → List (ℕ × CompiledInstruction) → Type 0
  Gives r cs = (es : List Entry) × (r ≡ ok es) × (map summary es ≡ map (built instruction_of) cs)

  inner_loop-Gives :
      (index : ℕ) (insts : List InnerInstruction) (path : List ℕ) (prev : ℕ)
      → All IsCall insts
      → Gives (inner_loop tm instruction_of index insts path prev) (map call insts)
  unfolding inner_loop
  inner_loop-Gives index [] path prev hs = ([], refl, refl)
  inner_loop-Gives index (inst ∷ insts) path prev hs =
      let h = unwrap_or inst.stack_height 1 in
      let (p, step) = next_path-runs path prev h hs.0.0 hs.0.1 in
      let (es, run, same) = inner_loop-Gives index insts p h hs.1 in
      (
        entry tm instruction_of h index (take h p) inst.instruction ∷ es,
        rw (step, run) refl,
        ap (λ xs. (h, instruction_of inst.instruction) ∷ xs) same,
      )

  append-Gives :
      (xs ys : List Entry) (cs ds : List (ℕ × CompiledInstruction))
      → map summary xs ≡ map (built instruction_of) cs
      → map summary ys ≡ map (built instruction_of) ds
      → map summary (xs ++ ys) ≡ map (built instruction_of) (cs ++ ds)
  append-Gives xs ys cs ds e f =
      rw (map-append summary xs ys, map-append (built instruction_of) cs ds, e, f) refl

  group_loop-Gives :
      (i : ℕ) (gs : List InnerInstructions)
      → All (λ (g : InnerInstructions). All IsCall g.instructions) gs
      → Gives (group_loop tm instruction_of i gs) (calls_of i gs)
  unfolding group_loop
  group_loop-Gives i [] hs = ([], refl, refl)
  group_loop-Gives i (g ∷ gs) hs =
      let (rest, run, same) = group_loop-Gives i gs hs.1 in
      elim (Bool-cases (g.index == i)) [
        | inl here ↦
            let (es, runs, first) =
              inner_loop-Gives g.index g.instructions (g.index ∷ 0 ∷ 0 ∷ 0 ∷ 0 ∷ []) 0 hs.0 in
            (
              es ++ rest,
              rw (here, runs, run) refl,
              rw here (append-Gives es rest (map call g.instructions) (calls_of i gs) first same),
            )
        | inr other ↦ (rest, rw (other, run) refl, rw other same)
      ]

  outer_loop-Gives :
      (i : ℕ) (cs : List CompiledInstruction) (inner : Option (List InnerInstructions))
      → All (λ (g : InnerInstructions). All IsCall g.instructions) (unwrap_or inner [])
      → Gives (outer_loop tm instruction_of i cs inner) (all_calls i cs (unwrap_or inner []))
  unfolding outer_loop
  outer_loop-Gives i [] inner hs = ([], refl, refl)
  outer_loop-Gives i (c ∷ cs) inner hs =
      let (es, run, same) = group_loop-Gives i (unwrap_or inner []) hs in
      let (rest, runs, others) = outer_loop-Gives (suc i) cs inner hs in
      (
        entry tm instruction_of 1 (i % 2 ^ 32) ((i % 256) ∷ []) c ∷ (es ++ rest),
        rw (run, runs) refl,
        ap (λ xs. (1, instruction_of c) ∷ xs)
            (append-Gives es rest (calls_of i (unwrap_or inner []))
              (all_calls (suc i) cs (unwrap_or inner [])) same others),
      )

-- If every inner instruction has a stack height from 1 to 5 or none, then the instructions of a
-- transaction are returned, whatever their account indices: each top-level instruction at height 1
-- and behind it the inner instructions of all groups with its index, in their order and at their
-- heights, or at height 1 where they have none; each with the program, the accounts and the data
-- that `build_instruction` gives it. Groups with another index are left out.
pub process_instructions-calls :
    (tm : TransactionMetadata) (keys : List Pubkey) (instructions : List CompiledInstruction)
    (inner : Option (List InnerInstructions)) (is_writable is_signer : Pubkey → ℕ → Bool)
    → All (λ (g : InnerInstructions). All IsCall g.instructions) (unwrap_or inner [])
    → (es : InstructionsWithMetadata) × (process_instructions keys instructions inner tm is_writable
          is_signer
        ≡ ok es)
      × (map summary es
          ≡ map
              (built (build_instruction keys is_writable is_signer))
              (all_calls 0 instructions (unwrap_or inner [])))
unfolding process_instructions
process_instructions-calls tm keys instructions inner is_writable is_signer hs =
    outer_loop-Gives tm (build_instruction keys is_writable is_signer) 0 instructions inner hs
