-- ===== src/Nesting.antt =====
-- `UnsafeNestedBuilder` of indexer/crates/core/src/instruction.rs, which turns the flat list of a
-- transaction's instructions into their hierarchy by stack height. A pointer to a nested
-- instruction is the place that it points at: the index in each vector on the way down.
pub mod Spine
pub mod Depth
pub mod Located
pub mod Step
pub mod Build
pub mod Follow
use omnipair_indexer.Base.{
  ℕ, zero, suc, ◌+◌, ◌-◌, Option, none, some, List, [], ◌∷◌, ◌++◌, ltb, leb, ◌==◌, if◌then◌else◌,
  CarbonResult, ok, panic, assert, ◌>>=◌, ◌>>◌,
}
use mathlib.Core.Option
use omnipair_indexer.Instruction.{
  Entry, InstructionsWithMetadata, NestedInstructions, nil, cons, height_of, len, push,
}

abbrev pub max_instruction_stack_depth : ℕ
max_instruction_stack_depth = 5

abbrev pub Place : Type 0
Place = List ℕ

-- `level_ptrs`, the array of `MAX_INSTRUCTION_STACK_DEPTH` pointers, as a function of the index.
pub record UnsafeNestedBuilder : Type 0 where
  pub nested_ixs : NestedInstructions
  pub level_ptrs : ℕ → Option Place

abbrev pub new : UnsafeNestedBuilder
new = record { nested_ixs = nil; level_ptrs = λ _. none }

-- `(*ptr).inner_instructions.push(e)` at a place, and the vector itself at the empty place.
-- `none` means that nothing is there.
unfoldable pub push_at : Place → Entry → NestedInstructions → Option NestedInstructions
push_at [] e t = some (push e t)
push_at (i ∷ p) e nil = none
push_at (zero ∷ p) e (cons x inner rest) =
    Option.map (λ inner'. cons x inner' rest) (push_at p e inner)
push_at (suc i ∷ p) e (cons x inner rest) =
    Option.map (λ rest'. cons x inner rest') (push_at (i ∷ p) e rest)

-- The number of instructions in the vector at a place.
unfoldable pub len_at : Place → NestedInstructions → ℕ
len_at [] t = len t
len_at (i ∷ p) nil = 0
len_at (zero ∷ p) (cons x inner rest) = len_at p inner
len_at (suc i ∷ p) (cons x inner rest) = len_at (i ∷ p) rest

-- `for ptr in &mut self.level_ptrs[h..] { *ptr = None }`
abbrev pub clear_from : ℕ → (ℕ → Option Place) → ℕ → Option Place
clear_from h ptrs j = if leb h j then none else ptrs j

abbrev pub set_ptr : ℕ → Place → (ℕ → Option Place) → ℕ → Option Place
set_ptr i p ptrs j = if j == i then some p else ptrs j

-- The push into the vector at `parent`, and the pointer to its last element, kept at index `i`. A
-- push through a pointer to nothing would be undefined behaviour, and is shown as a panic.
unfoldable pub push_child :
    ℕ → Place → Entry → UnsafeNestedBuilder → CarbonResult UnsafeNestedBuilder
push_child i parent e b = elim (push_at parent e b.nested_ixs) [
  | none ↦ panic
  | some t ↦ ok (record {
    nested_ixs = t;
    level_ptrs = set_ptr i (parent ++ (len_at parent t - 1) ∷ []) b.level_ptrs;
  })
]

-- One round of the loop of `build`. An instruction whose parent's level holds no pointer is left out.
unfoldable pub build_step : Entry → UnsafeNestedBuilder → CarbonResult UnsafeNestedBuilder
build_step e b = do
  assert (ltb 0 (height_of e))
  assert (leb (height_of e) max_instruction_stack_depth)
  let b' = record b { level_ptrs = clear_from (height_of e) b.level_ptrs }
  if height_of e == 1 then push_child 0 [] e b' else elim (b'.level_ptrs (height_of e - 2)) [
    | none ↦ ok b'
    | some parent ↦ push_child (height_of e - 1) parent e b'
  ]

unfoldable pub build_loop :
    InstructionsWithMetadata → UnsafeNestedBuilder → CarbonResult UnsafeNestedBuilder
build_loop [] b = ok b
build_loop (e ∷ es) b = build_step e b >>= build_loop es

-- `UnsafeNestedBuilder::new(n).build(instructions)`, which `NestedInstructions::from` calls.
unfoldable pub build : InstructionsWithMetadata → CarbonResult NestedInstructions
build es = do b ← build_loop es new; ok b.nested_ixs
