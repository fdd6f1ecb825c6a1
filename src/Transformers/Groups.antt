-- ===== src/Transformers/Groups.antt =====
-- What `process_instructions` returns for a transaction whose inner instructions have the stack
-- heights of a call tree.
use omnipair_indexer.Base.{
  unwrap_or, ℕ, zero, suc, ◌+◌, ◌%◌, ◌^◌, ◌≤◌, ◌<◌, ◌≡◌, ◌≢◌, refl, sym, ap, ◌∙◌, false, inl, inr,
  Option, List, [], ◌∷◌, ◌++◌, arith, length, take, get_or, ltb, ◌==◌, ==_iff, Bool-cases,
  CarbonResult, ok, All,
}
use mathlib.Core.Path.{subst}
use mathlib.Core.List.{append-nil}
use omnipair_indexer.Solana.{CompiledInstruction, Instruction, InnerInstruction, InnerInstructions}
use omnipair_indexer.Instruction.{TransactionMetadata, Entry}
use omnipair_indexer.Nesting.{Place}
use omnipair_indexer.Nesting.Located.{path_of}
use omnipair_indexer.Nesting.Follow.{succ_path, FollowsPaths}
use omnipair_indexer.Transformers.{inner_loop, group_loop, outer_loop, entry}
use omnipair_indexer.Transformers.Array.{length-take, get_or-take}
use omnipair_indexer.Transformers.Paths.{IsBounded, next_path-StepsTo}

-- Inner heights lie between 2 and 5 and rise by at most one at a time, from `k`.
abbrev pub HeightsClimb : ℕ → List InnerInstruction → Type 0
HeightsClimb k [] = Unit
HeightsClimb k (inst ∷ insts) =
    let h = unwrap_or inst.stack_height 1 in (1 < h) × (h ≤ 5) × (h ≤ suc k) × HeightsClimb h insts

-- A group of inner instructions of one top-level instruction.
abbrev pub IsGroup : InnerInstructions → Type 0
IsGroup g = HeightsClimb 1 g.instructions × (length g.instructions ≤ 255)

-- No two groups belong to the same top-level instruction.
abbrev pub HasOneGroupEach : List InnerInstructions → Type 0
HasOneGroupEach [] = Unit
HasOneGroupEach (g ∷ gs) =
    All (λ (x : InnerInstructions). x.index ≢ g.index) gs × HasOneGroupEach gs

abbrev end_path : Place → List Entry → Place
end_path q [] = q
end_path q (e ∷ es) = end_path (path_of e) es

FollowsPaths-append :
    (q : Place) (xs ys : List Entry)
    → FollowsPaths q xs
    → FollowsPaths (end_path q xs) ys
    → FollowsPaths q (xs ++ ys)
FollowsPaths-append q [] ys f g = g
FollowsPaths-append q (e ∷ xs) ys f g =
    (f.0, f.1, f.2, f.3, FollowsPaths-append (path_of e) xs ys f.4 g)

-- The call returns instructions that follow `q` and stay below the top-level instruction `i`.
record Extends (q : Place) (i : ℕ) (r : CarbonResult (List Entry)) : Type 0 where
  es : List Entry
  runs : r ≡ ok es
  follows : FollowsPaths q es
  top : get_or (end_path q es) 0 0 ≡ i
  deep : 0 < length (end_path q es)

module _ (tm : TransactionMetadata) (instruction_of : CompiledInstruction → Instruction) where
  inner_loop-Extends :
      (index i : ℕ) (insts : List InnerInstruction) (path : List ℕ) (prev k n : ℕ)
      → length path ≡ 5
      → 0 < k
      → k ≤ 5
      → HeightsClimb k insts
      → ((h : ℕ) → 1 < h → ltb prev h ≡ ltb k h)
      → n + length insts ≤ 255
      → IsBounded n path
      → get_or path 0 0 ≡ i
      → Extends (take k path) i (inner_loop tm instruction_of index insts path prev)
  unfolding inner_loop
  inner_loop-Extends index i [] path prev k n size pos kb c test room bound top = record {
    es = [];
    runs = refl;
    follows = tt;
    top = get_or-take path 0 k 0 pos ∙ top;
    deep = rw (length-take path k (omega arith)) pos;
  }
  inner_loop-Extends index i (inst ∷ insts) path prev k n size pos kb c test room bound top =
      let h : ℕ = unwrap_or inst.stack_height 1 in
      let s =
        next_path-StepsTo path prev k h n size kb c.0 c.1 c.2 (test h c.0) (omega arith) bound in
      let r =
        inner_loop-Extends index i insts s.next h h (suc n) s.size (omega arith) c.1 c.3
          (λ j deep. refl) (omega arith) s.bound (s.top ∙ top) in
      record {
        es = entry tm instruction_of h index (take h s.next) inst.instruction ∷ r.es;
        runs = rw (s.runs, r.runs);
        follows = (omega arith, c.1, rw (length-take path k (omega arith)) c.2, s.cut, r.follows);
        top = r.top;
        deep = r.deep;
      }

  zeros-IsBounded : (i : ℕ) → IsBounded 0 (i ∷ 0 ∷ 0 ∷ 0 ∷ 0 ∷ [])
  zeros-IsBounded i zero pos = absurd (omega arith)
  zeros-IsBounded i (suc zero) pos = omega arith
  zeros-IsBounded i (suc (suc zero)) pos = omega arith
  zeros-IsBounded i (suc (suc (suc zero))) pos = omega arith
  zeros-IsBounded i (suc (suc (suc (suc zero)))) pos = omega arith
  zeros-IsBounded i (suc (suc (suc (suc (suc j))))) pos = omega arith

  abbrev group_entries : InnerInstructions → CarbonResult (List Entry)
  group_entries g =
      inner_loop tm instruction_of g.index g.instructions (g.index ∷ 0 ∷ 0 ∷ 0 ∷ 0 ∷ []) 0

  group-Extends :
      (g : InnerInstructions) (i : ℕ)
      → g.index ≡ i
      → IsGroup g
      → Extends (i ∷ []) i (group_entries g)
  group-Extends g i same h =
      subst (λ x. Extends (x ∷ []) i (group_entries g)) same
        (inner_loop-Extends g.index i g.instructions (g.index ∷ 0 ∷ 0 ∷ 0 ∷ 0 ∷ []) 0 1 0 refl
          (omega arith) (omega arith) h.0 (λ k deep. ground arith) (omega (arith, h.1))
          (zeros-IsBounded g.index) same)

  group_loop-absent :
      (i : ℕ) (gs : List InnerInstructions)
      → All (λ (x : InnerInstructions). x.index ≢ i) gs
      → group_loop tm instruction_of i gs ≡ ok []
  unfolding group_loop
  group_loop-absent i [] h = refl
  group_loop-absent i (g ∷ gs) h =
      let other : (g.index == i) ≡ false = ground (arith, h.0) in
      rw (other, group_loop-absent i gs h.1)

  group_loop-Extends :
      (i : ℕ) (gs : List InnerInstructions)
      → All IsGroup gs
      → HasOneGroupEach gs
      → Extends (i ∷ []) i (group_loop tm instruction_of i gs)
  unfolding group_loop
  group_loop-Extends i [] hs one = record {
    es = [];
    runs = refl;
    follows = tt;
    top = refl;
    deep = omega arith;
  }
  group_loop-Extends i (g ∷ gs) hs one = elim (Bool-cases (g.index == i)) [
    | inl here ↦
        let same : g.index ≡ i = (==_iff _ _).0 here in
        let r = group-Extends g i same hs.0 in
        let absent : All (λ (x : InnerInstructions). x.index ≢ i) gs = rw same at one.0 in
        record {
          es = r.es;
          runs = rw (here, r.runs, group_loop-absent i gs absent) (ap ok (append-nil r.es));
          follows = r.follows;
          top = r.top;
          deep = r.deep;
        }
    | inr other ↦
        let r = group_loop-Extends i gs hs.1 one.1 in
        record {
          es = r.es;
          runs = rw (other, r.runs);
          follows = r.follows;
          top = r.top;
          deep = r.deep;
        }
  ]

  succ_path-next :
      (q : Place) {i : ℕ} → get_or q 0 0 ≡ i → 0 < length q → succ_path q 1 ≡ suc i ∷ []
  succ_path-next q top deep = ground arith

  -- From the top-level instruction `i` on, the loop returns instructions whose paths follow `q`.
  pub outer_loop-Follows :
      (i : ℕ) (cs : List CompiledInstruction) (inner : Option (List InnerInstructions)) (q : Place)
      → All IsGroup (unwrap_or inner [])
      → HasOneGroupEach (unwrap_or inner [])
      → i + length cs ≤ 256
      → succ_path q 1 ≡ i ∷ []
      → (es : List Entry) × (outer_loop tm instruction_of i cs inner ≡ ok es) × FollowsPaths q es
  unfolding outer_loop
  outer_loop-Follows i [] inner q hs one room next = ([], refl, tt)
  outer_loop-Follows i (c ∷ cs) inner q hs one room next =
      let g = group_loop-Extends i (unwrap_or inner []) hs one in
      let step = succ_path-next (end_path (i ∷ []) g.es) g.top g.deep in
      let (es, run, f) =
        outer_loop-Follows (suc i) cs inner (end_path (i ∷ []) g.es) hs one (omega arith) step in
      let byte : i % 256 ≡ i = omega arith in
      (
        entry tm instruction_of 1 (i % 2 ^ 32) ((i % 256) ∷ []) c ∷ (g.es ++ es),
        rw (g.runs, run),
        (
          omega arith,
          omega arith,
          omega arith,
          rw byte (sym next),
          rw byte (FollowsPaths-append (i ∷ []) g.es es g.follows f),
        ),
      )
