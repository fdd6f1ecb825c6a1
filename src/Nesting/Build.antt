-- ===== src/Nesting/Build.antt =====
-- What `build` keeps of the instructions, in which order and at which depth.
use omnipair_indexer.Base.{
  ℕ, suc, ◌≤◌, ◌<◌, ◌≡◌, refl, sym, ◌∙◌, true, false, List, [], ◌∷◌, ◌++◌, arith, leb, ok, panic,
  All,
}
use native.Mathlib.Decide.{dec_le}
use mathlib.Core.List.{append_assoc, append-nil}
use omnipair_indexer.Instruction.{
  Entry, InstructionsWithMetadata, NestedInstructions, height_of, preorder,
}
use omnipair_indexer.Nesting.{UnsafeNestedBuilder, new, build_loop, build}
use omnipair_indexer.Nesting.Depth.{HasDepth, HasDepth-push_spine}
use omnipair_indexer.Nesting.Step.{
  IsSpine, new-IsSpine, cleared, cleared-IsSpine, build_step-Adds, build_step-high,
  build_step-panic,
}
use omnipair_indexer.Nesting.Spine.{preorder-push_spine}

-- The instructions that `build` keeps, `k` being the height of the last one kept: those whose stack
-- height goes up by one at most.
unfoldable pub kept : ℕ → List Entry → List Entry
kept k [] = []
kept k (e ∷ es) = elim (leb (height_of e) (suc k)) [
  | true ↦ e ∷ kept (height_of e) es
  | false ↦ kept k es
]

module _ {k : ℕ} (e : Entry) (es : List Entry) where
  pub kept-fits : height_of e ≤ suc k → kept k (e ∷ es) ≡ e ∷ kept (height_of e) es
  unfolding kept
  kept-fits h = ground arith

  pub kept-orphan : suc k < height_of e → kept k (e ∷ es) ≡ kept k es
  unfolding kept
  kept-orphan h = ground arith

abbrev pub HasHeight : Entry → Type 0
HasHeight e = (0 < height_of e) × (height_of e ≤ 5)

-- A run of the loop ends, adds the instructions that are kept, and puts each at its depth.
record Builds (es : List Entry) (b : UnsafeNestedBuilder) (k : ℕ) : Type 0 where
  end : UnsafeNestedBuilder
  runs : build_loop es b ≡ ok end
  order : preorder end.nested_ixs ≡ preorder b.nested_ixs ++ kept k es
  depths : HasDepth 1 end.nested_ixs

build_loop-Builds :
    (es : List Entry) (b : UnsafeNestedBuilder) (k : ℕ)
    → All HasHeight es
    → IsSpine b k
    → HasDepth 1 b.nested_ixs
    → Builds es b k
unfolding build_loop
build_loop-Builds [] b k hs s d = record {
  end = b;
  runs = refl;
  order = unfold kept in sym (append-nil _);
  depths = d;
}
build_loop-Builds (e ∷ es) b k hs s d = elim (dec_le (height_of e) (suc k)) [
  | yes fits ↦
      let a = build_step-Adds e b hs.0.0 hs.0.1 fits s in
      let deep : HasDepth 1 a.next.nested_ixs =
        rw a.tree (HasDepth-push_spine 1 e (omega (arith, hs.0.0)) a.last d) in
      let r = build_loop-Builds es a.next (height_of e) hs.1 a.spine deep in
      record {
        end = r.end;
        runs = rw a.runs r.runs;
        order =
            rw (kept-fits e es fits, r.order, a.tree, preorder-push_spine e a.last, append_assoc);
        depths = r.depths;
      }
  | no orphan ↦
      let high : suc k < height_of e = omega arith in
      let r = build_loop-Builds es (cleared e b) k hs.1 (cleared-IsSpine e b high s) d in
      record {
        end = r.end;
        runs = rw (build_step-high e b hs.0.1 high s) r.runs;
        order = rw (kept-orphan e es high) r.order;
        depths = r.depths;
      }
]

-- If every stack height lies between 1 and 5, `build` returns a hierarchy; in the order of calls it
-- holds exactly the instructions whose height exceeds that of the last one kept by at most 1, and
-- each stands at the depth of its stack height.
pub preorder-build :
    (es : InstructionsWithMetadata)
    → All HasHeight es
    → (t : NestedInstructions) × (build es ≡ ok t) × (preorder t ≡ kept 0 es) × HasDepth 1 t
unfolding build
preorder-build es hs =
    let r = build_loop-Builds es new 0 hs new-IsSpine tt in
    (r.end.nested_ixs, rw r.runs, r.order, r.depths)

-- Heights that rise by at most one from each instruction to the next, the first from 0.
abbrev pub Climbs : ℕ → List Entry → Type 0
Climbs k [] = Unit
Climbs k (e ∷ es) = (height_of e ≤ suc k) × Climbs (height_of e) es

kept-Climbs : (k : ℕ) (es : List Entry) → Climbs k es → kept k es ≡ es
kept-Climbs k [] c = unfold kept in refl
kept-Climbs k (e ∷ es) c = rw (kept-fits e es c.0, kept-Climbs (height_of e) es c.1)

-- If the heights lie between 1 and 5 and rise by at most 1 at a time, starting at 1, `build` loses
-- nothing: its hierarchy read in the order of calls is the list that it was given.
pub build-roundtrip :
    (es : InstructionsWithMetadata)
    → All HasHeight es
    → Climbs 0 es
    → (t : NestedInstructions) × (build es ≡ ok t) × (preorder t ≡ es)
build-roundtrip es hs c =
    let (t, run, order, deep) = preorder-build es hs in (t, run, order ∙ kept-Climbs 0 es c)

build_loop-panics :
    (pre : List Entry) (e : Entry) (post : List Entry) (b : UnsafeNestedBuilder) (k : ℕ)
    → All HasHeight pre
    → IsSpine b k
    → ¬ HasHeight e
    → build_loop (pre ++ e ∷ post) b ≡ panic
unfolding build_loop
build_loop-panics [] e post b k hs s bad = rw (build_step-panic e b (ground arith))
build_loop-panics (x ∷ pre) e post b k hs s bad = elim (dec_le (height_of x) (suc k)) [
  | yes fits ↦
      let a = build_step-Adds x b hs.0.0 hs.0.1 fits s in
      rw a.runs (build_loop-panics pre e post a.next (height_of x) hs.1 a.spine bad)
  | no orphan ↦
      let high : suc k < height_of x = omega arith in
      rw (build_step-high x b hs.0.1 high s)
        (build_loop-panics pre e post (cleared x b) k hs.1 (cleared-IsSpine x b high s) bad)
]

-- A stack height outside 1 to 5 anywhere behind well-formed ones makes `build` panic.
pub build-panics :
    (pre : List Entry) (e : Entry) (post : List Entry)
    → All HasHeight pre
    → ¬ HasHeight e
    → build (pre ++ e ∷ post) ≡ panic
unfolding build
build-panics pre e post hs bad = rw (build_loop-panics pre e post new 0 hs new-IsSpine bad)
