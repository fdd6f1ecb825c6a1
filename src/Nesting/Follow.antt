-- ===== src/Nesting/Follow.antt =====
-- Absolute paths, and the places of the instructions in the hierarchy that `build` returns.
use omnipair_indexer.Base.{
  ℕ, suc, ◌+◌, ◌-◌, ◌≤◌, ◌<◌, ◌≡◌, refl, sym, ap, ◌∙◌, List, [], ◌∷◌, ◌++◌, arith, length, take,
  get_or, leb, if◌then◌else◌, ok,
}
use native.Mathlib.Decide.{dec_le}
use mathlib.Core.Path.{ap₂, subst}
use mathlib.Core.List.{append_assoc, append-nil}
use omnipair_indexer.Instruction.{
  Entry, InstructionsWithMetadata, NestedInstructions, height_of, preorder,
}
use omnipair_indexer.Nesting.{Place, UnsafeNestedBuilder, new, build_loop, build, len_at}
use omnipair_indexer.Nesting.Spine.{Last, root, preorder-push_spine}
use omnipair_indexer.Nesting.Located.{
  path_of, IsLocated, IsLocated-push_spine, Last-unique, Last-take, length-Last, len_at-take,
  len_at-pushed, Last-pushed, shift_by-zero,
}
use omnipair_indexer.Nesting.Step.{IsSpine, Adds, new-IsSpine, build_step-Adds}

-- The path of an instruction of height `h` that is called next after the one at `q`: the first
-- below it, or the next one on the level `h`.
abbrev pub succ_path : Place → ℕ → Place
succ_path q h = take (h - 1) q ++ (if leb h (length q) then get_or q (h - 1) 0 + 1 else 0) ∷ []

-- Heights between 1 and 5 that rise by at most one at a time, and paths that follow them.
abbrev pub FollowsPaths : Place → List Entry → Type 0
FollowsPaths q [] = Unit
FollowsPaths q (e ∷ es) =
    (0 < height_of e)
    × (height_of e ≤ 5)
    × (height_of e ≤ suc (length q))
    × (path_of e ≡ succ_path q (height_of e))
    × FollowsPaths (path_of e) es

take-length : (q : Place) → take (length q) q ≡ q
take-length [] = refl
take-length (i ∷ q) = ap (λ (r : Place). i ∷ r) (take-length q)

-- The builder has just added the instruction at `q`, which has nothing below it.
record IsAt (b : UnsafeNestedBuilder) (q : Place) : Type 0 where
  spine : IsSpine b (length q)
  last : Last (length q) b.nested_ixs q
  leaf : len_at q b.nested_ixs ≡ 0
  located : IsLocated [] 0 b.nested_ixs

module _ (q : Place) (t : NestedInstructions) (l : Last (length q) t q)
    (leaf : len_at q t ≡ 0) where
  -- The place behind the last instruction of a level is the next path.
  succ_path-eq :
      (h : ℕ) (p : Place)
      → 0 < h
      → h ≤ suc (length q)
      → Last (h - 1) t p
      → succ_path q h ≡ p ++ len_at p t ∷ []
  succ_path-eq h p pos le m = elim (dec_le h (length q)) [
    | yes within ↦
        let here : p ≡ take (h - 1) q = Last-unique m (Last-take (h - 1) (omega arith) l) in
        let index : len_at (take (h - 1) q) t ≡ suc (get_or q (h - 1) 0) =
          len_at-take (h - 1) (omega arith) l in
        let next : (if leb h (length q) then get_or q (h - 1) 0 + 1 else 0)
            ≡ suc (get_or q (h - 1) 0) =
          ground arith in
        rw (here, index) (ap (λ (i : ℕ). take (h - 1) q ++ i ∷ []) next)
    | no below ↦
        let same : h - 1 ≡ length q = omega arith in
        let next : (if leb h (length q) then get_or q (h - 1) 0 + 1 else 0) ≡ 0 = ground arith in
        let whole : take (h - 1) q ≡ q = rw same (take-length q) in
        let here : p ≡ q = Last-unique (rw same at m) l in
        rw (here, leaf) (ap₂ (λ (r : Place) (i : ℕ). r ++ i ∷ []) whole next)
  ]

IsAt-Adds :
    (e : Entry) (b : UnsafeNestedBuilder) (q : Place) (a : Adds e b)
    → 0 < height_of e
    → height_of e ≤ suc (length q)
    → path_of e ≡ succ_path q (height_of e)
    → IsAt b q
    → IsAt a.next (path_of e)
IsAt-Adds e b q a pos le h s =
    let here : path_of e ≡ a.place ++ len_at a.place b.nested_ixs ∷ [] =
      h ∙ succ_path-eq q b.nested_ixs s.last s.leaf (height_of e) a.place pos le a.last in
    let deep : suc (height_of e - 1) ≡ height_of e = omega arith in
    let at : Last (height_of e) a.next.nested_ixs (path_of e) =
      subst (λ p. Last (height_of e) a.next.nested_ixs p) (sym here)
        (rw a.tree (rw deep at (Last-pushed e a.last))) in
    record {
      spine = rw (length-Last at) a.spine;
      last = rw (length-Last at) at;
      leaf = rw (here, a.tree) (len_at-pushed e a.last);
      located =
          rw a.tree (IsLocated-push_spine [] 0 e a.last (here ∙ sym (shift_by-zero _)) s.located);
    }

record Locates (es : List Entry) (b : UnsafeNestedBuilder) : Type 0 where
  end : UnsafeNestedBuilder
  runs : build_loop es b ≡ ok end
  order : preorder end.nested_ixs ≡ preorder b.nested_ixs ++ es
  located : IsLocated [] 0 end.nested_ixs

build_loop-Locates :
    (es : List Entry) (b : UnsafeNestedBuilder) (q : Place)
    → FollowsPaths q es
    → IsAt b q
    → Locates es b
unfolding build_loop
build_loop-Locates [] b q f s = record {
  end = b;
  runs = refl;
  order = sym (append-nil _);
  located = s.located;
}
build_loop-Locates (e ∷ es) b q f s =
    let a = build_step-Adds e b f.0 f.1 f.2 s.spine in
    let r = build_loop-Locates es a.next (path_of e) f.4 (IsAt-Adds e b q a f.0 f.2 f.3 s) in
    record {
      end = r.end;
      runs = rw a.runs r.runs;
      order = rw (r.order, a.tree, preorder-push_spine e a.last, append_assoc);
      located = r.located;
    }

-- If the stack heights lie between 1 and 5 and rise by at most one at a time from 0, and each
-- absolute path is the successor of the one before, `build` returns a hierarchy that holds all the
-- instructions in order, each at the place that its absolute path names.
pub build-IsLocated :
    (es : InstructionsWithMetadata)
    → FollowsPaths [] es
    → (t : NestedInstructions) × (build es ≡ ok t) × (preorder t ≡ es) × IsLocated [] 0 t
unfolding build
build-IsLocated es f =
    let r =
      build_loop-Locates es new [] f
        (record { spine = new-IsSpine; last = root; leaf = unfold len_at in refl; located = tt }) in
    (r.end.nested_ixs, rw r.runs, r.order, r.located)
