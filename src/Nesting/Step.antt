-- ===== src/Nesting/Step.antt =====
-- One round of the loop of `build`, and the invariant of its pointers.
use omnipair_indexer.Base.{
  ℕ, suc, ◌-◌, ◌≤◌, ◌<◌, ◌≡◌, refl, ◌∙◌, ◌⊎◌, inl, inr, none, some, [], ◌∷◌, ◌++◌, arith, ok, panic,
  Bool-cases, ◌==◌, ==_iff,
}
use omnipair_indexer.Instruction.{Entry, height_of}
use omnipair_indexer.Nesting.{
  Place, UnsafeNestedBuilder, new, push_child, build_step, set_ptr, clear_from, len_at,
}
use omnipair_indexer.Nesting.Spine.{
  Last, root, push_spine, push_at-push_spine, Last-push_spine, Last-push_spine_new,
}

-- Level `j` points at the last instruction of depth `j + 1`, on the first `k` levels and no others.
pub record IsSpine (b : UnsafeNestedBuilder) (k : ℕ) : Type 0 where
  pub points :
      (j : ℕ) → j < k → (p : Place) × (b.level_ptrs j ≡ some p) × Last (suc j) b.nested_ixs p
  pub above : (j : ℕ) → k ≤ j → b.level_ptrs j ≡ none

pub new-IsSpine : IsSpine new 0
new-IsSpine = record { points = λ j h. absurd (omega arith); above = λ j h. refl }

clear-IsSpine :
    (b : UnsafeNestedBuilder) (h k : ℕ)
    → h ≤ k
    → IsSpine b k
    → IsSpine (record b { level_ptrs = clear_from h b.level_ptrs }) h
clear-IsSpine b h k le s = record {
  points = λ j lt. let (p, e, l) = s.points j (omega arith) in (p, ground arith, l);
  above = λ j ge. ground arith;
}

-- The builder after a push below the last instruction of depth `d`.
abbrev pushed : ℕ → Place → Entry → UnsafeNestedBuilder → UnsafeNestedBuilder
pushed d p e b = record {
  nested_ixs = push_spine d e b.nested_ixs;
  level_ptrs = set_ptr d (p ++ (len_at p (push_spine d e b.nested_ixs) - 1) ∷ []) b.level_ptrs;
}

push_child-ok :
    (d : ℕ) {p : Place} (e : Entry) (b : UnsafeNestedBuilder)
    → Last d b.nested_ixs p
    → push_child d p e b ≡ ok (pushed d p e b)
unfolding push_child
push_child-ok d e b l = rw (push_at-push_spine e l, push_child)

pushed-IsSpine :
    (d : ℕ) {p : Place} (e : Entry) (b : UnsafeNestedBuilder)
    → Last d b.nested_ixs p
    → ((j : ℕ) → j < d → (q : Place) × (b.level_ptrs j ≡ some q) × Last (suc j) b.nested_ixs q)
    → ((j : ℕ) → suc d ≤ j → b.level_ptrs j ≡ none)
    → IsSpine (pushed d p e b) (suc d)
pushed-IsSpine d {p} e b l below above = record {
  points = λ j lt. elim (Bool-cases (j == d)) [
    | inl last ↦ (
      p ++ (len_at p (push_spine d e b.nested_ixs) - 1) ∷ [],
      ground arith,
      rw ((==_iff j d).0 last) (Last-push_spine_new e l),
    )
    | inr shallower ↦
        let (q, here, m) = below j (ground arith) in
        (q, ground arith, Last-push_spine e (ground arith) l m)
  ];
  above = λ j ge. ground (arith, above j);
}

module _ (e : Entry) (b : UnsafeNestedBuilder) where
  abbrev pub cleared : UnsafeNestedBuilder
  cleared = record b { level_ptrs = clear_from (height_of e) b.level_ptrs }

  build_step-first : height_of e ≡ 1 → build_step e b ≡ push_child 0 [] e cleared
  unfolding build_step
  build_step-first h = ground arith

  build_step-child :
      {p : Place}
      → 1 < height_of e
      → height_of e ≤ 5
      → b.level_ptrs (height_of e - 2) ≡ some p
      → build_step e b ≡ push_child (height_of e - 1) p e cleared
  unfolding build_step
  build_step-child deep bound h = ground arith

  build_step-orphan :
      1 < height_of e
      → height_of e ≤ 5
      → b.level_ptrs (height_of e - 2) ≡ none
      → build_step e b ≡ ok cleared
  unfolding build_step
  build_step-orphan deep bound h = ground arith

  pub build_step-panic : (height_of e ≡ 0) ⊎ (5 < height_of e) → build_step e b ≡ panic
  unfolding build_step
  build_step-panic h = ground arith

  -- What one round does to an instruction whose parent's level is in use: it is added last, at the
  -- depth of its stack height.
  pub record Adds : Type 0 where
    pub place : Place
    pub last : Last (height_of e - 1) b.nested_ixs place
    pub next : UnsafeNestedBuilder
    pub runs : build_step e b ≡ ok next
    pub tree : next.nested_ixs ≡ push_spine (height_of e - 1) e b.nested_ixs
    pub spine : IsSpine next (height_of e)

  adds_below :
      {p : Place} {k : ℕ}
      → 0 < height_of e
      → height_of e ≤ suc k
      → IsSpine b k
      → Last (height_of e - 1) b.nested_ixs p
      → build_step e b ≡ push_child (height_of e - 1) p e cleared
      → Adds
  adds_below {p} {k} pos le s l run = record {
    place = p;
    last = l;
    next = pushed (height_of e - 1) p e cleared;
    runs = run ∙ push_child-ok (height_of e - 1) e cleared l;
    tree = refl;
    spine =
        let same : suc (height_of e - 1) ≡ height_of e = omega arith in
        rw same at (
          pushed-IsSpine (height_of e - 1) e cleared l
            (λ j lt. let (q, here, m) = s.points j (omega arith) in (q, ground arith, m))
            (λ j ge. ground arith));
  }

  pub build_step-Adds :
      {k : ℕ} → 0 < height_of e → height_of e ≤ 5 → height_of e ≤ suc k → IsSpine b k → Adds
  build_step-Adds {k} pos bound le s = elim (Bool-cases (height_of e == 1)) [
    | inl first ↦
        let one : height_of e ≡ 1 = (==_iff _ _).0 first in
        let none_above : height_of e - 1 ≡ 0 = omega arith in
        adds_below {p = []} pos le s (rw none_above root) (rw none_above (build_step-first one))
    | inr child ↦
        let deep : 1 < height_of e = ground arith in
        let (p, here, l) = s.points (height_of e - 2) (omega arith) in
        let same : suc (height_of e - 2) ≡ height_of e - 1 = omega arith in
        adds_below pos le s (rw same at l) (build_step-child deep bound here)
  ]

pub cleared-IsSpine :
    (e : Entry) (b : UnsafeNestedBuilder) {k : ℕ}
    → suc k < height_of e
    → IsSpine b k
    → IsSpine (cleared e b) k
cleared-IsSpine e b {k} high s = record {
  points = λ j lt. let (p, here, l) = s.points j lt in (p, ground arith, l);
  above = λ j ge. ground (arith, s.above j ge);
}

pub build_step-high :
    (e : Entry) (b : UnsafeNestedBuilder) {k : ℕ}
    → height_of e ≤ 5
    → suc k < height_of e
    → IsSpine b k
    → build_step e b ≡ ok (cleared e b)
build_step-high e b bound high s =
    build_step-orphan e b (omega arith) bound (s.above (height_of e - 2) (omega arith))
