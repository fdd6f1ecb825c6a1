-- ===== src/Transformers/Paths.antt =====
-- The absolute paths that `process_instructions` gives, and the stack heights.
use omnipair_indexer.Base.{
  ℕ, suc, ◌+◌, ◌-◌, ◌%◌, ◌≤◌, ◌<◌, ◌≡◌, sym, ◌∙◌, List, [], ◌∷◌, ◌++◌, arith, length, take, set,
  get_or, leb, ltb, if◌then◌else◌, ok,
}
use mathlib.Core.Path.{ap₂}
use omnipair_indexer.Nesting.Follow.{succ_path}
use omnipair_indexer.Transformers.{next_path}
use omnipair_indexer.Transformers.Array.{
  take-set, take-take, length-take, length-set, get_or-take, get_or-set,
}

-- The bytes below the top level count at most `n` instructions.
abbrev pub IsBounded : ℕ → List ℕ → Type 0
IsBounded n path = (j : ℕ) → 0 < j → get_or path j 0 ≤ n

-- One step of the array is the step of the path cut from it.
pub record StepsTo (path : List ℕ) (prev k h n : ℕ) : Type 0 where
  pub next : List ℕ
  pub runs : next_path path prev h ≡ ok next
  pub size : length next ≡ 5
  pub cut : take h next ≡ succ_path (take k path) h
  pub bound : IsBounded (suc n) next
  pub top : get_or next 0 0 ≡ get_or path 0 0

abbrev next_index : List ℕ → ℕ → ℕ → ℕ
next_index path prev h = if ltb prev h then 0 else (get_or path (h - 1) 0 + 1) % 256

next_path-ok :
    (path : List ℕ) (prev h : ℕ)
    → 0 < h
    → h ≤ 5
    → next_path path prev h ≡ ok (set path (h - 1) (next_index path prev h))
unfolding next_path
next_path-ok path prev h pos hb = ground arith

module _ (path : List ℕ) (prev k h n : ℕ) (size : length path ≡ 5) (kb : k ≤ 5) (deep : 1 < h)
    (hb : h ≤ 5) (le : h ≤ suc k) (test : ltb prev h ≡ ltb k h) (nb : n < 255)
    (bound : IsBounded n path) where
  next_index-succ :
      next_index path prev h
      ≡ (if leb h (length (take k path)) then get_or (take k path) (h - 1) 0 + 1 else 0)
  next_index-succ =
      let small : get_or path (h - 1) 0 ≤ n = bound (h - 1) (omega arith) in
      ground (arith, length-take path k, get_or-take path (h - 1) k 0)

  next_path-cut : take h (set path (h - 1) (next_index path prev h)) ≡ succ_path (take k path) h
  next_path-cut =
      let same : suc (h - 1) ≡ h = omega arith in
      let set_here : take (suc (h - 1)) (set path (h - 1) (next_index path prev h))
          ≡ take (h - 1) path ++ next_index path prev h ∷ [] =
        take-set path (h - 1) (next_index path prev h) (omega arith) in
      (rw same at set_here)
      ∙ ap₂ (λ (r : List ℕ) (i : ℕ). r ++ i ∷ []) (sym (take-take path (h - 1) k (omega arith)))
          next_index-succ

  next_path-bound : IsBounded (suc n) (set path (h - 1) (next_index path prev h))
  next_path-bound j pos =
      let small : get_or path (h - 1) 0 ≤ n = bound (h - 1) (omega arith) in
      let other : get_or path j 0 ≤ n = bound j pos in
      rw (get_or-set path (h - 1) j (next_index path prev h) 0 (omega arith)) (ground arith)

  pub next_path-StepsTo : StepsTo path prev k h n
  next_path-StepsTo = record {
    next = set path (h - 1) (next_index path prev h);
    runs = next_path-ok path prev h (omega arith) hb;
    size = length-set path (h - 1) (next_index path prev h) ∙ size;
    cut = next_path-cut;
    bound = next_path-bound;
    top = rw (get_or-set path (h - 1) 0 (next_index path prev h) 0 (omega arith)) (ground arith);
  }
