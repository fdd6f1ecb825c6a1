-- ===== src/Nesting/Spine.antt =====
-- The rightmost branch of a hierarchy, along which the builder adds.
use omnipair_indexer.Base.{ℕ, zero, suc, ◌-◌, ◌≤◌, ◌≡◌, refl, ap, some, [], ◌∷◌, ◌++◌, arith}
use mathlib.Core.List.{append_assoc, append-nil}
use omnipair_indexer.Instruction.{Entry, NestedInstructions, nil, cons, len, push, preorder}
use omnipair_indexer.Nesting.{Place, push_at, len_at}

-- `p` is the place of the last instruction at depth `d` of the last branch, the empty place at
-- depth 0.
pub data Last : ℕ → NestedInstructions → Place → Type 0 where
  root : {t : NestedInstructions} → Last zero t []
  down :
      {d : ℕ} {x : Entry} {inner : NestedInstructions} {p : Place}
      → Last d inner p
      → Last (suc d) (cons x inner nil) (zero ∷ p)
  right :
      {d n : ℕ} {x y : Entry} {inner i r : NestedInstructions} {p : Place}
      → Last (suc d) (cons y i r) (n ∷ p)
      → Last (suc d) (cons x inner (cons y i r)) (suc n ∷ p)

-- The push at the end of the vector that the last branch has at depth `d`.
unfoldable pub push_spine : ℕ → Entry → NestedInstructions → NestedInstructions
push_spine zero e t = push e t
push_spine (suc d) e nil = nil
push_spine (suc d) e (cons x inner nil) = cons x (push_spine d e inner) nil
push_spine (suc d) e (cons x inner (cons y i r)) = cons x inner (push_spine (suc d) e (cons y i r))

pub push_at-push_spine :
    {d : ℕ} {t : NestedInstructions} {p : Place} (e : Entry)
    → Last d t p
    → push_at p e t ≡ some (push_spine d e t)
unfolding push_at push_spine
push_at-push_spine e root = refl
push_at-push_spine e (down l) = rw (push_at-push_spine e l)
push_at-push_spine e (right l) = rw (push_at-push_spine e l)

pub preorder-push :
    (e : Entry) (t : NestedInstructions) → preorder (push e t) ≡ preorder t ++ e ∷ []
unfolding push
preorder-push e nil = refl
preorder-push e (cons x inner rest) = simp (preorder-push e rest, append_assoc)

pub preorder-push_spine :
    {d : ℕ} {t : NestedInstructions} {p : Place} (e : Entry)
    → Last d t p
    → preorder (push_spine d e t) ≡ preorder t ++ e ∷ []
unfolding push_spine
preorder-push_spine {t = t} e root = preorder-push e t
preorder-push_spine e (down l) = simp (preorder-push_spine e l, append_assoc, append-nil)
preorder-push_spine e (right l) = simp (preorder-push_spine e l, append_assoc)

Last-cons :
    {d n : ℕ} {x : Entry} {inner t : NestedInstructions} {p : Place}
    → Last (suc d) t (n ∷ p)
    → Last (suc d) (cons x inner t) (suc n ∷ p)
Last-cons (down l) = right (down l)
Last-cons (right l) = right (right l)

-- The places at or above the vector pushed into stay those of the last branch.
pub Last-push_spine :
    {d j : ℕ} {t : NestedInstructions} {p q : Place} (e : Entry)
    → j ≤ d
    → Last d t p
    → Last j t q
    → Last j (push_spine d e t) q
unfolding push_spine
Last-push_spine e h l root = root
Last-push_spine e h root (down m) = absurd (omega arith)
Last-push_spine e h (down l) (down m) = down (Last-push_spine e (omega arith) l m)
Last-push_spine e h root (right m) = absurd (omega arith)
Last-push_spine e h (right l) (right m) = Last-cons (Last-push_spine e h l m)

pub len-push : (e : Entry) (t : NestedInstructions) → len (push e t) ≡ suc (len t)
unfolding push
len-push e nil = refl
len-push e (cons x inner rest) = ap suc (len-push e rest)

Last-push : (e : Entry) (t : NestedInstructions) → Last 1 (push e t) (len t ∷ [])
unfolding push
Last-push e nil = down root
Last-push e (cons x inner rest) = Last-cons (Last-push e rest)

-- What was pushed is the last instruction at the next depth.
pub Last-push_spine_new :
    {d : ℕ} {t : NestedInstructions} {p : Place} (e : Entry)
    → Last d t p
    → Last (suc d) (push_spine d e t) (p ++ (len_at p (push_spine d e t) - 1) ∷ [])
unfolding push_spine len_at
Last-push_spine_new {t = t} e root =
    let same : len (push e t) - 1 ≡ len t = omega (arith, len-push e t) in rw same (Last-push e t)
Last-push_spine_new e (down l) = down (Last-push_spine_new e l)
Last-push_spine_new e (right l) = Last-cons (Last-push_spine_new e l)
