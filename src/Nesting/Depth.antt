-- ===== src/Nesting/Depth.antt =====
-- Depths in the hierarchy that is built, and stack heights.
use omnipair_indexer.Base.{ℕ, suc, ◌+◌, ◌≡◌, arith}
use omnipair_indexer.Instruction.{Entry, NestedInstructions, nil, cons, height_of, push}
use omnipair_indexer.Nesting.{Place}
use omnipair_indexer.Nesting.Spine.{Last, root, down, right, push_spine}

-- The vector is one of depth `d`, and the vectors inside follow.
abbrev pub HasDepth : ℕ → NestedInstructions → Type 0
HasDepth d nil = Unit
HasDepth d (cons e inner rest) = (height_of e ≡ d) × HasDepth (suc d) inner × HasDepth d rest

HasDepth-push :
    (d : ℕ) (e : Entry) (t : NestedInstructions)
    → height_of e ≡ d
    → HasDepth d t
    → HasDepth d (push e t)
unfolding push
HasDepth-push d e nil h s = (h, tt, tt)
HasDepth-push d e (cons x inner rest) h s = (s.0, s.1, HasDepth-push d e rest h s.2)

pub HasDepth-push_spine :
    (k : ℕ) {d : ℕ} {t : NestedInstructions} {p : Place} (e : Entry)
    → height_of e ≡ k + d
    → Last d t p
    → HasDepth k t
    → HasDepth k (push_spine d e t)
unfolding push_spine
HasDepth-push_spine k {t = t} e h root s = HasDepth-push k e t (omega arith) s
HasDepth-push_spine k e h (down l) s = (s.0, HasDepth-push_spine (suc k) e (omega arith) l s.1, tt)
HasDepth-push_spine k e h (right l) s = (s.0, s.1, HasDepth-push_spine k e h l s.2)
