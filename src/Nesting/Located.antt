-- ===== src/Nesting/Located.antt =====
-- Places of the hierarchy and absolute paths: where each instruction stands, and how the place of
-- the next one follows from that of the last.
use omnipair_indexer.Base.{
  ℕ, zero, suc, ◌+◌, ◌-◌, ◌≤◌, ◌<◌, ◌≡◌, refl, ap, ◌∙◌, [], ◌∷◌, ◌++◌, arith, length, take, get_or,
}
use mathlib.Core.List.{append_assoc}
use omnipair_indexer.Instruction.{Entry, NestedInstructions, nil, cons, len, push}
use omnipair_indexer.Nesting.{Place, len_at}
use omnipair_indexer.Nesting.Spine.{
  Last, root, down, right, push_spine, len-push, Last-push_spine_new,
}

abbrev pub path_of : Entry → Place
path_of (m, _) = m.absolute_path

-- The vector stands at the place `at`, its first element at index `n`, and each instruction's
-- absolute path is its place.
abbrev pub IsLocated : Place → ℕ → NestedInstructions → Type 0
IsLocated at n nil = Unit
IsLocated at n (cons e inner rest) =
    (path_of e ≡ at ++ n ∷ []) × IsLocated (at ++ n ∷ []) 0 inner × IsLocated at (suc n) rest

abbrev pub shift_by : ℕ → Place → Place
shift_by n [] = []
shift_by n (i ∷ p) = (n + i) ∷ p

pub shift_by-zero : (p : Place) → shift_by 0 p ≡ p
shift_by-zero [] = refl
shift_by-zero (i ∷ p) = ap (λ (j : ℕ). j ∷ p) (omega arith)

IsLocated-push :
    (at : Place) (n : ℕ) (e : Entry) (t : NestedInstructions)
    → path_of e ≡ at ++ (n + len t) ∷ []
    → IsLocated at n t
    → IsLocated at n (push e t)
unfolding push
IsLocated-push at n e nil h s =
    (let same : n + 0 ≡ n = omega arith in h ∙ ap (λ (j : ℕ). at ++ j ∷ []) same, tt, tt)
IsLocated-push at n e (cons x inner rest) h s =
    let same : n + suc (len rest) ≡ suc n + len rest = omega arith in
    (s.0, s.1, IsLocated-push at (suc n) e rest (h ∙ ap (λ (j : ℕ). at ++ j ∷ []) same) s.2)

pub IsLocated-push_spine :
    (at : Place) (n : ℕ) {d : ℕ} {t : NestedInstructions} {p : Place} (e : Entry)
    → Last d t p
    → path_of e ≡ at ++ shift_by n (p ++ len_at p t ∷ [])
    → IsLocated at n t
    → IsLocated at n (push_spine d e t)
unfolding push_spine len_at
IsLocated-push_spine at n {t = t} e root h s = IsLocated-push at n e t h s
IsLocated-push_spine at n e (down {inner = i} {p = p} l) h s = (
  s.0,
  IsLocated-push_spine (at ++ n ∷ []) 0 e l
      (let same : n + 0 ≡ n = omega arith in h ∙ simp (shift_by-zero, append_assoc, same)) s.1,
  tt,
)
IsLocated-push_spine at n e (right {n = i} {p = p} l) h s =
    let same : n + suc i ≡ suc n + i = omega arith in
    (s.0, s.1, IsLocated-push_spine at (suc n) e l (h ∙ rw same) s.2)

-- The place of the last instruction of a depth is unique, and is a part of any deeper one's.
pub Last-unique : {d : ℕ} {t : NestedInstructions} {p q : Place} → Last d t p → Last d t q → p ≡ q
Last-unique root root = refl
Last-unique (down l) (down m) = ap (λ (r : Place). 0 ∷ r) (Last-unique l m)
Last-unique (right l) (right m) = cc (Last-unique l m)

pub Last-take :
    (d : ℕ) {k : ℕ} {t : NestedInstructions} {q : Place} → d ≤ k → Last k t q → Last d t (take d q)
Last-take zero h l = root
Last-take (suc d) h root = absurd (omega arith)
Last-take (suc d) h (down l) = down (Last-take d (omega arith) l)
Last-take (suc d) h (right l) = right (Last-take (suc d) h l)

pub length-Last : {d : ℕ} {t : NestedInstructions} {p : Place} → Last d t p → length p ≡ d
length-Last root = refl
length-Last (down l) = ap suc (length-Last l)
length-Last (right l) = length-Last l

-- The index that a deeper place has at depth `d` is that of the last element there.
pub len_at-take :
    (d : ℕ) {k : ℕ} {t : NestedInstructions} {q : Place}
    → d < k
    → Last k t q
    → len_at (take d q) t ≡ suc (get_or q d 0)
unfolding len_at
len_at-take d h root = absurd (omega arith)
len_at-take zero h (down l) = refl
len_at-take (suc d) h (down l) = len_at-take d (omega arith) l
len_at-take zero h (right l) = ap suc (len_at-take zero h l)
len_at-take (suc d) h (right l) = len_at-take (suc d) h l

pub len_at-push_spine :
    {d : ℕ} {t : NestedInstructions} {p : Place} (e : Entry)
    → Last d t p
    → len_at p (push_spine d e t) ≡ suc (len_at p t)
unfolding len_at push_spine
len_at-push_spine {t = t} e root = len-push e t
len_at-push_spine e (down l) = len_at-push_spine e l
len_at-push_spine e (right l) = len_at-push_spine e l

len_at-push : (e : Entry) (t : NestedInstructions) → len_at (len t ∷ []) (push e t) ≡ 0
unfolding len_at push
len_at-push e nil = refl
len_at-push e (cons x inner rest) = len_at-push e rest

-- What was pushed has nothing below it.
pub len_at-pushed :
    {d : ℕ} {t : NestedInstructions} {p : Place} (e : Entry)
    → Last d t p
    → len_at (p ++ len_at p t ∷ []) (push_spine d e t) ≡ 0
unfolding len_at push_spine
len_at-pushed {t = t} e root = len_at-push e t
len_at-pushed e (down l) = len_at-pushed e l
len_at-pushed e (right l) = len_at-pushed e l

pub Last-pushed :
    {d : ℕ} {t : NestedInstructions} {p : Place} (e : Entry)
    → Last d t p
    → Last (suc d) (push_spine d e t) (p ++ len_at p t ∷ [])
Last-pushed {d} {t} {p} e l =
    let same : len_at p (push_spine d e t) - 1 ≡ len_at p t =
      omega (arith, len_at-push_spine e l) in
    rw same at (Last-push_spine_new e l)
