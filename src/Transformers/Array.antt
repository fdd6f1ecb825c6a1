-- ===== src/Transformers/Array.antt =====
-- The array `path_stack` and the lists cut from it.
use omnipair_indexer.Base.{
  ℕ, zero, suc, ◌≤◌, ◌<◌, ◌≡◌, refl, ap, List, [], ◌∷◌, ◌++◌, arith, length, take, set, get_or,
  ◌==◌, if◌then◌else◌,
}

module _ {ℓ} {A : Type ℓ} where
  pub take-set :
      (xs : List A) (i : ℕ) (v : A)
      → i < length xs
      → take (suc i) (set xs i v) ≡ take i xs ++ v ∷ []
  take-set [] i v h = elim h [ ]
  take-set (x ∷ xs) zero v h = refl
  take-set (x ∷ xs) (suc i) v h = ap (λ r. x ∷ r) (take-set xs i v (omega arith))

  pub take-take : (xs : List A) (i k : ℕ) → i ≤ k → take i (take k xs) ≡ take i xs
  take-take xs zero k h = refl
  take-take xs (suc i) zero h = absurd (omega arith)
  take-take [] (suc i) (suc k) h = refl
  take-take (x ∷ xs) (suc i) (suc k) h = ap (λ r. x ∷ r) (take-take xs i k (omega arith))

  pub length-take : (xs : List A) (k : ℕ) → k ≤ length xs → length (take k xs) ≡ k
  length-take xs zero h = refl
  length-take [] (suc k) h = absurd (omega arith)
  length-take (x ∷ xs) (suc k) h = ap suc (length-take xs k (omega arith))

  pub length-set : (xs : List A) (i : ℕ) (v : A) → length (set xs i v) ≡ length xs
  length-set [] i v = refl
  length-set (x ∷ xs) zero v = refl
  length-set (x ∷ xs) (suc i) v = ap suc (length-set xs i v)

  pub get_or-take : (xs : List A) (i k : ℕ) (d : A) → i < k → get_or (take k xs) i d ≡ get_or xs i d
  get_or-take xs i zero d h = elim h [ ]
  get_or-take [] i (suc k) d h = refl
  get_or-take (x ∷ xs) zero (suc k) d h = refl
  get_or-take (x ∷ xs) (suc i) (suc k) d h = get_or-take xs i k d (omega arith)

  pub get_or-set :
      (xs : List A) (i j : ℕ) (v d : A)
      → i < length xs
      → get_or (set xs i v) j d ≡ (if i == j then v else get_or xs j d)
  get_or-set [] i j v d h = elim h [ ]
  get_or-set (x ∷ xs) zero zero v d h = refl
  get_or-set (x ∷ xs) zero (suc j) v d h = ground arith
  get_or-set (x ∷ xs) (suc i) zero v d h = ground arith
  get_or-set (x ∷ xs) (suc i) (suc j) v d h = ground (arith, get_or-set xs i j v d)
