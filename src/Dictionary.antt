-- ===== src/Dictionary.antt =====
-- A hash map with texts as keys, as an association list: `insert` replaces, `remove` takes out.
use text.Mathlib.Text.{◌==◌ as str_eq}
use text.Mathlib.TextEquality.{eq_iff}
use omnipair_indexer.Base.{
  Option, none, some, List, [], ◌∷◌, ◌≡◌, refl, arith, if◌then◌else◌, All, String, Bool-cases, inl,
  inr,
}

module _ {V : Type 0} where
  unfoldable pub lookup : String → List (String × V) → Option V
  lookup k [] = none
  lookup k ((j, v) ∷ m) = if str_eq j k then some v else lookup k m

  unfoldable pub remove : String → List (String × V) → List (String × V)
  remove k [] = []
  remove k ((j, v) ∷ m) = if str_eq j k then remove k m else (j, v) ∷ remove k m

  unfoldable pub insert : String → V → List (String × V) → List (String × V)
  insert k v m = (k, v) ∷ remove k m

  pub lookup-remove :
      (k j : String) (m : List (String × V))
      → lookup j (remove k m) ≡ (if str_eq k j then none else lookup j m)
  unfolding lookup remove
  lookup-remove k j [] = ground arith
  lookup-remove k j ((i, v) ∷ m) =
      ground (arith, eq_iff k j, eq_iff i k, eq_iff i j, lookup-remove k j m)

  pub lookup-insert :
      (k j : String) (v : V) (m : List (String × V))
      → lookup j (insert k v m) ≡ (if str_eq k j then some v else lookup j m)
  unfolding lookup insert
  lookup-insert k j v m = ground (arith, lookup-remove k j m)

  pub All-remove :
      (P : String × V → Type 0) (k : String) (m : List (String × V)) → All P m → All P (remove k m)
  unfolding remove
  All-remove P k [] h = tt
  All-remove P k ((j, v) ∷ m) h = elim (Bool-cases (str_eq j k)) [
    | inl same ↦ rw same (All-remove P k m h.1)
    | inr other ↦ rw other (h.0, All-remove P k m h.1)
  ]

  -- The first of two values, if there is one.
  abbrev pub first_some : Option V → Option V → Option V
  first_some none b = b
  first_some (some v) b = some v

  -- Every entry of `b` is put into `a`. The order does not matter, as a key stands once in a map.
  unfoldable pub merge : (a b : List (String × V)) → List (String × V)
  unfolding insert
  merge a [] = a
  merge a ((k, v) ∷ b) = insert k v (merge a b)

  pub lookup-merge :
      (k : String) (a b : List (String × V))
      → lookup k (merge a b) ≡ first_some (lookup k b) (lookup k a)
  unfolding lookup merge
  lookup-merge k a [] = refl
  lookup-merge k a ((j, v) ∷ b) =
      ground (arith, lookup-insert j k v (merge a b), lookup-merge k a b)
