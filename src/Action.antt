-- ===== src/Action.antt =====
-- Calls that change the state of the processors and the metrics. `?` after a call is the bind: an
-- error or a panic ends the caller, with the state as it is then.
use omnipair_indexer.Base.{
  CarbonResult, ok, err, panic, Bool, true, false, List, [], ◌∷◌, ◌++◌, ◌≡◌, refl,
}

abbrev pub Action : Type 0 → Type 0 → Type 0
Action S A = S → CarbonResult A × S

module _ {S A : Type 0} where
  abbrev pub pure : A → Action S A
  pure a s = (ok a, s)

  abbrev pub lift : CarbonResult A → Action S A
  lift r s = (r, s)

module _ {S A B : Type 0} where
  abbrev pub and_then : CarbonResult A × S → (A → Action S B) → CarbonResult B × S
  and_then (ok a, s) f = f a s
  and_then (err e, s) f = (err e, s)
  and_then (panic, s) f = (panic, s)

  infixl 5 ◌>>=◌ ◌>>◌
  abbrev pub ◌>>=◌ : Action S A → (A → Action S B) → Action S B
  ◌>>=◌ m f s = and_then (m s) f

  abbrev pub ◌>>◌ : Action S A → Action S B → Action S B
  m >> k = m >>= λ _. k

module _ {S A : Type 0} where
  -- `for x in xs { f(x).await?; }`
  unfoldable pub for_each : (A → Action S (Unit {0})) → List A → Action S (Unit {0})
  for_each f [] = pure tt
  for_each f (x ∷ xs) = f x >> for_each f xs

-- `if b { m.await?; }`
abbrev pub when : {S : Type 0} → Bool → Action S (Unit {0}) → Action S (Unit {0})
when true m = m
when false m = pure tt

-- What follows a loop over the rest may as well follow each of its ends.
for_each-and_then :
    {S A : Type 0} (f : A → Action S (Unit {0})) (xs ys zs : List A)
    → ((s : S) → for_each f zs s ≡ and_then (for_each f xs s) (λ _. for_each f ys))
    → (r : CarbonResult (Unit {0}) × S)
    → and_then r (λ _. for_each f zs)
      ≡ and_then (and_then r (λ _. for_each f xs)) (λ _. for_each f ys)
for_each-and_then f xs ys zs h (ok a, s) = h s
for_each-and_then f xs ys zs h (err e, s) = refl
for_each-and_then f xs ys zs h (panic, s) = refl

-- A loop over two lists in turn is the loop over both.
pub for_each-append :
    {S A : Type 0} (f : A → Action S (Unit {0})) (xs ys : List A) (s : S)
    → for_each f (xs ++ ys) s ≡ and_then (for_each f xs s) (λ _. for_each f ys)
unfolding for_each
for_each-append f [] ys s = refl
for_each-append f (x ∷ xs) ys s =
    for_each-and_then f xs ys (xs ++ ys) (for_each-append f xs ys) (f x s)
