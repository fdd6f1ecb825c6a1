-- ===== src/Crawler/History.antt =====
-- The history of an account, newest first, as a server of `getSignaturesForAddress` reads it.
use text.Mathlib.Text.{◌==◌ as str_eq}
use text.Mathlib.TextEquality.{eq_iff}
use omnipair_indexer.Base.{
  Bool, false, Option, none, some, List, [], ◌∷◌, ◌++◌, ◌≡◌, refl, inl, inr, if◌then◌else◌, String,
  any, take, sym, ℕ, zero, suc, arith, Bool-cases, ap,
}

-- What is older than the signature `before`.
unfoldable pub older_than : Option String → List String → List String
older_than none h = h
older_than (some before) [] = []
older_than (some before) (s ∷ h) = if str_eq s before then h else older_than (some before) h

-- What is newer than the signature `until`.
unfoldable pub newer_than : Option String → List String → List String
newer_than none h = h
newer_than (some until) [] = []
newer_than (some until) (s ∷ h) = if str_eq s until then [] else s ∷ newer_than (some until) h

-- No signature stands twice.
abbrev pub IsDistinct : List String → Type 0
IsDistinct [] = Unit
IsDistinct (s ∷ h) = (any (str_eq s) h ≡ false) × IsDistinct h

any-middle :
    (f : String → Bool) (a : List String) (x : String) (b : List String)
    → any f (a ++ x ∷ b) ≡ false
    → f x ≡ false
any-middle f [] x b h = ground (arith, h)
any-middle f (y ∷ a) x b h = any-middle f a x b (ground (arith, h))

pub older_than-middle :
    (a : List String) (x : String) (b : List String)
    → IsDistinct (a ++ x ∷ b)
    → older_than (some x) (a ++ x ∷ b) ≡ b
unfolding older_than
older_than-middle [] x b h = ground (arith, eq_iff x x)
older_than-middle (y ∷ a) x b h =
    ground (arith, any-middle (str_eq y) a x b h.0, older_than-middle a x b h.1)

pub newer_than-rest :
    (u : Option String) (a b c : List String) → newer_than u (a ++ b) ≡ a ++ c → newer_than u b ≡ c
unfolding newer_than
newer_than-rest none [] b c h = h
newer_than-rest none (x ∷ a) b c h = newer_than-rest none a b c (ground (arith, h))
newer_than-rest (some u) [] b c h = h
newer_than-rest (some u) (x ∷ a) b c h = elim (Bool-cases (str_eq x u)) [
  | inl same ↦ ground (arith, same, h)
  | inr other ↦ newer_than-rest (some u) a b c (ground (arith, other, h))
]

pub append_nil : (a : List String) → a ++ [] ≡ a
append_nil [] = refl
append_nil (x ∷ a) = ap (λ r. x ∷ r) (append_nil a)

pub newer_than-prefix :
    (u : Option String) (h : List String) → (rest : List String) × (h ≡ newer_than u h ++ rest)
unfolding newer_than
newer_than-prefix none h = ([], sym (append_nil h))
newer_than-prefix (some u) [] = ([], refl)
newer_than-prefix (some u) (x ∷ h) = elim (Bool-cases (str_eq x u)) [
  | inl same ↦ (x ∷ h, ground (arith, same))
  | inr other ↦
      ((newer_than-prefix (some u) h).0, ground (arith, other, (newer_than-prefix (some u) h).1))
]

pub newer_than-twice :
    (u : Option String) (h rest : List String)
    → h ≡ newer_than u h ++ rest
    → newer_than u (newer_than u h ++ rest) ≡ newer_than u h
newer_than-twice u h rest e = ap (newer_than u) (sym e)

pub newer_than-head : (x : String) (h : List String) → newer_than (some x) (x ∷ h) ≡ []
unfolding newer_than
newer_than-head x h = ground (arith, eq_iff x x)

pub append_assoc : (a b c : List String) → (a ++ b) ++ c ≡ a ++ (b ++ c)
append_assoc [] b c = refl
append_assoc (x ∷ a) b c = ap (λ r. x ∷ r) (append_assoc a b c)

-- A page of a positive size that is not empty has a last signature.
pub take-split :
    (limit : ℕ) (x : String) (p : List String)
    → (q : List String) × (z : String) × (more : List String) × (take (suc limit) (x ∷ p)
        ≡ q ++ z ∷ [])
      × (x ∷ p ≡ q ++ z ∷ more)
take-split zero x [] = ([], x, [], refl, refl)
take-split (suc limit) x [] = ([], x, [], refl, refl)
take-split zero x (y ∷ p) = ([], x, y ∷ p, refl, refl)
take-split (suc limit) x (y ∷ p) =
    let s = take-split limit y p in (x ∷ s.0, s.1, s.2, ap (λ r. x ∷ r) s.3, ap (λ r. x ∷ r) s.4)
