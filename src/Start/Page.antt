-- ===== src/Start/Page.antt =====
-- A page of signatures, and what is older than a signature.
use text.Mathlib.Text.{◌==◌ as str_eq}
use text.Mathlib.TextEquality.{eq_iff}
use omnipair_indexer.Base.{
  ℕ, zero, suc, ◌+◌, ◌*◌, ◌≤◌, ◌<◌, Bool, false, Option, none, some, List, [], ◌∷◌, ◌++◌, length,
  take, any, All, String, ◌≡◌, refl, ap, if◌then◌else◌, arith,
}
use omnipair_indexer.Start.{SignatureInfo, Rpc, first_at, last}

-- What is older than the signature `before`, in a history newest first.
unfoldable pub older : Option String → List SignatureInfo → List SignatureInfo
older none h = h
older (some before) [] = []
older (some before) (x ∷ h) = if str_eq x.signature before then h else older (some before) h

-- No signature stands twice.
abbrev pub IsDistinct : List SignatureInfo → Type 0
IsDistinct [] = Unit
IsDistinct (x ∷ h) =
    (any (λ (y : SignatureInfo). str_eq x.signature y.signature) h ≡ false) × IsDistinct h

abbrev pub IsAbove : ℕ → SignatureInfo → Type 0
IsAbove target x = target < x.slot

pub any-middle :
    (f : SignatureInfo → Bool) (a : List SignatureInfo) (x : SignatureInfo) (b : List SignatureInfo)
    → any f (a ++ x ∷ b) ≡ false
    → f x ≡ false
any-middle f [] x b h = ground (arith, h)
any-middle f (y ∷ a) x b h = any-middle f a x b (ground (arith, h))

pub older-middle :
    (a : List SignatureInfo) (x : SignatureInfo) (b : List SignatureInfo)
    → IsDistinct (a ++ x ∷ b)
    → older (some x.signature) (a ++ x ∷ b) ≡ b
unfolding older
older-middle [] x b h = ground (arith, eq_iff x.signature x.signature)
older-middle (y ∷ a) x b h = ground (
  arith,
  any-middle (λ (z : SignatureInfo). str_eq y.signature z.signature) a x b h.0,
  older-middle a x b h.1,
)

-- A page that reaches `x`, behind signatures above the slot, shows it first.
pub first_at-reached :
    (target limit : ℕ) (front : List SignatureInfo) (x : SignatureInfo) (back : List SignatureInfo)
    → All (IsAbove target) front
    → x.slot ≤ target
    → length front ≤ limit
    → first_at target (take (suc limit) (front ++ x ∷ back)) ≡ some x
unfolding first_at
first_at-reached target limit [] x back above at room = ground arith
first_at-reached target zero (y ∷ front) x back above at room = ground arith
first_at-reached target (suc limit) (y ∷ front) x back above at room =
    ground (arith, above.0, first_at-reached target limit front x back above.1 at)

-- A page of signatures above the slot shows none.
pub first_at-above :
    (target : ℕ) (page : List SignatureInfo)
    → All (IsAbove target) page
    → first_at target page ≡ none
unfolding first_at
first_at-above target [] above = refl
first_at-above target (y ∷ page) above = ground (arith, above.0, first_at-above target page above.1)

pub last-append : (q : List SignatureInfo) (z : SignatureInfo) → last (q ++ z ∷ []) ≡ some z
unfolding last
last-append [] z = refl
last-append (x ∷ []) z = refl
last-append (x ∷ (y ∷ q)) z = last-append (y ∷ q) z

-- A full page of a list that is longer has a last element.
pub page-split :
    (limit : ℕ) (front : List SignatureInfo)
    → limit < length front
    → (q : List SignatureInfo) × (z : SignatureInfo) × (more : List SignatureInfo) × (front
        ≡ (q ++ z ∷ []) ++ more)
      × (length q ≡ limit)
      × ((rest : List SignatureInfo) → take (suc limit) (front ++ rest) ≡ q ++ z ∷ [])
page-split limit [] h = absurd (omega arith)
page-split zero (y ∷ front) h = ([], y, front, refl, refl, λ rest. refl)
page-split (suc limit) (y ∷ front) h =
    let s = page-split limit front (omega arith) in
    (y ∷ s.0, s.1, s.2, ap (λ r. y ∷ r) s.3, omega (arith, s.4), λ rest. ap (λ r. y ∷ r) (s.5 rest))

-- What the server documents: at most one page of the signatures older than the given one, newest
-- first.
abbrev pub ServesBefore : Rpc → (limit : ℕ) → List SignatureInfo → Type 0
ServesBefore r limit h =
    (before : Option String) → r.signatures_before limit before ≡ some (take limit (older before h))

pub mul_step : (n k : ℕ) → suc n * k ≡ n * k + k
mul_step n k = grind arith

pub assoc : (a b c : List SignatureInfo) → (a ++ b) ++ c ≡ a ++ (b ++ c)
assoc [] b c = refl
assoc (x ∷ a) b c = ap (λ r. x ∷ r) (assoc a b c)

pub All-split :
    (Q : SignatureInfo → Type 0) (a b : List SignatureInfo) → All Q (a ++ b) → All Q a × All Q b
All-split Q [] b h = (tt, h)
All-split Q (x ∷ a) b h = let r = All-split Q a b h.1 in ((h.0, r.0), r.1)
