-- ===== src/Borsh/Reads.antt =====
-- Bytes that a reader takes as a value, whatever follows them.
use omnipair_indexer.Base.{ℕ, some, List, [], ◌++◌, ◌≡◌, refl, ap, ◌∙◌}
use omnipair_indexer.Borsh.{Reader, pure, and_then, ◌>>=◌}
use mathlib.Core.List.{append_assoc}

-- The reader takes exactly these bytes as the value.
abbrev pub Reads : {A : Type 0} → Reader A → List ℕ → A → Type 0
Reads {A} r bytes a = (rest : List ℕ) → r (bytes ++ rest) ≡ some (a, rest)

pub pure-Reads : {A : Type 0} (a : A) → Reads (pure a) [] a
pure-Reads a rest = refl

pub bind-Reads :
    {A B : Type 0} (r : Reader A) (f : A → Reader B) (xs ys : List ℕ) (a : A) (b : B)
    → Reads r xs a
    → Reads (f a) ys b
    → Reads (r >>= f) (xs ++ ys) b
bind-Reads r f xs ys a b first next rest =
    ap (λ bytes. and_then (r bytes) f) (append_assoc xs ys rest)
    ∙ ap (λ o. and_then o f) (first (ys ++ rest))
    ∙ next rest
