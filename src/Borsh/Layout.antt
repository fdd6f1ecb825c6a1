-- ===== src/Borsh/Layout.antt =====
-- Bytes that hold the fields of a struct one after another.
use omnipair_indexer.Base.{ℕ, some, List, [], ◌∷◌, ◌++◌, ◌≡◌, sym, ap}
use mathlib.Core.Path.{subst}
use omnipair_indexer.Borsh.{Reader, pure, and_then, ◌>>=◌}
use omnipair_indexer.Borsh.Reads.{Reads, bind-Reads}

-- A field: its type, the reader of that type, and the value that it has.
pub record Field : Type 1 where
  pub Content : Type 0
  pub read : Reader Content
  pub value : Content

abbrev pub field : {A : Type 0} → Reader A → A → Field
field {A} r a = record { Content = A; read = r; value = a }

-- The bytes are those of the fields, in their order, and no more.
unfoldable pub Encodes : List Field → List ℕ → Type 0
Encodes [] bytes = bytes ≡ []
Encodes (f ∷ fs) bytes =
    (xs : List ℕ) × (ys : List ℕ) × (bytes ≡ xs ++ ys) × Reads f.read xs f.value × Encodes fs ys

module _ {A B : Type 0} where
  -- A reader that reads a field and goes on with the others.
  pub field-Reads :
      (r : Reader A) (a : A) (f : A → Reader B) (b : B) (fs : List Field) (bytes : List ℕ)
      → ((ys : List ℕ) → Encodes fs ys → Reads (f a) ys b)
      → Encodes (field r a ∷ fs) bytes
      → Reads (r >>= f) bytes b
  unfolding Encodes
  field-Reads r a f b fs bytes others (xs, ys, e, first, next) =
      subst (λ t. Reads (r >>= f) t b) (sym e) (bind-Reads r f xs ys a b first (others ys next))

  -- A reader of a last field, which makes the struct of it.
  pub last-Reads :
      (r : Reader A) (a : A) (g : A → B) (bytes : List ℕ)
      → Reads r bytes a
      → Reads (r >>= λ x. pure (g x)) bytes (g a)
  last-Reads r a g bytes h rest = ap (λ o. and_then o (λ x. pure (g x))) (h rest)

pub end-Reads : {B : Type 0} (b : B) (bytes : List ℕ) → Encodes [] bytes → Reads (pure b) bytes b
unfolding Encodes
end-Reads b bytes e rest = ap (λ xs. some (b, xs ++ rest)) e
