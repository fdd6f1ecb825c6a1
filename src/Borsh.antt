-- ===== src/Borsh.antt =====
-- Reading values from bytes. The readers of the primitive types are the borsh crate's, which is not
-- part of the repository; a derived reader of a struct reads its fields in the order they are
-- declared, one of an enum a byte with the number of the variant.
pub mod Reads
pub mod Layout
use omnipair_indexer.Base.{ℕ, Bool, String, Option, none, some, List, get_elem?}
use omnipair_indexer.Solana.{Pubkey}

-- `i64`, over the native numbers.
pub data ℤ : Type 0 where
  pos : ℕ → ℤ
  negsuc : ℕ → ℤ

-- A step that takes a part of a list: its value, and what it left.
abbrev pub Parser : Type 0 → Type 0 → Type 0
Parser T A = List T → Option (A × List T)

-- `deserialize(&mut rest)`
abbrev pub Reader : Type 0 → Type 0
Reader A = Parser ℕ A

module _ {T : Type 0} where
  abbrev pub pure : {A : Type 0} → A → Parser T A
  pure a xs = some (a, xs)

  abbrev pub and_then :
      {A B : Type 0} → Option (A × List T) → (A → Parser T B) → Option (B × List T)
  and_then none f = none
  and_then (some (a, rest)) f = f a rest

  infixl 5 ◌>>=◌
  abbrev pub ◌>>=◌ : {A B : Type 0} → Parser T A → (A → Parser T B) → Parser T B
  ◌>>=◌ p f xs = and_then (p xs) f

  abbrev pub value_of : {A : Type 0} → Option (A × List T) → Option A
  value_of none = none
  value_of (some (a, rest)) = some a

-- The readers of the crate that the structs use.
pub record Borsh : Type 1 where
  pub u8 : Reader ℕ
  pub u16 : Reader ℕ
  pub u64 : Reader ℕ
  pub u128 : Reader ℕ
  pub i64 : Reader ℤ
  pub bool : Reader Bool
  pub string : Reader String
  pub pubkey : Reader Pubkey
  pub byte_vec : Reader (List ℕ)
  pub byte_array : ℕ → Reader (List ℕ)
  pub option : {A : Type 0} → Reader A → Reader (Option A)

-- The derived reader of an enum whose variants hold nothing.
unfoldable pub read_variant : {A : Type 0} → Borsh → List A → Reader A
read_variant borsh variants = do
  i ← borsh.u8
  λ rest. elim (get_elem? variants i) [ none ↦ none | some v ↦ some (v, rest) ]
