-- ===== src/Decoder.antt =====
-- How instruction data is decoded: `CarbonDeserialize` of indexer/crates/proc-macros/src/lib.rs and
-- the macro `try_decode_instructions!` of indexer/crates/macros/src/try_decode_ixs.rs.
pub mod Events
pub mod Types
pub mod Calls
pub mod Instructions
pub mod Alternatives
pub mod Kinds
pub mod Accounts
use omnipair_indexer.Base.{
  ℕ, Bool, true, false, ◌&&◌, Option, none, some, List, [], ◌∷◌, length, take, drop, ltb, ◌==◌,
  if◌then◌else◌,
}
use omnipair_indexer.Solana.{Instruction}
use omnipair_indexer.Pipes.{DecodedInstruction}
use omnipair_indexer.Borsh.{Reader, value_of}

-- `==` of byte slices.
abbrev pub same_bytes : List ℕ → List ℕ → Bool
same_bytes [] [] = true
same_bytes [] (y ∷ ys) = false
same_bytes (x ∷ xs) [] = false
same_bytes (x ∷ xs) (y ∷ ys) = (x == y) && same_bytes xs ys

-- `T::deserialize(data)`, for a type with this discriminator and derived reader. Bytes that are left
-- over are only logged.
unfoldable pub deserialize : {A : Type 0} → List ℕ → Reader A → List ℕ → Option A
deserialize discriminator read bytes =
    if ltb (length bytes) (length discriminator)
    then none
    else if same_bytes (take (length discriminator) bytes) discriminator
    then value_of (read (drop (length discriminator) bytes))
    else none

-- One `$variant => $ty` of the macro.
pub record Alternative (V : Type 0) : Type 1 where
  pub Content : Type 0
  pub variant : Content → V
  pub discriminator : List ℕ
  pub read : Reader Content

-- One round of the macro, before its `else`.
unfoldable pub decode_as : {V : Type 0} → Alternative V → List ℕ → Option V
unfolding deserialize
decode_as a bytes = elim (deserialize a.discriminator a.read bytes) [
  | none ↦ none
  | some content ↦ some (a.variant content)
]

-- `try_decode_instructions!(instruction, …)`
unfoldable pub try_decode_instructions :
    {V : Type 0} → List (Alternative V) → Instruction → Option (DecodedInstruction V)
try_decode_instructions [] ix = none
try_decode_instructions (a ∷ rest) ix = elim (decode_as a ix.bytes) [
  | none ↦ try_decode_instructions rest ix
  | some content ↦
      some (record { program_id = ix.program_id; content = content; accounts = ix.accounts })
]
