-- ===== src/Arrange/Order.antt =====
-- Chains of `next_account`: how many accounts they take, and which.
use omnipair_indexer.Base.{
  ℕ, suc, Option, none, some, List, [], ◌∷◌, ◌≡◌, refl, map, length, take, leb, if◌then◌else◌,
  arith,
}
use mathlib.Core.Option
use omnipair_indexer.Solana.{Pubkey, AccountMeta}
use omnipair_indexer.Borsh.{Parser, pure, ◌>>=◌}
use omnipair_indexer.Arrange.{next_account, arranged}

-- The first `n` elements, if there are so many.
abbrev pub exactly : {A : Type 0} → ℕ → List A → Option (List A)
exactly n xs = if leb n (length xs) then some (take n xs) else none

abbrev pub key_of : AccountMeta → Pubkey
key_of a = a.pubkey

-- After the keys that stand in `named`, the next `n`, which `view` lists at the end.
unfoldable pub Arranges :
    {A : Type 0}
    → Parser AccountMeta A
    → (List Pubkey → List Pubkey)
    → ℕ
    → (A → List Pubkey)
    → Type 0
Arranges p named n view =
    (accounts : List AccountMeta)
    → Option.map view (arranged p accounts) ≡ Option.map named (exactly n (map key_of accounts))

module _ {A : Type 0} (view : A → List Pubkey) where
  pub next-Arranges :
      (f : Pubkey → Parser AccountMeta A) (named : List Pubkey → List Pubkey) (n : ℕ)
      → ((key : Pubkey) → Arranges (f key) (λ keys. named (key ∷ keys)) n view)
      → Arranges (next_account >>= f) named (suc n) view
  unfolding Arranges
  next-Arranges f named n h [] = ground arith
  next-Arranges f named n h (a ∷ accounts) = ground (arith, h a.pubkey accounts)

  pub end-Arranges :
      (x : A) (named : List Pubkey → List Pubkey)
      → view x ≡ named []
      → Arranges (pure x) named 0 view
  unfolding Arranges
  end-Arranges x named e accounts = ground (arith, e)

pub map_id : {A : Type 0} (o : Option A) → Option.map (λ a. a) o ≡ o
map_id none = refl
map_id (some a) = refl
