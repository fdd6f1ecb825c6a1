-- ===== src/Decoder/Accounts/Decode.antt =====
-- `decode_account` of indexer/decoders/omnipair_decoder/accounts/mod.rs.
use omnipair_indexer.Base.{Option, none, some, List, [], ◌∷◌}
use omnipair_indexer.Solana.{Account}
use omnipair_indexer.Pipes.Accounts.{DecodedAccount}
use omnipair_indexer.Borsh.{Borsh}
use omnipair_indexer.Decoder.{Alternative, decode_as}
use omnipair_indexer.Decoder.Accounts.{
  FutarchyAuthority, Pair, RateModel, UserPosition, read_futarchy_authority, read_pair,
  read_rate_model, read_user_position,
}

pub data OmnipairAccount : Type 0 where
  futarchy_authority : FutarchyAuthority → OmnipairAccount
  pair : Pair → OmnipairAccount
  rate_model : RateModel → OmnipairAccount
  user_position : UserPosition → OmnipairAccount

module _ (borsh : Borsh) where
  unfoldable pub futarchy_authority_alternative : Alternative OmnipairAccount
  futarchy_authority_alternative = record {
    Content = FutarchyAuthority;
    variant = futarchy_authority;
    discriminator = 175 ∷ 247 ∷ 160 ∷ 182 ∷ 140 ∷ 128 ∷ 211 ∷ 226 ∷ [];
    read = read_futarchy_authority borsh;
  }

  unfoldable pub pair_alternative : Alternative OmnipairAccount
  pair_alternative = record {
    Content = Pair;
    variant = pair;
    discriminator = 85 ∷ 72 ∷ 49 ∷ 176 ∷ 182 ∷ 228 ∷ 141 ∷ 82 ∷ [];
    read = read_pair borsh;
  }

  unfoldable pub rate_model_alternative : Alternative OmnipairAccount
  rate_model_alternative = record {
    Content = RateModel;
    variant = rate_model;
    discriminator = 94 ∷ 3 ∷ 203 ∷ 219 ∷ 107 ∷ 137 ∷ 4 ∷ 162 ∷ [];
    read = read_rate_model borsh;
  }

  unfoldable pub user_position_alternative : Alternative OmnipairAccount
  user_position_alternative = record {
    Content = UserPosition;
    variant = user_position;
    discriminator = 251 ∷ 248 ∷ 209 ∷ 245 ∷ 83 ∷ 234 ∷ 17 ∷ 27 ∷ [];
    read = read_user_position borsh;
  }

  -- The tests of `decode_account`, in their order.
  unfoldable pub account_alternatives : List (Alternative OmnipairAccount)
  account_alternatives =
      futarchy_authority_alternative ∷ pair_alternative ∷ rate_model_alternative
      ∷ user_position_alternative ∷ []

-- `if let Some(…) = T::deserialize(account.data.as_slice()) { return Some(…); }`, one after another.
unfoldable pub first_account :
    {V : Type 0} → List (Alternative V) → Account → Option (DecodedAccount V)
first_account [] account = none
first_account (a ∷ rest) account = elim (decode_as a account.bytes) [
  | none ↦ first_account rest account
  | some content ↦ some (record {
    lamports = account.lamports;
    content = content;
    owner = account.owner;
    executable = account.executable;
    rent_epoch = account.rent_epoch;
  })
]

unfoldable pub decode_account : Borsh → Account → Option (DecodedAccount OmnipairAccount)
decode_account borsh account = first_account (account_alternatives borsh) account
