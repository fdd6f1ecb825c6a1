-- ===== src/Decoder/Accounts/Dispatch.antt =====
-- Which type the data of an account decodes to.
use omnipair_indexer.Base.{
  ℕ, true, Option, none, some, List, [], ◌∷◌, ◌++◌, ◌≡◌, refl, ap, ◌∙◌, get_elem?, inl, inr,
  Option-cases,
}
use mathlib.Core.Option
use omnipair_indexer.Solana.{Account, Instruction, default_pubkey}
use omnipair_indexer.Pipes.{DecodedInstruction}
use omnipair_indexer.Pipes.Accounts.{DecodedAccount}
use omnipair_indexer.Borsh.{Borsh}
use omnipair_indexer.Decoder.{Alternative, decode_as, try_decode_instructions}
use omnipair_indexer.Decoder.Alternatives.Dispatch.{
  content_of, delivered, exclusive, try_decode-finds,
}
use omnipair_indexer.Decoder.Accounts.Decode.{
  OmnipairAccount, futarchy_authority_alternative, pair_alternative, rate_model_alternative,
  user_position_alternative, account_alternatives, first_account, decode_account,
}

-- The decoded account, with the other fields of the account.
abbrev pub delivered_account : {V : Type 0} → Account → V → DecodedAccount V
delivered_account account content = record {
  lamports = account.lamports;
  content = content;
  owner = account.owner;
  executable = account.executable;
  rent_epoch = account.rent_epoch;
}

-- An instruction with the same data.
abbrev with_bytes : Account → Instruction
with_bytes account = record { program_id = default_pubkey; accounts = []; bytes = account.bytes }

abbrev of_instruction : {V : Type 0} → Account → DecodedInstruction V → DecodedAccount V
of_instruction account d = delivered_account account d.content

first_account-try :
    {V : Type 0} (others : List (Alternative V)) (account : Account)
    → first_account others account
      ≡ Option.map (of_instruction account) (try_decode_instructions others (with_bytes account))
unfolding first_account try_decode_instructions
first_account-try [] account = refl
first_account-try (a ∷ others) account = elim (Option-cases (decode_as a account.bytes)) [
  | inl fails ↦ rw (first_account, try_decode_instructions, fails, first_account-try others account)
  | inr (content, reads) ↦ rw (first_account, try_decode_instructions, reads)
]

of_delivered :
    {V : Type 0} (account : Account) (o : Option V)
    → Option.map (of_instruction account) (delivered (with_bytes account) o)
      ≡ Option.map (delivered_account account) o
of_delivered account none = refl
of_delivered account (some v) = refl

account_alternatives-exclusive : (borsh : Borsh) → exclusive (account_alternatives borsh) ≡ true
unfolding account_alternatives futarchy_authority_alternative pair_alternative
    rate_model_alternative user_position_alternative
account_alternatives-exclusive borsh = refl

-- An account whose data begins with the discriminator of one of the types of accounts is decoded as
-- that type and no other: the result is what the type's reader takes from the bytes that follow, with
-- the lamports, the owner and the other fields of the account, and nothing when the reader fails.
pub decode_account-dispatch :
    (borsh : Borsh) (i : ℕ) (a : Alternative OmnipairAccount)
    → get_elem? (account_alternatives borsh) i ≡ some a
    → (account : Account) (rest : List ℕ) → account.bytes ≡ a.discriminator ++ rest
    → decode_account borsh account ≡ Option.map (delivered_account account) (content_of a rest)
unfolding decode_account
decode_account-dispatch borsh i a found account rest e =
    first_account-try (account_alternatives borsh) account
    ∙ ap (Option.map (of_instruction account)) (
        try_decode-finds (account_alternatives borsh) i a (with_bytes account) rest
          (account_alternatives-exclusive borsh) found e)
    ∙ of_delivered account (content_of a rest)
