-- ===== src/Examples/Decoding.antt =====
-- Decoding concrete bytes, with little-endian numbers.
use omnipair_indexer.Base.{
  ℕ, zero, suc, ◌+◌, ◌*◌, Bool, true, false, Option, none, some, List, [], ◌∷◌, ◌++◌, ◌≡◌, refl,
  ltb, take, drop, length, if◌then◌else◌, ◌==◌,
}
use mathlib.Core.Option
use omnipair_indexer.Solana.{Pubkey, AccountMeta, Account, Instruction}
use omnipair_indexer.Borsh.{Borsh, Reader, pos}
use omnipair_indexer.Borsh.Layout.{Encodes}
use omnipair_indexer.Decoder.Events.{BurnEvent}
use omnipair_indexer.Decoder.Instructions.{burn_event}
use omnipair_indexer.Decoder.Alternatives.{alternatives, decode_instruction, burn_event_alternative}
use omnipair_indexer.Decoder.Alternatives.Dispatch.{
  content_of, delivered, decode_instruction-dispatch,
}
use omnipair_indexer.Decoder.Alternatives.Genuine.{
  IsFrom, addressed, decode_instruction-genuine, decode_instruction-any_program,
}
use omnipair_indexer.Decoder.Alternatives.Encoded.{
  alternative_of, fields, decode_instruction-encoded,
}
use omnipair_indexer.Decoder.Accounts.Decode.{
  rate_model_alternative, account_alternatives, decode_account,
}
use omnipair_indexer.Decoder.Accounts.Dispatch.{delivered_account, decode_account-dispatch}
use omnipair_indexer.Arrange.Named.{
  view_pair_data, account_count, arranged_keys, arranged_keys-exactly,
}

-- A number of so many bytes.
unfoldable le : ℕ → Reader ℕ
le zero bytes = some (0, bytes)
le (suc n) [] = none
le (suc n) (b ∷ bytes) = elim (le n bytes) [
  | none ↦ none
  | some (v, rest) ↦ some (b + 256 * v, rest)
]

abbrev flag : Reader Bool
flag [] = none
flag (b ∷ bytes) = some ((if b == 0 then false else true), bytes)

abbrev block : ℕ → Reader (List ℕ)
block n bytes = if ltb (length bytes) n then none else some (take n bytes, drop n bytes)

abbrev optional : {A : Type 0} → Reader A → Reader (Option A)
optional read [] = none
optional read (b ∷ bytes) =
    if b == 0
    then some (none, bytes)
    else elim (read bytes) [ none ↦ none | some (a, rest) ↦ some (some a, rest) ]

unfoldable pub borsh : Borsh
unfolding le
borsh = record {
  u8 = le 1;
  u16 = le 2;
  u64 = le 8;
  u128 = le 16;
  i64 = λ bytes. elim (le 8 bytes) [ none ↦ none | some (n, rest) ↦ some (pos n, rest) ];
  bool = flag;
  string = λ bytes. none;
  pubkey = le 32;
  byte_vec = λ bytes. elim (le 4 bytes) [ none ↦ none | some (n, rest) ↦ block n rest ];
  byte_array = block;
  option = optional;
}

abbrev u64_of : ℕ → List ℕ
u64_of n = n ∷ 0 ∷ 0 ∷ 0 ∷ 0 ∷ 0 ∷ 0 ∷ 0 ∷ []

abbrev key_bytes : ℕ → List ℕ
key_bytes n = u64_of n ++ (u64_of 0 ++ (u64_of 0 ++ u64_of 0))

abbrev pub burn : BurnEvent
burn = record {
  amount0 = 1;
  amount1 = 2;
  liquidity = 3;
  metadata = record { signer = 7; pair = 8; slot = 9 };
}

abbrev burn_tag : List ℕ
burn_tag =
    228 ∷ 69 ∷ 165 ∷ 46 ∷ 81 ∷ 203 ∷ 154 ∷ 29 ∷ 33 ∷ 89 ∷ 47 ∷ 117 ∷ 82 ∷ 124 ∷ 238 ∷ 250 ∷ []

abbrev pub burn_bytes : List ℕ
burn_bytes =
    u64_of 1 ++ (u64_of 2 ++ (u64_of 3 ++ (key_bytes 7 ++ (key_bytes 8 ++ (u64_of 9 ++ [])))))

-- An event with a byte too many.
abbrev pub burnt : Instruction
burnt = record { program_id = 12; accounts = []; bytes = burn_tag ++ (burn_bytes ++ 5 ∷ []) }

pub burn_bytes-Encodes : Encodes (fields borsh (burn_event burn)) burn_bytes
unfolding Encodes fields borsh le
burn_bytes-Encodes = (
  u64_of 1,
  _,
  refl,
  λ rest. refl,
  (
    u64_of 2,
    _,
    refl,
    λ rest. refl,
    (
      u64_of 3,
      _,
      refl,
      λ rest. refl,
      (
        key_bytes 7,
        _,
        refl,
        λ rest. refl,
        (key_bytes 8, _, refl, λ rest. refl, (u64_of 9, [], refl, λ rest. refl, refl)),
      ),
    ),
  ),
)

decode_instruction-encoded_example :
    decode_instruction borsh burnt ≡ delivered burnt (some (burn_event burn))
unfolding alternative_of burn_event_alternative
decode_instruction-encoded_example =
    decode_instruction-encoded borsh (burn_event burn) burn_bytes (5 ∷ []) burnt burn_bytes-Encodes
      refl

decode_instruction-dispatch_example :
    decode_instruction borsh burnt
    ≡ delivered burnt (content_of (burn_event_alternative borsh) (burn_bytes ++ 5 ∷ []))
unfolding alternatives burn_event_alternative
decode_instruction-dispatch_example =
    decode_instruction-dispatch borsh 22 (burn_event_alternative borsh) refl burnt
      (burn_bytes ++ 5 ∷ []) refl

decode_instruction-genuine_example :
    IsFrom
      (alternatives borsh)
      burnt
      (record { program_id = 12; content = burn_event burn; accounts = [] })
decode_instruction-genuine_example =
    decode_instruction-genuine borsh burnt
      (record { program_id = 12; content = burn_event burn; accounts = [] })
      decode_instruction-encoded_example

decode_instruction-any_program_example :
    decode_instruction borsh (record { program_id = 99; accounts = []; bytes = burnt.bytes })
    ≡ Option.map (addressed 99) (decode_instruction borsh burnt)
decode_instruction-any_program_example = decode_instruction-any_program borsh burnt 99

abbrev rate_tag : List ℕ
rate_tag = 94 ∷ 3 ∷ 203 ∷ 219 ∷ 107 ∷ 137 ∷ 4 ∷ 162 ∷ []

abbrev stored : Account
stored = record {
  lamports = 1;
  bytes = rate_tag ++ (u64_of 1 ++ u64_of 2);
  owner = 12;
  executable = false;
  rent_epoch = 0;
}

decode_account-dispatch_example :
    decode_account borsh stored
    ≡ Option.map
        (delivered_account stored)
        (content_of (rate_model_alternative borsh) (u64_of 1 ++ u64_of 2))
unfolding account_alternatives rate_model_alternative
decode_account-dispatch_example =
    decode_account-dispatch borsh 2 (rate_model_alternative borsh) refl stored
      (u64_of 1 ++ u64_of 2) refl

abbrev meta : Pubkey → AccountMeta
meta k = record { pubkey = k; is_signer = false; is_writable = false }

arranged_keys-exactly_example :
    arranged_keys view_pair_data (meta 1 ∷ meta 2 ∷ meta 3 ∷ meta 4 ∷ []) ≡ some (1 ∷ 2 ∷ 3 ∷ [])
unfolding account_count
arranged_keys-exactly_example =
    arranged_keys-exactly view_pair_data (meta 1 ∷ meta 2 ∷ meta 3 ∷ meta 4 ∷ [])
