-- ===== src/Decoder/Alternatives/Dispatch.antt =====
-- Which type the data of an instruction decodes to.
use omnipair_indexer.Base.{
  ℕ, zero, suc, Bool, true, false, ◌&&◌, Option, none, some, List, [], ◌∷◌, ◌++◌, ◌≡◌, refl, ap,
  ◌∙◌, length, take, drop, get_elem?, all, ltb, if◌then◌else◌, ◌==◌, arith, inl, inr, Bool-cases,
  length-append, Option-cases,
}
use mathlib.Core.Path.{subst}
use mathlib.Core.Option.{some-injective}
use mathlib.Core.Bool.{and-eq-true_iff}
use omnipair_indexer.Solana.{Instruction}
use omnipair_indexer.Pipes.{DecodedInstruction}
use omnipair_indexer.Borsh.{Borsh, value_of}
use omnipair_indexer.Decoder.{
  Alternative, same_bytes, deserialize, decode_as, try_decode_instructions,
}
use omnipair_indexer.Decoder.Instructions.{OmnipairInstruction}
use omnipair_indexer.Decoder.Alternatives.{
  alternatives, decode_instruction, add_collateral_alternative, add_liquidity_alternative,
  borrow_alternative, claim_protocol_fees_alternative, flashloan_alternative,
  init_futarchy_authority_alternative, initialize_alternative, liquidate_alternative,
  remove_collateral_alternative, remove_liquidity_alternative, repay_alternative,
  set_global_reduce_only_alternative, set_pair_reduce_only_alternative, swap_alternative,
  update_futarchy_authority_alternative, update_protocol_revenue_alternative,
  update_revenue_recipients_alternative, view_pair_data_alternative,
  view_user_position_data_alternative, adjust_collateral_event_alternative,
  adjust_debt_event_alternative, adjust_liquidity_event_alternative, burn_event_alternative,
  claim_protocol_fees_event_alternative, flashloan_event_alternative, mint_event_alternative,
  pair_created_event_alternative, swap_event_alternative, update_pair_event_alternative,
  user_liquidity_position_updated_event_alternative, user_position_created_event_alternative,
  user_position_liquidated_event_alternative, user_position_updated_event_alternative,
}

-- The value that an alternative reads from the bytes after its discriminator.
abbrev pub content_of : {V : Type 0} → Alternative V → List ℕ → Option V
content_of a rest = elim (value_of (a.read rest)) [
  | none ↦ none
  | some content ↦ some (a.variant content)
]

same_bytes_refl : (xs : List ℕ) → same_bytes xs xs ≡ true
same_bytes_refl [] = refl
same_bytes_refl (x ∷ xs) = ground (arith, same_bytes_refl xs)

take-append : (xs ys : List ℕ) → take (length xs) (xs ++ ys) ≡ xs
take-append [] ys = refl
take-append (x ∷ xs) ys = ap (λ t. x ∷ t) (take-append xs ys)

drop-append : (xs ys : List ℕ) → drop (length xs) (xs ++ ys) ≡ ys
drop-append [] ys = refl
drop-append (x ∷ xs) ys = drop-append xs ys

not_shorter : (xs ys : List ℕ) → ltb (length (xs ++ ys)) (length xs) ≡ false
not_shorter xs ys = ground (arith, length-append xs ys)

pub decode_as-own :
    {V : Type 0} (a : Alternative V) (rest : List ℕ)
    → decode_as a (a.discriminator ++ rest) ≡ content_of a rest
unfolding decode_as deserialize
decode_as-own a rest = rw (
  decode_as,
  deserialize,
  not_shorter a.discriminator rest,
  take-append a.discriminator rest,
  same_bytes_refl a.discriminator,
  drop-append a.discriminator rest,
)

-- No bytes begin with both.
abbrev pub apart : List ℕ → List ℕ → Bool
apart [] ys = false
apart (x ∷ xs) [] = false
apart (x ∷ xs) (y ∷ ys) = if y == x then apart xs ys else true

apart-same :
    (xs ys rest : List ℕ)
    → apart xs ys ≡ true
    → same_bytes (take (length xs) (ys ++ rest)) xs ≡ false
apart-same [] ys rest h = ground arith
apart-same (x ∷ xs) [] rest h = ground arith
apart-same (x ∷ xs) (y ∷ ys) rest h = ground (arith, apart-same xs ys rest)

decode_as-foreign :
    {V : Type 0} (a : Alternative V) (ys rest : List ℕ)
    → apart a.discriminator ys ≡ true
    → decode_as a (ys ++ rest) ≡ none
unfolding decode_as deserialize
decode_as-foreign a ys rest h =
    elim (Bool-cases (ltb (length (ys ++ rest)) (length a.discriminator))) [
      | inl short ↦ rw (decode_as, deserialize, short)
      | inr long ↦ rw (decode_as, deserialize, long, apart-same a.discriminator ys rest h)
    ]

-- The decoded instruction with its program and accounts.
abbrev pub delivered : {V : Type 0} → Instruction → Option V → Option (DecodedInstruction V)
delivered ix none = none
delivered ix (some content) =
    some (record { program_id = ix.program_id; content = content; accounts = ix.accounts })

-- No bytes begin with both discriminators.
abbrev pub apart_from : {V : Type 0} → Alternative V → Alternative V → Bool
apart_from a b = apart a.discriminator b.discriminator && apart b.discriminator a.discriminator

-- No two alternatives claim the same bytes.
abbrev pub exclusive : {V : Type 0} → List (Alternative V) → Bool
exclusive [] = true
exclusive (a ∷ rest) = all (apart_from a) rest && exclusive rest

module _ {V : Type 0} where
  all_foreign :
      (a : Alternative V) (others : List (Alternative V)) (ix : Instruction) (rest : List ℕ)
      → all (apart_from a) others ≡ true
      → ix.bytes ≡ a.discriminator ++ rest
      → try_decode_instructions others ix ≡ none
  unfolding try_decode_instructions
  all_foreign a [] ix rest h e = refl
  all_foreign a (b ∷ others) ix rest h e =
      let (own, beyond) = (and-eq-true_iff (apart_from a b) (all (apart_from a) others)).0 h in
      let (_, foreign) =
        (and-eq-true_iff (apart a.discriminator b.discriminator)
            (apart b.discriminator a.discriminator)).0
          own in
      rw (
        try_decode_instructions,
        ap (decode_as b) e ∙ decode_as-foreign b a.discriminator rest foreign,
        all_foreign a others ix rest beyond e,
      )

  all-get_elem? :
      (a : Alternative V) (others : List (Alternative V)) (i : ℕ) (b : Alternative V)
      → all (apart_from a) others ≡ true
      → get_elem? others i ≡ some b
      → apart_from a b ≡ true
  all-get_elem? a [] i b h e = ground arith
  all-get_elem? a (c ∷ others) zero b h e =
      subst (λ b. apart_from a b ≡ true) (some-injective c b e)
        ((and-eq-true_iff (apart_from a c) (all (apart_from a) others)).0 h).0
  all-get_elem? a (c ∷ others) (suc i) b h e =
      all-get_elem? a others i b
        ((and-eq-true_iff (apart_from a c) (all (apart_from a) others)).0 h).1 e

  try_decode-first :
      (a : Alternative V) (others : List (Alternative V)) (ix : Instruction) (rest : List ℕ)
      → all (apart_from a) others ≡ true
      → ix.bytes ≡ a.discriminator ++ rest
      → try_decode_instructions (a ∷ others) ix ≡ delivered ix (content_of a rest)
  unfolding try_decode_instructions
  try_decode-first a others ix rest h e =
      let own = ap (decode_as a) e ∙ decode_as-own a rest in
      elim (Option-cases (content_of a rest)) [
        | inl fails ↦
            rw (try_decode_instructions, own ∙ fails, fails, all_foreign a others ix rest h e)
        | inr (content, reads) ↦ rw (try_decode_instructions, own ∙ reads, reads)
      ]

  -- Where no two alternatives claim the same bytes, the one whose discriminator the data begins with
  -- decides, wherever it stands.
  pub try_decode-finds :
      (others : List (Alternative V)) (i : ℕ) (a : Alternative V) (ix : Instruction) (rest : List ℕ)
      → exclusive others ≡ true
      → get_elem? others i ≡ some a
      → ix.bytes ≡ a.discriminator ++ rest
      → try_decode_instructions others ix ≡ delivered ix (content_of a rest)
  unfolding try_decode_instructions
  try_decode-finds [] i a ix rest x found e = ground arith
  try_decode-finds (b ∷ others) zero a ix rest x found e =
      let (beyond, _) = (and-eq-true_iff (all (apart_from b) others) (exclusive others)).0 x in
      let same = some-injective b a found in
      subst
        (λ a.
          ix.bytes ≡ a.discriminator ++ rest
          → try_decode_instructions (b ∷ others) ix ≡ delivered ix (content_of a rest))
        same (try_decode-first b others ix rest beyond) e
  try_decode-finds (b ∷ others) (suc i) a ix rest x found e =
      let (beyond, later) = (and-eq-true_iff (all (apart_from b) others) (exclusive others)).0 x in
      let (foreign, _) =
        (and-eq-true_iff (apart b.discriminator a.discriminator)
            (apart a.discriminator b.discriminator)).0
          (all-get_elem? b others i a beyond found) in
      rw (
        try_decode_instructions,
        ap (decode_as b) e ∙ decode_as-foreign b a.discriminator rest foreign,
        try_decode-finds others i a ix rest later found e,
      )

-- No two of the 33 discriminators can begin the same bytes.
alternatives-exclusive : (borsh : Borsh) → exclusive (alternatives borsh) ≡ true
unfolding alternatives add_collateral_alternative add_liquidity_alternative borrow_alternative
    claim_protocol_fees_alternative flashloan_alternative init_futarchy_authority_alternative
    initialize_alternative liquidate_alternative remove_collateral_alternative
    remove_liquidity_alternative repay_alternative set_global_reduce_only_alternative
    set_pair_reduce_only_alternative swap_alternative update_futarchy_authority_alternative
    update_protocol_revenue_alternative update_revenue_recipients_alternative
    view_pair_data_alternative view_user_position_data_alternative
    adjust_collateral_event_alternative adjust_debt_event_alternative
    adjust_liquidity_event_alternative burn_event_alternative claim_protocol_fees_event_alternative
    flashloan_event_alternative mint_event_alternative pair_created_event_alternative
    swap_event_alternative update_pair_event_alternative
    user_liquidity_position_updated_event_alternative user_position_created_event_alternative
    user_position_liquidated_event_alternative user_position_updated_event_alternative
alternatives-exclusive borsh = refl

-- Data that begins with the discriminator of one of the types is decoded as that type and no other,
-- whatever the order of the tests: the result is what the type's reader takes from the bytes that
-- follow, with the program and the accounts of the instruction, and nothing when the reader fails.
pub decode_instruction-dispatch :
    (borsh : Borsh) (i : ℕ) (a : Alternative OmnipairInstruction)
    → get_elem? (alternatives borsh) i ≡ some a
    → (ix : Instruction) (rest : List ℕ) → ix.bytes ≡ a.discriminator ++ rest
    → decode_instruction borsh ix ≡ delivered ix (content_of a rest)
unfolding decode_instruction
decode_instruction-dispatch borsh i a found ix rest e =
    try_decode-finds (alternatives borsh) i a ix rest (alternatives-exclusive borsh) found e
