-- ===== src/Decoder/Alternatives/Genuine.antt =====
-- What a decoded instruction comes from.
use omnipair_indexer.Base.{
  ℕ, suc, true, Option, none, some, List, [], ◌∷◌, ◌++◌, ◌≡◌, refl, sym, ap, ◌∙◌, length, take,
  drop, get_elem?, ltb, arith, inl, inr, Bool-cases, Option-cases,
}
use mathlib.Core.Option.{some-injective, none-ne-some}
use mathlib.Core.Option
use omnipair_indexer.Solana.{Pubkey, Instruction}
use omnipair_indexer.Pipes.{DecodedInstruction}
use omnipair_indexer.Borsh.{Borsh}
use omnipair_indexer.Decoder.{
  Alternative, same_bytes, deserialize, decode_as, try_decode_instructions,
}
use omnipair_indexer.Decoder.Instructions.{OmnipairInstruction}
use omnipair_indexer.Decoder.Alternatives.{alternatives, decode_instruction}
use omnipair_indexer.Decoder.Alternatives.Dispatch.{content_of, decode_as-own}

same_bytes_sound :
    (xs d : List ℕ) → same_bytes (take (length d) xs) d ≡ true → xs ≡ d ++ drop (length d) xs
same_bytes_sound xs [] h = refl
same_bytes_sound [] (y ∷ d) h = ground arith
same_bytes_sound (x ∷ xs) (y ∷ d) h = grind (arith, same_bytes_sound xs d)

not_both : {V : Type 0} (o : Option V) (v : V) → o ≡ none → o ≡ some v → ⊥
not_both o v p q = none-ne-some v (sym p ∙ q)

decode_as_sound :
    {V : Type 0} (a : Alternative V) (bytes : List ℕ) (v : V)
    → decode_as a bytes ≡ some v
    → (rest : List ℕ) × (bytes ≡ a.discriminator ++ rest) × (content_of a rest ≡ some v)
unfolding decode_as deserialize
decode_as_sound a bytes v h =
    let n = length a.discriminator in
    elim (Bool-cases (ltb (length bytes) n)) [
      | inl short ↦ absurd (not_both (decode_as a bytes) v (rw (decode_as, deserialize, short)) h)
      | inr long ↦ elim (Bool-cases (same_bytes (take n bytes) a.discriminator)) [
        | inl same ↦
            let e = same_bytes_sound bytes a.discriminator same in
            (drop n bytes, e, sym (decode_as-own a (drop n bytes)) ∙ sym (ap (decode_as a) e) ∙ h)
        | inr other ↦
            absurd (not_both (decode_as a bytes) v (rw (decode_as, deserialize, long, other)) h)
      ]
    ]

-- Where the decoded instruction comes from.
abbrev pub IsFrom :
    {V : Type 0} → List (Alternative V) → Instruction → DecodedInstruction V → Type 1
IsFrom {V} alternatives ix d =
    (i : ℕ) × (a : Alternative V) × (rest : List ℕ) × (get_elem? alternatives i ≡ some a)
    × (ix.bytes ≡ a.discriminator ++ rest)
    × (content_of a rest ≡ some d.content)
    × (d.program_id ≡ ix.program_id)
    × (d.accounts ≡ ix.accounts)

try_decode_sound :
    {V : Type 0} (alternatives : List (Alternative V)) (ix : Instruction) (d : DecodedInstruction V)
    → try_decode_instructions alternatives ix ≡ some d
    → IsFrom alternatives ix d
unfolding try_decode_instructions
try_decode_sound [] ix d h = ground arith
try_decode_sound (a ∷ others) ix d h = elim (Option-cases (decode_as a ix.bytes)) [
  | inl fails ↦
      let (i, b, rest, found, starts, value, program, accounts) =
        try_decode_sound others ix d (sym (rw (try_decode_instructions, fails)) ∙ h) in
      (suc i, b, rest, found, starts, value, program, accounts)
  | inr (content, reads) ↦
      let (rest, starts, value) = decode_as_sound a ix.bytes content reads in
      let same = some-injective _ d (sym (rw (try_decode_instructions, reads)) ∙ h) in
      (
        0,
        a,
        rest,
        refl,
        starts,
        value ∙ ap (λ d. some d.content) same,
        sym (ap (λ d. d.program_id) same),
        sym (ap (λ d. d.accounts) same),
      )
]

-- The same decoded instruction of another program.
abbrev pub addressed : {V : Type 0} → Pubkey → DecodedInstruction V → DecodedInstruction V
addressed program d = record { program_id = program; content = d.content; accounts = d.accounts }

try_decode-any_program :
    {V : Type 0} (others : List (Alternative V)) (ix : Instruction) (program : Pubkey)
    → try_decode_instructions others
        (record { program_id = program; accounts = ix.accounts; bytes = ix.bytes })
      ≡ Option.map (addressed program) (try_decode_instructions others ix)
unfolding try_decode_instructions
try_decode-any_program [] ix program = refl
try_decode-any_program (a ∷ others) ix program = elim (Option-cases (decode_as a ix.bytes)) [
  | inl fails ↦ rw (try_decode_instructions, fails, try_decode-any_program others ix program)
  | inr (content, reads) ↦ rw (try_decode_instructions, reads)
]

-- A decoded instruction has the program and the accounts of the instruction, and its data begins with
-- the discriminator of one of the types, whose reader takes the content from the bytes that follow.
pub decode_instruction-genuine :
    (borsh : Borsh) (ix : Instruction) (d : DecodedInstruction OmnipairInstruction)
    → decode_instruction borsh ix ≡ some d
    → IsFrom (alternatives borsh) ix d
unfolding decode_instruction
decode_instruction-genuine borsh ix d h = try_decode_sound (alternatives borsh) ix d h

-- What an instruction is decoded to does not depend on the program it is addressed to: with another
-- program, the content and the accounts are the same.
pub decode_instruction-any_program :
    (borsh : Borsh) (ix : Instruction) (program : Pubkey)
    → decode_instruction borsh
        (record { program_id = program; accounts = ix.accounts; bytes = ix.bytes })
      ≡ Option.map (addressed program) (decode_instruction borsh ix)
unfolding decode_instruction
decode_instruction-any_program borsh ix program =
    try_decode-any_program (alternatives borsh) ix program
