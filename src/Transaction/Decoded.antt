-- ===== src/Transaction/Decoded.antt =====
-- Which decoded instructions a transaction pipe hands to its processor.
use omnipair_indexer.Base.{
  ℕ, suc, ◌+◌, ◌%◌, ◌^◌, none, some, List, [], ◌∷◌, ◌++◌, map, ◌≡◌, ◌∙◌, refl, ap, sym, arith,
}
use mathlib.Core.List.{map-append, append_assoc}
use omnipair_indexer.Instruction.{
  TransactionMetadata, InstructionMetadata, NestedInstructions, nil, cons, Entry, preorder,
}
use omnipair_indexer.Pipes.{DecodedInstruction}
use omnipair_indexer.Schema.{Collection, ParsedInstructions}
use omnipair_indexer.Transaction.{
  extend, parse_instructions, unnest_from, unnest_parsed_instructions,
}

module _ {T K : Type 0} (c : Collection T K) where
  -- The instructions that can be parsed, each parsed by itself.
  abbrev pub decoded : List Entry → List (DecodedInstruction T)
  decoded [] = []
  decoded ((m, ix) ∷ es) = elim (c.parse_instruction ix) [
    | none ↦ decoded es
    | some d ↦ d ∷ decoded es
  ]

  decoded-append : (es fs : List Entry) → decoded (es ++ fs) ≡ decoded es ++ decoded fs
  decoded-append [] fs = refl
  decoded-append ((m, ix) ∷ es) fs = ground (arith, decoded-append es fs)

-- The parsed instructions, each before those inside it.
abbrev pub flat : {T : Type 0} → ParsedInstructions T → List (DecodedInstruction T)
flat ParsedInstructions.nil = []
flat (ParsedInstructions.cons program d inner rest) = d ∷ (flat inner ++ flat rest)

flat-extend : {T : Type 0} (xs ys : ParsedInstructions T) → flat (extend xs ys) ≡ flat xs ++ flat ys
unfolding extend
flat-extend ParsedInstructions.nil ys = refl
flat-extend (ParsedInstructions.cons program d inner rest) ys =
    ap (λ r. d ∷ r)
      (ap (λ r. flat inner ++ r) (flat-extend rest ys)
        ∙ sym (append_assoc (flat inner) (flat rest) (flat ys)))

module _ {T K : Type 0} (c : Collection T K) where
  flat-parse : (t : NestedInstructions) → flat (parse_instructions c t) ≡ decoded c (preorder t)
  unfolding parse_instructions
  flat-parse nil = refl
  flat-parse (cons (m, ix) inner rest) = ground (
    arith,
    flat-extend (parse_instructions c inner) (parse_instructions c rest),
    decoded-append c (preorder inner) (preorder rest),
    flat-parse inner,
    flat-parse rest,
  )

flat-unnest :
    {T : Type 0} (tm : TransactionMetadata) (i h : ℕ) (is : ParsedInstructions T)
    → map (λ (x : InstructionMetadata × DecodedInstruction T). x.1) (unnest_from tm i is h)
      ≡ flat is
unfolding unnest_from
flat-unnest tm i h ParsedInstructions.nil = refl
flat-unnest tm i h (ParsedInstructions.cons program d inner rest) =
    simp (map-append, flat-unnest tm 0 ((h + 1) % 2 ^ 32) inner, flat-unnest tm (suc i) h rest)

-- Unnesting what was parsed of a hierarchy gives the instructions that can be parsed, in the order
-- of their calls, whatever the stack height it starts at.
pub unnest-parse :
    {T K : Type 0} (c : Collection T K) (tm : TransactionMetadata) (h : ℕ) (t : NestedInstructions)
    → map
        (λ (x : InstructionMetadata × DecodedInstruction T). x.1)
        (unnest_parsed_instructions tm (parse_instructions c t) h)
      ≡ decoded c (preorder t)
unfolding unnest_parsed_instructions
unnest-parse c tm h t = flat-unnest tm 0 h (parse_instructions c t) ∙ flat-parse c t
