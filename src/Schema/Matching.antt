-- ===== src/Schema/Matching.antt =====
-- What it means for instructions to match a schema.
use text.Mathlib.Text.{◌==◌ as str_eq}
use omnipair_indexer.Base.{
  Bool, true, false, Option, none, some, List, [], ◌∷◌, ◌++◌, String, ◌≡◌, ◌∙◌, refl, ap,
  if◌then◌else◌, arith,
}
use omnipair_indexer.Solana.{Pubkey, AccountMeta}
use omnipair_indexer.Pipes.{DecodedInstruction}
use omnipair_indexer.Dictionary.{lookup, insert, merge, lookup-insert, lookup-merge, first_some}
use omnipair_indexer.Schema.{Collection, SchemaNodes, ParsedInstructions, Output, is_empty}

-- What a list of bindings says of a name: the last one counts.
abbrev pub last_binding : {V : Type 0} → String → List (String × V) → Option V
last_binding k [] = none
last_binding k ((j, v) ∷ bs) = first_some (last_binding k bs) (if str_eq j k then some v else none)

pub first_some-none : {V : Type 0} (a : Option V) → first_some a none ≡ a
first_some-none none = refl
first_some-none (some v) = refl

first_some_assoc :
    {V : Type 0} (a b c : Option V) → first_some (first_some a b) c ≡ first_some a (first_some b c)
first_some_assoc none b c = refl
first_some_assoc (some v) b c = refl

last_binding-append :
    {V : Type 0} (k : String) (xs bs : List (String × V))
    → last_binding k (xs ++ bs) ≡ first_some (last_binding k bs) (last_binding k xs)
last_binding-append k [] bs = ground (arith)
last_binding-append k ((j, v) ∷ xs) bs =
    ap (λ o. first_some o (if str_eq j k then some v else none)) (last_binding-append k xs bs)
    ∙ first_some_assoc (last_binding k bs) (last_binding k xs) (if str_eq j k then some v else none)

module _ {T K : Type 0} (c : Collection T K) where
  mutual
    -- The nodes match the instructions, in front of which others may be passed over if the flag is
    -- set, and bind these names. Instructions behind the last node are not looked at.
    pub data Matches : SchemaNodes K → Bool → ParsedInstructions T → Output T → Type 0 where
      done : {passes : Bool} {is : ParsedInstructions T} → Matches SchemaNodes.nil passes is []
      wild :
          {rest : SchemaNodes K} {passes : Bool} {is : ParsedInstructions T} {bs : Output T}
          → Matches rest true is bs
          → Matches (SchemaNodes.any rest) passes is bs
      pass :
          {t : K} {name : String} {inner rest : SchemaNodes K} {program : Pubkey}
          {decoded : DecodedInstruction T} {nested is : ParsedInstructions T} {bs : Output T}
          → c.same_type (c.get_type decoded.content) t ≡ false
          → Matches (SchemaNodes.instruction t name inner rest) true is bs
          → Matches
              (SchemaNodes.instruction t name inner rest)
              true
              (ParsedInstructions.cons program decoded nested is)
              bs
      bind :
          {t : K} {name : String} {inner rest : SchemaNodes K} {passes : Bool} {program : Pubkey}
          {decoded : DecodedInstruction T} {nested is : ParsedInstructions T} {xs bs : Output T}
          → c.same_type (c.get_type decoded.content) t ≡ true
          → Nested inner nested xs
          → Matches rest false is bs
          → Matches
              (SchemaNodes.instruction t name inner rest)
              passes
              (ParsedInstructions.cons program decoded nested is)
              ((name, (decoded.content, decoded.accounts)) ∷ (xs ++ bs))

    -- Inner nodes, if there are any, match the inner instructions.
    pub data Nested : SchemaNodes K → ParsedInstructions T → Output T → Type 0 where
      free :
          {inner : SchemaNodes K} {nested : ParsedInstructions T}
          → is_empty inner ≡ true
          → Nested inner nested []
      fixed :
          {inner : SchemaNodes K} {nested : ParsedInstructions T} {xs : Output T}
          → is_empty inner ≡ false
          → Matches inner false nested xs
          → Nested inner nested xs

  -- `out` is `start` with the bindings put in.
  abbrev pub Extends : Output T → Output T → Output T → Type 0
  Extends start bs out =
      (k : String) → lookup k out ≡ first_some (last_binding k bs) (lookup k start)

  pub Extends-bind :
      (start found out xs bs : Output T) (name : String) (v : T × List AccountMeta)
      → ((k : String) → lookup k found ≡ last_binding k xs)
      → Extends (merge (insert name v start) found) bs out
      → Extends start ((name, v) ∷ (xs ++ bs)) out
  Extends-bind start found out xs bs name v inside outside k = ground (
    arith,
    inside k,
    outside k,
    lookup-merge k (insert name v start) found,
    lookup-insert name k v start,
    last_binding-append k xs bs,
  )
