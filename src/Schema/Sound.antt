-- ===== src/Schema/Sound.antt =====
-- From what `match_nodes` of indexer/crates/core/src/schema.rs returns to a match.
use omnipair_indexer.Base.{
  Bool, true, false, Option, some, List, [], ◌∷◌, ◌++◌, String, ◌≡◌, ◌∙◌, inl, inr, arith,
  Option-cases, Bool-cases,
}
use omnipair_indexer.Solana.{Pubkey, AccountMeta}
use omnipair_indexer.Pipes.{DecodedInstruction}
use omnipair_indexer.Dictionary.{lookup, insert, merge}
use omnipair_indexer.Schema.{
  Collection, SchemaNodes, ParsedInstructions, Output, is_empty, scan, match_loop, match_nodes,
}
use omnipair_indexer.Schema.Matching.{
  Matches, Nested, done, wild, pass, bind, free, fixed, last_binding, first_some-none, Extends,
  Extends-bind,
}

module _ {T K : Type 0} (c : Collection T K) where
  Sound : SchemaNodes K → Bool → ParsedInstructions T → Output T → Output T → Type 0
  Sound nodes passes is start out =
      (bs : Output T) × Matches c nodes passes is bs × Extends c start bs out

  module _ (t : K) (name : String) (inner rest : SchemaNodes K)
      (nested : ParsedInstructions T → Option (Output T))
      (go_on : ParsedInstructions T → Output T → Option (Output T))
      (ihn : (is : ParsedInstructions T) (found : Output T)
        → nested is ≡ some found
        → (xs : Output T) × Nested c inner is xs
          × ((k : String) → lookup k found ≡ last_binding k xs))
      (ihr : (is : ParsedInstructions T) (start out : Output T)
        → go_on is start ≡ some out
        → Sound rest false is start out) where
    bind-Sound :
        (passes : Bool) (program : Pubkey) (decoded : DecodedInstruction T)
        (is later : ParsedInstructions T) (start out : Output T)
        → c.same_type (c.get_type decoded.content) t ≡ true
        → scan c t name nested go_on passes (ParsedInstructions.cons program decoded is later) start
          ≡ some out
        → Sound
            (SchemaNodes.instruction t name inner rest)
            passes
            (ParsedInstructions.cons program decoded is later)
            start
            out
    unfolding scan Sound
    bind-Sound passes program decoded is later start out same h = elim (Option-cases (nested is)) [
      | inl failed ↦ ground (arith, same, failed, h)
      | inr (found, matched) ↦
          let v : T × List AccountMeta = (decoded.content, decoded.accounts) in
          let (xs, inside, says) = ihn is found matched in
          let next : go_on later (merge (insert name v start) found) ≡ some out =
            ground (arith, same, matched, h) in
          let (bs, outside, extends) = ihr later (merge (insert name v start) found) out next in
          (
            (name, v) ∷ (xs ++ bs),
            bind same inside outside,
            Extends-bind c start found out xs bs name v says extends,
          )
    ]

    scan-Sound :
        (passes : Bool) (is : ParsedInstructions T) (start out : Output T)
        → scan c t name nested go_on passes is start ≡ some out
        → Sound (SchemaNodes.instruction t name inner rest) passes is start out
    unfolding scan Sound
    scan-Sound passes ParsedInstructions.nil start out h = cc
    scan-Sound false (ParsedInstructions.cons program decoded is later) start out h =
        elim (Bool-cases (c.same_type (c.get_type decoded.content) t)) [
          | inl same ↦ bind-Sound false program decoded is later start out same h
          | inr other ↦ ground (arith, other, h)
        ]
    scan-Sound true (ParsedInstructions.cons program decoded is later) start out h =
        elim (Bool-cases (c.same_type (c.get_type decoded.content) t)) [
          | inl same ↦ bind-Sound true program decoded is later start out same h
          | inr other ↦
              let (bs, found, extends) =
                scan-Sound true later start out (ground (arith, other, h)) in
              (bs, pass other found, extends)
        ]

  match_loop-Sound :
      (nodes : SchemaNodes K) (passes : Bool) (is : ParsedInstructions T) (start out : Output T)
      → match_loop c nodes passes is start ≡ some out
      → Sound nodes passes is start out
  unfolding match_loop Sound lookup
  match_loop-Sound SchemaNodes.nil passes is start out h = ([], done, λ k. ground (arith, h))
  match_loop-Sound (SchemaNodes.any rest) passes is start out h =
      let (bs, found, extends) = match_loop-Sound rest true is start out h in
      (bs, wild found, extends)
  match_loop-Sound (SchemaNodes.instruction t name inner rest) passes is start out h =
      scan-Sound t name inner rest
        (λ nested. elim (is_empty inner) [
          | true ↦ some []
          | false ↦ match_loop c inner false nested []
        ])
        (λ later found. match_loop c rest false later found)
        (λ nested found e. elim (Bool-cases (is_empty inner)) [
          | inl empty ↦ ([], free empty, λ k. ground (arith, e, empty))
          | inr full ↦
              let (xs, m, extends) =
                match_loop-Sound inner false nested [] found (ground (arith, e, full)) in
              (xs, fixed full m, λ k. extends k ∙ first_some-none (last_binding k xs))
        ])
        (λ later begin end e. match_loop-Sound rest false later begin end e) passes is start out h

  -- Where `match_nodes` returns a map, the instructions match the schema, and the map says of each
  -- name what it is bound to last.
  pub match_nodes_sound :
      (nodes : SchemaNodes K) (is : ParsedInstructions T) (out : Output T)
      → match_nodes c nodes is ≡ some out
      → (bs : Output T) × Matches c nodes false is bs
        × ((k : String) → lookup k out ≡ last_binding k bs)
  unfolding match_nodes Sound lookup
  match_nodes_sound nodes is out h =
      let (bs, m, extends) = match_loop-Sound nodes false is [] out h in
      (bs, m, λ k. extends k ∙ first_some-none (last_binding k bs))
