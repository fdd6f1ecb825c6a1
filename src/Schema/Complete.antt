-- ===== src/Schema/Complete.antt =====
-- From a match to what `match_nodes` of indexer/crates/core/src/schema.rs returns.
use omnipair_indexer.Base.{Bool, true, false, Option, some, List, [], String, ◌≡◌, ◌∙◌, refl, arith}
use omnipair_indexer.Solana.{Pubkey, AccountMeta}
use omnipair_indexer.Pipes.{DecodedInstruction}
use omnipair_indexer.Dictionary.{lookup, insert, merge}
use omnipair_indexer.Schema.{
  Collection, SchemaNodes, ParsedInstructions, Output, is_empty, scan, match_loop, match_nodes,
}
use omnipair_indexer.Schema.Matching.{
  Matches, Nested, done, wild, pass, bind, free, fixed, last_binding, first_some-none, Extends,
  Extends-bind,
}

module _ {T K : Type 0} (c : Collection T K) where
  -- Inner nodes as `match_loop` gives them to `scan`.
  abbrev nested_match : SchemaNodes K → ParsedInstructions T → Option (Output T)
  nested_match inner nested = elim (is_empty inner) [
    | true ↦ some []
    | false ↦ match_loop c inner false nested []
  ]

  scan_pass :
      (t : K) (name : String) (nested : ParsedInstructions T → Option (Output T))
      (go_on : ParsedInstructions T → Output T → Option (Output T)) (program : Pubkey)
      (decoded : DecodedInstruction T) (is later : ParsedInstructions T) (start : Output T)
      → c.same_type (c.get_type decoded.content) t ≡ false
      → scan c t name nested go_on true (ParsedInstructions.cons program decoded is later) start
        ≡ scan c t name nested go_on true later start
  unfolding scan
  scan_pass t name nested go_on program decoded is later start other = ground arith

  scan_bind :
      (t : K) (name : String) (nested : ParsedInstructions T → Option (Output T))
      (go_on : ParsedInstructions T → Output T → Option (Output T)) (passes : Bool)
      (program : Pubkey) (decoded : DecodedInstruction T) (is later : ParsedInstructions T)
      (start found : Output T)
      → c.same_type (c.get_type decoded.content) t ≡ true
      → nested is ≡ some found
      → scan c t name nested go_on passes (ParsedInstructions.cons program decoded is later) start
        ≡ go_on later (merge (insert name (decoded.content, decoded.accounts) start) found)
  unfolding scan
  scan_bind t name nested go_on passes program decoded is later start found same matched =
      ground (arith, same, matched)

  mutual
    unfolding match_loop lookup

    match_loop-Complete :
        (nodes : SchemaNodes K) (passes : Bool) (is : ParsedInstructions T) (bs start : Output T)
        → Matches c nodes passes is bs
        → (out : Output T) × (match_loop c nodes passes is start ≡ some out)
          × Extends c start bs out
    match_loop-Complete nodes passes is bs start done = (start, refl, λ k. refl)
    match_loop-Complete nodes passes is bs start (wild {rest} m) =
        match_loop-Complete rest true is bs start m
    match_loop-Complete nodes passes is bs start
          (pass {t} {name} {inner} {rest} {program} {decoded} {nested} {is = later} other m) =
        let (out, e, extends) = match_loop-Complete nodes true later bs start m in
        (
          out,
          scan_pass t name (nested_match inner) (match_loop c rest false) program decoded nested
                later start other
              ∙ e,
          extends,
        )
    match_loop-Complete nodes passes is bs start
          (bind {t} {name} {inner} {rest} {program} {decoded} {nested} {is = later} {xs}
            {bs = after} same inside outside) =
        let v : T × List AccountMeta = (decoded.content, decoded.accounts) in
        let (found, matched, says) = nested_match-Complete inner nested xs inside in
        let (out, e, extends) =
          match_loop-Complete rest false later after (merge (insert name v start) found) outside in
        (
          out,
          scan_bind t name (nested_match inner) (match_loop c rest false) passes program decoded
                nested later start found same matched
              ∙ e,
          Extends-bind c start found out xs after name v says extends,
        )

    nested_match-Complete :
        (inner : SchemaNodes K) (nested : ParsedInstructions T) (xs : Output T)
        → Nested c inner nested xs
        → (found : Output T) × (nested_match inner nested ≡ some found)
          × ((k : String) → lookup k found ≡ last_binding k xs)
    nested_match-Complete inner nested xs (free empty) = ([], ground (arith, empty), λ k. refl)
    nested_match-Complete inner nested xs (fixed full m) =
        let (found, e, extends) = match_loop-Complete inner false nested xs [] m in
        (found, ground (arith, full, e), λ k. extends k ∙ first_some-none (last_binding k xs))

  -- Where the instructions match the schema with some bindings, `match_nodes` returns a map, which
  -- says of each name what it is bound to last. In a match, `Any` passes over instructions up to the
  -- first of the next node's type and over no others.
  pub match_nodes_complete :
      (nodes : SchemaNodes K) (is : ParsedInstructions T) (bs : Output T)
      → Matches c nodes false is bs
      → (out : Output T) × (match_nodes c nodes is ≡ some out)
        × ((k : String) → lookup k out ≡ last_binding k bs)
  unfolding match_nodes lookup
  match_nodes_complete nodes is bs m =
      let (out, e, extends) = match_loop-Complete nodes false is bs [] m in
      (out, e, λ k. extends k ∙ first_some-none (last_binding k bs))
