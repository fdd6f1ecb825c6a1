-- ===== src/Schema/Spaced.antt =====
-- Schemas with `Any` in front of every node and no inner nodes: `match_nodes` of
-- indexer/crates/core/src/schema.rs and the order of the instructions.
use omnipair_indexer.Base.{
  Bool, true, false, some, List, [], ◌∷◌, String, ◌≡◌, ◌⊎◌, ◌↔◌, inl, inr, refl, Bool-cases,
}
use omnipair_indexer.Schema.{Collection, SchemaNodes, ParsedInstructions, Output, match_nodes}
use omnipair_indexer.Schema.Matching.{Matches, done, wild, pass, bind, free}
use omnipair_indexer.Schema.Sound.{match_nodes_sound}
use omnipair_indexer.Schema.Complete.{match_nodes_complete}

module _ {T K : Type 0} (c : Collection T K) where
  -- `Any` and a node without inner nodes, for each type with its name.
  abbrev pub spaced : List (K × String) → SchemaNodes K
  spaced [] = SchemaNodes.nil
  spaced ((t, name) ∷ ns) =
      SchemaNodes.any (SchemaNodes.instruction t name SchemaNodes.nil (spaced ns))

  -- Some instructions are of these types, in this order; any others may stand between them.
  abbrev pub Occur : List (K × String) → ParsedInstructions T → Type 0
  Occur [] is = Unit
  Occur ((t, name) ∷ ns) ParsedInstructions.nil = ⊥
  Occur ((t, name) ∷ ns) (ParsedInstructions.cons program decoded nested is) =
      ((c.same_type (c.get_type decoded.content) t ≡ true) × Occur ns is)
      ⊎ Occur ((t, name) ∷ ns) is

  -- Without the first of the types.
  Occur-rest :
      (t : K) (name : String) (ns : List (K × String)) (is : ParsedInstructions T)
      → Occur ((t, name) ∷ ns) is
      → Occur ns is
  Occur-rest t name [] is o = tt
  Occur-rest t name ((u, other) ∷ ns) ParsedInstructions.nil o = absurd o
  Occur-rest t name ((u, other) ∷ ns) (ParsedInstructions.cons program decoded nested is)
        (inl (same, o)) =
      inr o
  Occur-rest t name ((u, other) ∷ ns) (ParsedInstructions.cons program decoded nested is) (inr o) =
      inr (Occur-rest t name ((u, other) ∷ ns) is o)

  -- What follows a node that is matched.
  after :
      (ns : List (K × String)) (is : ParsedInstructions T)
      → ((t : K) (name : String) (ns : List (K × String))
          → Occur ((t, name) ∷ ns) is
          → (bs : Output T) × Matches c
              (SchemaNodes.instruction t name SchemaNodes.nil (spaced ns))
              true
              is
              bs)
      → Occur ns is
      → (bs : Output T) × Matches c (spaced ns) false is bs
  after [] is found o = ([], done)
  after ((t, name) ∷ ns) is found o = let (bs, m) = found t name ns o in (bs, wild m)

  -- The first instruction of a type will do wherever a later one does.
  Occur-Matches :
      (is : ParsedInstructions T) (t : K) (name : String) (ns : List (K × String))
      → Occur ((t, name) ∷ ns) is
      → (bs : Output T) × Matches c
          (SchemaNodes.instruction t name SchemaNodes.nil (spaced ns))
          true
          is
          bs
  Occur-Matches ParsedInstructions.nil t name ns o = absurd o
  Occur-Matches (ParsedInstructions.cons program decoded nested is) t name ns (inl (same, o)) =
      let (bs, m) = after ns is (Occur-Matches is) o in (_, bind same (free refl) m)
  Occur-Matches (ParsedInstructions.cons program decoded nested is) t name ns (inr o) =
      elim (Bool-cases (c.same_type (c.get_type decoded.content) t)) [
        | inl same ↦
            let (bs, m) = after ns is (Occur-Matches is) (Occur-rest t name ns is o) in
            (_, bind same (free refl) m)
        | inr other ↦ let (bs, m) = Occur-Matches is t name ns o in (bs, pass other m)
      ]

  -- Back from a match.
  Matches-Occur :
      (ns : List (K × String)) (passes : Bool) (is : ParsedInstructions T) (bs : Output T)
      → Matches c (spaced ns) passes is bs
      → Occur ns is
  Matches-Occur [] passes is bs m = tt
  Matches-Occur ((t, name) ∷ ns) passes ParsedInstructions.nil bs (wild m) = elim m [ ]
  Matches-Occur ((t, name) ∷ ns) passes (ParsedInstructions.cons program decoded nested is) bs
        (wild (pass other m)) =
      inr (Matches-Occur ((t, name) ∷ ns) passes is bs (wild m))
  Matches-Occur ((t, name) ∷ ns) passes (ParsedInstructions.cons program decoded nested is) bs
        (wild (bind {bs = later} same inside outside)) =
      inl (same, Matches-Occur ns false is later outside)

  -- A schema with `Any` in front of every node and no inner nodes matches exactly where instructions
  -- of the nodes' types occur in the nodes' order, with any other instructions before, between and
  -- behind them, also such as are of the types themselves.
  pub match_nodes-spaced :
      (ns : List (K × String)) (is : ParsedInstructions T)
      → Occur ns is ↔ ((out : Output T) × (match_nodes c (spaced ns) is ≡ some out))
  match_nodes-spaced ns is = (
    λ o.
        let (bs, m) = after ns is (Occur-Matches is) o in
        let (out, e, says) = match_nodes_complete c (spaced ns) is bs m in (out, e),
    λ (out, e).
        let (bs, m, says) = match_nodes_sound c (spaced ns) is out e in
        Matches-Occur ns false is bs m,
  )
