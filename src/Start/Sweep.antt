-- ===== src/Start/Sweep.antt =====
-- What a crawler that starts at a block sends in its first sweep.
use text.Mathlib.Text.{◌==◌ as str_eq}
use text.Mathlib.TextEquality.{eq_iff}
use omnipair_indexer.Base.{
  ℕ, suc, ◌≤◌, ◌<◌, ◌*◌, true, Option, none, some, List, [], ◌∷◌, ◌++◌, map, length, any, All,
  String, ◌≡◌, ◌∙◌, refl, ap, arith,
}
use omnipair_indexer.Crawler.{Calls, polls}
use omnipair_indexer.Crawler.History.{newer_than}
use omnipair_indexer.Crawler.History as History
use omnipair_indexer.Crawler.Sweep.{Serves, swept, polls-sweep}
use omnipair_indexer.Start.{SignatureInfo, Rpc, search_loop, until_signature, get_slot_for_block}
use omnipair_indexer.Start.Search.{find-found, search_loop-missed}
use omnipair_indexer.Start.Page.{IsDistinct, IsAbove, ServesBefore, older, any-middle}

abbrev pub names : List SignatureInfo → List String
names h = map (λ (x : SignatureInfo). x.signature) h

length-names : (h : List SignatureInfo) → length (names h) ≡ length h
length-names [] = refl
length-names (x ∷ h) = ap suc (length-names h)

any-names :
    (s : String) (h : List SignatureInfo)
    → any (str_eq s) (names h) ≡ any (λ (y : SignatureInfo). str_eq s y.signature) h
any-names s [] = refl
any-names s (x ∷ h) = ground (arith, any-names s h)

names-IsDistinct : (h : List SignatureInfo) → IsDistinct h → History.IsDistinct (names h)
names-IsDistinct [] d = tt
names-IsDistinct (x ∷ h) d = (any-names x.signature h ∙ d.0, names-IsDistinct h d.1)

newer_than-names :
    (front : List SignatureInfo) (x : SignatureInfo) (back : List SignatureInfo)
    → IsDistinct (front ++ x ∷ back)
    → newer_than (some x.signature) (names (front ++ x ∷ back)) ≡ names front
unfolding newer_than
newer_than-names [] x back d = ground (arith, eq_iff x.signature x.signature)
newer_than-names (y ∷ front) x back d = ground (
  arith,
  any-middle (λ (z : SignatureInfo). str_eq y.signature z.signature) front x back d.0,
  newer_than-names front x back d.1,
)

until_signature-found :
    (r : Rpc) (block : ℕ) (front : List SignatureInfo) (x : SignatureInfo)
    (back : List SignatureInfo)
    → ServesBefore r 1000 (front ++ x ∷ back)
    → IsDistinct (front ++ x ∷ back)
    → All (λ (y : SignatureInfo). r.parse y.signature ≡ some y.signature) (front ++ x ∷ back)
    → All (IsAbove block) front
    → x.slot ≤ block
    → length front < 10000
    → r.has_block block ≡ true
    → 0 < block
    → until_signature r (some block) ≡ some x.signature
unfolding until_signature get_slot_for_block
until_signature-found r block front x back serves distinct valid above at room has pos =
    ground (arith, has, pos, find-found r block front x back serves distinct valid above at room)

-- A history that stands still, newest first, of distinct signatures that can be parsed, served to the
-- search and to the crawler, whose channel takes them.
pub record IsServed (limit : ℕ) (r : Rpc) (c : Calls)
    (fetch : Option String → Option String → Option (List String)) (page : ℕ)
    (h : List SignatureInfo) : Type 0 where
  pub searched : ServesBefore r (suc limit) h
  pub serves : Serves fetch (suc page) (names h)
  pub distinct : IsDistinct h
  pub parsed : All (λ (y : SignatureInfo). r.parse y.signature ≡ some y.signature) h
  pub valid : All (λ (s : String). c.from_str s ≡ some s) (names h)
  pub accepts : (s : String) → c.accepts s ≡ true

module _ (r : Rpc) (c : Calls) (fetch : Option String → Option String → Option (List String))
    (page : ℕ) where
  sweep_until :
      (limit : ℕ) (h : List SignatureInfo) (until : Option String) (found : List String) (n : ℕ)
      → IsServed limit r c fetch page h
      → newer_than until (names h) ≡ found
      → length found < n
      → polls c fetch n (swept [] until []) ≡ swept found until found
  sweep_until limit h until found n s is room =
      polls-sweep c fetch page (names h) s.serves (names-IsDistinct h s.distinct) s.valid s.accepts
        until [] n (omega (arith, room, ap length is))
      ∙ ap (λ f. swept f until f) is

  -- Let a crawler be created for a block of the chain other than 0, fewer than 10000 signatures be
  -- above it, and the newest that is not above it be `x`. Then its first sweep sends exactly the
  -- signatures above the block, newest first; the crawler polls more times than there are such.
  pub polls-until_signature :
      (block n : ℕ) (front : List SignatureInfo) (x : SignatureInfo) (back : List SignatureInfo)
      → IsServed 999 r c fetch page (front ++ x ∷ back)
      → r.has_block block ≡ true
      → 0 < block
      → All (IsAbove block) front
      → x.slot ≤ block
      → length front < 10000
      → length front < n
      → polls c fetch n (swept [] (until_signature r (some block)) [])
        ≡ swept (names front) (some x.signature) (names front)
  polls-until_signature block n front x back s has pos above at reach room =
      ap (λ u. polls c fetch n (swept [] u []))
        (until_signature-found r block front x back s.searched s.distinct s.parsed above at reach
          has pos)
      ∙ sweep_until 999 (front ++ x ∷ back) (some x.signature) (names front) n s
          (newer_than-names front x back s.distinct) (omega (arith, room, length-names front))

  -- The search looks at a number of pages of a positive size. If so many signatures are above the
  -- block, it finds none, and the first sweep of a crawler that is created so sends the whole history.
  pub polls-out_of_reach :
      (limit attempts block n : ℕ) (seen rest : List SignatureInfo)
      → IsServed limit r c fetch page (seen ++ rest)
      → All (IsAbove block) seen
      → attempts * suc limit ≤ length seen
      → length (seen ++ rest) < n
      → polls c fetch n (swept [] (search_loop r (suc limit) block attempts none) [])
        ≡ swept (names (seen ++ rest)) none (names (seen ++ rest))
  unfolding newer_than older
  polls-out_of_reach limit attempts block n seen rest s above many room =
      ap (λ u. polls c fetch n (swept [] u []))
        (search_loop-missed r limit block (seen ++ rest) s.searched s.distinct s.parsed attempts
          none seen rest ([], refl, refl) above many)
      ∙ sweep_until limit (seen ++ rest) none (names (seen ++ rest)) n s refl
          (omega (arith, room, length-names (seen ++ rest)))
