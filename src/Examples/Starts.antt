-- ===== src/Examples/Starts.antt =====
-- Crawlers that start at a block of a concrete history.
use omnipair_indexer.Base.{
  ℕ, List, [], ◌∷◌, ◌≡◌, ◌++◌, String, Option, none, some, refl, true, arith, take,
}
use omnipair_indexer.Crawler.{Calls, polls}
use omnipair_indexer.Crawler.History.{older_than, newer_than}
use omnipair_indexer.Crawler.Sweep.{swept}
use omnipair_indexer.Start.{
  SignatureInfo, Rpc, find_signature_at_slot, search_loop, until_signature,
}
use omnipair_indexer.Start.Search.{find-found}
use omnipair_indexer.Start.Page.{older}
use omnipair_indexer.Start.Sweep.{names, IsServed, polls-until_signature, polls-out_of_reach}

abbrev info : String → ℕ → SignatureInfo
info s n = record { signature = s; slot = n }

abbrev recent : List SignatureInfo
recent = info "d" 9 ∷ info "c" 7 ∷ []

abbrev early : List SignatureInfo
early = info "a" 3 ∷ []

abbrev history : List SignatureInfo
history = recent ++ info "b" 5 ∷ early

abbrev rpc : Rpc
rpc = record {
  parse = λ s. some s;
  signatures_before = λ limit before. some (take limit (older before history));
  has_block = λ n. true;
}

abbrev calls : Calls
calls = record { from_str = λ s. some s; accepts = λ _. true }

abbrev server : Option String → Option String → Option (List String)
server before until = some (take 2 (newer_than until (older_than before (names history))))

find-found_example : find_signature_at_slot rpc 6 ≡ some "b"
find-found_example =
    find-found rpc 6 recent (info "b" 5) early (λ before. refl) (refl, (refl, (refl, (refl, tt))))
      (refl, (refl, (refl, (refl, tt)))) (omega arith, (omega arith, tt)) (omega arith)
      (omega arith)

served : (limit : ℕ) → IsServed limit rpc calls server 1 history
served limit = record {
  searched = λ before. refl;
  serves = λ before until. refl;
  distinct = (refl, (refl, (refl, (refl, tt))));
  parsed = (refl, (refl, (refl, (refl, tt))));
  valid = (refl, (refl, (refl, (refl, tt))));
  accepts = λ _. refl;
}

polls-until_signature_example :
    polls calls server 3 (swept [] (until_signature rpc (some 6)) [])
    ≡ swept ("d" ∷ "c" ∷ []) (some "b") ("d" ∷ "c" ∷ [])
polls-until_signature_example =
    polls-until_signature rpc calls server 1 6 3 recent (info "b" 5) early (served 999) refl
      (omega arith) (omega arith, (omega arith, tt)) (omega arith) (omega arith) (omega arith)

-- Two attempts with pages of one signature do not reach behind the first two.
polls-out_of_reach_example :
    polls calls server 5 (swept [] (search_loop rpc 1 6 2 none) [])
    ≡ swept (names history) none (names history)
polls-out_of_reach_example =
    polls-out_of_reach rpc calls server 1 0 2 6 5 recent (info "b" 5 ∷ early) (served 0)
      (omega arith, (omega arith, tt)) (omega arith) (omega arith)
