-- ===== src/Examples/Crawls.antt =====
-- The crawler on a concrete history, and its retries.
use omnipair_indexer.Base.{
  ℕ, List, [], ◌∷◌, ◌≡◌, ◌≤◌, ◌*◌, String, Option, none, some, refl, true, ltb, arith, take, length,
  All, if◌then◌else◌,
}
use omnipair_indexer.Crawler.{Calls, polls, RetryConfig, with_retries}
use omnipair_indexer.Crawler.History.{older_than, newer_than}
use omnipair_indexer.Crawler.Sweep.{swept, polls-sweep}
use omnipair_indexer.Crawler.Retry.{
  with_retries-answered, with_retries-failed, with_retries-bounded,
}

abbrev history : List String
history = "d" ∷ "c" ∷ "b" ∷ "a" ∷ []

abbrev calls : Calls
calls = record { from_str = λ s. some s; accepts = λ _. true }

-- A server with pages of two signatures.
abbrev server : Option String → Option String → Option (List String)
server before until = some (take 2 (newer_than until (older_than before history)))

polls-sweep_example :
    polls calls server 4 (swept [] (some "a") [])
    ≡ swept ("d" ∷ "c" ∷ "b" ∷ []) (some "a") ("d" ∷ "c" ∷ "b" ∷ [])
unfolding newer_than
polls-sweep_example =
    polls-sweep calls server 1 history (λ before until. refl) (refl, (refl, (refl, (refl, tt))))
      (refl, (refl, (refl, (refl, tt)))) (λ _. refl) (some "a") [] 4 (omega arith)

abbrev config : RetryConfig
config = record {
  max_retries = 3;
  initial_backoff_ms = 100;
  max_backoff_ms = 250;
  scale = λ b. b * 2;
}

-- The third request is answered.
abbrev third : ℕ → Option ℕ
third i = if ltb i 2 then none else some 7

abbrev never : ℕ → Option ℕ
never i = none

with_retries-answered_example :
    ((with_retries config third).0 ≡ some 7) × (length (with_retries config third).1 ≡ 2)
with_retries-answered_example =
    with_retries-answered config third 2 7 (omega arith) (λ j low high. ground arith) refl

with_retries-failed_example :
    ((with_retries config never).0 ≡ none) × (length (with_retries config never).1 ≡ 3)
with_retries-failed_example = with_retries-failed config never (λ j low high. refl)

with_retries-bounded_example : All (λ d. d ≤ 250) (with_retries config never).1
with_retries-bounded_example = with_retries-bounded config never 250 (omega arith) (omega arith)
