-- ===== src/Crawler.antt =====
-- The signature crawler, indexer/datasources/rpc-transaction-crawler-datasource/src/lib.rs: the
-- polling of `signature_fetcher` and the retries around every request.
pub mod Retry
pub mod History
pub mod Page
pub mod Sweep
pub mod Updates
use omnipair_indexer.Base.{
  ℕ, zero, suc, ◌+◌, min, Bool, Option, none, some, List, [], ◌∷◌, ◌++◌, leb, if◌then◌else◌, String,
}

-- `RetryConfig`; `scale` stands for `(backoff as f64 * self.backoff_multiplier) as u64`.
pub record RetryConfig : Type 0 where
  pub max_retries : ℕ
  pub initial_backoff_ms : ℕ
  pub max_backoff_ms : ℕ
  pub scale : ℕ → ℕ

-- The retry loop. `ask i` is the answer to the i-th request, none for an error; the result is what
-- comes of the loop, and how long it slept each time.
unfoldable pub retry_loop :
    {A : Type 0}
    → RetryConfig
    → (fuel : ℕ) → (retries backoff : ℕ) → (ℕ → Option A)
    → Option A × List ℕ
retry_loop c zero retries backoff ask = (none, [])
retry_loop c (suc fuel) retries backoff ask =
    let next = retry_loop c fuel (suc retries) (min (c.scale backoff) c.max_backoff_ms) ask in
    elim (ask retries) [
      | some a ↦ (some a, [])
      | none ↦ if leb c.max_retries retries then (none, []) else (next.0, backoff ∷ next.1)
    ]

-- The loop as it is started, `retries = 0`: after `max_retries + 1` requests it is over.
unfoldable pub with_retries : {A : Type 0} → RetryConfig → (ℕ → Option A) → Option A × List ℕ
unfolding retry_loop
with_retries c ask = retry_loop c (suc c.max_retries) 0 c.initial_backoff_ms ask

-- The variables of `signature_fetcher`, and what it has put on the channel.
pub record Fetcher : Type 0 where
  pub last_fetched_signature : Option String
  pub until_signature : Option String
  pub most_recent_signature : Option String
  pub sent : List String

-- What the code calls: `Signature::from_str`, and whether the channel takes a signature.
pub record Calls : Type 0 where
  pub from_str : String → Option String
  pub accepts : String → Bool

-- `signatures.last().and_then(|s| Signature::from_str(&s.signature).ok())`
unfoldable pub last_of : Calls → List String → Option String
last_of c [] = none
last_of c (s ∷ []) = c.from_str s
last_of c (s ∷ (t ∷ rest)) = last_of c (t ∷ rest)

-- `for sig_info in signatures.iter()`
unfoldable pub send_all : Calls → List String → List String
send_all c [] = []
send_all c (s ∷ rest) =
    let more = send_all c rest in
    elim (c.from_str s) [ none ↦ more | some sig ↦ if c.accepts sig then sig ∷ more else [] ]

-- `if most_recent_signature.is_none()`
unfoldable pub newest : Calls → String → Option String → Option String
newest c first none = c.from_str first
newest c first (some sig) = some sig

-- `if most_recent_signature.is_some()` when no signature is left.
unfoldable pub restart : Fetcher → Fetcher
restart f = elim f.most_recent_signature [
  | none ↦ record f { last_fetched_signature = none }
  | some sig ↦ record f {
    last_fetched_signature = none;
    until_signature = some sig;
    most_recent_signature = none;
  }
]

-- The branch `Ok(signatures)`.
unfoldable pub on_signatures : Calls → List String → Fetcher → Fetcher
unfolding last_of send_all newest restart
on_signatures c [] f = restart f
on_signatures c (s ∷ rest) f = record f {
  most_recent_signature = newest c s f.most_recent_signature;
  sent = f.sent ++ send_all c (s ∷ rest);
  last_fetched_signature = last_of c (s ∷ rest);
}

-- One turn of the outer loop: `fetch before until` is what comes of the request with its retries.
unfoldable pub poll :
    Calls → (Option String → Option String → Option (List String)) → Fetcher → Fetcher
unfolding on_signatures
poll c fetch f = elim (fetch f.last_fetched_signature f.until_signature) [
  | none ↦ f
  | some signatures ↦ on_signatures c signatures f
]

unfoldable pub polls :
    Calls → (Option String → Option String → Option (List String)) → ℕ → Fetcher → Fetcher
polls c fetch zero f = f
polls c fetch (suc n) f = polls c fetch n (poll c fetch f)
