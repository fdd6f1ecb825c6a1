-- ===== src/Crawler/Retry.antt =====
-- The retry loop around the requests of the transaction crawler.
use omnipair_indexer.Base.{
  ℕ, zero, suc, ◌+◌, ◌≤◌, ◌<◌, ◌≡◌, min, Option, none, some, inl, inr, length, All, arith, leb,
  Option-cases, Bool-cases, ap,
}
use omnipair_indexer.Crawler.{RetryConfig, retry_loop, with_retries}

module _ {A : Type 0} where
  -- No request from the `i`-th to the one before the `k`-th is answered.
  abbrev pub AllFail : (ℕ → Option A) → (i k : ℕ) → Type 0
  AllFail ask i k = (j : ℕ) → i ≤ j → j < k → ask j ≡ none

  loop-answered :
      (c : RetryConfig) (ask : ℕ → Option A) (d i k b : ℕ) (a : A)
      → i + d ≡ k
      → k ≤ c.max_retries
      → AllFail ask i k
      → ask k ≡ some a
      → (fuel : ℕ) → d < fuel
      → ((retry_loop c fuel i b ask).0 ≡ some a) × (length (retry_loop c fuel i b ask).1 ≡ d)
  unfolding retry_loop
  loop-answered c ask d i k b a at room fails answer zero h = ground arith
  loop-answered c ask zero i k b a at room fails answer (suc fuel) h =
      ground (arith, ap ask at, answer)
  loop-answered c ask (suc d) i k b a at room fails answer (suc fuel) h =
      let later =
        loop-answered c ask d (suc i) k (min (c.scale b) c.max_backoff_ms) a (omega arith) room
          (λ j low high. fails j (omega arith) high) answer fuel (omega arith) in
      ground (arith, later, fails i (omega arith) (omega arith), room, at)

  loop-failed :
      (c : RetryConfig) (ask : ℕ → Option A) (d i b : ℕ)
      → i + d ≡ c.max_retries
      → AllFail ask i (suc c.max_retries)
      → (fuel : ℕ) → d < fuel
      → ((retry_loop c fuel i b ask).0 ≡ none) × (length (retry_loop c fuel i b ask).1 ≡ d)
  unfolding retry_loop
  loop-failed c ask d i b at fails zero h = ground arith
  loop-failed c ask zero i b at fails (suc fuel) h =
      ground (arith, at, fails i (omega arith) (omega arith))
  loop-failed c ask (suc d) i b at fails (suc fuel) h =
      let later =
        loop-failed c ask d (suc i) (min (c.scale b) c.max_backoff_ms) (omega arith)
          (λ j low high. fails j (omega arith) high) fuel (omega arith) in
      ground (arith, later, fails i (omega arith) (omega arith), at)

  -- If the requests before the `k`-th fail and the `k`-th, one of the first `max_retries + 1`, is
  -- answered, then the loop returns that answer, having slept `k` times.
  pub with_retries-answered :
      (c : RetryConfig) (ask : ℕ → Option A) (k : ℕ) (a : A)
      → k ≤ c.max_retries
      → AllFail ask 0 k
      → ask k ≡ some a
      → ((with_retries c ask).0 ≡ some a) × (length (with_retries c ask).1 ≡ k)
  unfolding with_retries
  with_retries-answered c ask k a room fails answer =
      loop-answered c ask k 0 k c.initial_backoff_ms a (omega arith) room fails answer
        (suc c.max_retries) (omega arith)

  -- If the first `max_retries + 1` requests fail, then the loop gives up, having slept
  -- `max_retries` times.
  pub with_retries-failed :
      (c : RetryConfig) (ask : ℕ → Option A)
      → AllFail ask 0 (suc c.max_retries)
      → ((with_retries c ask).0 ≡ none) × (length (with_retries c ask).1 ≡ c.max_retries)
  unfolding with_retries
  with_retries-failed c ask fails =
      loop-failed c ask c.max_retries 0 c.initial_backoff_ms (omega arith) fails (suc c.max_retries)
        (omega arith)

  loop-bounded :
      (c : RetryConfig) (ask : ℕ → Option A) (bound i b : ℕ) (fuel : ℕ)
      → c.max_backoff_ms ≤ bound
      → b ≤ bound
      → All (λ d. d ≤ bound) (retry_loop c fuel i b ask).1
  unfolding retry_loop
  loop-bounded c ask bound i b zero top low = tt
  loop-bounded c ask bound i b (suc fuel) top low =
      let later =
        loop-bounded c ask bound (suc i) (min (c.scale b) c.max_backoff_ms) fuel top
          (omega arith) in
      elim (Option-cases (ask i)) [
        | inl failed ↦ elim (Bool-cases (leb c.max_retries i)) [
          | inl last ↦ rw (retry_loop, failed, last) tt
          | inr more ↦ rw (retry_loop, failed, more) (low, later)
        ]
        | inr (a, answered) ↦ rw (retry_loop, answered) tt
      ]

  -- However the requests come out, no sleep exceeds a bound that neither the initial nor the maximal
  -- backoff of the configuration exceeds.
  pub with_retries-bounded :
      (c : RetryConfig) (ask : ℕ → Option A) (bound : ℕ)
      → c.max_backoff_ms ≤ bound
      → c.initial_backoff_ms ≤ bound
      → All (λ d. d ≤ bound) (with_retries c ask).1
  unfolding with_retries
  with_retries-bounded c ask bound top low =
      loop-bounded c ask bound 0 c.initial_backoff_ms (suc c.max_retries) top low
