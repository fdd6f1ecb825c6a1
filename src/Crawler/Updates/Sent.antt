-- ===== src/Crawler/Updates/Sent.antt =====
-- Which updates the crawler's last task sends, and in what order.
use omnipair_indexer.Base.{
  Bool, true, false, Option, List, [], ◌∷◌, ◌≡◌, inl, inr, Option-cases, Bool-cases,
}
use omnipair_indexer.Solana.{Pubkey, Signature}
use omnipair_indexer.Datasource.{TransactionUpdate}
use omnipair_indexer.Crawler.Updates.{Fetched, Parsing, update_of, task_processor}
use omnipair_indexer.Crawler.Updates.Wanted.{IsWanted, update_of_iff, not_both}

module _ {E : Type 0} (c : Parsing E) (accounts : Option (List Pubkey))
    (sends : TransactionUpdate → Bool) where
  -- What is sent for the transactions received: nothing for one that is not wanted or whose update the
  -- channel does not take, and else its update, in the order in which they were received.
  pub data Sends : List (Signature × Fetched E) → List TransactionUpdate → Type 0 where
    done : Sends [] []
    skip :
        {signature : Signature} {fetched : Fetched E} {received : List (Signature × Fetched E)}
        {sent : List TransactionUpdate}
        → ((update : TransactionUpdate) → IsWanted c accounts signature fetched update → ⊥)
        → Sends received sent
        → Sends ((signature, fetched) ∷ received) sent
    lost :
        {signature : Signature} {fetched : Fetched E} {received : List (Signature × Fetched E)}
        {sent : List TransactionUpdate} {update : TransactionUpdate}
        → IsWanted c accounts signature fetched update
        → sends update ≡ false
        → Sends received sent
        → Sends ((signature, fetched) ∷ received) sent
    send :
        {signature : Signature} {fetched : Fetched E} {received : List (Signature × Fetched E)}
        {sent : List TransactionUpdate} {update : TransactionUpdate}
        → IsWanted c accounts signature fetched update
        → sends update ≡ true
        → Sends received sent
        → Sends ((signature, fetched) ∷ received) (update ∷ sent)

  -- The crawler's last task sends, for the transactions that it receives and in their order, an update
  -- of each that has metadata, did not fail, can be decoded and touches one of the accounts that are
  -- asked for, if any are, unless the channel does not take the update, and nothing else; the update
  -- carries the transaction's message, metadata, slot and time.
  pub task_processor-Sends :
      (received : List (Signature × Fetched E))
      → Sends received (task_processor c accounts sends received)
  unfolding task_processor
  task_processor-Sends [] = done
  task_processor-Sends ((signature, fetched) ∷ received) =
      let rest = task_processor-Sends received in
      elim (Option-cases (update_of c accounts (signature, fetched))) [
        | inl absent ↦
            rw (task_processor, absent)
              (skip
                (λ update wanted.
                  not_both c (update_of c accounts (signature, fetched)) update absent
                    ((update_of_iff c accounts signature fetched update).1 wanted))
                rest)
        | inr (update, made) ↦
            let wanted = (update_of_iff c accounts signature fetched update).0 made in
            elim (Bool-cases (sends update)) [
              | inl takes ↦ rw (task_processor, made, takes) (send wanted takes rest)
              | inr full ↦ rw (task_processor, made, full) (lost wanted full rest)
            ]
      ]
