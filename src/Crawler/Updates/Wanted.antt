-- ===== src/Crawler/Updates/Wanted.antt =====
-- Which transactions the crawler hands to the pipeline.
use omnipair_indexer.Base.{
  Bool, true, false, Option, none, some, List, [], ◌∷◌, ◌≡◌, refl, sym, ◌∙◌, ap, any, ==_iff, ◌↔◌,
  ◌⊎◌, arith, inl, inr, Option-cases, Bool-cases,
}
use mathlib.Core.Path.{subst}
use mathlib.Core.Option.{some-injective, none-ne-some}
use omnipair_indexer.Solana.{Pubkey, Signature, VersionedMessage}
use omnipair_indexer.Datasource.{TransactionUpdate}
use omnipair_indexer.Crawler.Updates.{
  Fetched, Parsing, UiTransactionStatusMeta, all_accounts, passes, update_of,
  transaction_metadata_from_original_meta,
}

abbrev pub Among : Pubkey → List Pubkey → Type 0
Among x [] = ⊥
Among x (y ∷ ys) = (x ≡ y) ⊎ Among x ys

any-Among :
    (p : Pubkey → Bool) (xs : List Pubkey)
    → any p xs ≡ true
    → (x : Pubkey) × Among x xs × (p x ≡ true)
any-Among p [] h = ground arith
any-Among p (y ∷ ys) h = elim (Bool-cases (p y)) [
  | inl here ↦ (y, inl refl, here)
  | inr other ↦
      let (x, among, holds) = any-Among p ys (ground (arith, other)) in (x, inr among, holds)
]

Among-any :
    (p : Pubkey → Bool) (xs : List Pubkey) (x : Pubkey) → Among x xs → p x ≡ true → any p xs ≡ true
Among-any p [] x among h = elim among [ ]
Among-any p (y ∷ ys) x (inl e) h = rw (sym (ap p e) ∙ h)
Among-any p (y ∷ ys) x (inr among) h = ground (arith, Among-any p ys x among h)

-- One of the accounts, if any are asked for, is among those of the transaction.
abbrev pub Touches : Option (List Pubkey) → List Pubkey → Type 0
Touches none keys = Unit
Touches (some accounts) keys = (x : Pubkey) × Among x accounts × Among x keys

module _ {E : Type 0} (c : Parsing E) where
  passes-Touches :
      (accounts : Option (List Pubkey)) (message : VersionedMessage)
      (meta : UiTransactionStatusMeta)
      → (passes c accounts message meta ≡ true) ↔ Touches accounts (all_accounts c message meta)
  unfolding passes
  passes-Touches none message meta = (λ h. tt, λ h. refl)
  passes-Touches (some accounts) message meta = (
    λ h.
        let (key, among, holds) = any-Among _ (all_accounts c message meta) h in
        let (x, wanted, same) = any-Among _ accounts holds in
        (
          x,
          wanted,
          subst (λ k. Among k (all_accounts c message meta)) ((==_iff key x).0 same) among,
        ),
    λ (x, wanted, among).
        Among-any _ (all_accounts c message meta) x among
          (Among-any _ accounts x wanted ((==_iff x x).1 refl)),
  )

  -- The transaction has metadata, did not fail and can be decoded, it touches one of the accounts that
  -- are asked for, and this is the update made of it.
  abbrev pub IsWanted : Option (List Pubkey) → Signature → Fetched E → TransactionUpdate → Type 0
  IsWanted accounts signature fetched update =
      (meta : UiTransactionStatusMeta) × (message : VersionedMessage) × (fetched.meta ≡ some meta)
      × (meta.failed ≡ false)
      × (c.decode fetched.encoded ≡ some message)
      × Touches accounts (all_accounts c message meta)
      × (update ≡ record {
        signature = signature;
        message = message;
        status_meta = transaction_metadata_from_original_meta c meta;
        is_vote = false;
        slot = fetched.slot;
        block_time = fetched.block_time;
        block_hash = none;
      })

  pub not_both :
      {A : Type 0} (o : Option TransactionUpdate) (update : TransactionUpdate)
      → o ≡ none
      → o ≡ some update
      → A
  not_both o update p q = absurd (none-ne-some update (sym p ∙ q))

  update_of_sound :
      (accounts : Option (List Pubkey)) (signature : Signature) (fetched : Fetched E)
      (update : TransactionUpdate)
      → update_of c accounts (signature, fetched) ≡ some update
      → IsWanted accounts signature fetched update
  unfolding update_of
  update_of_sound accounts signature fetched update h =
      let result = update_of c accounts (signature, fetched) in
      elim (Option-cases fetched.meta) [
        | inl absent ↦ not_both result update (rw (update_of, absent)) h
        | inr (meta, has) ↦ elim (Bool-cases meta.failed) [
          | inl failed ↦ not_both result update (rw (update_of, has, failed)) h
          | inr fine ↦ elim (Option-cases (c.decode fetched.encoded)) [
            | inl broken ↦ not_both result update (rw (update_of, has, fine, broken)) h
            | inr (message, decoded) ↦ elim (Bool-cases (passes c accounts message meta)) [
              | inr other ↦ not_both result update (rw (update_of, has, fine, decoded, other)) h
              | inl pass ↦ (
                meta,
                message,
                has,
                fine,
                decoded,
                (passes-Touches accounts message meta).0 pass,
                some-injective update _ (sym h ∙ rw (update_of, has, fine, decoded, pass)),
              )
            ]
          ]
        ]
      ]

  -- The crawler makes an update of a fetched transaction just if it has metadata, did not fail, can be
  -- decoded and touches one of the accounts that are asked for, if any are; the update carries the
  -- transaction's message, metadata, slot and time.
  pub update_of_iff :
      (accounts : Option (List Pubkey)) (signature : Signature) (fetched : Fetched E)
      (update : TransactionUpdate)
      → (update_of c accounts (signature, fetched) ≡ some update)
        ↔ IsWanted accounts signature fetched update
  unfolding update_of
  update_of_iff accounts signature fetched update = (
    update_of_sound accounts signature fetched update,
    λ (meta, message, has, fine, decoded, touches, e).
        rw (update_of, has, fine, decoded, (passes-Touches accounts message meta).1 touches)
          (ap (λ u. some u) (sym e)),
  )
